-- ===== src/DataPlane/Bulk/Batches.antt =====
-- What `_batches` of src/nilscript/dataplane/bulk.py makes of a list.
use nilscript.Base.{
  ℕ, zero, suc, ◌≤◌, ◌≡◌, refl, String, List, [], ◌∷◌, ◌++◌, take, length, length-take-le, arith,
  All,
}
use nilscript.DataPlane.Bulk.{drop, batches_from, batches}

-- All the items of the batches, in order.
abbrev pub concat : List (List String) → List String
concat [] = []
concat (b ∷ bs) = b ++ concat bs

take-drop : (n : ℕ) (xs : List String) → take n xs ++ drop n xs ≡ xs
take-drop zero xs = refl
take-drop (suc n) [] = refl
take-drop (suc n) (x ∷ xs) = ground (arith, take-drop n xs)

length-drop-le : (n : ℕ) (xs : List String) → length (drop n xs) ≤ length xs
length-drop-le zero xs = omega arith
length-drop-le (suc n) [] = omega arith
length-drop-le (suc n) (x ∷ xs) = omega (arith, length-drop-le n xs)

concat-batches_from :
    (fuel size : ℕ) (xs : List String) → length xs ≤ fuel → concat (batches_from fuel size xs) ≡ xs
unfolding batches_from
concat-batches_from fuel size [] h = refl
concat-batches_from zero size (x ∷ xs) h = absurd (omega arith)
concat-batches_from (suc fuel) size (x ∷ xs) h = cc (
  concat-batches_from fuel size (drop size xs) (omega (arith, length-drop-le size xs)),
  take-drop size xs,
)

-- The batches hold the items of the list in order, each of them once.
pub concat-batches : (items : List String) (size : ℕ) → concat (batches items size) ≡ items
unfolding batches
concat-batches items size = concat-batches_from (length items) size items (omega arith)

bounded_from :
    (fuel size : ℕ) (xs : List String) → All (λ b. length b ≤ suc size) (batches_from fuel size xs)
unfolding batches_from
bounded_from fuel size [] = tt
bounded_from zero size (x ∷ xs) = tt
bounded_from (suc fuel) size (x ∷ xs) =
    (omega (arith, length-take-le size xs), bounded_from fuel size (drop size xs))

-- No batch is longer than the batch size.
pub batches-bounded :
    (items : List String) (size : ℕ) → All (λ b. length b ≤ suc size) (batches items size)
unfolding batches
batches-bounded items size = bounded_from (length items) size items
