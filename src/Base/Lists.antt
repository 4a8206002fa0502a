-- ===== src/Base/Lists.antt =====
-- Lists measured by native numbers, lists of names, and dictionaries with string keys.
use Prim.Native.Nat.{ℕ, zero, suc, ◌+◌, ◌≤◌}
use Prim.Native.String.{String}
use mathlib.Core.Path.{◌≡◌, refl}
use mathlib.Core.Bool.{Bool, true, false, ◌||◌}
use mathlib.Core.List.{List, [], ◌∷◌, ◌++◌}
use mathlib.Core.Option.{Option, none, some}
use native.Mathlib.Omega.{arith}
use text.Mathlib.Text.{◌==◌}
use text.Mathlib.TextEquality.{eq_iff}
use nilscript.Base.Tests.{if◌then◌else◌}

module _ {ℓ} {A : Type ℓ} where
  abbrev pub length : List A → ℕ
  length [] = 0
  length (x ∷ xs) = suc (length xs)

  abbrev pub take : ℕ → List A → List A
  take zero xs = []
  take (suc n) [] = []
  take (suc n) (x ∷ xs) = x ∷ take n xs

  pub length-append : (xs ys : List A) → length (xs ++ ys) ≡ length xs + length ys
  length-append [] ys = omega arith
  length-append (x ∷ xs) ys = omega (arith, length-append xs ys)

  pub length-take-le : (n : ℕ) (xs : List A) → length (take n xs) ≤ n
  length-take-le zero xs = omega arith
  length-take-le (suc n) [] = omega arith
  length-take-le (suc n) (x ∷ xs) = omega (arith, length-take-le n xs)

  -- The items that pass a test, in order: a comprehension with an `if`.
  abbrev pub keep : (A → Bool) → List A → List A
  keep p [] = []
  keep p (x ∷ xs) = if p x then x ∷ keep p xs else keep p xs

  -- Python's `any` and `all` over a computed test.
  abbrev pub any : (A → Bool) → List A → Bool
  any p [] = false
  any p (x ∷ xs) = if p x then true else any p xs

  abbrev pub all : (A → Bool) → List A → Bool
  all p [] = true
  all p (x ∷ xs) = if p x then all p xs else false

  pub length-keep-le : (p : A → Bool) (xs : List A) → length (keep p xs) ≤ length xs
  length-keep-le p [] = omega arith
  length-keep-le p (x ∷ xs) = ground (arith, length-keep-le p xs)

  -- Every item has a property.
  abbrev pub All {κ} : (A → Type κ) → List A → Type κ
  All P [] = Unit
  All P (x ∷ xs) = P x × All P xs

-- `k in xs` for names.
abbrev pub elem : String → List String → Bool
elem k [] = false
elem k (x ∷ xs) = (x == k) || elem k xs

pub elem-append : (k : String) (xs ys : List String) → elem k (xs ++ ys) ≡ (elem k xs || elem k ys)
elem-append k [] ys = refl
elem-append k (x ∷ xs) ys = ground (arith, elem-append k xs ys)

module _ {ℓ} {V : Type ℓ} where
  -- d.get(key)
  abbrev pub lookup : String → List (String × V) → Option V
  lookup key [] = none
  lookup key ((found, value) ∷ rest) = if found == key then some value else lookup key rest

  -- d[key] = value: an old key keeps its place, a new one comes last.
  abbrev pub insert : String → V → List (String × V) → List (String × V)
  insert key value [] = (key, value) ∷ []
  insert key value ((found, old) ∷ rest) =
      if found == key then (found, value) ∷ rest else (found, old) ∷ insert key value rest

  pub lookup-insert :
      (set asked : String) (value : V) (d : List (String × V))
      → lookup asked (insert set value d) ≡ (if set == asked then some value else lookup asked d)
  lookup-insert set asked value [] = refl
  lookup-insert set asked value ((found, old) ∷ rest) = ground (
    arith,
    lookup-insert set asked value rest,
    eq_iff found asked,
    eq_iff found set,
    eq_iff set asked,
  )
