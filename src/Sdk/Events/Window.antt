-- ===== src/Sdk/Events/Window.antt =====
-- What the bounded memory of the deduplication guarantees.
use mathlib.Core.List.{append_assoc}
use nilscript.Base.{
  ℕ, suc, ◌+◌, ◌≤◌, ◌<◌, ◌≡◌, refl, inl, inr, ap, ◌∙◌, true, false, ◌||◌, List, [], ◌∷◌, ◌++◌,
  arith, ltb, length, length-append, eq_iff, eq_refl, Bool-cases,
}
use nilscript.Sdk.Events.{
  Key, same_key, seen_in, EventDeduper, new, is_new, pop_oldest, evict, deliver,
}

same_key_refl : (k : Key) → same_key k k ≡ true
same_key_refl (w, n) = rw eq_refl (ground arith)

seen_in-append_middle : (k : Key) (xs ys : List Key) → seen_in k (xs ++ k ∷ ys) ≡ true
unfolding seen_in
seen_in-append_middle k [] ys = rw same_key_refl
seen_in-append_middle k (x ∷ xs) ys = ground (arith, seen_in-append_middle k xs ys)

abbrev pub NoRepeat : List Key → Type 0
NoRepeat [] = Unit
NoRepeat (x ∷ xs) = (seen_in x xs ≡ false) × NoRepeat xs

-- The memory holds at most `max_entries` keys, each once.
pub record IsBounded (d : EventDeduper) : Type 0 where
  pub fits : length d.seen ≤ d.max_entries
  pub once : NoRepeat d.seen

-- Key `k` is remembered with at most `n` keys behind it.
record Holds (k : Key) (n : ℕ) (d : EventDeduper) : Type 0 where
  before : List Key
  after : List Key
  split : d.seen ≡ before ++ k ∷ after
  near : length after ≤ n

seen_in-append :
    (k : Key) (xs ys : List Key) → seen_in k (xs ++ ys) ≡ (seen_in k xs || seen_in k ys)
unfolding seen_in
seen_in-append k [] ys = refl
seen_in-append k (x ∷ xs) ys = ground (arith, seen_in-append k xs ys)

same_key_sym : (k j : Key) → same_key k j ≡ same_key j k
same_key_sym (w, n) (v, m) = ground (arith, eq_iff w v, eq_iff v w)

NoRepeat-snoc :
    (xs : List Key) (k : Key) → NoRepeat xs → seen_in k xs ≡ false → NoRepeat (xs ++ k ∷ [])
unfolding seen_in
NoRepeat-snoc [] k h new = (refl, tt)
NoRepeat-snoc (x ∷ xs) k h new = (
  ground (arith, seen_in-append x xs (k ∷ []), same_key_sym x k),
  NoRepeat-snoc xs k h.1 (ground arith),
)

NoRepeat-pop : (xs : List Key) → NoRepeat xs → NoRepeat (pop_oldest xs)
unfolding pop_oldest
NoRepeat-pop [] h = h
NoRepeat-pop (x ∷ xs) h = h.1

length-evict : (n : ℕ) (xs : List Key) → length xs ≤ suc n → length (evict n xs) ≤ n
unfolding evict
length-evict n [] h = ground arith
length-evict n (x ∷ xs) h = ground arith

NoRepeat-evict : (n : ℕ) (xs : List Key) → NoRepeat xs → NoRepeat (evict n xs)
unfolding evict
NoRepeat-evict n xs h = elim (Bool-cases (ltb n (length xs))) [
  | inl over ↦ rw over (NoRepeat-pop xs h)
  | inr fits ↦ rw fits h
]

is_new-IsBounded : (d : EventDeduper) (k : Key) → IsBounded d → IsBounded (is_new d k).0
unfolding is_new
is_new-IsBounded d k h = elim (Bool-cases (seen_in k d.seen)) [
  | inl old ↦ rw old h
  | inr fresh ↦ rw fresh (record {
    fits =
        length-evict d.max_entries (d.seen ++ k ∷ [])
          (omega (arith, length-append d.seen (k ∷ []), h.fits));
    once = NoRepeat-evict d.max_entries (d.seen ++ k ∷ []) (NoRepeat-snoc d.seen k h.once fresh);
  })
]

deliver-IsBounded_from : (d : EventDeduper) (ks : List Key) → IsBounded d → IsBounded (deliver d ks)
unfolding deliver
deliver-IsBounded_from d [] h = h
deliver-IsBounded_from d (k ∷ ks) h =
    deliver-IsBounded_from (is_new d k).0 ks (is_new-IsBounded d k h)

-- After any deliveries the memory holds at most `max_entries` keys, each once.
pub deliver-IsBounded : (max : ℕ) (ks : List Key) → IsBounded (deliver (new max) ks)
unfolding new
deliver-IsBounded max ks =
    deliver-IsBounded_from (new max) ks (record { fits = omega arith; once = tt })

-- The memory drops its oldest key only, so a key with fewer than `max` behind it stays.
evict-split :
    (k : Key) (max : ℕ) (before after : List Key)
    → length after < max
    → (left : List Key) × (evict max (before ++ k ∷ after) ≡ left ++ k ∷ after)
unfolding evict
evict-split k max [] after lt = ([], ground arith)
evict-split k max (x ∷ before) after lt =
    elim (Bool-cases (ltb max (length (x ∷ before ++ k ∷ after)))) [
      | inl over ↦ (before, rw over)
      | inr fits ↦ (x ∷ before, rw fits)
    ]

is_new-max_entries : (d : EventDeduper) (k : Key) → (is_new d k).0.max_entries ≡ d.max_entries
unfolding is_new
is_new-max_entries d k = ground arith

Holds-le : {k : Key} {n m : ℕ} {d : EventDeduper} → n ≤ m → Holds k n d → Holds k m d
Holds-le le h = record {
  before = h.before;
  after = h.after;
  split = h.split;
  near = omega (arith, h.near);
}

is_new-Holds :
    (d : EventDeduper) (k j : Key) (n : ℕ)
    → suc n < d.max_entries
    → Holds k n d
    → Holds k (suc n) (is_new d j).0
unfolding is_new
is_new-Holds d k j n room h = elim (Bool-cases (seen_in j d.seen)) [
  | inl old ↦ rw old (Holds-le (omega arith) h)
  | inr fresh ↦
      let (left, e) =
        evict-split k d.max_entries h.before (h.after ++ j ∷ [])
          (omega (arith, h.near, length-append h.after (j ∷ []))) in
      rw fresh (record {
        before = left;
        after = h.after ++ j ∷ [];
        split =
            ap (λ (l : List Key). evict d.max_entries (l ++ j ∷ [])) h.split
            ∙ (ap (evict d.max_entries) (append_assoc h.before (k ∷ h.after) (j ∷ [])) ∙ e);
        near = omega (arith, h.near, length-append h.after (j ∷ []));
      })
]

deliver-Holds :
    (ks : List Key) (d : EventDeduper) (k : Key) (n m : ℕ)
    → n + length ks ≤ m
    → m < d.max_entries
    → Holds k n d
    → Holds k m (deliver d ks)
unfolding deliver
deliver-Holds [] d k n m le room h = Holds-le (omega arith) h
deliver-Holds (j ∷ ks) d k n m le room h =
    deliver-Holds ks (is_new d j).0 k (suc n) m (omega arith)
      (omega (arith, is_new-max_entries d j)) (is_new-Holds d k j n (omega arith) h)

Holds-seen : (k : Key) (n : ℕ) (d : EventDeduper) → Holds k n d → (is_new d k).1 ≡ false
unfolding is_new
Holds-seen k n d h = rw (h.split, is_new) (rw seen_in-append_middle)

accepted-Holds :
    (d : EventDeduper) (k : Key)
    → 0 < d.max_entries
    → (is_new d k).1 ≡ true
    → Holds k 0 (is_new d k).0
unfolding is_new
accepted-Holds d k pos h = elim (Bool-cases (seen_in k d.seen)) [
  | inl old ↦ absurd (ground arith)
  | inr fresh ↦
      let (left, e) = evict-split k d.max_entries d.seen [] pos in
      rw fresh (record { before = left; after = []; split = e; near = omega arith })
]

-- An event that was accepted is refused as a duplicate when it comes again, as long as fewer than
-- `max_entries` deliveries stand between, whatever they are and whatever was seen before.
pub is_new-deliver :
    (d : EventDeduper) (k : Key) (ks : List Key)
    → (is_new d k).1 ≡ true
    → length ks < d.max_entries
    → (is_new (deliver (is_new d k).0 ks) k).1 ≡ false
is_new-deliver d k ks h room = Holds-seen k (length ks) (deliver (is_new d k).0 ks) (
    deliver-Holds ks (is_new d k).0 k 0 (length ks) (omega arith)
      (omega (arith, is_new-max_entries d k)) (accepted-Holds d k (omega arith) h))
