-- ===== src/Kernel/Admission/Reach.antt =====
-- The search of `_check_reachability` of src/nilscript/kernel/validator.py finds every node that
-- control flow leads to, within its fuel.
use mathlib.Core.List.{reverse-cons}
use nilscript.Base.{
  ℕ, zero, suc, ◌+◌, ◌≤◌, ◌<◌, ◌≡◌, refl, ap, inl, inr, true, false, ◌||◌, String, ◌==◌, List, [],
  ◌∷◌, ◌++◌, reverse, length, length-append, elem, elem-append, Bool-cases, arith, eq_iff, eq_refl,
  if◌then◌else◌,
}
use nilscript.Kernel.Acyclicity.{Edges}
use nilscript.Kernel.Acyclicity.Loop.{Closed}
use nilscript.Kernel.Validator.Reachability.{search_from, target_count, reachable_from}
use nilscript.Kernel.Admission.Sources.{Way, here, along, elem-reverse}

length-reverse : (xs : List String) → length (reverse xs) ≡ length xs
length-reverse [] = refl
length-reverse (x ∷ xs) = omega (
  arith,
  ap (λ (ys : List String). length ys) (reverse-cons x xs),
  length-append (reverse xs) (x ∷ []),
  length-reverse xs,
)

elem-of_reverse : (v : String) (xs : List String) → elem v xs ≡ true → elem v (reverse xs) ≡ true
elem-of_reverse v [] h = absurd (cc)
elem-of_reverse v (x ∷ xs) h =
    ground (arith, h, reverse-cons x xs, elem-append v (reverse xs) (x ∷ []), elem-of_reverse v xs)

-- The targets that the nodes that are not reached yet may still push.
unpushed : Edges → List String → List String → ℕ
unpushed edges reachable [] = 0
unpushed edges reachable (u ∷ us) =
    (if elem u reachable then 0 else length (edges u)) + unpushed edges reachable us

unpushed-le :
    (edges : Edges) (reachable : List String) (n : String) (us : List String)
    → unpushed edges (n ∷ reachable) us ≤ unpushed edges reachable us
unfolding unpushed
unpushed-le edges reachable n [] = omega arith
unpushed-le edges reachable n (u ∷ us) = ground (arith, unpushed-le edges reachable n us)

unpushed-visit :
    (edges : Edges) (reachable : List String) (n : String) (us : List String)
    → elem n us ≡ true
    → elem n reachable ≡ false
    → unpushed edges (n ∷ reachable) us + length (edges n) ≤ unpushed edges reachable us
unfolding unpushed
unpushed-visit edges reachable n [] h k = absurd (cc)
unpushed-visit edges reachable n (u ∷ us) h k = elim (Bool-cases (u == n)) [
  | inl t ↦ ground (
    arith,
    eq_iff u n,
    eq_iff n u,
    unpushed-le edges reachable n us,
    ap (λ (x : String). length (edges x)) ((eq_iff u n).0 t),
    ap (λ (x : String). elem x reachable) ((eq_iff u n).0 t),
  )
  | inr f ↦ ground (arith, eq_iff n u, eq_iff u n, unpushed-visit edges reachable n us, h, k, f)
]

-- What the search keeps: the targets of a node that is reached are reached or on the frontier.
Covers : Edges → List String → List String → Type 0
Covers edges reachable frontier =
    (u v : String)
    → elem u reachable ≡ true
    → elem v (edges u) ≡ true
    → (elem v reachable || elem v frontier) ≡ true

All-nodes : List String → List String → Type 0
All-nodes ns frontier = (v : String) → elem v frontier ≡ true → elem v ns ≡ true

-- What it comes to: the set holds what was reached and the frontier, and is closed under the edges.
record Found (edges : Edges) (reachable frontier found : List String) : Type 0 where
  keeps : (v : String) → (elem v reachable || elem v frontier) ≡ true → elem v found ≡ true
  closed : (u v : String) → elem u found ≡ true → elem v (edges u) ≡ true → elem v found ≡ true

skip-Covers :
    (reachable frontier : List String) (n v : String)
    → elem n reachable ≡ true
    → (elem v reachable || elem v (n ∷ frontier)) ≡ true
    → (elem v reachable || elem v frontier) ≡ true
skip-Covers reachable frontier n v t h = elim (Bool-cases (n == v)) [
  | inl e ↦ ground (arith, t, ap (λ (x : String). elem x reachable) ((eq_iff n v).0 e))
  | inr e ↦ ground (arith, h, e)
]

own-edges :
    (edges : Edges) (n u v : String) → n ≡ u → elem v (edges u) ≡ true → elem v (edges n) ≡ true
own-edges edges n u v p e = cc

module _ (edges : Edges) (ns : List String) (inside : Closed edges ns) where
  Found-search_from :
      (fuel : ℕ) (reachable frontier : List String)
      → length frontier + unpushed edges reachable ns < fuel
      → All-nodes ns frontier
      → Covers edges reachable frontier
      → Found edges reachable frontier (search_from fuel edges reachable frontier)
  unfolding search_from All-nodes Covers Closed
  Found-search_from zero reachable frontier lt nodes c = absurd (omega arith)
  Found-search_from (suc fuel) reachable [] lt nodes c = record {
    keeps = λ v h. ground (arith, h);
    closed = λ u v h k. ground (arith, c u v h k);
  }
  Found-search_from (suc fuel) reachable (n ∷ frontier) lt nodes c =
      elim (Bool-cases (elem n reachable)) [
        | inl t ↦
            let r =
              Found-search_from fuel reachable frontier (omega arith)
                (λ v h. nodes v (ground (arith, h)))
                (λ u v h k. skip-Covers reachable frontier n v t (c u v h k)) in
            rw t (record {
              keeps = λ v h. r.keeps v (skip-Covers reachable frontier n v t h);
              closed = r.closed;
            })
        | inr f ↦
            let next = reverse (edges n) ++ frontier in
            let r =
              Found-search_from fuel (n ∷ reachable) next
                (omega (
                  arith,
                  length-append (reverse (edges n)) frontier,
                  length-reverse (edges n),
                  unpushed-visit edges reachable n ns (nodes n (ground (arith, eq_refl n))) f,
                ))
                (λ v h. elim (Bool-cases (elem v frontier)) [
                  | inl k ↦ nodes v (ground (arith, k))
                  | inr k ↦ inside n v (
                      elem-reverse v (edges n)
                        (ground (arith, h, k, elem-append v (reverse (edges n)) frontier)))
                ])
                (λ u v h k. elim (Bool-cases (n == u)) [
                  | inl e ↦ ground (
                    arith,
                    elem-append v (reverse (edges n)) frontier,
                    elem-of_reverse v (edges n) (own-edges edges n u v ((eq_iff n u).0 e) k),
                  )
                  | inr e ↦ ground (
                    arith,
                    elem-append v (reverse (edges n)) frontier,
                    c u v (ground (arith, h, e)) k,
                  )
                ]) in
            rw f (record {
              keeps =
                  λ v h. r.keeps v (ground (arith, h, elem-append v (reverse (edges n)) frontier));
              closed = r.closed;
            })
      ]

  unpushed-none : (us : List String) → unpushed edges [] us ≡ target_count edges us
  unfolding unpushed target_count
  unpushed-none [] = refl
  unpushed-none (u ∷ us) = omega (arith, unpushed-none us)

  own-elem : (entry v : String) → (entry == v) ≡ true → elem entry ns ≡ true → elem v ns ≡ true
  own-elem entry v e h = ground (arith, h, ap (λ (x : String). elem x ns) ((eq_iff entry v).0 e))

  Found-reachable_from :
      (entry : String)
      → elem entry ns ≡ true
      → Found edges [] (entry ∷ []) (reachable_from edges ns entry)
  unfolding reachable_from All-nodes Covers
  Found-reachable_from entry h = rw h (
      Found-search_from (suc (suc (target_count edges ns))) [] (entry ∷ [])
        (omega (arith, unpushed-none ns)) (λ v k. own-elem entry v (ground (arith, k)) h)
        (λ u v k e. absurd (cc)))

  -- When the entry and the targets are nodes, the search finds every node that a way along the
  -- edges leads to from the entry, so it does not run out of its fuel.
  pub reachable_from-Way :
      (entry v : String)
      → elem entry ns ≡ true
      → Way edges entry v
      → elem v (reachable_from edges ns entry) ≡ true
  reachable_from-Way entry _ h here =
      (Found-reachable_from entry h).keeps entry (ground (arith, eq_refl entry))
  reachable_from-Way entry _ h (along u v way e) =
      (Found-reachable_from entry h).closed u v (reachable_from-Way entry u h way) e
