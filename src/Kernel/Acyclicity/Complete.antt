-- ===== src/Kernel/Acyclicity/Complete.antt =====
-- What the topological sort of src/nilscript/kernel/validator.py promises of programs without a
-- cycle: it takes every node, and so no such program is refused.
use nilscript.Base.{
  ℕ, zero, suc, ◌+◌, ◌≤◌, ◌<◌, ◌≡◌, inl, inr, true, false, String, ◌==◌, List, [], ◌∷◌, length,
  elem, eqb, leb, if◌then◌else◌, Bool-cases, arith, eq_iff, eq_refl, elem-append, leb→le,
}
use nilscript.Base.Names.{NoRepeat, NoRepeat-length}
use nilscript.Kernel.Acyclicity.{
  Edges, Degrees, in_degree, decrement, sources, release, drain, topological, is_acyclic,
}
use nilscript.Kernel.Acyclicity.Release.{pend}
use nilscript.Kernel.Acyclicity.Loop.{Kept, Closed}
use nilscript.Kernel.Acyclicity.Release.{elem-count}
use nilscript.Kernel.Acyclicity.Order.{Kept-start, elem-Within}
use nilscript.Kernel.Acyclicity.Loop.{Kept-release}

-- An item whose degree comes to 0 is pushed.
ripe-step :
    (t : String) (degree : Degrees) (queue : List String) (v : String)
    → (degree v ≡ 0 → elem v queue ≡ true)
    → decrement t degree v ≡ 0
    → elem v (if eqb (decrement t degree t) 0 then t ∷ queue else queue) ≡ true
unfolding decrement
ripe-step t degree queue v r h = elim (Bool-cases (t == v)) [
  | inl e ↦ ground (arith, eq_iff t v, eq_refl t)
  | inr f ↦ ground (arith, eq_iff t v, eq_refl t)
]

release-ripe :
    (ts : List String) (degree : Degrees) (queue : List String) (v : String)
    → (degree v ≡ 0 → elem v queue ≡ true)
    → (release ts degree queue).0 v ≡ 0
    → elem v (release ts degree queue).1 ≡ true
unfolding release
release-ripe [] degree queue v r h = r h
release-ripe (t ∷ ts) degree queue v r h =
    release-ripe ts (decrement t degree) (if eqb (decrement t degree t) 0 then t ∷ queue else queue)
      v (ripe-step t degree queue v r) h

all-done :
    (nodes done : List String)
    → NoRepeat nodes
    → length done < length nodes
    → ((v : String) → elem v nodes ≡ true → elem v done ≡ true)
    → ⊥
all-done nodes done r lt h = omega (arith, NoRepeat-length nodes done r (elem-Within nodes done h))

-- An edge into a node from one that is not done.
pend-source :
    (edges : Edges) (done us : List String) (v : String)
    → 1 ≤ pend edges done us v
    → (u : String) × (elem u us ≡ true) × (elem u done ≡ false) × (elem v (edges u) ≡ true)
unfolding pend
pend-source edges done [] v h = absurd (omega arith)
pend-source edges done (u ∷ us) v h = elim (Bool-cases (elem u done)) [
  | inl t ↦ let (w, a, b, c) = pend-source edges done us v (ground arith) in (w, ground arith, b, c)
  | inr f ↦ elim (Bool-cases (elem v (edges u))) [
    | inl k ↦ (u, ground (arith, eq_refl u), f, k)
    | inr k ↦
        let (w, a, b, c) = pend-source edges done us v (ground (arith, elem-count v (edges u))) in
        (w, ground arith, b, c)
  ]
]

sources-elem :
    (degree : Degrees) (ns : List String) (v : String)
    → elem v ns ≡ true
    → degree v ≡ 0
    → elem v (sources degree ns) ≡ true
unfolding sources
sources-elem degree [] v h z = absurd (cc)
sources-elem degree (n ∷ ns) v h z = ground (
  arith,
  sources-elem degree ns v,
  eq_iff n v,
  eq_refl v,
  elem-append v (sources degree ns) (if eqb (degree n) 0 then n ∷ [] else []),
)

module _ (edges : Edges) (nodes : List String) (unique : NoRepeat nodes)
    (closed : Closed edges nodes) (rank : String → ℕ)
    (falls : (u v : String) → elem v (edges u) ≡ true → rank u < rank v) where
  -- Every node of degree 0 that is not done is queued.
  Ripe : Degrees → List String → List String → Type 0
  Ripe degree queue done =
      (v : String) → elem v nodes ≡ true → elem v done ≡ false → degree v ≡ 0 → elem v queue ≡ true

  -- With an empty queue, a node that is not done would have a source of lower rank that is not.
  none-left :
      (degree : Degrees) (done : List String)
      → Kept edges nodes degree [] done
      → Ripe degree [] done
      → (bound : ℕ) (v : String) → rank v < bound
      → elem v nodes ≡ true
      → elem v done ≡ true
  unfolding Ripe
  none-left degree done k r zero v lt h = absurd (omega arith)
  none-left degree done k r (suc bound) v lt h = elim (Bool-cases (elem v done)) [
    | inl t ↦ t
    | inr f ↦
        let (u, a, b, c) = pend-source edges done nodes v (ground (arith, r v h f, k.pending v)) in
        absurd (ground (arith, none-left degree done k r bound u (omega (arith, falls u v c)) a))
  ]

  Ripe-release :
      (degree : Degrees) (n : String) (queue done : List String)
      → Ripe degree (n ∷ queue) done
      → Ripe (release (edges n) degree queue).0 (release (edges n) degree queue).1 (n ∷ done)
  unfolding Ripe
  Ripe-release degree n queue done r v h f z =
      release-ripe (edges n) degree queue v (λ d. ground (arith, r v h (ground arith) d)) z

  drain-length :
      (fuel : ℕ) (degree : Degrees) (queue done : List String)
      → Kept edges nodes degree queue done
      → Ripe degree queue done
      → length nodes ≤ fuel + length done
      → length nodes ≤ length (drain fuel edges degree queue done)
  unfolding drain
  drain-length zero degree queue done k r h = omega arith
  drain-length (suc fuel) degree [] done k r h =
      elim (Bool-cases (leb (length nodes) (length done))) [
        | inl t ↦ leb→le (length nodes) (length done) t
        | inr f ↦ absurd (
            all-done nodes done unique (ground arith)
              (λ v m. none-left degree done k r (suc (rank v)) v (omega arith) m))
      ]
  drain-length (suc fuel) degree (n ∷ queue) done k r h =
      drain-length fuel (release (edges n) degree queue).0 (release (edges n) degree queue).1
        (n ∷ done) (Kept-release edges nodes unique closed degree n queue done k)
        (Ripe-release degree n queue done r) (omega arith)

  -- When the ids of the pipeline do not repeat, the targets are ids of the pipeline and every edge
  -- leads from a lower rank to a higher one, the sort takes every node.
  pub ranked-is_acyclic : is_acyclic edges nodes ≡ true
  unfolding is_acyclic topological Ripe
  ranked-is_acyclic = ground (
    arith,
    drain-length (length nodes) (in_degree edges nodes) (sources (in_degree edges nodes) nodes) []
        (Kept-start edges nodes unique closed)
        (λ v h f z. sources-elem (in_degree edges nodes) nodes v h z) (omega arith),
  )
