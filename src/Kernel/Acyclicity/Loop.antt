-- ===== src/Kernel/Acyclicity/Loop.antt =====
-- What the outer loop of `_check_acyclicity` of src/nilscript/kernel/validator.py keeps.
use nilscript.Base.{
  ℕ, zero, suc, ◌≡◌, inl, inr, true, false, String, List, [], ◌∷◌, elem, Bool-cases, arith, eq_iff,
  eq_refl,
}
use nilscript.Base.Names.{NoRepeat}
use nilscript.Kernel.Acyclicity.{Edges, Degrees, release, drain}
use nilscript.Kernel.Acyclicity.Release.{
  pend, pend-cons, count-elem, Ready, Within-degree, release-degree, Ready-release, elem-release,
}

-- No item stands twice, and none stands before a node that it leads to; the last item comes first.
unfoldable pub Ordered : Edges → List String → Type 0
Ordered edges [] = Unit
Ordered edges (n ∷ done) =
    ((v : String) → elem v (edges n) ≡ true → elem v (n ∷ done) ≡ false)
    × (elem n done ≡ false)
    × Ordered edges done

-- What the outer loop keeps.
pub record Kept (edges : Edges) (nodes : List String) (degree : Degrees) (queue done : List String)
    : Type 0 where
  pub ready : Ready degree queue
  pub pending : (v : String) → degree v ≡ pend edges done nodes v
  pub queued : (v : String) → elem v queue ≡ true → (elem v nodes ≡ true) × (elem v done ≡ false)
  pub finished : (v : String) → elem v done ≡ true → (elem v nodes ≡ true) × (degree v ≡ 0)
  pub ordered : Ordered edges done

-- The targets of a node are nodes.
unfoldable pub Closed : Edges → List String → Type 0
Closed edges nodes = (u v : String) → elem v (edges u) ≡ true → elem v nodes ≡ true

module _ (edges : Edges) (nodes : List String) (unique : NoRepeat nodes)
    (closed : Closed edges nodes) where
  Within-head :
      (degree : Degrees) (n : String) (queue done : List String)
      → Kept edges nodes degree (n ∷ queue) done
      → Within-degree (edges n) degree
  unfolding Within-degree
  Within-head degree n queue done k v = omega (
    arith,
    k.pending v,
    pend-cons edges done n nodes v unique (k.queued n (ground (arith, eq_refl n))).0
        (k.queued n (ground (arith, eq_refl n))).1,
  )

  Ordered-head :
      (degree : Degrees) (n : String) (queue done : List String)
      → Kept edges nodes degree (n ∷ queue) done
      → Ordered edges (n ∷ done)
  unfolding Ordered Ready Within-degree
  Ordered-head degree n queue done k = (
    λ v h. elim (Bool-cases (elem v (n ∷ done))) [
      | inr f ↦ f
      | inl t ↦ absurd (
          ground (
            arith,
            eq_iff n v,
            count-elem v (edges n) h,
            Within-head degree n queue done k v,
            k.finished v,
            k.ready.0 n (ground (arith, eq_refl n)),
            k.ready.0 v,
          ))
    ],
    (k.queued n (ground (arith, eq_refl n))).1,
    k.ordered,
  )

  pub Kept-release :
      (degree : Degrees) (n : String) (queue done : List String)
      → Kept edges nodes degree (n ∷ queue) done
      → Kept edges nodes
          (release (edges n) degree queue).0
          (release (edges n) degree queue).1
          (n ∷ done)
  unfolding Ordered Ready Closed
  Kept-release degree n queue done k =
      let w = Within-head degree n queue done k in
      let o = Ordered-head degree n queue done k in
      record {
        ready =
            Ready-release (edges n) degree queue w
              ((λ v h. k.ready.0 v (ground arith)), k.ready.1.1);
        pending = λ v. omega (
          arith,
          k.pending v,
          release-degree (edges n) degree queue v w,
          pend-cons edges done n nodes v unique (k.queued n (ground (arith, eq_refl n))).0
              (k.queued n (ground (arith, eq_refl n))).1,
        );
        queued = λ v h. elim (elem-release (edges n) degree queue v h) [
          | inl m ↦ ground (arith, k.queued v, k.ready.1.0, eq_iff n v)
          | inr m ↦ (closed n v m, o.0 v m)
        ];
        finished = λ v h. ground (
          arith,
          k.queued v,
          k.finished v,
          eq_iff n v,
          eq_refl n,
          k.ready.0 v,
          release-degree (edges n) degree queue v w,
        );
        ordered = o;
      }

  -- What the loop returns.
  unfoldable pub Sound : List String → Type 0
  Sound done = Ordered edges done × ((v : String) → elem v done ≡ true → elem v nodes ≡ true)

  pub drain-Sound :
      (fuel : ℕ) (degree : Degrees) (queue done : List String)
      → Kept edges nodes degree queue done
      → Sound (drain fuel edges degree queue done)
  unfolding drain Sound
  drain-Sound zero degree queue done k = (k.ordered, λ v h. (k.finished v h).0)
  drain-Sound (suc fuel) degree [] done k = (k.ordered, λ v h. (k.finished v h).0)
  drain-Sound (suc fuel) degree (n ∷ queue) done k =
      drain-Sound fuel (release (edges n) degree queue).0 (release (edges n) degree queue).1
        (n ∷ done) (Kept-release degree n queue done k)
