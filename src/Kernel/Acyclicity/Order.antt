-- ===== src/Kernel/Acyclicity/Order.antt =====
-- What the topological sort of src/nilscript/kernel/validator.py promises: the order that it finds
-- puts a node before its targets.
use nilscript.Base.{
  ◌<◌, ◌≡◌, refl, inl, inr, true, false, String, ◌==◌, List, [], ◌∷◌, ◌++◌, length, elem, eqb,
  if◌then◌else◌, Bool-cases, arith, eq_iff, eq_refl, elem-append, leb→le,
}
use nilscript.Base.Names.{NoRepeat, Within, NoRepeat-covers, position, position-lt-length}
use nilscript.Kernel.Acyclicity.{Edges, Degrees, in_degree, sources, topological, is_acyclic}
use nilscript.Kernel.Acyclicity.Release.{pend-in_degree, Ready}
use nilscript.Kernel.Acyclicity.Loop.{Ordered, Kept, Closed, Sound, drain-Sound}

pub elem-sources :
    (degree : Degrees) (ns : List String) (v : String)
    → elem v (sources degree ns) ≡ true
    → (elem v ns ≡ true) × (degree v ≡ 0)
unfolding sources
elem-sources degree [] v h = absurd (cc)
elem-sources degree (n ∷ ns) v h = ground (
  arith,
  elem-sources degree ns v,
  eq_iff n v,
  elem-append v (sources degree ns) (if eqb (degree n) 0 then n ∷ [] else []),
)

NoRepeat-snoc :
    (xs : List String) (n : String) → NoRepeat xs → elem n xs ≡ false → NoRepeat (xs ++ n ∷ [])
NoRepeat-snoc [] n r h = (refl, tt)
NoRepeat-snoc (x ∷ xs) n r h = (
  ground (arith, elem-append x xs (n ∷ []), eq_iff x n, eq_iff n x, r.0),
  NoRepeat-snoc xs n r.1 (ground (arith)),
)

NoRepeat-snoc-none : (xs : List String) → NoRepeat xs → NoRepeat (xs ++ [])
NoRepeat-snoc-none [] r = tt
NoRepeat-snoc-none (x ∷ xs) r =
    (ground (arith, elem-append x xs [], r.0), NoRepeat-snoc-none xs r.1)

NoRepeat-sources :
    (degree : Degrees) (ns : List String) → NoRepeat ns → NoRepeat (sources degree ns)
unfolding sources
NoRepeat-sources degree [] r = tt
NoRepeat-sources degree (n ∷ ns) r = elim (Bool-cases (eqb (degree n) 0)) [
  | inl t ↦ rw t (
      NoRepeat-snoc (sources degree ns) n (NoRepeat-sources degree ns r.1)
        (ground (arith, elem-sources degree ns n, r.0)))
  | inr f ↦ rw f (NoRepeat-snoc-none (sources degree ns) (NoRepeat-sources degree ns r.1))
]

same-edges :
    (edges : Edges) (n u v : String) → n ≡ u → elem v (edges u) ≡ true → elem v (edges n) ≡ true
same-edges edges n u v p e = cc

position-Ordered :
    (edges : Edges) (done : List String) (u v : String)
    → Ordered edges done
    → elem u done ≡ true
    → elem v done ≡ true
    → elem v (edges u) ≡ true
    → position u done < position v done
unfolding Ordered
position-Ordered edges [] u v o hu hv e = absurd (cc)
position-Ordered edges (n ∷ done) u v o hu hv e = elim (Bool-cases (n == u)) [
  | inl t ↦ absurd (ground (arith, hv, o.0 v (same-edges edges n u v ((eq_iff n u).0 t) e)))
  | inr f ↦
      ground (arith, position-Ordered edges done u v o.2, position-lt-length u done, eq_iff n u)
]

pub Ordered-NoRepeat : (edges : Edges) (done : List String) → Ordered edges done → NoRepeat done
unfolding Ordered
Ordered-NoRepeat edges [] o = tt
Ordered-NoRepeat edges (n ∷ done) o = (o.1, Ordered-NoRepeat edges done o.2)

pub elem-Within :
    (xs ys : List String) → ((v : String) → elem v xs ≡ true → elem v ys ≡ true) → Within xs ys
elem-Within [] ys h = tt
elem-Within (x ∷ xs) ys h =
    (h x (ground (arith, eq_refl x)), elem-Within xs ys (λ v k. h v (ground arith)))

module _ (edges : Edges) (nodes : List String) (unique : NoRepeat nodes)
    (closed : Closed edges nodes) where
  pub Kept-start :
      Kept edges nodes (in_degree edges nodes) (sources (in_degree edges nodes) nodes) []
  unfolding Ready Ordered
  Kept-start = record {
    ready = (
      (λ v h. (elem-sources (in_degree edges nodes) nodes v h).1),
      NoRepeat-sources (in_degree edges nodes) nodes unique,
    );
    pending = λ v. pend-in_degree edges nodes v;
    queued = λ v h. ((elem-sources (in_degree edges nodes) nodes v h).0, refl);
    finished = λ v h. absurd (cc);
    ordered = tt;
  }

  pub topological-Sound : Sound edges nodes unique closed (topological edges nodes)
  unfolding topological
  topological-Sound =
      drain-Sound edges nodes unique closed (length nodes) (in_degree edges nodes)
        (sources (in_degree edges nodes) nodes) [] Kept-start

  -- When the sort takes every node, every node has a place in its order.
  pub is_acyclic-elem :
      is_acyclic edges nodes ≡ true
      → (x : String) → elem x nodes ≡ true
      → elem x (topological edges nodes) ≡ true
  unfolding is_acyclic Sound
  is_acyclic-elem h x k =
      let s = topological-Sound in
      let order = topological edges nodes in
      NoRepeat-covers order nodes x (Ordered-NoRepeat edges order s.0) (elem-Within order nodes s.1)
        (leb→le (length nodes) (length order) h) k

  -- When the sort takes every node, an edge leads from an earlier place of its order to a later
  -- one, if the ids of the pipeline do not repeat and the targets are ids of the pipeline.
  pub is_acyclic-position :
      is_acyclic edges nodes ≡ true
      → (u v : String) → elem u nodes ≡ true
      → elem v (edges u) ≡ true
      → position u (topological edges nodes) < position v (topological edges nodes)
  unfolding Sound Closed
  is_acyclic-position h u v hu e =
      position-Ordered edges (topological edges nodes) u v topological-Sound.0
        (is_acyclic-elem h u hu) (is_acyclic-elem h v (closed u v e)) e
