-- ===== src/Kernel/Admission/Sources.antt =====
-- What precedes and reaches the nodes of an admitted program (src/nilscript/kernel/validator.py, V6).
use nilscript.Base.{
  ℕ, zero, suc, ◌<◌, ◌≡◌, refl, ap, inl, inr, Bool, true, false, not, String, ◌==◌, some, List, [],
  ◌∷◌, ◌++◌, reverse, elem, elem-append, keep, leb, Bool-cases, arith, eq_iff, eq_refl,
  if◌then◌else◌,
}
use mathlib.Core.List.{reverse-cons}
use mathlib.Core.Path.{subst}
use nilscript.Base.Names.{position}
use nilscript.Kernel.Program.{Node, find_node, ids, WosoolProgram}
use nilscript.Kernel.Diagnostics.{ok, has_errors, has_errors-append, error_at}
use nilscript.Kernel.Context.{ValidationContext}
use nilscript.Kernel.Acyclicity.{Edges, topological, is_acyclic}
use nilscript.Kernel.Validator.{validate}
use nilscript.Kernel.Validator.Passes.{for_names}
use nilscript.Kernel.Validator.Integrity.{edges_of}
use nilscript.Kernel.Validator.Reachability.{
  node_reference_sources, search_from, target_count, reachable_from, insert_sorted, sorted,
  check_unreachable, check_terminal, check_source, check_forward, check_reachability,
}
use nilscript.Kernel.Acyclicity.Order.{is_acyclic-elem}
use nilscript.Kernel.Admission.Passes.{
  validate-Clean, for_nodes-find_node, for_names-elem, find_node-id, find_node-elem,
}
use nilscript.Kernel.Admission.Targets.{place, clean_acyclic, unique-NoRepeat, edges_of-Closed}

source_ok :
    (order : List String) (id source : String)
    → has_errors (check_source order id source) ≡ false
    → (source == "item") ≡ false
    → (source == "input") ≡ false
    → elem source order ≡ true
    → position source order < position id order
unfolding check_source has_errors
source_ok order id source h a b e =
    elim (Bool-cases (leb (position id order) (position source order))) [
      | inl t ↦ absurd (ground (arith, h, t))
      | inr f ↦ ground (arith, f)
    ]

forward_ok :
    (p : WosoolProgram)
    → has_errors (check_reachability p) ≡ false
    → is_acyclic (edges_of p.pipeline) (ids p.pipeline) ≡ true
    → has_errors (check_forward p.pipeline (topological (edges_of p.pipeline) (ids p.pipeline)))
      ≡ false
unfolding check_reachability
forward_ok p h t =
    let ns = p.pipeline in
    let edges = edges_of ns in
    let reachable = reachable_from edges (ids ns) p.entry in
    ground (
      arith,
      h,
      t,
      has_errors-append (check_unreachable ns reachable ++ check_terminal ns reachable)
          (check_forward ns (topological edges (ids ns))),
    )

same_id :
    (order : List String) (source j k : String)
    → j ≡ k
    → position source order < position j order
    → position source order < position k order
same_id order source j k e h = omega (arith, ap (λ (x : String). position x order) e)

-- When the program is admitted and a node reads the output of a step that is a node, that step
-- stands at an earlier place of the validator's order than the node.
pub validate-source :
    (p : WosoolProgram) (ctx : ValidationContext) (id : String) (n m : Node) (source : String)
    → (validate p ctx).result ≡ ok
    → find_node id p.pipeline ≡ some n
    → elem source (node_reference_sources n.type) ≡ true
    → (source == "item") ≡ false
    → (source == "input") ≡ false
    → find_node source p.pipeline ≡ some m
    → place p source < place p id
unfolding check_forward place
validate-source p ctx id n m source h f e a b k =
    let c = validate-Clean p ctx h in
    let ns = p.pipeline in
    let edges = edges_of ns in
    let order = topological edges (ids ns) in
    let t = clean_acyclic p c.acyclicity in
    let here =
      is_acyclic-elem edges (ids ns) (unique-NoRepeat ns c.unique) (edges_of-Closed ns) t source
        (find_node-elem source ns m k) in
    same_id order source n.id id (find_node-id id ns n f) (
      source_ok order n.id source
        (for_names-elem (check_source order n.id) source (node_reference_sources n.type)
          (for_nodes-find_node
            (λ w. for_names (check_source order w.id) (node_reference_sources w.type)) id ns n
            (forward_ok p c.reachability t) f)
          e)
        a b here)

-- A way along the edges.
pub data Way (edges : Edges) (entry : String) : String → Type 0 where
  here : Way edges entry entry
  along : (u v : String) → Way edges entry u → elem v (edges u) ≡ true → Way edges entry v

entry-Way : (edges : Edges) (entry w : String) → elem w (entry ∷ []) ≡ true → Way edges entry w
entry-Way edges entry w k =
    subst (λ (v : String). Way edges entry v) ((eq_iff entry w).0 (ground (arith, k))) here

All-ways : Edges → String → List String → Type 0
All-ways edges entry xs = (v : String) → elem v xs ≡ true → Way edges entry v

pub elem-reverse : (v : String) (xs : List String) → elem v (reverse xs) ≡ true → elem v xs ≡ true
elem-reverse v [] h = absurd (cc)
elem-reverse v (x ∷ xs) h =
    ground (arith, h, reverse-cons x xs, elem-append v (reverse xs) (x ∷ []), elem-reverse v xs)

Way-search_from :
    (fuel : ℕ) (edges : Edges) (entry : String) (reachable frontier : List String)
    → All-ways edges entry reachable
    → All-ways edges entry frontier
    → All-ways edges entry (search_from fuel edges reachable frontier)
unfolding search_from All-ways
Way-search_from zero edges entry reachable frontier r f v h = r v h
Way-search_from (suc fuel) edges entry reachable [] r f v h = r v h
Way-search_from (suc fuel) edges entry reachable (n ∷ frontier) r f v h =
    elim (Bool-cases (elem n reachable)) [
      | inl t ↦
          Way-search_from fuel edges entry reachable frontier r (λ w k. f w (ground arith)) v
            (ground (arith, h, t))
      | inr g ↦
          Way-search_from fuel edges entry (n ∷ reachable) (reverse (edges n) ++ frontier)
            (λ w k. elim (Bool-cases (elem w reachable)) [
              | inl m ↦ r w m
              | inr m ↦ f w (ground (arith, k, m))
            ])
            (λ w k. elim (Bool-cases (elem w frontier)) [
              | inl m ↦ f w (ground (arith, m))
              | inr m ↦ along n w (f n (ground (arith, eq_refl n))) (
                  elem-reverse w (edges n)
                    (ground (arith, k, m, elem-append w (reverse (edges n)) frontier)))
            ])
            v (ground (arith, h, g))
    ]

insert_sorted-error :
    (x : String) (xs : List String)
    → has_errors (for_names (error_at "V6_UNREACHABLE") (insert_sorted x xs)) ≡ true
unfolding has_errors
insert_sorted-error x [] = refl
insert_sorted-error x (y ∷ ys) = ground arith

sorted-nil :
    (xs : List String)
    → has_errors (for_names (error_at "V6_UNREACHABLE") (sorted xs)) ≡ false
    → xs ≡ []
unfolding sorted
sorted-nil [] h = refl
sorted-nil (x ∷ xs) h = absurd (ground (arith, h, insert_sorted-error x (sorted xs)))

keep-nil :
    (v : String) (p : String → Bool) (xs : List String)
    → keep p xs ≡ []
    → elem v xs ≡ true
    → p v ≡ false
keep-nil v p [] h e = absurd (cc)
keep-nil v p (x ∷ xs) h e = elim (Bool-cases (x == v)) [
  | inl t ↦ elim (Bool-cases (p x)) [
    | inl g ↦ absurd (ground (arith, h, g))
    | inr g ↦ ground (arith, g, ap p ((eq_iff x v).0 t))
  ]
  | inr f ↦ elim (Bool-cases (p x)) [
    | inl g ↦ absurd (ground (arith, h, g))
    | inr g ↦ ground (arith, keep-nil v p xs, h, g, e, f)
  ]
]

Way-reachable_from :
    (edges : Edges) (ns : List String) (entry : String)
    → All-ways edges entry (reachable_from edges ns entry)
unfolding reachable_from All-ways
Way-reachable_from edges ns entry v h = elim (Bool-cases (elem entry ns)) [
  | inr f ↦ absurd (ground (arith, h, f))
  | inl t ↦
      Way-search_from (suc (suc (target_count edges ns))) edges entry [] (entry ∷ [])
        (λ w k. absurd (cc)) (λ w k. entry-Way edges entry w k) v (ground (arith, h, t))
]

unreachable_ok :
    (p : WosoolProgram)
    → has_errors (check_reachability p) ≡ false
    → has_errors (
        check_unreachable p.pipeline
          (reachable_from (edges_of p.pipeline) (ids p.pipeline) p.entry))
      ≡ false
unfolding check_reachability
unreachable_ok p h =
    let ns = p.pipeline in
    let edges = edges_of ns in
    let reachable = reachable_from edges (ids ns) p.entry in
    ground (
      arith,
      h,
      has_errors-append (check_unreachable ns reachable ++ check_terminal ns reachable)
          (if is_acyclic edges (ids ns) then check_forward ns (topological edges (ids ns)) else []),
      has_errors-append (check_unreachable ns reachable) (check_terminal ns reachable),
    )

-- When the program is admitted, control flow leads from its entry to every node of the pipeline.
pub validate-Way :
    (p : WosoolProgram) (ctx : ValidationContext) (id : String)
    → (validate p ctx).result ≡ ok
    → elem id (ids p.pipeline) ≡ true
    → Way (edges_of p.pipeline) p.entry id
unfolding check_unreachable All-ways
validate-Way p ctx id h e =
    let reachable = reachable_from (edges_of p.pipeline) (ids p.pipeline) p.entry in
    Way-reachable_from (edges_of p.pipeline) (ids p.pipeline) p.entry id (
      ground (
        arith,
        keep-nil id (λ v. not (elem v reachable)) (ids p.pipeline)
            (sorted-nil (keep (λ v. not (elem v reachable)) (ids p.pipeline))
              (unreachable_ok p (validate-Clean p ctx h).reachability))
            e,
      ))
