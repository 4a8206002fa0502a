-- ===== src/Kernel/Admission/Targets.antt =====
-- Where the control flow of an admitted program goes (src/nilscript/kernel/validator.py, V2 and V3).
use nilscript.Base.{
  ℕ, ◌<◌, ◌≡◌, refl, inl, inr, true, false, String, ◌==◌, Option, none, some, List, [], ◌∷◌, elem,
  keep, length, leb→le, Bool-cases, arith, eq_iff, eq_refl, if◌then◌else◌,
}
use nilscript.Base.Names.{NoRepeat, NoRepeat-length, position, position-lt-length}
use nilscript.Kernel.Program.{Node, find_node, ids, ids_are_unique, fits_pipeline, WosoolProgram}
use nilscript.Kernel.Graph.{successor_targets}
use nilscript.Kernel.Diagnostics.{ok, has_errors, has_errors-append, error_of}
use nilscript.Kernel.Context.{ValidationContext}
use nilscript.Kernel.Validator.{validate}
use nilscript.Kernel.Validator.Passes.{for_nodes, for_names}
use nilscript.Kernel.Validator.Integrity.{
  check_target, check_references, check_acyclicity, edges_of,
}
use nilscript.Kernel.Acyclicity.{is_acyclic, topological}
use nilscript.Kernel.Acyclicity.Loop.{Closed, Sound}
use nilscript.Kernel.Acyclicity.Order.{
  topological-Sound, is_acyclic-position, Ordered-NoRepeat, elem-Within, is_acyclic-elem,
}
use nilscript.Kernel.Admission.Passes.{
  validate-Clean, find_node-elem, elem-find_node, for_nodes-find_node, for_names-elem,
}

clean_entry :
    (p : WosoolProgram)
    → has_errors (check_references p) ≡ false
    → elem p.entry (ids p.pipeline) ≡ true
unfolding check_references has_errors
clean_entry p h = elim (Bool-cases (elem p.entry (ids p.pipeline))) [
  | inl t ↦ t
  | inr f ↦ absurd (ground (arith, h))
]

target_ok :
    (ks : List String) (id t : String)
    → has_errors (check_target ks id t) ≡ false
    → elem t ks ≡ true
unfolding check_target has_errors
target_ok ks id t h = elim (Bool-cases (elem t ks)) [
  | inl k ↦ k
  | inr f ↦ absurd (ground (arith, h))
]

clean_target :
    (p : WosoolProgram) (id : String) (n : Node) (t : String)
    → has_errors (check_references p) ≡ false
    → find_node id p.pipeline ≡ some n
    → elem t (successor_targets n.type) ≡ true
    → elem t (ids p.pipeline) ≡ true
unfolding check_references
clean_target p id n t h f e =
    let ns = p.pipeline in
    target_ok (ids ns) n.id t (
      for_names-elem (check_target (ids ns) n.id) t (successor_targets n.type)
        (for_nodes-find_node
          (λ m. for_names (check_target (ids ns) m.id) (successor_targets m.type)) id ns n
          (ground (
            arith,
            has_errors-append (if elem p.entry (ids ns) then [] else error_of "V2_DANGLING_REF") (
                for_nodes (λ m. for_names (check_target (ids ns) m.id) (successor_targets m.type))
                  ns),
          ))
          f)
        e)

-- When the program is admitted, its entry is the id of a node of the pipeline.
pub validate-entry :
    (p : WosoolProgram) (ctx : ValidationContext)
    → (validate p ctx).result ≡ ok
    → (n : Node) × (find_node p.entry p.pipeline ≡ some n)
unfolding check_references
validate-entry p ctx h =
    elem-find_node p.entry p.pipeline (clean_entry p (validate-Clean p ctx h).references)

-- When the program is admitted, every target that a node names is the id of a node of the pipeline.
pub validate-target :
    (p : WosoolProgram) (ctx : ValidationContext) (id : String) (n : Node) (t : String)
    → (validate p ctx).result ≡ ok
    → find_node id p.pipeline ≡ some n
    → elem t (successor_targets n.type) ≡ true
    → (m : Node) × (find_node t p.pipeline ≡ some m)
validate-target p ctx id n t h f e =
    elem-find_node t p.pipeline (clean_target p id n t (validate-Clean p ctx h).references f e)

elem-keep :
    (t : String) (ks xs : List String)
    → elem t ks ≡ true
    → elem t xs ≡ true
    → elem t (keep (λ s. elem s ks) xs) ≡ true
elem-keep t ks [] k h = absurd (cc)
elem-keep t ks (x ∷ xs) k h = elim (Bool-cases (x == t)) [
  | inl e ↦ ground (arith, eq_iff x t, eq_refl t)
  | inr e ↦ elim (Bool-cases (elem x ks)) [
    | inl g ↦ ground (arith, elem-keep t ks xs k)
    | inr g ↦ ground (arith, elem-keep t ks xs k)
  ]
]

keep-elem :
    (t : String) (ks xs : List String) → elem t (keep (λ s. elem s ks) xs) ≡ true → elem t ks ≡ true
keep-elem t ks [] h = absurd (cc)
keep-elem t ks (x ∷ xs) h = elim (Bool-cases (elem x ks)) [
  | inl g ↦ ground (arith, keep-elem t ks xs, eq_iff x t)
  | inr g ↦ ground (arith, keep-elem t ks xs)
]

closed_at :
    (ns : List Node) (u v : String) (o : Option Node)
    → find_node u ns ≡ o
    → elem v (edges_of ns u) ≡ true
    → elem v (ids ns) ≡ true
unfolding edges_of
closed_at ns u v none f h = absurd (ground (arith))
closed_at ns u v (some n) f h = keep-elem v (ids ns) (successor_targets n.type) (ground arith)

edge_of :
    (ns : List Node) (id : String) (n : Node) (t : String)
    → find_node id ns ≡ some n
    → elem t (ids ns) ≡ true
    → elem t (successor_targets n.type) ≡ true
    → elem t (edges_of ns id) ≡ true
unfolding edges_of
edge_of ns id n t f k e = ground (arith, elem-keep t (ids ns) (successor_targets n.type) k e)

pub edges_of-Closed : (ns : List Node) → Closed (edges_of ns) (ids ns)
unfolding Closed
edges_of-Closed ns u v h = closed_at ns u v (find_node u ns) refl h

pub unique-NoRepeat : (ns : List Node) → ids_are_unique ns ≡ true → NoRepeat (ids ns)
unfolding ids_are_unique
unique-NoRepeat [] h = tt
unique-NoRepeat (n ∷ ns) h = (ground arith, unique-NoRepeat ns (ground arith))

-- The places of the nodes in the order that the validator finds.
unfoldable pub place : WosoolProgram → String → ℕ
place p id = position id (topological (edges_of p.pipeline) (ids p.pipeline))

pub clean_acyclic :
    (p : WosoolProgram)
    → has_errors (check_acyclicity p) ≡ false
    → is_acyclic (edges_of p.pipeline) (ids p.pipeline) ≡ true
unfolding check_acyclicity has_errors
clean_acyclic p h = ground arith

-- When the program is admitted, every target of a node stands at a later place of the validator's
-- order than the node.
pub validate-place :
    (p : WosoolProgram) (ctx : ValidationContext) (id : String) (n : Node) (t : String)
    → (validate p ctx).result ≡ ok
    → find_node id p.pipeline ≡ some n
    → elem t (successor_targets n.type) ≡ true
    → place p id < place p t
unfolding place edges_of
validate-place p ctx id n t h f e =
    let c = validate-Clean p ctx h in
    is_acyclic-position (edges_of p.pipeline) (ids p.pipeline) (unique-NoRepeat p.pipeline c.unique)
      (edges_of-Closed p.pipeline) (clean_acyclic p c.acyclicity) id t
      (find_node-elem id p.pipeline n f)
      (edge_of p.pipeline id n t f (clean_target p id n t c.references f e) e)

-- A place is below the bound of the pipeline.
pub place-lt :
    (p : WosoolProgram) (ctx : ValidationContext) (id : String) (n : Node)
    → (validate p ctx).result ≡ ok
    → find_node id p.pipeline ≡ some n
    → place p id < 256
unfolding place fits_pipeline Sound
place-lt p ctx id n h f =
    let c = validate-Clean p ctx h in
    let edges = edges_of p.pipeline in
    let ns = ids p.pipeline in
    let order = topological edges ns in
    let s =
      topological-Sound edges ns (unique-NoRepeat p.pipeline c.unique)
        (edges_of-Closed p.pipeline) in
    omega (
      arith,
      leb→le (length ns) 256 (ground (arith, c.size)),
      NoRepeat-length order ns (Ordered-NoRepeat edges order s.0) (elem-Within order ns s.1),
      position-lt-length id order (
          is_acyclic-elem edges ns (unique-NoRepeat p.pipeline c.unique)
            (edges_of-Closed p.pipeline) (clean_acyclic p c.acyclicity) id
            (find_node-elem id p.pipeline n f)),
    )
