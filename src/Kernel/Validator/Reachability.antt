-- ===== src/Kernel/Validator/Reachability.antt =====
-- src/nilscript/kernel/validator.py: V6, reachability, terminal nodes and forward references.
use Prim.Native.String.{compare}
use Prim.Native.Nat.{Ordering}
use nilscript.Base.{
  ℕ, zero, suc, ◌+◌, Bool, true, false, not, ◌||◌, ◌&&◌, String, ◌==◌, Option, none, some, List, [],
  ◌∷◌, ◌++◌, elem, keep, any, length, reverse, leb, if◌then◌else◌,
}
use nilscript.Base.Names.{position}
use nilscript.Kernel.Value.{Value, null, str, dict, end, field}
use nilscript.Kernel.Program.{
  NodeType, action, query, condition, parallel, foreach, await_approval, wait, notify, Node,
  find_node, ids, WosoolProgram,
}
use nilscript.Kernel.Graph.{successor_targets}
use nilscript.Kernel.Acyclicity.{Edges, topological, is_acyclic}
use nilscript.Kernel.References.{Reference, parse_reference}
use nilscript.Kernel.References.Collect.{iter_references, references_in_text}
use nilscript.Kernel.Diagnostics.{Diagnostic, error_at, error_of}
use nilscript.Kernel.Validator.Passes.{for_nodes, for_names}
use nilscript.Kernel.Validator.Integrity.{edges_of}

abbrev pub source_of : Option Reference → List String
source_of none = []
source_of (some ref) = ref.source ∷ []

abbrev pub text_or_null : Option String → Value
text_or_null none = null
text_or_null (some s) = str s

abbrev pub is_empty : List String → Bool
is_empty [] = true
is_empty (x ∷ xs) = false

-- The data that a node refers to.
unfoldable pub node_reference_sources : NodeType → List String
node_reference_sources (action n) = iter_references (dict n.args)
node_reference_sources (query n) = iter_references (dict n.args)
node_reference_sources (condition n) = references_in_text n.expression
node_reference_sources (parallel n) = []
node_reference_sources (foreach n) = source_of (parse_reference (str n.items))
node_reference_sources (await_approval n) = source_of (parse_reference (str n.proposal))
node_reference_sources (wait n) = []
node_reference_sources (notify n) =
    iter_references
      (dict (field "ar" (str n.message.ar) (field "en" (text_or_null n.message.en) end)))

-- The search from the entry; the last item of `frontier` is popped, and is written first.
unfoldable pub search_from : ℕ → Edges → List String → List String → List String
search_from zero edges reachable frontier = reachable
search_from (suc fuel) edges reachable [] = reachable
search_from (suc fuel) edges reachable (n ∷ frontier) =
    let skipped = search_from fuel edges reachable frontier in
    let visited = search_from fuel edges (n ∷ reachable) (reverse (edges n) ++ frontier) in
    if elem n reachable then skipped else visited

-- The targets of all nodes together.
unfoldable pub target_count : Edges → List String → ℕ
target_count edges [] = 0
target_count edges (n ∷ ns) = length (edges n) + target_count edges ns

-- Every pop takes one item of the frontier, and every node pushes its targets once: the entry and
-- all targets are fuel enough.
unfoldable pub reachable_from : Edges → List String → String → List String
unfolding search_from target_count
reachable_from edges ns entry =
    if elem entry ns
    then search_from (suc (suc (target_count edges ns))) edges [] (entry ∷ [])
    else []

-- sorted(…)
abbrev pub insert_sorted : String → List String → List String
insert_sorted x [] = x ∷ []
insert_sorted x (y ∷ ys) = elim (compare x y) [
  | Ordering.gt ↦ y ∷ insert_sorted x ys
  | _ ↦ x ∷ y ∷ ys
]

unfoldable pub sorted : List String → List String
sorted [] = []
sorted (x ∷ xs) = insert_sorted x (sorted xs)

abbrev pub ends_walk : List Node → String → Bool
ends_walk ns id = elim (find_node id ns) [
  | none ↦ false
  | some n ↦ is_empty (successor_targets n.type)
]

unfoldable pub check_unreachable : List Node → List String → List Diagnostic
unfolding sorted
check_unreachable ns reachable =
    for_names (error_at "V6_UNREACHABLE") (sorted (keep (λ id. not (elem id reachable)) (ids ns)))

unfoldable pub check_terminal : List Node → List String → List Diagnostic
check_terminal ns reachable =
    if not (is_empty reachable) && not (any (ends_walk ns) reachable)
    then error_of "V6_NO_TERMINAL"
    else []

unfoldable pub check_source : List String → String → String → List Diagnostic
check_source order id source =
    if ((source == "item") || (source == "input")) || not (elem source order)
    then []
    else if leb (position id order) (position source order)
    then error_at "V6_FORWARD_REF" id
    else []

unfoldable pub check_forward : List Node → List String → List Diagnostic
unfolding check_source node_reference_sources
check_forward ns order =
    for_nodes (λ n. for_names (check_source order n.id) (node_reference_sources n.type)) ns

unfoldable pub check_reachability : WosoolProgram → List Diagnostic
unfolding reachable_from check_unreachable check_terminal check_forward edges_of
check_reachability p =
    let ns = p.pipeline in
    let edges = edges_of ns in
    let reachable = reachable_from edges (ids ns) p.entry in
    check_unreachable ns reachable
    ++ check_terminal ns reachable
    ++ (if is_acyclic edges (ids ns) then check_forward ns (topological edges (ids ns)) else [])
