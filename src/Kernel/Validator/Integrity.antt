-- ===== src/Kernel/Validator/Integrity.antt =====
-- src/nilscript/kernel/validator.py: V2, the targets are nodes, and V3, there is no cycle.
use nilscript.Base.{String, none, some, List, [], ◌++◌, elem, keep, if◌then◌else◌}
use nilscript.Kernel.Program.{Node, find_node, ids, WosoolProgram}
use nilscript.Kernel.Graph.{successor_targets}
use nilscript.Kernel.Acyclicity.{Edges, is_acyclic}
use nilscript.Kernel.Diagnostics.{Diagnostic, error_at, error_of}
use nilscript.Kernel.Validator.Passes.{for_nodes, for_names}

-- V2.
unfoldable pub check_target : List String → String → String → List Diagnostic
check_target node_ids id target = if elem target node_ids then [] else error_at "V2_DANGLING_REF" id

unfoldable pub check_references : WosoolProgram → List Diagnostic
unfolding check_target
check_references p =
    (if elem p.entry (ids p.pipeline) then [] else error_of "V2_DANGLING_REF")
    ++ for_nodes (λ n. for_names (check_target (ids p.pipeline) n.id) (successor_targets n.type))
        p.pipeline

-- V3.
unfoldable pub edges_of : List Node → Edges
edges_of ns id = elim (find_node id ns) [
  | none ↦ []
  | some n ↦ keep (λ t. elem t (ids ns)) (successor_targets n.type)
]

unfoldable pub check_acyclicity : WosoolProgram → List Diagnostic
unfolding edges_of
check_acyclicity p =
    if is_acyclic (edges_of p.pipeline) (ids p.pipeline) then [] else error_of "V3_CYCLE"
