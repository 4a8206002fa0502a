-- ===== src/Kernel/Validator.antt =====
-- `validate` of src/nilscript/kernel/validator.py. Of V1, the schema gate, the size of the pipeline
-- and the uniqueness of its ids are checked here; the rest of it is in the types of the program.
pub mod Passes
pub mod Integrity
pub mod Whitelist
pub mod Arguments
pub mod Outputs
pub mod Reachability
use nilscript.Base.{
  ℕ, zero, suc, ◌+◌, ◌≡◌, refl, Bool, true, false, not, ◌||◌, ◌&&◌, String, ◌==◌, Option, none,
  some, List, [], ◌∷◌, ◌++◌, elem, lookup, keep, any, length, reverse, eqb, leb, ltb, if◌then◌else◌,
  arith,
}
use nilscript.Base.Names.{position}
use nilscript.Kernel.Value.{
  Value, null, bool, int, str, list, dict, Items, nil, cons, Fields, end, field, get_field,
}
use nilscript.Kernel.Program.{
  ActionNode, QueryNode, ConditionNode, ParallelNode, ForeachNode, AwaitApprovalNode, WaitNode,
  NotifyNode, NodeType, action, query, condition, parallel, foreach, await_approval, wait, notify,
  Node, find_node, ids, ids_are_unique, fits_pipeline, WosoolProgram,
}
use nilscript.Kernel.Graph.{successor_targets}
use nilscript.Kernel.Acyclicity.{Edges, topological, is_acyclic}
use nilscript.Kernel.References.{Segment, name, index, Reference, parse_reference}
use nilscript.Kernel.References.Collect.{iter_references, iter_full_references, references_in_text}
use nilscript.Kernel.Diagnostics.{
  Diagnostic, ValidationResult, error_at, error_of, warning_at, has_errors, of,
}
use nilscript.Kernel.Context.{
  HintSchema, SkillSpec, Schema, any_schema, schema, Properties, no_properties, property,
  ValidationContext, skill, verb_allowed, is_read_verb, response_schema_for,
}
use nilscript.Kernel.Validator.Integrity.{check_references, check_acyclicity}
use nilscript.Kernel.Validator.Whitelist.{check_whitelist}
use nilscript.Kernel.Validator.Arguments.{check_arguments}
use nilscript.Kernel.Validator.Outputs.{check_output_references}
use nilscript.Kernel.Validator.Reachability.{check_reachability}

unfoldable pub validate : WosoolProgram → ValidationContext → ValidationResult
validate p ctx =
    if fits_pipeline p.pipeline && ids_are_unique p.pipeline
    then of (
        check_references p
        ++ check_acyclicity p
        ++ check_whitelist p ctx
        ++ check_arguments p ctx
        ++ check_output_references p ctx
        ++ check_reachability p)
    else of (error_of "V1_SCHEMA")
