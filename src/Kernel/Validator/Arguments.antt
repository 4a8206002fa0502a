-- ===== src/Kernel/Validator/Arguments.antt =====
-- src/nilscript/kernel/validator.py: V5, the arguments of an action.
use nilscript.Base.{
  Bool, true, false, not, ◌&&◌, String, ◌==◌, Option, none, some, List, [], ◌++◌, lookup,
  if◌then◌else◌,
}
use nilscript.Kernel.Value.{Value, null, bool, int, str, list, dict, Fields, end, field, get_field}
use nilscript.Kernel.Program.{
  NodeType, action, query, condition, parallel, foreach, await_approval, wait, notify,
  WosoolProgram,
}
use nilscript.Kernel.References.{parse_reference}
use nilscript.Kernel.Diagnostics.{Diagnostic, error_at}
use nilscript.Kernel.Context.{HintSchema, ValidationContext, skill}
use nilscript.Kernel.Validator.Passes.{for_nodes, for_names}

-- V5.
abbrev pub has_field : String → Fields → Bool
has_field k fs = elim (get_field k fs) [ none ↦ false | some v ↦ true ]

abbrev pub is_string : Value → Bool
is_string (str s) = true
is_string null = false
is_string (bool b) = false
is_string (int n) = false
is_string (list xs) = false
is_string (dict fs) = false

-- The declared type of a property that is a literal.
abbrev pub check_type : String → Option String → Value → List Diagnostic
check_type id none v = []
check_type id (some expected) v =
    if (expected == "string") && not (is_string v) then error_at "V5_ARG_TYPE" id else []

unfoldable pub check_arg : HintSchema → String → String → Value → List Diagnostic
check_arg s id key v = elim (lookup key s.properties) [
  | none ↦ if s.allow_extra then [] else error_at "V5_ARG_TYPE" id
  | some expected ↦ elim (parse_reference v) [ some ref ↦ [] | none ↦ check_type id expected v ]
]

unfoldable pub check_args : HintSchema → String → Fields → List Diagnostic
unfolding check_arg
check_args s id end = []
check_args s id (field k v fs) = check_arg s id k v ++ check_args s id fs

unfoldable pub arguments_node : ValidationContext → String → NodeType → List Diagnostic
unfolding check_args
arguments_node ctx id (action n) = elim (skill ctx n.skill) [
  | none ↦ []
  | some spec ↦
      for_names (λ k. if has_field k n.args then [] else error_at "V5_ARG_MISSING" id)
        spec.hint_schema.required
      ++ check_args spec.hint_schema id n.args
]
arguments_node ctx id (query n) = []
arguments_node ctx id (condition n) = []
arguments_node ctx id (parallel n) = []
arguments_node ctx id (foreach n) = []
arguments_node ctx id (await_approval n) = []
arguments_node ctx id (wait n) = []
arguments_node ctx id (notify n) = []

unfoldable pub check_arguments : WosoolProgram → ValidationContext → List Diagnostic
unfolding arguments_node
check_arguments p ctx = for_nodes (λ n. arguments_node ctx n.id n.type) p.pipeline
