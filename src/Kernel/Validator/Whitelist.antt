-- ===== src/Kernel/Validator/Whitelist.antt =====
-- src/nilscript/kernel/validator.py: V4, skills and verbs are registered and granted.
use nilscript.Base.{String, none, some, List, [], ◌++◌, elem, if◌then◌else◌}
use nilscript.Kernel.Program.{
  NodeType, action, query, condition, parallel, foreach, await_approval, wait, notify,
  WosoolProgram,
}
use nilscript.Kernel.Diagnostics.{Diagnostic, error_at, warning_at}
use nilscript.Kernel.Context.{ValidationContext, skill, verb_allowed, is_read_verb}
use nilscript.Kernel.Validator.Passes.{for_nodes}

-- V4.
abbrev pub scope_denied : WosoolProgram → ValidationContext → String → String → List Diagnostic
scope_denied p ctx id verb =
    if verb_allowed ctx p.workspace verb then [] else error_at "V4_SCOPE_DENIED" id

unfoldable pub whitelist_node :
    WosoolProgram → ValidationContext → String → NodeType → List Diagnostic
whitelist_node p ctx id (action n) = elim (skill ctx n.skill) [
  | none ↦ error_at "V4_UNKNOWN_SKILL" id
  | some spec ↦
      if elem n.verb spec.required_verbs
      then scope_denied p ctx id n.verb
        ++ (if spec.deprecated then warning_at "V4_DEPRECATED_VERB" id else [])
      else error_at "V4_UNKNOWN_SKILL" id
]
whitelist_node p ctx id (query n) =
    if is_read_verb ctx n.verb then scope_denied p ctx id n.verb else error_at "V4_UNKNOWN_VERB" id
whitelist_node p ctx id (condition n) = []
whitelist_node p ctx id (parallel n) = []
whitelist_node p ctx id (foreach n) = []
whitelist_node p ctx id (await_approval n) = []
whitelist_node p ctx id (wait n) = []
whitelist_node p ctx id (notify n) = []

unfoldable pub check_whitelist : WosoolProgram → ValidationContext → List Diagnostic
unfolding whitelist_node
check_whitelist p ctx = for_nodes (λ n. whitelist_node p ctx n.id n.type) p.pipeline
