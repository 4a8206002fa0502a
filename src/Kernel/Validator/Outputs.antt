-- ===== src/Kernel/Validator/Outputs.antt =====
-- src/nilscript/kernel/validator.py: V5, references into the typed output of a query.
use nilscript.Base.{Bool, false, String, ◌==◌, Option, none, some, List, [], ◌∷◌, if◌then◌else◌}
use nilscript.Kernel.Value.{dict}
use nilscript.Kernel.Program.{
  NodeType, action, query, condition, parallel, foreach, await_approval, wait, notify, Node,
  find_node, WosoolProgram,
}
use nilscript.Kernel.References.{Segment, name, index, Reference}
use nilscript.Kernel.References.Collect.{iter_full_references}
use nilscript.Kernel.Diagnostics.{Diagnostic, error_at}
use nilscript.Kernel.Context.{
  Schema, any_schema, schema, Properties, no_properties, property, ValidationContext,
  response_schema_for,
}
use nilscript.Kernel.Validator.Passes.{for_nodes, for_references}

abbrev pub kind_is : String → Option String → Bool
kind_is k none = false
kind_is k (some kind) = kind == k

unfoldable pub get_property : String → Properties → Option Schema
get_property k no_properties = none
get_property k (property j s ps) = if j == k then some s else get_property k ps

abbrev pub kind_of : Schema → Option String
kind_of any_schema = none
kind_of (schema kind ps items) = kind

abbrev pub properties_of : Schema → Properties
properties_of any_schema = no_properties
properties_of (schema kind ps items) = ps

abbrev pub items_of : Schema → Schema
items_of any_schema = any_schema
items_of (schema kind ps items) = items

unfoldable pub walk_output : String → Schema → List Segment → List Diagnostic
unfolding get_property
walk_output id s [] = []
walk_output id s (index i ∷ segments) =
    if kind_is "array" (kind_of s)
    then walk_output id (items_of s) segments
    else error_at "V5_PATH_SHAPE_MISMATCH" id
walk_output id s (name k ∷ segments) =
    if kind_is "object" (kind_of s)
    then elim (get_property k (properties_of s)) [
      | none ↦ error_at "V5_OUTPUT_FIELD_UNKNOWN" id
      | some t ↦ walk_output id t segments
    ]
    else error_at "V5_PATH_SHAPE_MISMATCH" id

-- Whether a reference names the output of its source, and the path behind it.
abbrev pub output_path : List Segment → Option (List Segment)
output_path [] = none
output_path (name k ∷ segments) = if k == "output" then some segments else none
output_path (index i ∷ segments) = none

-- The verb of a source that is a query node.
abbrev pub query_verb : Option Node → Option String
query_verb none = none
query_verb (some n) = elim n.type [ query q ↦ some q.verb | _ ↦ none ]

unfoldable pub check_output : List Node → ValidationContext → String → Reference → List Diagnostic
unfolding walk_output
check_output ns ctx id ref = elim (query_verb (find_node ref.source ns)) [
  | none ↦ []
  | some verb ↦ elim (response_schema_for ctx verb) [
    | none ↦ []
    | some s ↦ elim (output_path ref.segments) [
      | none ↦ []
      | some segments ↦ walk_output id s segments
    ]
  ]
]

unfoldable pub outputs_node : List Node → ValidationContext → String → NodeType → List Diagnostic
unfolding check_output
outputs_node ns ctx id (action n) =
    for_references (check_output ns ctx id) (iter_full_references (dict n.args))
outputs_node ns ctx id (query n) =
    for_references (check_output ns ctx id) (iter_full_references (dict n.args))
outputs_node ns ctx id (condition n) = []
outputs_node ns ctx id (parallel n) = []
outputs_node ns ctx id (foreach n) = []
outputs_node ns ctx id (await_approval n) = []
outputs_node ns ctx id (wait n) = []
outputs_node ns ctx id (notify n) = []

unfoldable pub check_output_references : WosoolProgram → ValidationContext → List Diagnostic
unfolding outputs_node
check_output_references p ctx = for_nodes (λ n. outputs_node p.pipeline ctx n.id n.type) p.pipeline
