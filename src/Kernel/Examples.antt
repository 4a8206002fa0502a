-- ===== src/Kernel/Examples.antt =====
-- The theorems about the kernel at concrete inputs.
use nilscript.Base.{
  ℕ, ◌≡◌, refl, ◌<◌, true, false, String, ◌==◌, none, some, List, [], ◌∷◌, elem, arith, eq_iff,
}
use nilscript.Kernel.Value.{null, str, dict, end, field, get_field}
use nilscript.Kernel.Program.{
  ActionNode, QueryNode, action, query, notify, Node, find_node, WosoolProgram,
}
use nilscript.Kernel.Diagnostics.{ok}
use nilscript.Kernel.Context.{ValidationContext, SkillSpec, skill}
use nilscript.Kernel.Validator.{validate}
use nilscript.Kernel.Program.{fits_pipeline, ids_are_unique}
use nilscript.Kernel.Diagnostics.{of, has_errors}
use nilscript.Kernel.Validator.Integrity.{check_references, check_acyclicity, edges_of}
use nilscript.Kernel.Graph.{successor_targets}
use nilscript.Kernel.Acyclicity.{is_acyclic}
use nilscript.Kernel.Validator.Whitelist.{check_whitelist}
use nilscript.Kernel.Context.{verb_allowed}
use nilscript.Sdk.Grants.{scope_allows}
use nilscript.Kernel.Validator.Arguments.{check_arguments}
use nilscript.Kernel.References.{parse_reference, resolve}
use nilscript.Kernel.References.Collect.{iter_full_references, iter_references, references_in_text}
use nilscript.Kernel.Validator.Outputs.{check_output_references}
use nilscript.Kernel.Validator.Reachability.{check_reachability}
use nilscript.Kernel.Executor.{Client, Guard, status_body, Walk, usable_id}
use nilscript.Kernel.Executor.Steps.{walk}
use nilscript.Kernel.Executor.Unwind.{compensate, undone}
use nilscript.Kernel.Executor.Unwind.Prefix.{compensate-Undoable, Undoable}
use nilscript.Base.{◌+◌, if◌then◌else◌}
use nilscript.Base.Names.{position}
use nilscript.Kernel.Graph.{Output}
use nilscript.Kernel.Acyclicity.{Edges, topological}
use nilscript.Kernel.Acyclicity.Loop.{Closed}
use nilscript.Kernel.Acyclicity.Order.{is_acyclic-position}
use nilscript.Kernel.Acyclicity.Complete.{ranked-is_acyclic}
use nilscript.Kernel.Validator.Reachability.{node_reference_sources}
use nilscript.Kernel.Admission.Targets.{validate-entry, place}
use nilscript.Kernel.Admission.Verbs.{validate-action}
use nilscript.Kernel.Admission.Sources.{validate-source, validate-Way, Way}
use nilscript.Automation.Skeleton.{context_from_skeleton, validate-context_from_skeleton}
use nilscript.Kernel.Executor.Unwind.Outcome.{execution_lost, execute-raised}
use nilscript.Kernel.Admission.Sources.{here, along}
use nilscript.Kernel.Executor.Unwind.{execute}
use nilscript.Kernel.Executor.Steps.{walk}
use nilscript.Kernel.Value.{Fields}
use nilscript.Kernel.Executor.{outcome_dict, output_of}
use nilscript.Kernel.Graph.{next_after}

-- A query, an action on its output, and a notification.
abbrev read : QueryNode
read = record { verb = "crm.list_clients"; args = end; next = some "step_2"; on_error = none }

abbrev read_node : Node
read_node = record { id = "step_1"; type = query read }

abbrev create : ActionNode
create = record {
  skill = "crm";
  verb = "crm.create_client";
  args = field "name" (str "$.step_1.output.first") end;
  next = some "step_3";
  on_error = none;
  compensate_with = some (record { verb = "crm.delete_client"; args = end });
}

abbrev create_node : Node
create_node = record { id = "step_2"; type = action create }

abbrev notify_node : Node
notify_node = record {
  id = "step_3";
  type = notify (record { message = record { ar = "done"; en = none }; next = none });
}

abbrev program : WosoolProgram
program = record {
  workspace = "acme";
  locale = "ar";
  entry = "step_1";
  pipeline = read_node ∷ create_node ∷ notify_node ∷ [];
  on_error = "compensate";
}

abbrev crm : SkillSpec
crm = record {
  required_verbs = "crm.create_client" ∷ [];
  hint_schema = record {
    properties = ("name", some "string") ∷ [];
    required = "name" ∷ [];
    allow_extra = false;
  };
  deprecated = false;
}

abbrev world : ValidationContext
world = record {
  skills = ("crm", crm) ∷ [];
  read_verbs = "crm.list_clients" ∷ [];
  workspaces = ("acme", "crm.*" ∷ []) ∷ [];
  query_responses = [];
}

admitted : (validate program world).result ≡ ok
unfolding validate fits_pipeline ids_are_unique of has_errors check_references check_acyclicity
    edges_of successor_targets is_acyclic check_whitelist verb_allowed scope_allows check_arguments
    parse_reference iter_full_references iter_references references_in_text check_output_references
    check_reachability find_node get_field
admitted = refl

at_read : find_node "step_1" program.pipeline ≡ some read_node
unfolding find_node
at_read = refl

at_create : find_node "step_2" program.pipeline ≡ some create_node
unfolding find_node
at_create = refl

reads : elem "step_1" (node_reference_sources create_node.type) ≡ true
unfolding node_reference_sources iter_references
reads = refl

abbrev yes : Output
yes = record { truthy = true; text = "approved" }

-- a → b → c
abbrev chain : Edges
chain u = if u == "a" then "b" ∷ [] else if u == "b" then "c" ∷ [] else []

abbrev chain_nodes : List String
chain_nodes = "a" ∷ "b" ∷ "c" ∷ []

abbrev chain_rank : String → ℕ
chain_rank u = if u == "a" then 0 else if u == "b" then 1 else 2

chain_falls : (u v : String) → elem v (chain u) ≡ true → chain_rank u < chain_rank v
chain_falls u v h = ground (
  arith,
  h,
  eq_iff u "a",
  eq_iff u "b",
  eq_iff "b" v,
  eq_iff "c" v,
  eq_iff v "a",
  eq_iff v "b",
  eq_iff "b" "a",
  eq_iff "c" "a",
  eq_iff "c" "b",
)

chain-Closed : Closed chain chain_nodes
unfolding Closed
chain-Closed u v h = ground (arith, h, eq_iff "b" v, eq_iff "c" v)

ranked-is_acyclic_example : is_acyclic chain chain_nodes ≡ true
ranked-is_acyclic_example =
    ranked-is_acyclic chain chain_nodes (refl, (refl, (refl, tt))) chain-Closed chain_rank
      chain_falls

chain_sorted : is_acyclic chain chain_nodes ≡ true
unfolding is_acyclic
chain_sorted = refl

is_acyclic-position_example :
    position "a" (topological chain chain_nodes) < position "b" (topological chain chain_nodes)
is_acyclic-position_example =
    is_acyclic-position chain chain_nodes (refl, (refl, (refl, tt))) chain-Closed chain_sorted "a"
      "b" refl refl

validate-entry_example : (n : Node) × (find_node "step_1" program.pipeline ≡ some n)
validate-entry_example = validate-entry program world admitted

validate-action_example :
    (spec : SkillSpec) × (skill world "crm" ≡ some spec)
    × (elem "crm.create_client" spec.required_verbs ≡ true)
    × (verb_allowed world "acme" "crm.create_client" ≡ true)
validate-action_example =
    validate-action program world "step_2" create_node create admitted at_create refl

-- The verbs that the adapter of the program lists.
abbrev listed : List String
listed = "crm.create_client" ∷ "crm.list_clients" ∷ "crm.delete_client" ∷ []

admitted_by_skeleton : (validate program (context_from_skeleton "acme" listed)).result ≡ ok
unfolding validate fits_pipeline ids_are_unique of has_errors check_references check_acyclicity
    edges_of successor_targets is_acyclic check_whitelist verb_allowed scope_allows check_arguments
    parse_reference iter_full_references iter_references references_in_text check_output_references
    check_reachability find_node get_field context_from_skeleton
admitted_by_skeleton = refl

validate-context_from_skeleton_example : elem "crm.create_client" listed ≡ true
validate-context_from_skeleton_example =
    validate-context_from_skeleton program "acme" listed "step_2" create_node create
      admitted_by_skeleton at_create refl

validate-source_example : place program "step_1" < place program "step_2"
validate-source_example =
    validate-source program world "step_2" create_node read_node "step_1" admitted at_create reads
      refl refl at_read

validate-Way_example : Way (edges_of program.pipeline) "step_1" "step_3"
validate-Way_example = validate-Way program world "step_3" admitted refl

-- A client that accepts everything and counts the sentences that write.
abbrev willing : Client ℕ
willing = record {
  propose =
      λ verb args w. (some (record { is_refusal = false; id = some "p"; code = none }), w + 1);
  commit = λ i key w. (some (status_body "p" (some "executed")), w + 1);
  query = λ verb args w. (some (dict (field "first" (str "Ali") end)), w);
  status = λ i w. (some (some "approved"), w);
}

abbrev no_guard : Guard
no_guard = λ expression ctx item. none

abbrev start : Walk ℕ
start = record { world = 0; ctx = []; notifications = []; committed = [] }

abbrev committed_one : Walk ℕ
committed_one = record { world = 2; ctx = []; notifications = []; committed = "step_2" ∷ [] }

undone_one : (compensate willing no_guard program "run" 20 committed_one).0 ≡ undone ("step_2" ∷ [])
unfolding compensate find_node usable_id resolve
undone_one = refl

compensate-Undoable_example : Undoable program ("step_2" ∷ []) ("step_2" ∷ [])
compensate-Undoable_example =
    compensate-Undoable willing no_guard program "run" 20 committed_one ("step_2" ∷ []) undone_one

execute-raised_example : execution_lost (execute willing no_guard program "run" 20 none 0) ≡ false
execute-raised_example = execute-raised willing no_guard program "run" 20 world none 0 admitted

ran :
    elem "step_2"
      (walk willing no_guard program "run" 20 256 0 (some "step_1") null start).1.committed
    ≡ true
unfolding walk find_node next_after output_of resolve usable_id outcome_dict
ran = refl

chain-Way : Way chain "a" "b"
chain-Way = along "a" "b" here refl

abbrev fixed_id : String → Fields → List String → String
fixed_id = λ verb args w. "p"

abbrev no_args : ActionNode
no_args = record create { args = field "name" (str "Ali") end }

abbrev first_element : Walk (List String)
first_element = record { world = []; ctx = []; notifications = []; committed = [] }
