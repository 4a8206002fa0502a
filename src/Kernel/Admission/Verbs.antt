-- ===== src/Kernel/Admission/Verbs.antt =====
-- Which verbs an admitted program runs, and with which arguments (src/nilscript/kernel/validator.py,
-- V4 and V5).
use nilscript.Base.{
  ◌≡◌, inl, inr, true, false, String, some, List, [], elem, Bool-cases, Option-cases, arith,
  if◌then◌else◌,
}
use nilscript.Kernel.Value.{Fields}
use nilscript.Kernel.Program.{
  Node, ActionNode, QueryNode, NodeType, action, query, find_node, WosoolProgram,
}
use nilscript.Kernel.Diagnostics.{Diagnostic, ok, has_errors, has_errors-append, error_at}
use nilscript.Kernel.Context.{ValidationContext, SkillSpec, skill, verb_allowed, is_read_verb}
use nilscript.Kernel.Validator.{validate}
use nilscript.Kernel.Validator.Passes.{for_names}
use nilscript.Kernel.Validator.Whitelist.{check_whitelist, whitelist_node, scope_denied}
use nilscript.Kernel.Validator.Arguments.{check_arguments, arguments_node, check_args, has_field}
use nilscript.Kernel.Admission.Passes.{validate-Clean, for_nodes-find_node, for_names-elem}

abbrev pub no_diagnostic : List Diagnostic
no_diagnostic = []

granted :
    (p : WosoolProgram) (ctx : ValidationContext) (id verb : String)
    → has_errors (scope_denied p ctx id verb) ≡ false
    → verb_allowed ctx p.workspace verb ≡ true
unfolding has_errors
granted p ctx id verb h = elim (Bool-cases (verb_allowed ctx p.workspace verb)) [
  | inl t ↦ t
  | inr f ↦ absurd (ground (arith, h))
]

-- An action node that passes V4.
action_granted :
    (p : WosoolProgram) (ctx : ValidationContext) (id : String) (a : ActionNode)
    → has_errors (whitelist_node p ctx id (action a)) ≡ false
    → (spec : SkillSpec) × (skill ctx a.skill ≡ some spec)
      × (elem a.verb spec.required_verbs ≡ true)
      × (verb_allowed ctx p.workspace a.verb ≡ true)
unfolding whitelist_node has_errors
action_granted p ctx id a h = elim (Option-cases (skill ctx a.skill)) [
  | inl e ↦ absurd (ground (arith, h, e))
  | inr (spec, e) ↦ elim (Bool-cases (elem a.verb spec.required_verbs)) [
    | inl t ↦ (
      spec,
      e,
      t,
      elim (Bool-cases (verb_allowed ctx p.workspace a.verb)) [
        | inl g ↦ g
        | inr g ↦ absurd (ground (arith, h, e, t, g))
      ],
    )
    | inr f ↦ absurd (ground (arith, h, e, f))
  ]
]

query_granted :
    (p : WosoolProgram) (ctx : ValidationContext) (id : String) (q : QueryNode)
    → has_errors (whitelist_node p ctx id (query q)) ≡ false
    → (is_read_verb ctx q.verb ≡ true) × (verb_allowed ctx p.workspace q.verb ≡ true)
unfolding whitelist_node has_errors
query_granted p ctx id q h = elim (Bool-cases (is_read_verb ctx q.verb)) [
  | inr f ↦ absurd (ground (arith, h, f))
  | inl t ↦ (t, granted p ctx id q.verb (ground (arith, h, t)))
]

whitelisted :
    (p : WosoolProgram) (ctx : ValidationContext) (id : String) (n : Node)
    → (validate p ctx).result ≡ ok
    → find_node id p.pipeline ≡ some n
    → has_errors (whitelist_node p ctx n.id n.type) ≡ false
unfolding check_whitelist
whitelisted p ctx id n h f =
    for_nodes-find_node (λ m. whitelist_node p ctx m.id m.type) id p.pipeline n
      (validate-Clean p ctx h).whitelist f

at_type :
    (p : WosoolProgram) (ctx : ValidationContext) (n : Node) (t : NodeType)
    → has_errors (whitelist_node p ctx n.id n.type) ≡ false
    → n.type ≡ t
    → has_errors (whitelist_node p ctx n.id t) ≡ false
at_type p ctx n t h e = cc

args_at_type :
    (ctx : ValidationContext) (n : Node) (t : NodeType)
    → has_errors (arguments_node ctx n.id n.type) ≡ false
    → n.type ≡ t
    → has_errors (arguments_node ctx n.id t) ≡ false
args_at_type ctx n t h e = cc

present_ok :
    (id k : String) (args : Fields)
    → has_errors (if has_field k args then no_diagnostic else error_at "V5_ARG_MISSING" id) ≡ false
    → has_field k args ≡ true
unfolding has_errors
present_ok id k args h = elim (Bool-cases (has_field k args)) [
  | inl t ↦ t
  | inr f ↦ absurd (ground (arith, h, f))
]

required_ok :
    (ctx : ValidationContext) (id : String) (a : ActionNode) (spec : SkillSpec)
    → has_errors (arguments_node ctx id (action a)) ≡ false
    → skill ctx a.skill ≡ some spec
    → has_errors (
        for_names
          (λ j. if has_field j a.args then no_diagnostic else error_at "V5_ARG_MISSING" id)
          spec.hint_schema.required)
      ≡ false
unfolding arguments_node
required_ok ctx id a spec h e = ground (
  arith,
  h,
  e,
  has_errors-append
      (for_names (λ j. if has_field j a.args then no_diagnostic else error_at "V5_ARG_MISSING" id)
        spec.hint_schema.required)
      (check_args spec.hint_schema id a.args),
)

-- When the program is admitted, the skill of each action node is registered, the node's verb is a
-- verb of that skill, and the workspace's scopes allow the verb.
pub validate-action :
    (p : WosoolProgram) (ctx : ValidationContext) (id : String) (n : Node) (a : ActionNode)
    → (validate p ctx).result ≡ ok
    → find_node id p.pipeline ≡ some n
    → n.type ≡ action a
    → (spec : SkillSpec) × (skill ctx a.skill ≡ some spec)
      × (elem a.verb spec.required_verbs ≡ true)
      × (verb_allowed ctx p.workspace a.verb ≡ true)
validate-action p ctx id n a h f t =
    action_granted p ctx n.id a (at_type p ctx n (action a) (whitelisted p ctx id n h f) t)

-- When the program is admitted, the verb of each query node is a registered read verb and the
-- workspace's scopes allow it.
pub validate-query :
    (p : WosoolProgram) (ctx : ValidationContext) (id : String) (n : Node) (q : QueryNode)
    → (validate p ctx).result ≡ ok
    → find_node id p.pipeline ≡ some n
    → n.type ≡ query q
    → (is_read_verb ctx q.verb ≡ true) × (verb_allowed ctx p.workspace q.verb ≡ true)
validate-query p ctx id n q h f t =
    query_granted p ctx n.id q (at_type p ctx n (query q) (whitelisted p ctx id n h f) t)

required_present :
    (ctx : ValidationContext) (id : String) (a : ActionNode) (spec : SkillSpec) (k : String)
    → has_errors (arguments_node ctx id (action a)) ≡ false
    → skill ctx a.skill ≡ some spec
    → elem k spec.hint_schema.required ≡ true
    → has_field k a.args ≡ true
unfolding arguments_node
required_present ctx id a spec k h e m =
    let required =
      λ (j : String). if has_field j a.args then no_diagnostic else error_at "V5_ARG_MISSING" id in
    present_ok id k a.args
      (for_names-elem required k spec.hint_schema.required (required_ok ctx id a spec h e) m)

-- When the program is admitted, an action node has every argument that its skill's hint schema
-- requires.
pub validate-required :
    (p : WosoolProgram) (ctx : ValidationContext) (id : String) (n : Node) (a : ActionNode)
    (spec : SkillSpec) (k : String)
    → (validate p ctx).result ≡ ok
    → find_node id p.pipeline ≡ some n
    → n.type ≡ action a
    → skill ctx a.skill ≡ some spec
    → elem k spec.hint_schema.required ≡ true
    → has_field k a.args ≡ true
unfolding check_arguments
validate-required p ctx id n a spec k h f t e m =
    required_present ctx n.id a spec k
      (args_at_type ctx n (action a)
        (for_nodes-find_node (λ m. arguments_node ctx m.id m.type) id p.pipeline n
          (validate-Clean p ctx h).arguments f)
        t)
      e m
