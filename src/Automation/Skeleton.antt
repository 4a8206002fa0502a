-- ===== src/Automation/Skeleton.antt =====
-- src/nilscript/automation/skeleton.py: the validation context of a live adapter, from the verbs that
-- its discovery lists.
use nilscript.Base.{
  ◌≡◌, ap, ◌∙◌, Bool-cases, true, false, ◌||◌, inl, inr, String, ◌==◌, Option, none, some, List, [],
  ◌∷◌, elem, lookup, insert, lookup-insert, arith, eq_iff, if◌then◌else◌,
}
use nilscript.Kernel.Program.{WosoolProgram, Node, ActionNode, action, find_node}
use nilscript.Kernel.Diagnostics.{ok}
use nilscript.Kernel.Context.{HintSchema, SkillSpec, ValidationContext}
use nilscript.Kernel.Validator.{validate}
use nilscript.Kernel.Admission.Verbs.{validate-action}
use nilscript.Sdk.Grants.{profile_of}

abbrev pub Groups : Type 0
Groups = List (String × List String)

-- by_skill.setdefault(skill, set()).add(verb)
abbrev pub add_verb : String → List String → List String
add_verb verb group = if elem verb group then group else verb ∷ group

abbrev pub group_or_empty : Option (List String) → List String
group_or_empty none = []
group_or_empty (some group) = group

unfoldable pub by_skill : List String → Groups → Groups
unfolding profile_of
by_skill [] groups = groups
by_skill (verb ∷ verbs) groups =
    let name = profile_of verb in
    by_skill verbs (insert name (add_verb verb (group_or_empty (lookup name groups))) groups)

-- `_PERMISSIVE_HINT`
abbrev pub permissive_hint : HintSchema
permissive_hint = record { properties = []; required = []; allow_extra = true }

abbrev pub spec_of : List String → SkillSpec
spec_of group = record { required_verbs = group; hint_schema = permissive_hint; deprecated = false }

abbrev pub specs_of : Groups → List (String × SkillSpec)
specs_of [] = []
specs_of ((name, group) ∷ groups) = (name, spec_of group) ∷ specs_of groups

-- The verbs are those items of the list that are texts.
unfoldable pub context_from_skeleton : String → List String → ValidationContext
unfolding by_skill
context_from_skeleton workspace verbs = record {
  skills = specs_of (by_skill verbs []);
  read_verbs = verbs;
  workspaces = (workspace, verbs) ∷ [];
  query_responses = [];
}

lookup-specs_of :
    (name : String) (groups : Groups) (spec : SkillSpec)
    → lookup name (specs_of groups) ≡ some spec
    → lookup name groups ≡ some spec.required_verbs
lookup-specs_of name [] spec h = absurd (cc)
lookup-specs_of name ((n, group) ∷ groups) spec h = ground (arith, lookup-specs_of name groups spec)

elem-add_verb :
    (v verb : String) (group : List String)
    → elem verb (add_verb v group) ≡ true
    → ((v == verb) || elem verb group) ≡ true
elem-add_verb v verb group h = ground (arith, eq_iff v verb)

-- A verb of a group is one of the verbs that were grouped, or was in the group before.
elem-by_skill :
    (verbs : List String) (groups : Groups) (name verb : String)
    → elem verb (group_or_empty (lookup name (by_skill verbs groups))) ≡ true
    → (elem verb verbs || elem verb (group_or_empty (lookup name groups))) ≡ true
unfolding by_skill
elem-by_skill [] groups name verb h = h
elem-by_skill (v ∷ verbs) groups name verb h =
    let n = profile_of v in
    let more = add_verb v (group_or_empty (lookup n groups)) in
    elim (Bool-cases (n == name)) [
      | inl same ↦ ground (
        arith,
        ap (λ x. group_or_empty (lookup x groups)) ((eq_iff n name).0 same),
        ap group_or_empty (lookup-insert n name more groups),
        elem-by_skill verbs (insert n more groups) name verb h,
        elem-add_verb v verb (group_or_empty (lookup n groups)),
      )
      | inr other ↦ ground (
        arith,
        ap group_or_empty (lookup-insert n name more groups),
        elem-by_skill verbs (insert n more groups) name verb h,
      )
    ]

-- When a plan is admitted against what an adapter lists, the verb of each of its actions is one of the
-- listed verbs.
pub validate-context_from_skeleton :
    (p : WosoolProgram) (workspace : String) (verbs : List String) (id : String) (n : Node)
    (a : ActionNode)
    → (validate p (context_from_skeleton workspace verbs)).result ≡ ok
    → find_node id p.pipeline ≡ some n
    → n.type ≡ action a
    → elem a.verb verbs ≡ true
unfolding context_from_skeleton
validate-context_from_skeleton p workspace verbs id n a h f t =
    let (spec, known, member, allowed) =
      validate-action p (context_from_skeleton workspace verbs) id n a h f t in
    let group = lookup-specs_of a.skill (by_skill verbs []) spec known in
    ground (
      arith,
      elem-by_skill verbs [] a.skill a.verb
          (ap (λ o. elem a.verb (group_or_empty o)) group ∙ member),
    )
