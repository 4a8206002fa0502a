-- ===== src/Kernel/Context.antt =====
-- src/nilscript/kernel/context.py: the world that a program is validated against.
use nilscript.Base.{Bool, String, Option, none, some, List, [], elem, lookup}
use nilscript.Sdk.Grants.{scope_allows}

-- What the validator reads of a hint schema: `properties` with their `type`, `required`, and
-- whether `additionalProperties` is other than False.
pub record HintSchema : Type 0 where
  pub properties : List (String × Option String)
  pub required : List String
  pub allow_extra : Bool

pub record SkillSpec : Type 0 where
  pub required_verbs : List String
  pub hint_schema : HintSchema
  pub deprecated : Bool

-- A response schema: `type`, `properties`, and `items`. `any_schema` is {}.
mutual
  pub data Schema : Type 0 where
    any_schema : Schema
    schema : Option String → Properties → Schema → Schema

  pub data Properties : Type 0 where
    no_properties : Properties
    property : String → Schema → Properties → Properties

pub record ValidationContext : Type 0 where
  pub skills : List (String × SkillSpec)
  pub read_verbs : List String
  pub workspaces : List (String × List String)
  pub query_responses : List (String × Schema)

abbrev pub skill : ValidationContext → String → Option SkillSpec
skill ctx name = lookup name ctx.skills

-- A workspace that is not known has no scope.
abbrev pub scopes_of : Option (List String) → List String
scopes_of none = []
scopes_of (some scopes) = scopes

unfoldable pub verb_allowed : ValidationContext → String → String → Bool
verb_allowed ctx workspace verb = scope_allows (scopes_of (lookup workspace ctx.workspaces)) verb

abbrev pub is_read_verb : ValidationContext → String → Bool
is_read_verb ctx verb = elem verb ctx.read_verbs

abbrev pub response_schema_for : ValidationContext → String → Option Schema
response_schema_for ctx verb = lookup verb ctx.query_responses
