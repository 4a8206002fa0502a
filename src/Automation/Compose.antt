-- ===== src/Automation/Compose.antt =====
-- src/nilscript/automation/compose.py: one automation over several adapters, in stages. `J` is the
-- type of plans. `check` is the verdict on a stage's plan for a skeleton of type `K`, and
-- `run_stage` runs a stage: it acts on the outside world, of type `W`, and returns or raises.
pub mod Handoff
pub mod Stages
use Prim.Native.String.{◌++◌ as str_append}
use nilscript.Base.{
  Bool, true, false, not, ◌&&◌, ◌||◌, String, ◌==◌, Option, none, some, List, [], ◌∷◌, ◌++◌, elem,
  any, if◌then◌else◌,
}
use nilscript.Base.Texts.{split, split_once}
use nilscript.Kernel.Value.{
  Value, null, bool, int, str, list, dict, Items, Fields, end, field, get_field,
}
use nilscript.Kernel.RunResult.{RunResult, Refusal, Context}
use nilscript.Kernel.References.{strip_prefix}
use nilscript.Automation.Dispatch.{Ran, returned, failed}

-- `_handoff_source`
unfoldable pub handoff_source : Value → Option String
unfolding split_once
handoff_source (str s) = elim (strip_prefix "$." s) [
  | none ↦ none
  | some rest ↦ some (split_once 46 rest).0
]
handoff_source null = none
handoff_source (bool b) = none
handoff_source (int n) = none
handoff_source (list xs) = none
handoff_source (dict fs) = none

-- cursor[segment] of a dict that has it.
abbrev pub at_key : Value → String → Option Value
at_key (dict fs) k = get_field k fs
at_key null k = none
at_key (bool b) k = none
at_key (int n) k = none
at_key (str s) k = none
at_key (list xs) k = none

unfoldable pub walk_keys : Value → List String → Value
unfolding get_field
walk_keys cursor [] = cursor
walk_keys cursor (k ∷ keys) = elim (at_key cursor k) [ none ↦ null | some v ↦ walk_keys v keys ]

-- `_resolve_handoff`
unfoldable pub resolve_handoff : Value → Fields → Value
unfolding split walk_keys
resolve_handoff (str s) ctx = elim (strip_prefix "$." s) [
  | none ↦ str s
  | some path ↦ walk_keys (dict ctx) (split 46 path)
]
resolve_handoff null ctx = null
resolve_handoff (bool b) ctx = bool b
resolve_handoff (int n) ctx = int n
resolve_handoff (list xs) ctx = list xs
resolve_handoff (dict fs) ctx = dict fs

pub record Stage (J : Type 0) : Type 0 where
  pub name : String
  pub adapter : String
  pub plan : J
  pub input_from : Fields

pub record ComposedPlan (J : Type 0) : Type 0 where
  pub workspace : String
  pub stages : List (Stage J)

-- What `out_stages` says of a stage that was run.
pub record StageRun : Type 0 where
  pub name : String
  pub adapter : String
  pub completed : Bool
  pub blocked_at : Option String
  pub refusal : Option Refusal

pub record ComposedResult : Type 0 where
  pub completed : Bool
  pub stages : List StageRun
  pub context : Fields
  pub blocked_at : Option String

-- `_stage_input`
unfoldable pub stage_input : Fields → Fields → Fields
unfolding resolve_handoff
stage_input end ctx = end
stage_input (field k ref rest) ctx = field k (resolve_handoff ref ctx) (stage_input rest ctx)

-- ctx[name] = value
unfoldable pub set_field : String → Value → Fields → Fields
set_field k v end = field k v end
set_field k v (field j w rest) =
    let others = set_field k v rest in if j == k then field j v rest else field j w others

abbrev pub fields_of : Context → Fields
fields_of [] = end
fields_of ((k, v) ∷ ctx) = field k v (fields_of ctx)

abbrev pub stage_run : {J : Type 0} → Stage J → RunResult → StageRun
stage_run s r = record {
  name = s.name;
  adapter = s.adapter;
  completed = r.completed;
  blocked_at = r.blocked_at;
  refusal = r.refusal;
}

-- A result, or the text of an exception.
pub data Composed : Type 0 where
  result : ComposedResult → Composed
  raised : String → Composed

module _ {J W : Type 0} (run_stage : String → J → String → Fields → W → Ran × W) where
  abbrev pub after_stage :
      Stage J
      → List StageRun
      → Fields
      → (List StageRun → Fields → W → Composed × W)
      → Ran × W
      → Composed × W
  unfolding set_field
  after_stage s done ctx rest (failed e, world) = (raised e, world)
  after_stage s done ctx rest (returned r, world) =
      let reports = done ++ stage_run s r ∷ [] in
      let now = set_field s.name (dict (fields_of r.context)) ctx in
      if r.completed then rest reports now world else (
        result (record {
          completed = false;
          stages = reports;
          context = now;
          blocked_at = some s.name;
        }),
        world,
      )

  -- The loop of `run_composed`, with what was done before.
  unfoldable pub run_stages : String → List (Stage J) → List StageRun → Fields → W → Composed × W
  unfolding stage_input set_field
  run_stages run_id [] done ctx world =
      (result (record { completed = true; stages = done; context = ctx; blocked_at = none }), world)
  run_stages run_id (s ∷ stages) done ctx world =
      after_stage s done ctx (run_stages run_id stages) (
        run_stage s.adapter s.plan (str_append run_id (str_append ":" s.name))
          (stage_input s.input_from ctx) world)

  unfoldable pub run_composed : ComposedPlan J → String → W → Composed × W
  unfolding run_stages
  run_composed composed run_id world = run_stages run_id composed.stages [] end world

module _ {J K : Type 0} (check : String → K → J → Bool) (skeleton_for : String → Option K) where
  -- The sources of a stage's handoffs that are neither declared before it nor `input` or `item`.
  unfoldable pub stray_sources : List String → Fields → List String
  unfolding handoff_source
  stray_sources seen end = []
  stray_sources seen (field k ref rest) =
      let others = stray_sources seen rest in
      elim (handoff_source ref) [
        | none ↦ others
        | some source ↦
            if elem source seen || (source == "input") || (source == "item")
            then others
            else source ∷ others
      ]

  abbrev pub repeats : List String → Bool
  repeats [] = false
  repeats (x ∷ xs) = elem x xs || repeats xs

  abbrev pub names_of : List (Stage J) → List String
  names_of [] = []
  names_of (s ∷ stages) = s.name ∷ names_of stages

  -- Whether each stage in turn has a skeleton, a plan that is admitted, and no stray source.
  unfoldable pub stages_ok : String → List String → List (Stage J) → Bool
  unfolding stray_sources
  stages_ok ws seen [] = true
  stages_ok ws seen (s ∷ stages) =
      let rest = stages_ok ws (s.name ∷ seen) stages in
      elim (skeleton_for s.adapter) [
        | none ↦ false
        | some skeleton ↦ elim (stray_sources seen s.input_from) [
          | [] ↦ check ws skeleton s.plan && rest
          | x ∷ xs ↦ false
        ]
      ]

  -- The `ok` of `validate_composed`.
  unfoldable pub validate_composed : ComposedPlan J → Bool
  unfolding stages_ok
  validate_composed composed =
      not (repeats (names_of composed.stages)) && stages_ok composed.workspace [] composed.stages
