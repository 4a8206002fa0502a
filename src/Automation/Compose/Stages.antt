-- ===== src/Automation/Compose/Stages.antt =====
-- The stages of a composed run are run in order, up to the first that does not complete.
use mathlib.Core.Path.{subst}
use mathlib.Core.List.{append-nil, append_assoc}
use nilscript.Base.{
  Bool, true, false, String, Option, none, some, List, [], ◌∷◌, ◌++◌, ◌≡◌, refl, sym, ◌∙◌,
  if◌then◌else◌,
}
use Prim.Native.String.{◌++◌ as str_append}
use nilscript.Kernel.Value.{Fields, end}
use nilscript.Kernel.RunResult.{RunResult}
use nilscript.Automation.Dispatch.{Ran, returned, failed}
use nilscript.Automation.Compose.{
  Stage, ComposedPlan, StageRun, stage_run, ComposedResult, Composed, result, raised, after_stage,
  run_stages, run_composed, set_field, stage_input,
}

-- The reports of a run of stages, with whether it completed and where it stopped.
pub data IsChain {J : Type 0} : List (Stage J) → List StageRun → Bool → Option String → Type 0 where
  all_run : IsChain [] [] true none
  goes_on :
      {s : Stage J} {stages : List (Stage J)} {x : StageRun} {xs : List StageRun} {b : Bool}
      {o : Option String}
      → x.name ≡ s.name
      → x.adapter ≡ s.adapter
      → x.completed ≡ true
      → IsChain stages xs b o
      → IsChain (s ∷ stages) (x ∷ xs) b o
  stops_at :
      {s : Stage J} {stages : List (Stage J)} {x : StageRun}
      → x.name ≡ s.name
      → x.adapter ≡ s.adapter
      → x.completed ≡ false
      → IsChain (s ∷ stages) (x ∷ []) false (some s.name)

-- A result goes on from what was done before; an exception says nothing.
abbrev Continues : {J : Type 0} → List (Stage J) → List StageRun → Composed → Type 0
Continues stages done (raised e) = Unit
Continues stages done (result r) =
    (xs : List StageRun) × (r.stages ≡ done ++ xs) × IsChain stages xs r.completed r.blocked_at

module _ {J W : Type 0} (run_stage : String → J → String → Fields → W → Ran × W) where
  step-Continues :
      (s : Stage J) (stages : List (Stage J)) (done : List StageRun) (now : Fields)
      (rest : Composed × W) (r : RunResult) (world : W)
      → Continues stages (done ++ stage_run s r ∷ []) rest.0
      → (b : Bool) → r.completed ≡ b
      → Continues
          (s ∷ stages)
          done
          (if b then rest else (
            result (record {
              completed = false;
              stages = done ++ stage_run s r ∷ [];
              context = now;
              blocked_at = some s.name;
            }),
            world,
          )).0
  step-Continues s stages done now (raised e, w) r world h true c = tt
  step-Continues s stages done now (result x, w) r world h true c = (
    stage_run s r ∷ h.0,
    h.1 ∙ append_assoc done (stage_run s r ∷ []) h.0,
    goes_on refl refl c h.2,
  )
  step-Continues s stages done now rest r world h false c =
      (stage_run s r ∷ [], refl, stops_at refl refl c)

  ran-Continues :
      (s : Stage J) (stages : List (Stage J)) (done : List StageRun) (ctx : Fields)
      (rest : List StageRun → Fields → W → Composed × W)
      → ((reports : List StageRun) (now : Fields) (w : W)
          → Continues stages reports (rest reports now w).0)
      → (ran : Ran × W) → Continues (s ∷ stages) done (after_stage run_stage s done ctx rest ran).0
  unfolding set_field
  ran-Continues s stages done ctx rest h (failed e, world) = tt
  ran-Continues s stages done ctx rest h (returned r, world) =
      step-Continues s stages done _ _ r world (h _ _ world) r.completed refl

  run_stages-Continues :
      (run_id : String) (stages : List (Stage J)) (done : List StageRun) (ctx : Fields) (world : W)
      → Continues stages done (run_stages run_stage run_id stages done ctx world).0
  unfolding run_stages
  run_stages-Continues run_id [] done ctx world = ([], sym (append-nil done), all_run)
  run_stages-Continues run_id (s ∷ stages) done ctx world =
      ran-Continues s stages done ctx (run_stages run_stage run_id stages)
        (run_stages-Continues run_id stages)
        (run_stage s.adapter s.plan (str_append run_id (str_append ":" s.name))
          (stage_input s.input_from ctx) world)

-- What a composed run that returns reports: the stages in order, each with its own name and adapter;
-- all of them, completed, when the run has completed, and else those up to the first that did not
-- complete, at which the run is blocked.
pub run_composed-IsChain :
    {J W : Type 0} (run_stage : String → J → String → Fields → W → Ran × W)
    (composed : ComposedPlan J) (run_id : String) (world : W) (r : ComposedResult)
    → (run_composed run_stage composed run_id world).0 ≡ result r
    → IsChain composed.stages r.stages r.completed r.blocked_at
unfolding run_composed
run_composed-IsChain run_stage composed run_id world r h =
    let (xs, same, chain) : Continues composed.stages [] (result r) =
      subst (Continues composed.stages []) h
        (run_stages-Continues run_stage run_id composed.stages [] end world) in
    subst (λ l. IsChain composed.stages l r.completed r.blocked_at) (sym same) chain
