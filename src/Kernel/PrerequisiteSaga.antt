-- ===== src/Kernel/PrerequisiteSaga.antt =====
-- `run_prerequisite_saga` of src/nilscript/kernel/prerequisites.py. The host's callables are
-- arguments: `create` takes the state of the world outside and returns the next one. What the saga
-- reads of a result is whether it failed; `J` is the type of values. A step's two properties
-- `target_arg` and `source_field` are arguments, since only they read its `carry`.
pub mod Outcome
use nilscript.Base.{
  ℕ, Bool, true, false, String, Option, none, some, List, [], ◌∷◌, ◌++◌, insert, if◌then◌else◌,
}
use nilscript.Kernel.Prerequisites.{PlanStep}

pub record CommittedRef (J : Type 0) : Type 0 where
  pub verb : String
  pub entity : String
  pub record_id : J

pub data SagaStatus : Type 0 where
  completed failed : SagaStatus

pub record SagaOutcome (J B : Type 0) : Type 0 where
  pub status : SagaStatus
  pub committed : List (CommittedRef J)
  pub goal_result : Option B
  pub failed_step : Option String

-- {**goal_args, **carried}
abbrev pub merged : {J : Type 0} → List (String × J) → List (String × J) → List (String × J)
merged args [] = args
merged args ((k, v) ∷ carried) = merged (insert k v args) carried

module _ {J B World : Type 0} (create : String → List (String × J) → World → B × World)
    (is_failed : B → Bool) (created_id : B → String → J)
    (target_arg source_field : PlanStep → String) where
  abbrev pub stopped_at : String → List (CommittedRef J) → SagaOutcome J B
  stopped_at verb committed = record {
    status = failed;
    committed = committed;
    goal_result = none;
    failed_step = some verb;
  }

  abbrev pub finish_goal : String → List (CommittedRef J) → B × World → SagaOutcome J B × World
  finish_goal goal_verb committed (result, w) =
      if is_failed result then (stopped_at goal_verb committed, w) else (
        record {
          status = completed;
          committed = committed;
          goal_result = some result;
          failed_step = none;
        },
        w,
      )

  abbrev pub after_create :
      (List (String × J) → List (CommittedRef J) → World → SagaOutcome J B × World)
      → PlanStep
      → List (String × J)
      → List (CommittedRef J)
      → B × World
      → SagaOutcome J B × World
  after_create more step carried committed (result, w) =
      let id = created_id result (source_field step) in
      let rest =
        more (insert (target_arg step) id carried)
          (committed ++ (record { verb = step.verb; entity = step.entity; record_id = id }) ∷ [])
          w in
      if is_failed result then (stopped_at step.verb committed, w) else rest

  -- The loop over the plan, then the goal.
  unfoldable pub saga_from :
      String
      → List (String × J)
      → List PlanStep
      → List (String × J)
      → List (CommittedRef J)
      → World
      → SagaOutcome J B × World
  saga_from goal_verb goal_args [] carried committed w =
      finish_goal goal_verb committed (create goal_verb (merged goal_args carried) w)
  saga_from goal_verb goal_args (step ∷ plan) carried committed w =
      after_create (saga_from goal_verb goal_args plan) step carried committed
        (create step.verb carried w)

  unfoldable pub run_prerequisite_saga :
      String → List (String × J) → List PlanStep → World → SagaOutcome J B × World
  unfolding saga_from
  run_prerequisite_saga goal_verb goal_args plan w = saga_from goal_verb goal_args plan [] [] w
