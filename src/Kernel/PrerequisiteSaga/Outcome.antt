-- ===== src/Kernel/PrerequisiteSaga/Outcome.antt =====
-- What `run_prerequisite_saga` of src/nilscript/kernel/prerequisites.py reports as committed.
use nilscript.Base.{
  ◌≡◌, refl, sym, ◌∙◌, Bool, String, Option, none, some, List, [], ◌∷◌, ◌++◌, insert, Bool-cases,
  inl, inr,
}
use mathlib.Core.List.{append-nil}
use mathlib.Core.Path.{subst⁻¹}
use nilscript.Kernel.Prerequisites.{PlanStep}
use nilscript.Kernel.PrerequisiteSaga.{
  CommittedRef, SagaStatus, completed, failed, SagaOutcome, merged, finish_goal, after_create,
  saga_from, run_prerequisite_saga,
}

abbrev pub verbs : {J : Type 0} → List (CommittedRef J) → List String
verbs [] = []
verbs (c ∷ cs) = c.verb ∷ verbs cs

abbrev pub step_verbs : List PlanStep → List String
step_verbs [] = []
step_verbs (s ∷ steps) = s.verb ∷ step_verbs steps

-- The committed verbs are the first ones of the plan: all of them if the saga has completed or the
-- goal itself has failed, and those before the step that has failed otherwise.
unfoldable pub IsAccount : List String → String → SagaStatus → Option String → List String → Type 0
IsAccount plan goal completed none done = done ≡ plan
IsAccount plan goal completed (some v) done = ⊥
IsAccount plan goal failed none done = ⊥
IsAccount plan goal failed (some v) done =
    (rest : List String) × (plan ++ goal ∷ [] ≡ done ++ v ∷ rest)

verbs-snoc :
    {J : Type 0} (cs : List (CommittedRef J)) (c : CommittedRef J) (d : List String)
    → verbs (cs ++ c ∷ []) ++ d ≡ verbs cs ++ c.verb ∷ d
verbs-snoc [] c d = refl
verbs-snoc (x ∷ cs) c d = cc (verbs-snoc cs c d)

IsAccount-cons :
    (v : String) (plan : List String) (goal : String) (st : SagaStatus) (o : Option String)
    (done : List String)
    → IsAccount plan goal st o done
    → IsAccount (v ∷ plan) goal st o (v ∷ done)
unfolding IsAccount
IsAccount-cons v plan goal completed none done h = cc h
IsAccount-cons v plan goal completed (some x) done h = h
IsAccount-cons v plan goal failed none done h = h
IsAccount-cons v plan goal failed (some x) done (rest, e) = (rest, cc e)

module _ {J B World : Type 0} (create : String → List (String × J) → World → B × World)
    (is_failed : B → Bool) (created_id : B → String → J)
    (target_arg source_field : PlanStep → String) where
  Accounts : List PlanStep → String → List (CommittedRef J) → SagaOutcome J B × World → Type 0
  Accounts plan goal before r =
      (done : List String) × (verbs r.0.committed ≡ verbs before ++ done)
      × IsAccount (step_verbs plan) goal r.0.status r.0.failed_step done

  finish_goal-Accounts :
      (goal : String) (before : List (CommittedRef J)) (r : B × World)
      → Accounts [] goal before
          (finish_goal create is_failed created_id target_arg source_field goal before r)
  unfolding Accounts IsAccount
  finish_goal-Accounts goal before (result, w) = elim (Bool-cases (is_failed result)) [
    | inl t ↦ rw t ([], sym (append-nil (verbs before)), ([], refl))
    | inr f ↦ rw f ([], sym (append-nil (verbs before)), refl)
  ]

  extend-Accounts :
      (step : PlanStep) (plan : List PlanStep) (goal : String) (before : List (CommittedRef J))
      (id : J) (r : SagaOutcome J B × World)
      → Accounts plan goal
          (before ++ (record { verb = step.verb; entity = step.entity; record_id = id }) ∷ [])
          r
      → Accounts (step ∷ plan) goal before r
  unfolding Accounts
  extend-Accounts step plan goal before id r (done, e, h) = (
    step.verb ∷ done,
    e ∙ verbs-snoc before (record { verb = step.verb; entity = step.entity; record_id = id }) done,
    IsAccount-cons step.verb (step_verbs plan) goal r.0.status r.0.failed_step done h,
  )

  after_create-Accounts :
      (more : List (String × J) → List (CommittedRef J) → World → SagaOutcome J B × World)
      (step : PlanStep) (plan : List PlanStep) (goal : String) (carried : List (String × J))
      (before : List (CommittedRef J)) (r : B × World)
      → ((c : List (String × J)) (b : List (CommittedRef J)) (w : World)
          → Accounts plan goal b (more c b w))
      → Accounts (step ∷ plan) goal before (
          after_create create is_failed created_id target_arg source_field more step carried before
            r)
  unfolding Accounts IsAccount
  after_create-Accounts more step plan goal carried before (result, w) h =
      elim (Bool-cases (is_failed result)) [
        | inl t ↦ rw t ([], sym (append-nil (verbs before)), (step_verbs plan ++ goal ∷ [], refl))
        | inr f ↦
            let id = created_id result (source_field step) in
            let c = insert (target_arg step) id carried in
            let b =
              before ++ (record { verb = step.verb; entity = step.entity; record_id = id }) ∷ [] in
            rw f (extend-Accounts step plan goal before id (more c b w) (h c b w))
      ]

  saga_from-Accounts :
      (goal : String) (args : List (String × J)) (plan : List PlanStep)
      (carried : List (String × J)) (before : List (CommittedRef J)) (w : World)
      → Accounts plan goal before (
          saga_from create is_failed created_id target_arg source_field goal args plan carried
            before w)
  unfolding saga_from
  saga_from-Accounts goal args [] carried before w =
      finish_goal-Accounts goal before (create goal (merged args carried) w)
  saga_from-Accounts goal args (step ∷ plan) carried before w =
      after_create-Accounts
        (saga_from create is_failed created_id target_arg source_field goal args plan) step plan
        goal carried before (create step.verb carried w)
        (λ c b v. saga_from-Accounts goal args plan c b v)

  at_done :
      (plan : List String) (goal : String) (st : SagaStatus) (o : Option String) (d e : List String)
      → e ≡ d
      → IsAccount plan goal st o d
      → IsAccount plan goal st o e
  at_done plan goal st o d e q h = subst⁻¹ (λ (x : List String). IsAccount plan goal st o x) q h

  -- The verbs that the saga reports as committed are the first ones of the plan, in order: all of
  -- them when it has completed, and when it has failed, those before the verb that it reports as
  -- failed, in the plan with the goal behind it.
  pub run_prerequisite_saga-IsAccount :
      (goal : String) (args : List (String × J)) (plan : List PlanStep) (w : World)
      → IsAccount
          (step_verbs plan)
          goal
          (run_prerequisite_saga create is_failed created_id target_arg source_field goal args plan
            w).0.status
          (run_prerequisite_saga create is_failed created_id target_arg source_field goal args plan
            w).0.failed_step
          (verbs
            (run_prerequisite_saga create is_failed created_id target_arg source_field goal args
              plan w).0.committed)
  unfolding run_prerequisite_saga Accounts
  run_prerequisite_saga-IsAccount goal args plan w =
      let (done, e, h) = saga_from-Accounts goal args plan [] [] w in
      let r =
        saga_from create is_failed created_id target_arg source_field goal args plan [] [] w in
      at_done (step_verbs plan) goal r.0.status r.0.failed_step done (verbs r.0.committed) e h
