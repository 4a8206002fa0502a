-- ===== src/Automation/Composed.antt =====
-- `fire_composed` of src/nilscript/automation/dispatch.py: one fire of an armed composed automation.
-- `parse_composed` is an argument, with the text of its exception.
use nilscript.Base.{
  ℕ, Bool, true, false, String, ◌==◌, Option, none, some, List, ◌≡◌, refl, ap, ◌∙◌, arith, eq_refl,
  eq_iff, Option-cases, inl, inr, if◌then◌else◌,
}
use nilscript.Kernel.Value.{Fields}
use nilscript.ControlPlane.Automations.{Automation, get_automation}
use nilscript.ControlPlane.Runs.{
  Run, Runs, Start, start_run, finish_run, get_run, opened, closed, get_run-start_run,
  start_run-new, start_run-old, get_run-finish_run,
}
use nilscript.Automation.Dispatch.{Ran, start_of}
use nilscript.Automation.Compose.{
  ComposedPlan, ComposedResult, Composed, result, raised, run_composed,
}

-- `_classify_composed`; the name of a stage that stops a run is not empty.
unfoldable pub classify_composed : ComposedResult → String
classify_composed r = if r.completed then "completed" else elim r.blocked_at [
  | none ↦ "partial"
  | some stage ↦ if stage == "" then "partial" else "blocked"
]

pub record ComposedStore (J : Type 0) : Type 0 where
  pub automations : List (Automation J)
  pub runs : Runs Composed

-- The envelope that a fire returns.
pub data FiredComposed : Type 0 where
  no_such_automation not_composed : FiredComposed
  not_active : String → FiredComposed
  replayed fired : Option (Run Composed) → FiredComposed
  runner_failed : String → Option (Run Composed) → FiredComposed

unfoldable pub state_of : Composed → String
unfolding classify_composed
state_of (raised e) = "failed"
state_of (result r) = classify_composed r

abbrev pub envelope_of : Composed → Option (Run Composed) → FiredComposed
envelope_of (raised e) run = runner_failed e run
envelope_of (result r) run = fired run

pub data Parsed (P : Type 0) : Type 0 where
  plan : ComposedPlan P → Parsed P
  malformed : String → Parsed P

module _ {J P W : Type 0} (parse_composed : J → Parsed P)
    (run_stage : String → P → String → Fields → W → Ran × W) where
  unfoldable pub run_parsed : Parsed P → String → W → Composed × W
  unfolding run_composed
  run_parsed (malformed e) run_id world = (raised e, world)
  run_parsed (plan composed) run_id world = run_composed run_stage composed run_id world

  -- The rest of a fire of an active automation.
  unfoldable pub fire_stages :
      ComposedStore J → W → Automation J → Start → ℕ → ℕ → ComposedStore J × W × FiredComposed
  unfolding run_parsed state_of
  fire_stages store world auto s started ended =
      let (runs, new) = start_run store.runs s started in
      if new
      then (let (ran, world') = run_parsed (parse_composed auto.plan) s.run_id world in
          let runs' = (finish_run runs s.run_id (state_of ran) (some ran) ended).0 in
          (record store { runs = runs' }, world', envelope_of ran (get_run runs' s.run_id)))
      else (store, world, replayed (get_run store.runs s.run_id))

  unfoldable pub fire_composed :
      ComposedStore J
      → W
      → String
      → String
      → String
      → String
      → ℕ
      → ℕ
      → ComposedStore J × W × FiredComposed
  unfolding fire_stages
  fire_composed store world ws id key by started ended =
      elim (get_automation store.automations ws id none) [
        | none ↦ (store, world, no_such_automation)
        | some auto ↦
            if auto.kind == "composed"
            then (if auto.state == "active"
                then fire_stages store world auto (start_of auto ws id key by) started ended
                else (store, world, not_active auto.state))
            else (store, world, not_composed)
      ]

  -- The row of a run that has just ended.
  fired_run :
      (store : ComposedStore J) (world : W) (auto : Automation J) (s : Start) (started ended : ℕ)
      → let store' = (fire_stages store world auto s started ended).0 in
        (run : Run Composed) × (get_run store'.runs s.run_id ≡ some run)
  unfolding fire_stages
  fired_run store world auto s started ended = elim (Option-cases (get_run store.runs s.run_id)) [
    | inr (run, old) ↦ (run, ground (arith, start_run-old store.runs s started old))
    | inl new ↦
        let ran = (run_parsed (parse_composed auto.plan) s.run_id world).0 in
        let is_open : get_run (start_run store.runs s started).0 s.run_id
            ≡ some (opened s started) =
          get_run-start_run store.runs s started s.run_id
          ∙ ground (arith, start_run-new store.runs s started new, eq_refl s.run_id) in
        (
          closed (opened s started) (state_of ran) (some ran) ended,
          ground (
            arith,
            start_run-new store.runs s started new,
            get_run-finish_run (start_run store.runs s started).0 (opened s started) s.run_id
                (state_of ran) (some ran) ended is_open s.run_id,
            eq_refl s.run_id,
          ),
        )
  ]

  fire_stages-automations :
      (store : ComposedStore J) (world : W) (auto : Automation J) (s : Start) (started ended : ℕ)
      → (fire_stages store world auto s started ended).0.automations ≡ store.automations
  unfolding fire_stages
  fire_stages-automations store world auto s started ended = by_new (start_run store.runs s started)
    where
      by_new :
          (opening : Runs Composed × Bool)
          → let (ran, world') = run_parsed (parse_composed auto.plan) s.run_id world in
            let runs' = (finish_run opening.0 s.run_id (state_of ran) (some ran) ended).0 in
            let after : ComposedStore J × W × FiredComposed =
              if opening.1
              then (record store { runs = runs' }, world', envelope_of ran (get_run runs' s.run_id))
              else (store, world, replayed (get_run store.runs s.run_id)) in
            after.0.automations ≡ store.automations
      by_new (runs, true) = refl
      by_new (runs, false) = refl

  -- Where the run is recorded, nothing is run.
  fire_stages-old :
      (store : ComposedStore J) (world : W) (auto : Automation J) (s : Start) (started ended : ℕ)
      {run : Run Composed}
      → get_run store.runs s.run_id ≡ some run
      → fire_stages store world auto s started ended ≡ (store, world, replayed (some run))
  unfolding fire_stages
  fire_stages-old store world auto s started ended old =
      rw (fire_stages, start_run-old store.runs s started old, old)

  module _ (ws id key by by' : String) (started ended started' ended' : ℕ) where
    fires_at :
        (store : ComposedStore J) (world : W) (auto : Automation J) (by : String) (t u : ℕ)
        → get_automation store.automations ws id none ≡ some auto
        → auto.kind ≡ "composed"
        → auto.state ≡ "active"
        → fire_composed store world ws id key by t u
          ≡ fire_stages store world auto (start_of auto ws id key by) t u
    unfolding fire_composed
    fires_at store world auto by t u latest composed armed =
        ground
          (arith, (eq_iff auto.kind "composed").1 composed, (eq_iff auto.state "active").1 armed)

    -- Firing a composed automation again under its key, by whomever and whenever, runs no stage and
    -- stores nothing, when it is armed and not written to in between, whatever the first fire did.
    pub fire_composed-again :
        (store : ComposedStore J) (world : W) (auto : Automation J)
        → get_automation store.automations ws id none ≡ some auto
        → auto.kind ≡ "composed"
        → auto.state ≡ "active"
        → let first = fire_composed store world ws id key by started ended in
          let second = fire_composed first.0 first.1 ws id key by' started' ended' in
          (second.0 ≡ first.0) × (second.1 ≡ first.1)
    fire_composed-again store world auto latest composed armed =
        let s = start_of auto ws id key by in
        let done = fire_stages store world auto s started ended in
        let once = fires_at store world auto by started ended latest composed armed in
        let (run, recorded) = fired_run store world auto s started ended in
        let latest' =
          ap (λ (l : List (Automation J)). get_automation l ws id none)
            (fire_stages-automations store world auto s started ended)
          ∙ latest in
        let twice =
          fires_at done.0 done.1 auto by' started' ended' latest' composed armed
          ∙ fire_stages-old done.0 done.1 auto (start_of auto ws id key by') started' ended'
              recorded in
        rw (once, twice) (refl, refl)
