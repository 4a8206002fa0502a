-- ===== src/Automation/Scheduler.antt =====
-- src/nilscript/automation/scheduler.py: events and ticks of the clock become fires. `parse_trigger`
-- is an argument, with `none` for a ValidationError; the clock gives the two readings of each fire.
pub mod Done
pub mod Newest
pub mod Loop
pub mod Once
mod Examples
use nilscript.Base.{
  ℕ, suc, Bool, true, false, String, ◌==◌, Option, none, some, List, [], ◌∷◌, ltb, if◌then◌else◌,
}
use Prim.Native.Nat.{Ordering}
use nilscript.Kernel.Guards.Compare.{compare_text}
use nilscript.ControlPlane.Automations.{Automation, active_automations}
use nilscript.ControlPlane.Runs.{Run, Runs}
use nilscript.Automation.Dispatch.{Trace, Store, Ran, Fired, fire_manual}
use nilscript.Automation.Triggers
use nilscript.Automation.Triggers.{
  Trigger, schedule, event, manual, Envelope, event_matches, event_fire_key, schedule_due,
  schedule_fire_key,
}
use nilscript.Automation.Triggers.Clock.{Moment}

-- ORDER BY workspace, automation_id
abbrev pub comes_first : {J : Type 0} → Automation J → Automation J → Bool
unfolding compare_text
comes_first a b = elim (compare_text a.workspace b.workspace) [
  | Ordering.lt ↦ true
  | Ordering.gt ↦ false
  | Ordering.eq ↦ elim (compare_text a.automation_id b.automation_id) [
    | Ordering.gt ↦ false
    | _ ↦ true
  ]
]

abbrev pub placed : {J : Type 0} → Automation J → List (Automation J) → List (Automation J)
placed a [] = a ∷ []
placed a (b ∷ rows) = let rest = placed a rows in if comes_first a b then a ∷ b ∷ rows else b ∷ rest

abbrev pub in_order : {J : Type 0} → List (Automation J) → List (Automation J)
in_order [] = []
in_order (a ∷ rows) = placed a (in_order rows)

-- The later of a time and another, if there is another.
abbrev pub later : ℕ → Option ℕ → Option ℕ
later t none = some t
later t (some u) = if ltb t u then some u else some t

-- The time of the newest run of an automation: `list_runs` with a limit of 1.
unfoldable pub last_started : String → String → Runs Trace → Option ℕ
last_started ws id [] = none
last_started ws id ((run_id, run) ∷ runs) =
    let rest = last_started ws id runs in
    if run.workspace == ws
    then (if run.automation_id == id then later run.started_at rest else rest)
    else rest

-- The store, the world, what was fired, and whether the loop came to its end.
abbrev pub Dispatched : Type 0 → Type 0 → Type 0
Dispatched J W = Store J × W × List Fired × Bool

-- What a loop does with one automation: nothing, a fire under a key, or an exception.
pub data Step : Type 0 where
  skip aborted : Step
  fire : String → Step

module _ {J W : Type 0} (runner : J → String → W → Ran × W) where
  abbrev pub with_fired : Fired → Dispatched J W → Dispatched J W
  with_fired f (store, world, fired, ended) = (store, world, f ∷ fired, ended)

  -- A step for one automation, at two readings of the clock, and then the rest of the loop.
  unfoldable pub take_step :
      Step
      → Automation J
      → String
      → ℕ × ℕ
      → (Store J → W → Dispatched J W)
      → Store J
      → W
      → Dispatched J W
  unfolding fire_manual
  take_step aborted auto by times rest store world = (store, world, [], false)
  take_step skip auto by times rest store world = rest store world
  take_step (fire key) auto by (started, ended) rest store world =
      let (store', world', result) =
        fire_manual runner store world auto.workspace auto.automation_id key by started ended in
      with_fired result (rest store' world')

  -- The loop over the automations that were read at its start, which are fired as `by`.
  unfoldable pub fire_each :
      (Store J → Automation J → Step)
      → String
      → List (Automation J)
      → (ℕ → ℕ × ℕ)
      → Store J
      → W
      → Dispatched J W
  unfolding take_step
  fire_each step by [] clock store world = (store, world, [], true)
  fire_each step by (auto ∷ autos) clock store world =
      take_step (step store auto) auto by (clock 0) (fire_each step by autos (λ n. clock (suc n)))
        store world

module _ {J : Type 0} (parse_trigger : J → Option Trigger) where
  abbrev pub fire_if : String → Bool → Step
  fire_if key true = fire key
  fire_if key false = skip

  abbrev pub matched : String → Option Bool → Step
  matched key none = aborted
  matched key (some b) = fire_if key b

  abbrev pub event_trigger : Envelope → Option Trigger → Step
  unfolding event_matches event_fire_key
  event_trigger e none = aborted
  event_trigger e (some (event verb kind filter)) =
      matched (event_fire_key e) (event_matches verb kind filter e)
  event_trigger e (some (schedule cron seconds)) = skip
  event_trigger e (some manual) = skip

  abbrev pub workspace_of : Option String → String
  workspace_of none = ""
  workspace_of (some ws) = ws

  unfoldable pub event_step : Envelope → Store J → Automation J → Step
  unfolding event_matches event_fire_key
  event_step e store auto =
      if auto.workspace == workspace_of e.workspace
      then event_trigger e (parse_trigger auto.trigger)
      else skip

  abbrev pub schedule_trigger : Moment → Option ℕ → Option Trigger → Step
  unfolding schedule_due schedule_fire_key
  schedule_trigger now last none = aborted
  schedule_trigger now last (some (schedule cron seconds)) =
      fire_if (schedule_fire_key cron now) (schedule_due cron seconds last now)
  schedule_trigger now last (some (event verb kind filter)) = skip
  schedule_trigger now last (some manual) = skip

  unfoldable pub schedule_step : Moment → Store J → Automation J → Step
  unfolding last_started schedule_due schedule_fire_key
  schedule_step now store auto =
      schedule_trigger now (last_started auto.workspace auto.automation_id store.runs)
        (parse_trigger auto.trigger)

-- The grant of the events that a fired run itself produces.
abbrev pub is_own : Option String → Bool
is_own none = false
is_own (some grant) = grant == "control-plane"

module _ {J W : Type 0} (parse_trigger : J → Option Trigger)
    (runner : J → String → W → Ran × W) where
  unfoldable pub dispatch_event : Envelope → String → (ℕ → ℕ × ℕ) → Store J → W → Dispatched J W
  unfolding active_automations fire_each event_step
  dispatch_event e by clock store world =
      let rest =
        fire_each runner (event_step parse_trigger e) by
          (in_order (active_automations store.automations)) clock store world in
      if is_own e.grant then (store, world, [], true) else rest

  unfoldable pub run_due_schedules : Moment → String → (ℕ → ℕ × ℕ) → Store J → W → Dispatched J W
  unfolding active_automations fire_each schedule_step
  run_due_schedules now by clock store world =
      fire_each runner (schedule_step parse_trigger now) by
        (in_order (active_automations store.automations)) clock store world
