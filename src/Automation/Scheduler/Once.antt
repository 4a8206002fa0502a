-- ===== src/Automation/Scheduler/Once.antt =====
-- An event that is delivered again, or a tick at the same time, runs nothing.
use mathlib.Core.Path.{subst}
use nilscript.Base.{
  ℕ, Bool, true, false, String, Option, none, some, List, [], ◌≡◌, refl, sym, ap, inl, inr,
  if◌then◌else◌,
}
use nilscript.ControlPlane.Automations.{Automation, active_automations}
use nilscript.Automation.Dispatch.{Store, Ran}
use nilscript.Automation.Scheduler.Loop.{
  Settles, Steady, Handled, run_loop, run_loop-automations, run_loop-Handled, Keeps, run_loop-Keeps,
}
use nilscript.Automation.Scheduler.Newest.{since, schedule_due-since}
use nilscript.Automation.Triggers.{
  Trigger, schedule, event, manual, Envelope, schedule_due, schedule_fire_key,
}
use nilscript.Automation.Triggers.Clock.{Moment}
use nilscript.Automation.Scheduler.{
  Step, skip, aborted, fire, Dispatched, fire_each, event_step, schedule_step, schedule_trigger,
  fire_if, in_order, is_own, dispatch_event, run_due_schedules,
}

abbrev autos_of : {J : Type 0} → Store J → List (Automation J)
autos_of s = in_order (active_automations s.automations)

-- The loop over the armed automations, and again where it ended.
module _ {J W : Type 0} (runner : J → String → W → Ran × W) (step : Store J → Automation J → Step)
    (steady : Steady step) (by by' : String) (clock clock' : ℕ → ℕ × ℕ) (store : Store J)
    (world : W) where
  abbrev first : Dispatched J W
  first = run_loop runner step by (autos_of store) clock store world

  -- The second loop goes over the same automations.
  run_again :
      (autos : List (Automation J))
      → autos ≡ autos_of store
      → Keeps runner step by' (run_loop runner step by' autos clock') first.0 first.1
  run_again autos same = run_loop-Keeps runner step by' autos clock' first.0 first.1 (
      subst (λ l. Handled step first.0 l) (sym same)
        (run_loop-Handled runner step by steady (autos_of store) clock store world))

  run_loop-again :
      Keeps runner step by' (run_loop runner step by' (autos_of first.0) clock') first.0 first.1
  run_loop-again = run_again (autos_of first.0) (
      ap (λ (rows : List (Automation J)). in_order (active_automations rows))
        (run_loop-automations runner step by (autos_of store) clock store world))

Settles-refl : (st : Step) → Settles st st
Settles-refl aborted = refl
Settles-refl skip = refl
Settles-refl (fire key) = inr refl

module _ {J : Type 0} (parse_trigger : J → Option Trigger) where
  fire_if-Settles :
      (key : String) (b c : Bool)
      → (b ≡ false → c ≡ false)
      → Settles (fire_if parse_trigger key b) (fire_if parse_trigger key c)
  fire_if-Settles key false c h = ap (fire_if parse_trigger key) (h refl)
  fire_if-Settles key true false h = inl refl
  fire_if-Settles key true true h = inr refl

  schedule_trigger-Settles :
      (now : Moment) (last later : Option ℕ) (trigger : Option Trigger)
      → since last later ≡ true
      → Settles
          (schedule_trigger parse_trigger now last trigger)
          (schedule_trigger parse_trigger now later trigger)
  unfolding schedule_due schedule_fire_key
  schedule_trigger-Settles now last later none h = refl
  schedule_trigger-Settles now last later (some (schedule cron seconds)) h =
      fire_if-Settles _ _ _ (schedule_due-since cron seconds last later now h)
  schedule_trigger-Settles now last later (some (event verb kind filter)) h = refl
  schedule_trigger-Settles now last later (some manual) h = refl

  event_step-Steady : (e : Envelope) → Steady (event_step parse_trigger e)
  unfolding event_step
  event_step-Steady e s s' h auto = Settles-refl (event_step parse_trigger e s auto)

  schedule_step-Steady : (now : Moment) → Steady (schedule_step parse_trigger now)
  unfolding schedule_step
  schedule_step-Steady now s s' h auto =
      schedule_trigger-Settles now _ _ (parse_trigger auto.trigger)
        (h auto.workspace auto.automation_id)

module _ {J W : Type 0} (parse_trigger : J → Option Trigger) (runner : J → String → W → Ran × W)
    (by by' : String) (clock clock' : ℕ → ℕ × ℕ) (store : Store J) (world : W) where
  again_of :
      (e : Envelope) (own : Bool)
      → let step = event_step parse_trigger e in
        let dispatch = λ (b : String) (c : ℕ → ℕ × ℕ) (s : Store J) (w : W).
          if own then (s, w, [], true) else fire_each runner step b (autos_of s) c s w in
        Keeps runner step by'
          (dispatch by' clock')
          (dispatch by clock store world).0
          (dispatch by clock store world).1
  again_of e true = (refl, refl)
  again_of e false =
      run_loop-again runner (event_step parse_trigger e) (event_step-Steady parse_trigger e) by by'
        clock clock' store world

  -- Delivering an event again, with nothing else in between, changes neither the store nor the
  -- world, whoever delivers it and whenever, also when a trigger or the envelope is malformed.
  pub dispatch_event-again :
      (e : Envelope)
      → let first = dispatch_event parse_trigger runner e by clock store world in
        let second = dispatch_event parse_trigger runner e by' clock' first.0 first.1 in
        (second.0 ≡ first.0) × (second.1 ≡ first.1)
  unfolding dispatch_event
  dispatch_event-again e = again_of e (is_own e.grant)

  -- A second tick at the same time, with nothing else in between, changes neither the store nor
  -- the world, whoever makes it and whatever the clock gives as the times of the fires, also when
  -- two versions of an automation are armed or a trigger is malformed.
  pub run_due_schedules-again :
      (now : Moment)
      → let first = run_due_schedules parse_trigger runner now by clock store world in
        let second = run_due_schedules parse_trigger runner now by' clock' first.0 first.1 in
        (second.0 ≡ first.0) × (second.1 ≡ first.1)
  unfolding run_due_schedules
  run_due_schedules-again now =
      run_loop-again runner (schedule_step parse_trigger now)
        (schedule_step-Steady parse_trigger now) by by' clock clock' store world
