-- ===== src/Automation/Scheduler/Done.antt =====
-- When there is nothing left to fire under a key, and that a fire leads there.
use nilscript.Base.{
  ℕ, Bool, true, false, String, ◌==◌, Option, none, some, List, ◌≡◌, ap, ◌∙◌, ◌⊎◌, inl, inr, arith,
  eq_iff, eq_refl, Bool-cases, Option-cases, if◌then◌else◌,
}
use nilscript.ControlPlane.Automations.{Automation, get_automation}
use nilscript.ControlPlane.Runs.{Runs, get_run}
use nilscript.Automation.Dispatch.{Trace, Store, Ran, Fired, run_id_of, fire_manual}
use nilscript.Automation.Dispatch.Replay.{fire_manual-fresh, fire_manual-old}

abbrev pub is_there : {A : Type 0} → Option A → Bool
is_there none = false
is_there (some a) = true

abbrev pub recorded_or_unarmed :
    {J : Type 0} → Runs Trace → String → String → Option (Automation J) → Bool
recorded_or_unarmed runs id key none = true
recorded_or_unarmed runs id key (some auto) =
    if auto.state == "active" then is_there (get_run runs (run_id_of id auto.version key)) else true

-- A fire under this key runs nothing any more: the automation is not armed, or the run is recorded.
abbrev pub is_done : {J : Type 0} → Store J → String → String → String → Bool
is_done store ws id key =
    recorded_or_unarmed store.runs id key (get_automation store.automations ws id none)

is_done-at :
    {J : Type 0} (store : Store J) (ws id key : String) (o : Option (Automation J))
    → get_automation store.automations ws id none ≡ o
    → is_done store ws id key ≡ recorded_or_unarmed store.runs id key o
is_done-at store ws id key o h = ap (recorded_or_unarmed store.runs id key) h

module _ {J W : Type 0} (runner : J → String → W → Ran × W) (store : Store J) (world : W)
    (ws id key by : String) (started ended : ℕ) where
  abbrev pub after : Store J × W × Fired
  after = fire_manual runner store world ws id key by started ended

  -- A fire either finds that there is nothing to do, or does the first run under its key.
  fire_manual-cases :
      ((is_done store ws id key ≡ true) × (after.0 ≡ store) × (after.1 ≡ world))
      ⊎ ((auto : Automation J) × (get_automation store.automations ws id none ≡ some auto)
          × (auto.state ≡ "active")
          × (get_run store.runs (run_id_of id auto.version key) ≡ none))
  unfolding fire_manual
  fire_manual-cases = elim (Option-cases (get_automation store.automations ws id none)) [
    | inl absent ↦ inl (is_done-at store ws id key none absent, ground arith, ground arith)
    | inr (auto, latest) ↦ elim (Bool-cases (auto.state == "active")) [
      | inl armed ↦ elim (Option-cases (get_run store.runs (run_id_of id auto.version key))) [
        | inl new ↦ inr (auto, latest, (eq_iff auto.state "active").0 armed, new)
        | inr (run, old) ↦
            let replays =
              fire_manual-old runner store world ws id key by auto latest
                ((eq_iff auto.state "active").0 armed) started ended old in
            inl (
              ground (arith, is_done-at store ws id key (some auto) latest),
              ap (λ (x : Store J × W × Fired). x.0) replays,
              ap (λ (x : Store J × W × Fired). x.1) replays,
            )
      ]
      | inr paused ↦ inl (
        ground (arith, is_done-at store ws id key (some auto) latest),
        ground arith,
        ground arith,
      )
    ]
  ]

  pub after-automations : after.0.automations ≡ store.automations
  after-automations = elim fire_manual-cases [
    | inl (done, same, w) ↦ ap (λ (x : Store J). x.automations) same
    | inr (auto, latest, armed, new) ↦
        (fire_manual-fresh runner store world ws id key by auto latest armed started ended new).2
  ]

  -- A run that is recorded stays recorded.
  after-get_run :
      (j : String)
      → is_there (get_run store.runs j) ≡ true
      → is_there (get_run after.0.runs j) ≡ true
  after-get_run j h = elim fire_manual-cases [
    | inl (done, same, w) ↦ ap (λ (x : Store J). is_there (get_run x.runs j)) same ∙ h
    | inr (auto, latest, armed, new) ↦
        ap is_there (
          (fire_manual-fresh runner store world ws id key by auto latest armed started ended new).3
            j)
        ∙ ground arith
  ]

  latest_after :
      (ws' id' : String) (o : Option (Automation J))
      → get_automation store.automations ws' id' none ≡ o
      → get_automation after.0.automations ws' id' none ≡ o
  latest_after ws' id' o h =
      ap (λ (rows : List (Automation J)). get_automation rows ws' id' none) after-automations ∙ h

  pub after-is_done :
      (ws' id' key' : String)
      → is_done store ws' id' key' ≡ true
      → is_done after.0 ws' id' key' ≡ true
  after-is_done ws' id' key' h =
      elim (Option-cases (get_automation store.automations ws' id' none)) [
        | inl absent ↦ is_done-at after.0 ws' id' key' none (latest_after ws' id' none absent)
        | inr (auto, latest) ↦ ground (
          arith,
          is_done-at after.0 ws' id' key' (some auto) (latest_after ws' id' (some auto) latest),
          is_done-at store ws' id' key' (some auto) latest,
          after-get_run (run_id_of id' auto.version key'),
        )
      ]

  -- Once it was fired, there is nothing to do under its key.
  pub is_done-after : is_done after.0 ws id key ≡ true
  is_done-after = elim fire_manual-cases [
    | inl (done, same, w) ↦ ap (λ (x : Store J). is_done x ws id key) same ∙ done
    | inr (auto, latest, armed, new) ↦
        let run = run_id_of id auto.version key in
        let row : is_there (get_run after.0.runs run) ≡ true =
          ap is_there (
            (fire_manual-fresh runner store world ws id key by auto latest armed started ended
                new).3
              run)
          ∙ ground (arith, eq_refl run) in
        ground (
          arith,
          row,
          is_done-at after.0 ws id key (some auto) (latest_after ws id (some auto) latest),
        )
  ]

  -- Where there is nothing to do, a fire changes nothing.
  pub is_done-Keeps : is_done store ws id key ≡ true → (after.0 ≡ store) × (after.1 ≡ world)
  is_done-Keeps h = elim fire_manual-cases [
    | inl (done, same, same_world) ↦ (same, same_world)
    | inr (auto, latest, armed, new) ↦
        absurd (
          ground (arith, is_done-at store ws id key (some auto) latest, eq_iff auto.state "active"))
  ]
