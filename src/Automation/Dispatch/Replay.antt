-- ===== src/Automation/Dispatch/Replay.antt =====
-- What a fire does the first time, and that a repeated one executes nothing.
use nilscript.Base.{
  ℕ, ◌≡◌, ◌≢◌, refl, sym, ◌∙◌, ap, String, ◌==◌, Option, none, some, List, arith, eq_refl, eq_iff,
  inl, inr, Option-cases, if◌then◌else◌,
}
use nilscript.ControlPlane.Automations.{Automation, get_automation}
use nilscript.ControlPlane.Runs.{
  Run, Runs, Start, start_run, finish_run, get_run, opened, closed, get_run-start_run,
  start_run-new, start_run-old, get_run-finish_run,
}
use nilscript.Automation.Dispatch.{
  classify, Trace, raised, trace_of, Store, Ran, returned, failed, Fired, replayed, runner_failed,
  fired, run_id_of, settle, start_of, fire_active, fire_manual,
}

-- The row and the envelope of a run whose runner came back with `ran`.
abbrev pub final_state : Ran → String
final_state (returned r) = classify r
final_state (failed e) = "failed"

abbrev pub final_trace : Ran → Trace
final_trace (returned r) = trace_of r
final_trace (failed e) = raised e

abbrev pub envelope : Ran → Option (Run Trace) → Fired
envelope (returned r) run = fired run
envelope (failed e) run = runner_failed e run

settle-runs :
    (runs : Runs Trace) (run_id : String) (ran : Ran) (now : ℕ)
    → settle runs run_id ran now ≡ (
      (finish_run runs run_id (final_state ran) (some (final_trace ran)) now).0,
      envelope ran (
          get_run (finish_run runs run_id (final_state ran) (some (final_trace ran)) now).0 run_id),
    )
unfolding settle
settle-runs runs run_id (returned r) now = refl
settle-runs runs run_id (failed e) now = refl

-- The row of a run that was opened by `s` and whose runner came back with `ran`.
abbrev pub final_run : Start → Ran → ℕ → ℕ → Run Trace
final_run s ran started ended =
    closed (opened s started) (final_state ran) (some (final_trace ran)) ended

-- The table of runs after `start_run`, the runner and `finish_run`.
abbrev pub recorded : Runs Trace → Start → Ran → ℕ → ℕ → Runs Trace
recorded runs s ran started ended = (settle (start_run runs s started).0 s.run_id ran ended).0

module _ (runs : Runs Trace) (s : Start) (ran : Ran) (started ended : ℕ)
    (new : get_run runs s.run_id ≡ none) where
  get_run-started : get_run (start_run runs s started).0 s.run_id ≡ some (opened s started)
  get_run-started =
      get_run-start_run runs s started s.run_id
      ∙ ground (arith, start_run-new runs s started new, eq_refl s.run_id)

  get_run-recorded :
      (j : String)
      → get_run (recorded runs s ran started ended) j
        ≡ (if s.run_id == j then some (final_run s ran started ended) else get_run runs j)
  get_run-recorded j = ground (
    arith,
    settle-runs (start_run runs s started).0 s.run_id ran ended,
    get_run-finish_run (start_run runs s started).0 (opened s started) s.run_id (final_state ran)
        (some (final_trace ran)) ended get_run-started j,
    get_run-start_run runs s started j,
    start_run-new runs s started new,
  )

  settle-envelope :
      (settle (start_run runs s started).0 s.run_id ran ended).1
      ≡ envelope ran (some (final_run s ran started ended))
  settle-envelope =
      ap (λ (x : Runs Trace × Fired). x.1) (settle-runs _ s.run_id ran ended)
      ∙ ap (envelope ran) (
          ap (λ (x : Runs Trace × Fired). get_run x.0 s.run_id)
            (sym (settle-runs _ s.run_id ran ended))
          ∙ get_run-recorded s.run_id
          ∙ ground (arith, eq_refl s.run_id))

module _ {J W : Type 0} (runner : J → String → W → Ran × W) (store : Store J) (world : W)
    (ws id key fired_by : String) (auto : Automation J)
    (latest : get_automation store.automations ws id none ≡ some auto)
    (armed : auto.state ≡ "active") where
  abbrev pub start : Start
  start = start_of auto ws id key fired_by

  fire_manual-armed :
      (started ended : ℕ)
      → fire_manual runner store world ws id key fired_by started ended
        ≡ fire_active runner store world auto start started ended
  unfolding fire_manual
  fire_manual-armed started ended = ground (arith, (eq_iff auto.state "active").1 armed)

  -- The first fire of an armed automation under its key runs the plan of the latest version, once
  -- and with the run's id, and records it: the row of that id holds that version and hash, the final
  -- state and the trace, and is what the envelope carries; every other row and the automations stay
  -- as they were.
  pub fire_manual-fresh :
      (started ended : ℕ)
      → get_run store.runs start.run_id ≡ none
      → let (ran, world') = runner auto.plan start.run_id world in
        let (store', world'', result) =
          fire_manual runner store world ws id key fired_by started ended in
        (world'' ≡ world')
        × (result ≡ envelope ran (some (final_run start ran started ended)))
        × (store'.automations ≡ store.automations)
        × ((j : String)
            → get_run store'.runs j ≡ (
                if start.run_id == j
                then some (final_run start ran started ended)
                else get_run store.runs j))
  unfolding fire_active
  fire_manual-fresh started ended new =
      let opens = start_run-new store.runs start started new in
      let (ran, world') = runner auto.plan start.run_id world in
      rw (fire_manual-armed started ended, fire_active, opens)
        (
          refl,
          settle-envelope store.runs start ran started ended new,
          refl,
          get_run-recorded store.runs start ran started ended new,
        )

  pub fire_manual-old :
      (started ended : ℕ) {run : Run Trace}
      → get_run store.runs start.run_id ≡ some run
      → fire_manual runner store world ws id key fired_by started ended
        ≡ (store, world, replayed (some run))
  unfolding fire_active
  fire_manual-old started ended old = rw (
    fire_manual-armed started ended,
    fire_active,
    start_run-old store.runs start started old,
    old,
  )

-- Firing again under the same key, by whomever and whenever, while the same version is the latest
-- and armed: nothing runs, nothing is stored, and the envelope replays the recorded run.
pub fire_manual-again :
    {J W : Type 0} (runner : J → String → W → Ran × W) (store : Store J) (world : W)
    (ws id key by by' : String) (auto : Automation J) (started ended started' ended' : ℕ)
    → get_automation store.automations ws id none ≡ some auto
    → auto.state ≡ "active"
    → get_run store.runs (run_id_of id auto.version key) ≡ none
    → let (store', world', result) = fire_manual runner store world ws id key by started ended in
      let ran = (runner auto.plan (run_id_of id auto.version key) world).0 in
      fire_manual runner store' world' ws id key by' started' ended'
      ≡ (store', world', replayed (some (final_run (start_of auto ws id key by) ran started ended)))
fire_manual-again runner store world ws id key by by' auto started ended started' ended' latest
      armed new =
    let first = fire_manual runner store world ws id key by started ended in
    let (same_world, result, same, rows) =
      fire_manual-fresh runner store world ws id key by auto latest armed started ended new in
    fire_manual-old runner first.0 first.1 ws id key by' auto
      (ap (λ (l : List (Automation _)). get_automation l ws id none) same ∙ latest) armed started'
      ended'
      (rows (run_id_of id auto.version key)
        ∙ ground (arith, eq_refl (run_id_of id auto.version key)))

-- The gate: unless the latest version is stored and active, a fire runs nothing and stores nothing.
pub fire_manual-gate :
    {J W : Type 0} (runner : J → String → W → Ran × W) (store : Store J) (world : W)
    (ws id key by : String) (started ended : ℕ)
    → ((auto : Automation J)
        → get_automation store.automations ws id none ≡ some auto
        → auto.state ≢ "active")
    → ((fire_manual runner store world ws id key by started ended).0 ≡ store)
      × ((fire_manual runner store world ws id key by started ended).1 ≡ world)
unfolding fire_manual
fire_manual-gate runner store world ws id key by started ended closed =
    elim (Option-cases (get_automation store.automations ws id none)) [
      | inl absent ↦ ground arith
      | inr (auto, found) ↦ ground (arith, closed auto found, eq_iff auto.state "active")
    ]
