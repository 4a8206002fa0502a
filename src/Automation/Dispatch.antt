-- ===== src/Automation/Dispatch.antt =====
-- src/nilscript/automation/dispatch.py: one fire of an armed automation. The injected `runner` is an
-- argument: it acts on the outside world, of type `W`, and returns a result or raises.
pub mod Replay
pub mod Workspaces
use Prim.Native.String.{◌++◌ as str_append}
use nilscript.Base.{
  ℕ, Bool, true, false, String, ◌==◌, Option, none, some, List, [], ◌∷◌, if◌then◌else◌,
}
use nilscript.Base.Decimal.{decimal}
use nilscript.Kernel.RunResult.{RunResult, Context, Notification, Refusal}
use nilscript.ControlPlane.Automations.{Automation, get_automation}
use nilscript.ControlPlane.Runs.{Run, Runs, Start, start_run, finish_run, get_run}

-- `_classify`
unfoldable pub classify : RunResult → String
classify r = if r.completed then "completed" else elim r.compensated [
  | x ∷ xs ↦ "compensated"
  | [] ↦ elim r.blocked_at [
    | some node ↦ if node == "" then "partial" else "blocked"
    | none ↦ "partial"
  ]
]

-- The stored trace: the fields of a result, or the text of the exception.
pub data Trace : Type 0 where
  finished :
      Bool
      → Bool
      → Option String
      → Option Refusal
      → List String
      → List Notification
      → Context
      → Trace
  raised : String → Trace

-- `_trace`
abbrev pub trace_of : RunResult → Trace
trace_of r =
    finished r.completed r.is_partial r.blocked_at r.refusal r.compensated r.notifications r.context

pub record Store (J : Type 0) : Type 0 where
  pub automations : List (Automation J)
  pub runs : Runs Trace

pub data Ran : Type 0 where
  returned : RunResult → Ran
  failed : String → Ran

-- The envelope that a fire returns.
pub data Fired : Type 0 where
  no_such_automation : Fired
  not_active : String → Fired
  replayed : Option (Run Trace) → Fired
  runner_failed : String → Option (Run Trace) → Fired
  fired : Option (Run Trace) → Fired

-- f"{automation_id}:v{version}:{idempotency_key}"
unfoldable pub run_id_of : String → ℕ → String → String
run_id_of id version key =
    str_append id (str_append ":v" (str_append (decimal version) (str_append ":" key)))

-- What is stored of a run, and the envelope, once the runner is back.
unfoldable pub settle : Runs Trace → String → Ran → ℕ → Runs Trace × Fired
unfolding classify
settle runs run_id (failed e) now =
    let after = (finish_run runs run_id "failed" (some (raised e)) now).0 in
    (after, runner_failed e (get_run after run_id))
settle runs run_id (returned r) now =
    let after = (finish_run runs run_id (classify r) (some (trace_of r)) now).0 in
    (after, fired (get_run after run_id))

abbrev pub start_of : {J : Type 0} → Automation J → String → String → String → String → Start
start_of auto ws id key fired_by = record {
  run_id = run_id_of id auto.version key;
  workspace = ws;
  automation_id = id;
  version = auto.version;
  content_hash = auto.content_hash;
  fired_by = fired_by;
}

module _ {J W : Type 0} (runner : J → String → W → Ran × W) where
  -- The rest of a fire of an active automation.
  unfoldable pub fire_active : Store J → W → Automation J → Start → ℕ → ℕ → Store J × W × Fired
  unfolding settle
  fire_active store world auto s started ended =
      let (runs, new) = start_run store.runs s started in
      if new
      then (let (ran, world') = runner auto.plan s.run_id world in
          let (runs', envelope) = settle runs s.run_id ran ended in
          (record store { runs = runs' }, world', envelope))
      else (store, world, replayed (get_run store.runs s.run_id))

  -- The latest version is fired; `started` and `ended` are the two readings of the clock.
  unfoldable pub fire_manual :
      Store J → W → String → String → String → String → ℕ → ℕ → Store J × W × Fired
  unfolding fire_active
  fire_manual store world ws id key fired_by started ended =
      elim (get_automation store.automations ws id none) [
        | none ↦ (store, world, no_such_automation)
        | some auto ↦
            if auto.state == "active"
            then fire_active store world auto (start_of auto ws id key fired_by) started ended
            else (store, world, not_active auto.state)
      ]
