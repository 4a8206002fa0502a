-- ===== src/Automation/Scheduler/Examples.antt =====
-- The scheduler, the composed runs and the skeletons at concrete inputs.
use nilscript.Base.{ℕ, suc, ◌≡◌, refl, true, false, Bool, String, ◌==◌, Option, none, some, [], ◌∷◌}
use nilscript.Kernel.Value.{str, dict, Fields, end, field}
use nilscript.Kernel.RunResult.{RunResult}
use nilscript.ControlPlane.Automations.{Automation, get_automation}
use nilscript.ControlPlane.Runs.{get_run, start_run, finish_run}
use nilscript.Automation.Dispatch.{Store, Ran, returned, replayed, run_id_of, start_of, fire_manual}
use nilscript.Automation.Dispatch.Replay.{final_run}
use nilscript.Automation.Dispatch.Workspaces.{fire_manual-other_workspace}
use nilscript.Automation.Triggers.{Trigger, schedule, event, Envelope, schedule_due}
use nilscript.Automation.Triggers.Clock.{Moment}
use nilscript.Automation.Scheduler.{dispatch_event, run_due_schedules, comes_first, last_started}
use nilscript.Automation.Scheduler.Once.{dispatch_event-again, run_due_schedules-again}
use nilscript.Automation.Compose.{Stage, ComposedPlan, ComposedResult, StageRun, run_composed}
use nilscript.Automation.Compose.Stages.{IsChain, run_composed-IsChain}
use nilscript.Automation.Composed.{ComposedStore, Parsed, plan, fire_composed, fire_composed-again}

abbrev outcome : Bool → RunResult
outcome completed = record {
  completed = completed;
  context = [];
  notifications = [];
  compensated = [];
  is_partial = false;
  blocked_at = none;
  refusal = none;
}

-- A runner that counts its calls, and completes each.
abbrev counting : ℕ → String → ℕ → Ran × ℕ
counting p run_id calls = (returned (outcome true), suc calls)

abbrev daily : String → String → Automation ℕ
daily workspace kind = record {
  workspace = workspace;
  automation_id = "daily";
  version = 1;
  content_hash = "aa";
  kind = kind;
  name = 0;
  description = none;
  plan = 5;
  trigger = 0;
  state = "active";
  authored_by = "agent";
  approved_by = none;
  created_at = 1;
  superseded_by = none;
}

abbrev two_workspaces : Store ℕ
two_workspaces = record { automations = daily "w" "single" ∷ daily "x" "single" ∷ []; runs = [] }

abbrev on_payment : ℕ → Option Trigger
on_payment t = some (event "crm.pay" "executed" end)

abbrev payment : Envelope
payment = record {
  id = some "e1";
  grant = none;
  workspace = some "w";
  body = some (dict (field "event" (str "executed") (field "verb" (str "crm.pay") end)));
}

abbrev clock : ℕ → ℕ × ℕ
clock n = (n, n)

dispatch_event-again_example :
    let first = dispatch_event on_payment counting payment "event" clock two_workspaces 0 in
    let second = dispatch_event on_payment counting payment "retry" clock first.0 first.1 in
    (second.0 ≡ first.0) × (second.1 ≡ first.1)
dispatch_event-again_example =
    dispatch_event-again on_payment counting "event" "retry" clock clock two_workspaces 0 payment

-- The event has run the automation of its workspace, once.
payment_runs_once :
    (dispatch_event on_payment counting payment "event" clock two_workspaces 0).1 ≡ 1
unfolding dispatch_event get_automation get_run comes_first start_run
payment_runs_once = refl

-- A trigger of every minute, and a time.
abbrev each_minute : ℕ → Option Trigger
each_minute t = some (schedule none (some 60))

abbrev morning : Moment
morning = record {
  year = 2026;
  month = 6;
  day = 4;
  hour = 9;
  minute = 0;
  second = 0;
  microsecond = 7;
}

run_due_schedules-again_example :
    let first = run_due_schedules each_minute counting morning "schedule" clock two_workspaces 0 in
    let second = run_due_schedules each_minute counting morning "retry" clock first.0 first.1 in
    (second.0 ≡ first.0) × (second.1 ≡ first.1)
run_due_schedules-again_example =
    run_due_schedules-again each_minute counting "schedule" "retry" clock clock two_workspaces 0
      morning

-- The tick has run the automations of both workspaces, of which one replays the run of the other.
tick_runs_once :
    (run_due_schedules each_minute counting morning "schedule" clock two_workspaces 0).1 ≡ 1
unfolding run_due_schedules get_automation get_run comes_first start_run last_started schedule_due
    finish_run run_id_of
tick_runs_once = refl

abbrev at_nine : String
at_nine = "schedule:2026-06-04T09:00:00+00:00"

fire_manual-other_workspace_example :
    let (store', world', envelope) =
      fire_manual counting two_workspaces 0 "w" "daily" at_nine "schedule" 1 2 in
    fire_manual counting store' world' "x" "daily" at_nine "schedule" 3 4 ≡ (
      store',
      world',
      replayed (
          some (
            final_run
              (start_of (daily "w" "single") "w" "daily" at_nine "schedule")
              (counting 5 (run_id_of "daily" 1 at_nine) 0).0
              1
              2)),
    )
unfolding get_automation get_run
fire_manual-other_workspace_example =
    fire_manual-other_workspace counting two_workspaces 0 "w" "x" "daily" at_nine "schedule"
      "schedule" (daily "w" "single") (daily "x" "single") 1 2 3 4 refl refl refl refl refl refl

-- A stage runner that completes on one adapter alone.
abbrev by_adapter : String → ℕ → String → Fields → ℕ → Ran × ℕ
by_adapter adapter p run_id input calls = (returned (outcome (adapter == "crm")), suc calls)

abbrev stage : String → String → Stage ℕ
stage name adapter = record { name = name; adapter = adapter; plan = 1; input_from = end }

abbrev handover : ComposedPlan ℕ
handover = record {
  workspace = "w";
  stages = stage "sales" "crm" ∷ stage "books" "erp" ∷ stage "mail" "crm" ∷ [];
}

abbrev run_of : String → String → Bool → StageRun
run_of name adapter completed = record {
  name = name;
  adapter = adapter;
  completed = completed;
  blocked_at = none;
  refusal = none;
}

-- The second stage stops the run.
abbrev stopped : ComposedResult
stopped = record {
  completed = false;
  stages = run_of "sales" "crm" true ∷ run_of "books" "erp" false ∷ [];
  context = field "sales" (dict end) (field "books" (dict end) end);
  blocked_at = some "books";
}

run_composed-IsChain_example :
    IsChain handover.stages stopped.stages stopped.completed stopped.blocked_at
unfolding run_composed
run_composed-IsChain_example = run_composed-IsChain by_adapter handover "r" 0 stopped refl

abbrev composed_store : ComposedStore ℕ
composed_store = record { automations = daily "w" "composed" ∷ []; runs = [] }

abbrev parse_handover : ℕ → Parsed ℕ
parse_handover p = plan handover

fire_composed-again_example :
    let first =
      fire_composed parse_handover by_adapter composed_store 0 "w" "daily" "k1" "owner" 1 2 in
    let second =
      fire_composed parse_handover by_adapter first.0 first.1 "w" "daily" "k1" "retry" 3 4 in
    (second.0 ≡ first.0) × (second.1 ≡ first.1)
unfolding get_automation
fire_composed-again_example =
    fire_composed-again parse_handover by_adapter "w" "daily" "k1" "owner" "retry" 1 2 3 4
      composed_store 0 (daily "w" "composed") refl refl refl
