-- ===== src/Automation/Examples.antt =====
-- The theorems about automations at concrete inputs.
use nilscript.Base.{
  ℕ, suc, ◌≡◌, ◌≢◌, refl, ◌∙◌, true, false, String, ◌==◌, none, some, [], ◌∷◌, arith, eq_iff,
  if◌then◌else◌,
}
use nilscript.ControlPlane.Automations.{Automation, get_automation}
use nilscript.ControlPlane.Runs.{get_run}
use nilscript.Automation.Dispatch.{Store, Ran, returned, run_id_of, start_of, fire_manual}
use nilscript.Automation.Dispatch.Replay.{envelope, final_run, fire_manual-fresh}

-- A runner that counts its calls, and completes each.
abbrev counting : ℕ → String → ℕ → Ran × ℕ
counting plan run_id calls = (
  returned (record {
    completed = true;
    context = [];
    notifications = [];
    compensated = [];
    is_partial = false;
    blocked_at = none;
    refusal = none;
  }),
  suc calls,
)

abbrev daily : String → Automation ℕ
daily state = record {
  workspace = "w";
  automation_id = "daily";
  version = 1;
  content_hash = "aa";
  kind = "single";
  name = 0;
  description = none;
  plan = 5;
  trigger = 0;
  state = state;
  authored_by = "agent";
  approved_by = none;
  created_at = 1;
  superseded_by = none;
}

abbrev store_of : String → Store ℕ
store_of state = record { automations = daily state ∷ []; runs = [] }

abbrev ran : Ran
ran = (counting 5 (run_id_of "daily" 1 "k") 0).0

fire_manual-fresh_example :
    let (store', world', result) =
      fire_manual counting (store_of "active") 0 "w" "daily" "k" "owner" 1 2 in
    (world' ≡ 1)
    × (result
        ≡ envelope ran
            (some (final_run (start_of (daily "active") "w" "daily" "k" "owner") ran 1 2)))
    × (store'.automations ≡ daily "active" ∷ [])
    × ((j : String)
        → get_run store'.runs j ≡ (
            if run_id_of "daily" 1 "k" == j
            then some (final_run (start_of (daily "active") "w" "daily" "k" "owner") ran 1 2)
            else get_run [] j))
unfolding get_automation get_run
fire_manual-fresh_example =
    fire_manual-fresh counting (store_of "active") 0 "w" "daily" "k" "owner" (daily "active") refl
      refl 1 2 refl

paused_ne_active : (auto : Automation ℕ) → some (daily "paused") ≡ some auto → auto.state ≢ "active"
paused_ne_active auto e a =
    let q : (daily "paused").state ≡ auto.state = ground arith in
    ground (arith, (eq_iff "paused" "active").1 (q ∙ a))
