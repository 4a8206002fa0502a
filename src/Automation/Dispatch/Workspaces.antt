-- ===== src/Automation/Dispatch/Workspaces.antt =====
-- The id of a run does not name the workspace.
use nilscript.Base.{ℕ, ◌≡◌, ap, ◌∙◌, String, none, some, List, arith, eq_refl}
use nilscript.ControlPlane.Automations.{Automation, get_automation}
use nilscript.ControlPlane.Runs.{get_run}
use nilscript.Automation.Dispatch.{Store, Ran, replayed, run_id_of, start_of, fire_manual}
use nilscript.Automation.Dispatch.Replay.{final_run, fire_manual-fresh, fire_manual-old}

-- When two workspaces have armed automations of one id and one version, and the first one has just
-- fired under a key, then a fire of the second one under this key runs nothing of it: it answers with
-- the run of the first workspace as its own.
pub fire_manual-other_workspace :
    {J W : Type 0} (runner : J → String → W → Ran × W) (store : Store J) (world : W)
    (ws ws' id key by by' : String) (auto other : Automation J) (started ended started' ended' : ℕ)
    → get_automation store.automations ws id none ≡ some auto
    → auto.state ≡ "active"
    → get_run store.runs (run_id_of id auto.version key) ≡ none
    → get_automation store.automations ws' id none ≡ some other
    → other.state ≡ "active"
    → other.version ≡ auto.version
    → let (store', world', result) = fire_manual runner store world ws id key by started ended in
      let ran = (runner auto.plan (run_id_of id auto.version key) world).0 in
      fire_manual runner store' world' ws' id key by' started' ended'
      ≡ (store', world', replayed (some (final_run (start_of auto ws id key by) ran started ended)))
fire_manual-other_workspace runner store world ws ws' id key by by' auto other started ended
      started' ended' latest armed new latest' armed' same_version =
    let first = fire_manual runner store world ws id key by started ended in
    let (same_world, result, same, rows) =
      fire_manual-fresh runner store world ws id key by auto latest armed started ended new in
    fire_manual-old runner first.0 first.1 ws' id key by' other
      (ap (λ (l : List (Automation _)). get_automation l ws' id none) same ∙ latest') armed'
      started' ended'
      (ap (λ v. get_run first.0.runs (run_id_of id v key)) same_version
        ∙ rows (run_id_of id auto.version key)
        ∙ ground (arith, eq_refl (run_id_of id auto.version key)))
