-- ===== src/ControlPlane/Examples.antt =====
-- The theorems about the control plane's store at concrete inputs.
use nilscript.Base.{
  ℕ, ◌≡◌, refl, true, false, String, ◌==◌, none, some, List, [], ◌∷◌, arith, eq_iff, if◌then◌else◌,
}
use nilscript.ControlPlane.Events.{Event, ingest}
use nilscript.ControlPlane.Events.Dedup.{is_marked, ingest_all, ingest-again}
use nilscript.ControlPlane.Approvals.{Approvals, Meta, absent, await_approval, decision, decide}
use nilscript.ControlPlane.Approvals.Final.{Request, await, decided, serve_all, serve_all-final}
use nilscript.ControlPlane.Adapters.{Adapter, Coordinates, registered, activate_adapter}
use nilscript.ControlPlane.Adapters.Routing.{routes, routes-activate_adapter}
use nilscript.ControlPlane.Automations.{
  Automation, Registration, Write, register, set_state, apply_all, set_automation_state, latest,
  version_of, get_automation,
}
use nilscript.ControlPlane.Automations.Numbering.{IsNumbered, apply_all-IsNumbered}
use nilscript.ControlPlane.Automations.Locking.{content_at, content_at-apply_all}
use nilscript.ControlPlane.Automations.Stale.{stale_active}
use nilscript.ControlPlane.Automations.Arming.{
  IsArmedLatest, apply_all-IsArmedLatest, set_automation_state-stale_active,
}

abbrev no_meta : Meta
no_meta = record { verb = none; tier = none; preview = none }

-- One proposal is held, and another is held and approved.
abbrev requests : List Request
requests =
    await "p" none none absent no_meta 1
    ∷ await "q" none none absent no_meta 2
    ∷ decided "q" "approved" "owner" "" 3
    ∷ []

abbrev table : Approvals
table = serve_all [] requests

serve_all-final_example :
    decision (serve_all table (decided "q" "rejected" "owner" "late" 5 ∷ [])) "q"
    ≡ decision table "q"
unfolding decision serve_all await_approval decide
serve_all-final_example =
    serve_all-final (decided "q" "rejected" "owner" "late" 5 ∷ []) table "q"
      (λ e. ground (arith, (eq_iff "approved" "unknown").1 e))
      (λ e. ground (arith, (eq_iff "approved" "pending").1 e))

abbrev coordinates : Coordinates
coordinates = record { label = ""; url = "http://a"; bearer = ""; system = "" }

-- Two adapters of one workspace, the first active.
abbrev two_adapters : List Adapter
two_adapters =
    record (registered "w" "odoo" coordinates 1) { active = true }
    ∷ registered "w" "pocketbase" coordinates 2
    ∷ []

routes-activate_adapter_example :
    routes (activate_adapter two_adapters "w" "pocketbase" 3).0 "w" "odoo"
    ≡ (if "w" == "w" then "odoo" == "pocketbase" else routes two_adapters "w" "odoo")
unfolding activate_adapter
routes-activate_adapter_example =
    routes-activate_adapter two_adapters "w" "pocketbase" "w" "odoo" 3 refl

abbrev plan : String → ℕ → Registration ℕ
plan hash p = record {
  workspace = "w";
  automation_id = "daily";
  content_hash = hash;
  kind = "single";
  name = 0;
  description = none;
  plan = p;
  trigger = 0;
  state = "pending_approval";
  authored_by = "agent";
  approved_by = none;
}

-- The first version is armed, and then edited.
abbrev writes : List (Write ℕ)
writes =
    register (plan "aa" 1) 1
    ∷ set_state "w" "daily" 1 "active" (some "owner")
    ∷ register (plan "bb" 2) 2
    ∷ []

abbrev rows : List (Automation ℕ)
rows = apply_all [] writes

apply_all-IsNumbered_example : IsNumbered (apply_all [] writes)
apply_all-IsNumbered_example = apply_all-IsNumbered writes

content_at-apply_all_example :
    content_at "w" "daily" 1 (apply_all rows (register (plan "cc" 3) 5 ∷ []))
    ≡ content_at "w" "daily" 1 rows
unfolding apply_all get_automation
content_at-apply_all_example =
    content_at-apply_all (register (plan "cc" 3) 5 ∷ []) rows "w" "daily" 1 refl

apply_all-IsArmedLatest_example : IsArmedLatest (apply_all [] writes)
unfolding apply_all latest
apply_all-IsArmedLatest_example = apply_all-IsArmedLatest writes (tt, (refl, (tt, tt)))

set_automation_state-stale_active_example :
    ((set_automation_state rows "w" "daily" 1 "active" none).1 ≡ true)
    × (stale_active "w" "daily"
          (version_of
            (latest "w" "daily" (set_automation_state rows "w" "daily" 1 "active" none).0))
          (set_automation_state rows "w" "daily" 1 "active" none).0
        ≡ true)
unfolding apply_all latest
set_automation_state-stale_active_example =
    set_automation_state-stale_active rows "w" "daily" 1 none refl (omega arith)

-- Two envelopes.
abbrev proposed : Event
proposed = record { event_id = "e1"; workspace = "acme"; sequence = some 1; envelope = "{}" }

abbrev executed : Event
executed = record { event_id = "e2"; workspace = "acme"; sequence = some 1; envelope = "{}" }

proposed_marked : is_marked proposed ≡ true
unfolding is_marked
proposed_marked = refl

ingest-again_example :
    ingest proposed (ingest_all (executed ∷ []) (ingest proposed []).1)
    ≡ (false, ingest_all (executed ∷ []) (ingest proposed []).1)
ingest-again_example = ingest-again proposed (executed ∷ []) [] proposed_marked
