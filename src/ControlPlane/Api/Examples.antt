-- ===== src/ControlPlane/Api/Examples.antt =====
-- The endpoints of the control plane at concrete inputs.
use nilscript.Base.{ℕ, suc, ◌≤◌, true, Bool, String, Option, none, some, List, [], ◌∷◌}
use nilscript.Kernel.Program.{WosoolProgram}
use nilscript.ControlPlane.Approvals.{Meta, absent, decision}
use nilscript.ControlPlane.Approvals.Final.{Moves, await, serve, serve-Moves}
use nilscript.ControlPlane.Adapters.{Adapter}
use nilscript.ControlPlane.Decisions.{hold, post, serve_all}
use nilscript.ControlPlane.Decisions.Once.{Counted, counting, room, serve_all-once}
use nilscript.Automation.Authoring.{Draft}
use nilscript.ControlPlane.Api.{Request, Registries, activate, set_state}
use nilscript.ControlPlane.Automations.{Automation}

abbrev no_meta : Meta
no_meta = record { verb = none; tier = none; preview = none }

abbrev shop : Adapter
shop = record {
  workspace = "w";
  adapter_id = "odoo";
  label = "";
  url = "https://a";
  bearer = "";
  system = "";
  active = true;
  updated_at = 1;
}

abbrev accept : Adapter → List String → String → String → ℕ → Option String × ℕ
accept adapter scopes proposal_id key n = (some "executed", suc n)

abbrev plain : String → String
plain s = s

-- A hold, two approvals and another hold of one proposal.
abbrev requests : List (List Adapter × nilscript.ControlPlane.Decisions.Request)
requests =
    (shop ∷ [], hold "p" (some "crm.delete") none absent no_meta 1)
    ∷ (shop ∷ [], post "p" (some "approved") "owner" "" 2)
    ∷ (shop ∷ [], post "p" (some "approved") "owner" "" 3)
    ∷ (shop ∷ [], hold "p" none none absent no_meta 4)
    ∷ []

abbrev idle : Counted ℕ
idle = record { world = 0; commits = 0 }

serve_all-once_example :
    (serve_all plain (counting accept "p") requests [] idle).1.commits ≤ room (decision [] "p")
serve_all-once_example = serve_all-once plain accept "p" requests [] 0

serve-Moves_example :
    Moves (decision [] "p") (decision (serve [] (await "p" none none absent no_meta 1)) "p")
serve-Moves_example = serve-Moves [] (await "p" none none absent no_meta 1) "p"

abbrev no_plan : ℕ → Option WosoolProgram
no_plan p = none

abbrev no_hash : WosoolProgram → String
no_hash p = ""

abbrev any_draft : Draft ℕ → Bool
any_draft d = true

abbrev nowhere : ℕ → Option String
nowhere p = none

abbrev unreachable : String → Option (List String)
unreachable ws = none

abbrev waiting : Automation ℕ
waiting = record {
  workspace = "w";
  automation_id = "daily";
  version = 1;
  content_hash = "aa";
  kind = "single";
  name = 0;
  description = none;
  plan = 5;
  trigger = 0;
  state = "pending_approval";
  authored_by = "agent";
  approved_by = none;
  created_at = 1;
  superseded_by = none;
}

abbrev registries : Registries ℕ
registries = record { adapters = shop ∷ []; automations = waiting ∷ [] }

-- A change of state without the token.
abbrev forged : Request ℕ
forged = set_state (some "Bearer guess") "w" "daily" 1 (some (some "active", none))

abbrev mixed : List (Request ℕ)
mixed =
    forged
    ∷ activate (some "Bearer secret") "w" "odoo" 2
    ∷ set_state (some "Bearer secret") "w" "daily" 1 (some (some "paused", none))
    ∷ []
