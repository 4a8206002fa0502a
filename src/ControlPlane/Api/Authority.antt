-- ===== src/ControlPlane/Api/Authority.antt =====
-- Without the token nothing is written, and only its holder arms an automation.
use nilscript.Base.{ℕ, Bool, false, String, Option, List, ◌≡◌}
use nilscript.Kernel.Program.{WosoolProgram}
use nilscript.Automation.Authoring.{Draft}
use nilscript.ControlPlane.Api.Arming.{armed}
use nilscript.ControlPlane.Api.{
  Response, Request, register_adapter_at, activate, set_active, active_of, draft_plan,
  register_plan, set_state, Registries,
}

abbrev pub header_of : {J : Type 0} → Request J → Option String
header_of (register_adapter_at header body now) = header
header_of (activate header ws id now) = header
header_of (set_active header ws id enabled now) = header
header_of (active_of header ws) = header
header_of (draft_plan header body) = header
header_of (register_plan header body now) = header
header_of (set_state header ws id v body) = header

module _ {J : Type 0} (token : String) (parse_plan : J → Option WosoolProgram)
    (content_hash : WosoolProgram → String) (is_well_formed : Draft J → Bool)
    (plan_workspace : J → Option String) (provider : String → Option (List String)) (ws id : String)
    (v : ℕ) where
  abbrev IsDisarmed : Response J × Registries J → Type 0
  IsDisarmed out = armed ws id v out.1.automations ≡ false
