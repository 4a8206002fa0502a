-- ===== src/ControlPlane/Api.antt =====
-- The endpoints of src/nilscript/controlplane/app.py that write to the registries of adapters and of
-- automations: the check of the token, the guards of each handler, and the call of the store. A
-- body that is no JSON is `none`.
pub mod Arming
pub mod Authority
mod Examples
use Prim.Native.String.{◌++◌ as str_append}
use nilscript.Base.{
  ℕ, Bool, true, false, not, ◌&&◌, ◌||◌, String, ◌==◌, Option, none, some, List, [], ◌∷◌, elem, ◌⊎◌,
  inl, inr, if◌then◌else◌,
}
use nilscript.Kernel.Program.{WosoolProgram}
use nilscript.Kernel.Diagnostics.{ValidationResult}
use nilscript.ControlPlane.Automations.{
  Automation, Registration, register_automation, set_automation_state, get_automation,
}
use nilscript.ControlPlane.Adapters.{
  Adapter, Coordinates, register_adapter, activate_adapter, set_adapter_active, active_adapter,
}
use nilscript.Automation.Skeleton.{context_from_skeleton}
use nilscript.Automation.Authoring.{
  Draft, DraftResult, refused, drafted, malformed, draft_automation, register,
}

-- `_registry_authed`: open when no token is configured.
unfoldable pub registry_authed : String → Option String → Bool
registry_authed token header =
    if token == ""
    then true
    else elim header [ none ↦ false | some given ↦ given == str_append "Bearer " token ]

-- What the handlers answer.
pub data Response (J : Type 0) : Type 0 where
  unauthorized bad_json done : Response J
  bad_request not_found unavailable : Response J
  invalid : ValidationResult → Response J
  adapter : Option Adapter → Response J
  automation : Option (Automation J) → Response J

-- The body of a draft or registration.
pub record Body (J : Type 0) : Type 0 where
  pub automation_id : Option String
  pub name : Option J
  pub plan : Option J
  pub trigger : Option J
  pub authored_by : String
  pub description : Option J

-- The state of the two registries.
pub record Registries (J : Type 0) : Type 0 where
  pub adapters : List Adapter
  pub automations : List (Automation J)

-- A request, with its `Authorization` header; the last member is the clock.
pub data Request (J : Type 0) : Type 0 where
  register_adapter_at :
      Option String → Option (String × Option String × Option Coordinates) → ℕ → Request J
  activate : Option String → String → String → ℕ → Request J
  set_active : Option String → String → String → Bool → ℕ → Request J
  active_of : Option String → String → Request J
  draft_plan : Option String → Option (Body J) → Request J
  register_plan : Option String → Option (Body J) → ℕ → Request J
  set_state :
      Option String → String → String → ℕ → Option (Option String × Option String) → Request J

-- if not value
abbrev pub given : Option String → Option String
given none = none
given (some s) = if s == "" then none else some s

abbrev pub states : List String
states = "pending_approval" ∷ "active" ∷ "paused" ∷ "archived" ∷ []

-- The members of a draft, if none is missing.
abbrev pub complete :
    {J : Type 0} → Body J → Option String → Option J → Option J → Option J → Option (Draft J)
complete body (some id) (some name) (some plan) (some trigger) = some (record {
  automation_id = id;
  name = name;
  plan = plan;
  trigger = trigger;
  authored_by = body.authored_by;
  description = body.description;
})
complete body _ _ _ _ = none

abbrev pub found : {J : Type 0} → Bool → Response J → Response J
found true r = r
found false r = not_found

module _ {J : Type 0} (token : String) (parse_plan : J → Option WosoolProgram)
    (content_hash : WosoolProgram → String) (is_well_formed : Draft J → Bool)
    (plan_workspace : J → Option String) (provider : String → Option (List String)) where
  -- `_draft_from_body`: a draft result, or the error.
  unfoldable pub draft_from_body : Body J → Response J ⊎ DraftResult J
  unfolding draft_automation context_from_skeleton
  draft_from_body body =
      elim (complete body (given body.automation_id) body.name body.plan body.trigger) [
        | none ↦ inl bad_request
        | some d ↦ elim (plan_workspace d.plan) [
          | none ↦ inl bad_request
          | some ws ↦ elim (provider ws) [
            | none ↦ inl unavailable
            | some verbs ↦ inr (
                draft_automation parse_plan content_hash is_well_formed d
                  (context_from_skeleton ws verbs))
          ]
        ]
      ]

  abbrev pub drafting : Response J ⊎ DraftResult J → Response J
  drafting (inl error) = error
  drafting (inr (refused verdict)) = invalid verdict
  drafting (inr malformed) = bad_request
  drafting (inr (drafted r)) = done

  abbrev pub registering : Registries J → ℕ → Response J ⊎ DraftResult J → Response J × Registries J
  unfolding register
  registering s now (inl error) = (error, s)
  registering s now (inr (refused verdict)) = (invalid verdict, s)
  registering s now (inr malformed) = (bad_request, s)
  registering s now (inr (drafted r)) =
      let (rows, stored) = register s.automations r now in
      (automation stored, record s { automations = rows })

  abbrev pub restating :
      Registries J → String → String → ℕ → Option String → Option String → Response J × Registries J
  unfolding set_automation_state get_automation
  restating s ws id v none by = (bad_request, s)
  restating s ws id v (some state) by =
      let (rows, ok) = set_automation_state s.automations ws id v state by in
      if elem state states
      then (
        found ok (automation (get_automation rows ws id (some v))),
        record s { automations = rows },
      )
      else (bad_request, s)

  abbrev pub registering_adapter :
      Registries J → String → Option String → Option Coordinates → ℕ → Response J × Registries J
  unfolding register_adapter
  registering_adapter s ws none c now = (bad_request, s)
  registering_adapter s ws (some id) none now = (bad_request, s)
  registering_adapter s ws (some id) (some c) now =
      let (rows, stored) = register_adapter s.adapters ws id c now in
      if c.url == "" then (bad_request, s) else (adapter stored, record s { adapters = rows })

  -- A handler behind the check of the token.
  abbrev pub guarded :
      Registries J → Option String → Response J × Registries J → Response J × Registries J
  unfolding registry_authed
  guarded s header out = if registry_authed token header then out else (unauthorized, s)

  unfoldable pub handle : Registries J → Request J → Response J × Registries J
  unfolding registry_authed draft_from_body register set_automation_state get_automation
      register_adapter activate_adapter set_adapter_active active_adapter
  handle s (register_adapter_at header none now) = guarded s header (bad_json, s)
  handle s (register_adapter_at header (some (ws, id, c)) now) =
      guarded s header (registering_adapter s ws (given id) c now)
  handle s (activate header ws id now) =
      let (rows, ok) = activate_adapter s.adapters ws id now in
      guarded s header (found ok done, record s { adapters = rows })
  handle s (set_active header ws id enabled now) =
      let (rows, ok) = set_adapter_active s.adapters ws id enabled now in
      guarded s header (found ok done, record s { adapters = rows })
  handle s (active_of header ws) = guarded s header (elim (active_adapter s.adapters ws) [
    | none ↦ (not_found, s)
    | some a ↦ (adapter (some a), s)
  ])
  handle s (draft_plan header none) = guarded s header (bad_json, s)
  handle s (draft_plan header (some body)) = guarded s header (drafting (draft_from_body body), s)
  handle s (register_plan header none now) = guarded s header (bad_json, s)
  handle s (register_plan header (some body) now) =
      guarded s header (registering s now (draft_from_body body))
  handle s (set_state header ws id v none) = guarded s header (bad_json, s)
  handle s (set_state header ws id v (some (state, by))) =
      guarded s header (restating s ws id v state by)

  unfoldable pub handle_all : Registries J → List (Request J) → Registries J
  unfolding handle
  handle_all s [] = s
  handle_all s (r ∷ requests) = handle_all (handle s r).1 requests
