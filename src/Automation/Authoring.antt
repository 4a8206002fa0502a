-- ===== src/Automation/Authoring.antt =====
-- src/nilscript/automation/authoring.py. A raw plan is a value of type `J`; `parse_plan` is the parse of
-- the kernel's model, with `none` for a ValidationError, and `content_hash` is the one of models.py.
use nilscript.Base.{ℕ, Bool, String, Option, none, some, List, if◌then◌else◌}
use nilscript.Kernel.Program.{WosoolProgram}
use nilscript.Kernel.Diagnostics.{ok, fail, ValidationResult, error_of, of}
use nilscript.Kernel.Context.{ValidationContext}
use nilscript.Kernel.Validator.{validate}
use nilscript.ControlPlane.Automations.{Automation, Registration, register_automation}

-- The arguments of `draft_automation`, but for the context.
pub record Draft (J : Type 0) : Type 0 where
  pub automation_id : String
  pub name : J
  pub plan : J
  pub trigger : J
  pub authored_by : String
  pub description : Option J

-- `DraftResult`, or the exception of a malformed name, description, trigger or id.
pub data DraftResult (J : Type 0) : Type 0 where
  refused : ValidationResult → DraftResult J
  drafted : Registration J → DraftResult J
  malformed : DraftResult J

module _ {J : Type 0} (parse_plan : J → Option WosoolProgram)
    (content_hash : WosoolProgram → String) (is_well_formed : Draft J → Bool) where
  abbrev pub definition : Draft J → WosoolProgram → Registration J
  definition d p = record {
    workspace = p.workspace;
    automation_id = d.automation_id;
    content_hash = content_hash p;
    kind = "single";
    name = d.name;
    description = d.description;
    plan = d.plan;
    trigger = d.trigger;
    state = "draft";
    authored_by = d.authored_by;
    approved_by = none;
  }

  unfoldable pub draft_automation : Draft J → ValidationContext → DraftResult J
  unfolding validate
  draft_automation d ctx = elim (parse_plan d.plan) [
    | none ↦ refused (of (error_of "V1_SCHEMA"))
    | some p ↦ elim (validate p ctx).result [
      | fail ↦ refused (validate p ctx)
      | ok ↦ if is_well_formed d then drafted (definition d p) else malformed
    ]
  ]

-- `register`, which lands in `pending_approval`; the model's row stands for the definition.
unfoldable pub register :
    {J : Type 0}
    → List (Automation J)
    → Registration J
    → ℕ
    → List (Automation J) × Option (Automation J)
unfolding register_automation
register rows r now =
    register_automation rows (record r { state = "pending_approval"; approved_by = none }) now
