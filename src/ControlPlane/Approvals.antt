-- ===== src/ControlPlane/Approvals.antt =====
-- The approvals table of src/nilscript/controlplane/store.py. Its key `proposal_id` is the primary
-- key, so the table is a dictionary. A time is a number; what `_enrich` found in the event log is
-- the argument `meta`.
pub mod Final
use nilscript.Base.{
  ℕ, Bool, true, false, ◌||◌, String, ◌==◌, Option, none, some, List, [], ◌∷◌, lookup, insert,
  if◌then◌else◌,
}

pub record Approval : Type 0 where
  pub status : String
  pub verb : Option String
  pub tier : Option String
  pub preview : Option String
  pub actor : Option String
  pub reason : Option String
  pub created_at : ℕ
  pub decided_at : Option ℕ

abbrev pub Approvals : Type 0
Approvals = List (String × Approval)

-- What `_enrich` returns.
pub record Meta : Type 0 where
  pub verb : Option String
  pub tier : Option String
  pub preview : Option String

-- The argument `preview` of `await_approval`: a dict or list by its JSON text, a text, or None.
pub data Preview : Type 0 where
  json text : String → Preview
  absent : Preview

-- Python's `a or b` for a text that may be None: the empty text counts as absent.
abbrev pub or_else : Option String → Option String → Option String
or_else none b = b
or_else (some a) b = if a == "" then b else some a

unfoldable pub preview_str : Preview → Option String → Option String
preview_str (json t) found = some t
preview_str (text t) found = some t
preview_str absent found = found

-- The row of a new hold.
abbrev pub held_row : Option String → Option String → Preview → Meta → ℕ → Approval
held_row verb tier preview meta now = record {
  status = "pending";
  verb = or_else verb meta.verb;
  tier = or_else tier meta.tier;
  preview = preview_str preview meta.preview;
  actor = none;
  reason = none;
  created_at = now;
  decided_at = none;
}

-- A pending row after the owner's decision.
abbrev pub decided_row : Approval → String → String → String → ℕ → Approval
decided_row row status actor reason now = record row {
  status = status;
  actor = some actor;
  reason = some reason;
  decided_at = some now;
}

unfoldable pub await_approval :
    Approvals → String → Option String → Option String → Preview → Meta → ℕ → Approvals × String
unfolding preview_str
await_approval table proposal_id verb tier preview meta now = elim (lookup proposal_id table) [
  | some existing ↦ (table, existing.status)
  | none ↦ (insert proposal_id (held_row verb tier preview meta now) table, "pending")
]

unfoldable pub decision : Approvals → String → String
decision table proposal_id = elim (lookup proposal_id table) [
  | some row ↦ row.status
  | none ↦ "unknown"
]

-- `none` is the ValueError of a status that is no decision.
unfoldable pub decide :
    Approvals → String → String → String → String → ℕ → Option (Approvals × Bool)
decide table proposal_id status actor reason now =
    if (status == "approved") || (status == "rejected")
    then elim (lookup proposal_id table) [
      | none ↦ some (table, false)
      | some row ↦
          if row.status == "pending"
          then some (insert proposal_id (decided_row row status actor reason now) table, true)
          else some (table, false)
    ]
    else none
