-- ===== src/ControlPlane/Automations.antt =====
-- The automation registry of src/nilscript/controlplane/store.py: one row for each version of an
-- automation, in the order of insertion. The JSON columns have the type `J`: the store writes them
-- with `json.dumps` and reads back what it wrote. A time is a number.
pub mod Latest
pub mod Numbering
pub mod Locking
pub mod Stale
pub mod Arming
pub mod Registering
use nilscript.Base.{
  ℕ, ◌+◌, Bool, true, false, ◌&&◌, String, ◌==◌, Option, none, some, List, [], ◌∷◌, ◌++◌, any, ltb,
  eqb, if◌then◌else◌,
}

pub record Automation (J : Type 0) : Type 0 where
  pub workspace : String
  pub automation_id : String
  pub version : ℕ
  pub content_hash : String
  pub kind : String
  pub name : J
  pub description : Option J
  pub plan : J
  pub trigger : J
  pub state : String
  pub authored_by : String
  pub approved_by : Option String
  pub created_at : ℕ
  pub superseded_by : Option ℕ

-- The keyword arguments of `register_automation`.
pub record Registration (J : Type 0) : Type 0 where
  pub workspace : String
  pub automation_id : String
  pub content_hash : String
  pub kind : String
  pub name : J
  pub description : Option J
  pub plan : J
  pub trigger : J
  pub state : String
  pub authored_by : String
  pub approved_by : Option String

module _ {J : Type 0} where
  -- WHERE workspace = ? AND automation_id = ?
  abbrev pub is_key : String → String → Automation J → Bool
  is_key ws id a = (a.workspace == ws) && (a.automation_id == id)

  -- ... AND version = ?
  abbrev pub is_version : String → String → ℕ → Automation J → Bool
  is_version ws id v a = is_key ws id a && eqb a.version v

  abbrev pub higher : Automation J → Option (Automation J) → Automation J
  higher a none = a
  higher a (some b) = if ltb a.version b.version then b else a

  -- ORDER BY version DESC LIMIT 1
  unfoldable pub latest : String → String → List (Automation J) → Option (Automation J)
  latest ws id [] = none
  latest ws id (a ∷ rows) =
      let rest = latest ws id rows in if is_key ws id a then some (higher a rest) else rest

  unfoldable pub find_version : String → String → ℕ → List (Automation J) → Option (Automation J)
  find_version ws id v [] = none
  find_version ws id v (a ∷ rows) =
      if is_version ws id v a then some a else find_version ws id v rows

  -- UPDATE ... WHERE: the rows that a test picks.
  unfoldable pub update :
      (Automation J → Bool)
      → (Automation J → Automation J)
      → List (Automation J)
      → List (Automation J)
  update p f [] = []
  update p f (a ∷ rows) = (if p a then f a else a) ∷ update p f rows

  abbrev pub next_version : Option (Automation J) → ℕ
  next_version none = 1
  next_version (some l) = l.version + 1

  abbrev pub superseded : ℕ → Automation J → Automation J
  superseded version a = record a { superseded_by = some version; state = "archived" }

  abbrev pub inserted : Registration J → ℕ → ℕ → Automation J
  inserted r version now = record {
    workspace = r.workspace;
    automation_id = r.automation_id;
    version = version;
    content_hash = r.content_hash;
    kind = r.kind;
    name = r.name;
    description = r.description;
    plan = r.plan;
    trigger = r.trigger;
    state = r.state;
    authored_by = r.authored_by;
    approved_by = r.approved_by;
    created_at = now;
    superseded_by = none;
  }

  -- The rows after the latest one is archived in favour of `version`.
  abbrev pub archived :
      Registration J → Option (Automation J) → List (Automation J) → List (Automation J)
  archived r none rows = rows
  archived r (some l) rows =
      update (is_version r.workspace r.automation_id l.version) (superseded (l.version + 1)) rows

  abbrev pub same_hash : Registration J → Option (Automation J) → Bool
  same_hash r none = false
  same_hash r (some l) = l.content_hash == r.content_hash

  abbrev pub version_of : Option (Automation J) → ℕ
  version_of none = 0
  version_of (some a) = a.version

  -- The table after the call.
  unfoldable pub registered : List (Automation J) → Registration J → ℕ → List (Automation J)
  unfolding latest update
  registered rows r now =
      let l = latest r.workspace r.automation_id rows in
      if same_hash r l then rows else archived r l rows ++ inserted r (next_version l) now ∷ []

  -- The table and the row that the call returns.
  unfoldable pub register_automation :
      List (Automation J) → Registration J → ℕ → List (Automation J) × Option (Automation J)
  unfolding registered find_version
  register_automation rows r now =
      let l = latest r.workspace r.automation_id rows in
      let after = registered rows r now in
      let version = if same_hash r l then version_of l else next_version l in
      (after, find_version r.workspace r.automation_id version after)

  unfoldable pub get_automation :
      List (Automation J) → String → String → Option ℕ → Option (Automation J)
  unfolding latest find_version
  get_automation rows ws id none = latest ws id rows
  get_automation rows ws id (some v) = find_version ws id v rows

  abbrev pub restated : String → Option String → Automation J → Automation J
  restated state none a = record a { state = state }
  restated state (some by) a = record a { state = state; approved_by = some by }

  unfoldable pub set_automation_state :
      List (Automation J)
      → String
      → String
      → ℕ
      → String
      → Option String
      → List (Automation J) × Bool
  unfolding update
  set_automation_state rows ws id v state approved_by =
      (update (is_version ws id v) (restated state approved_by) rows, any (is_version ws id v) rows)

  -- The rows in table order; the ORDER BY of the source only sorts them.
  unfoldable pub active_automations : List (Automation J) → List (Automation J)
  active_automations [] = []
  active_automations (a ∷ rows) =
      if a.state == "active" then a ∷ active_automations rows else active_automations rows

-- A write to the table.
pub data Write (J : Type 0) : Type 0 where
  register : Registration J → ℕ → Write J
  set_state : String → String → ℕ → String → Option String → Write J

module _ {J : Type 0} where
  unfoldable pub apply : List (Automation J) → Write J → List (Automation J)
  unfolding register_automation set_automation_state
  apply rows (register r now) = (register_automation rows r now).0
  apply rows (set_state ws id v state by) = (set_automation_state rows ws id v state by).0

  unfoldable pub apply_all : List (Automation J) → List (Write J) → List (Automation J)
  unfolding apply
  apply_all rows [] = rows
  apply_all rows (w ∷ ws) = apply_all (apply rows w) ws
