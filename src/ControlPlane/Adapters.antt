-- ===== src/ControlPlane/Adapters.antt =====
-- The adapter registry of src/nilscript/controlplane/store.py: which backend a workspace routes to.
-- The table lists its rows in the order of insertion. A time is a number.
pub mod Routing
use nilscript.Base.{
  ℕ, Bool, true, false, ◌&&◌, String, ◌==◌, Option, none, some, List, [], ◌∷◌, ◌++◌, map, any, ltb,
  if◌then◌else◌,
}

pub record Adapter : Type 0 where
  pub workspace : String
  pub adapter_id : String
  pub label : String
  pub url : String
  pub bearer : String
  pub system : String
  pub active : Bool
  pub updated_at : ℕ

-- WHERE workspace = ? AND adapter_id = ?
abbrev pub is_at : String → String → Adapter → Bool
is_at ws id a = (a.workspace == ws) && (a.adapter_id == id)

-- The coordinates that `register_adapter` is given.
pub record Coordinates : Type 0 where
  pub label : String
  pub url : String
  pub bearer : String
  pub system : String

-- ON CONFLICT DO UPDATE: the coordinates and the time, not the flag.
abbrev pub refreshed : Coordinates → ℕ → Adapter → Adapter
refreshed c now a = record a {
  label = c.label;
  url = c.url;
  bearer = c.bearer;
  system = c.system;
  updated_at = now;
}

abbrev pub registered : String → String → Coordinates → ℕ → Adapter
registered ws id c now = record {
  workspace = ws;
  adapter_id = id;
  label = c.label;
  url = c.url;
  bearer = c.bearer;
  system = c.system;
  active = false;
  updated_at = now;
}

-- UPDATE ... WHERE: the rows that a test picks.
unfoldable pub update : (Adapter → Bool) → (Adapter → Adapter) → List Adapter → List Adapter
update p f [] = []
update p f (a ∷ rows) = (if p a then f a else a) ∷ update p f rows

-- `_adapter`
unfoldable pub find : String → String → List Adapter → Option Adapter
find ws id [] = none
find ws id (a ∷ rows) = if is_at ws id a then some a else find ws id rows

unfoldable pub register_adapter :
    List Adapter → String → String → Coordinates → ℕ → List Adapter × Option Adapter
unfolding update find
register_adapter rows ws id c now =
    let after =
      if any (is_at ws id) rows
      then update (is_at ws id) (refreshed c now) rows
      else rows ++ registered ws id c now ∷ [] in
    (after, find ws id after)

unfoldable pub activate_adapter : List Adapter → String → String → ℕ → List Adapter × Bool
unfolding update
activate_adapter rows ws id now =
    if any (is_at ws id) rows
    then (
      update (λ a. a.workspace == ws)
          (λ a. record a { active = a.adapter_id == id; updated_at = now }) rows,
      true,
    )
    else (rows, false)

unfoldable pub set_adapter_active : List Adapter → String → String → Bool → ℕ → List Adapter × Bool
unfolding update
set_adapter_active rows ws id enabled now = (
  update (is_at ws id) (λ a. record a { active = enabled; updated_at = now }) rows,
  any (is_at ws id) rows,
)

-- The later of two rows by `updated_at`; of equal ones the first, where SQLite leaves the choice.
abbrev pub newer : Adapter → Option Adapter → Adapter
newer a none = a
newer a (some b) = if ltb a.updated_at b.updated_at then b else a

-- The rows that a test picks, ORDER BY updated_at DESC LIMIT 1.
unfoldable pub newest : (Adapter → Bool) → List Adapter → Option Adapter
newest p [] = none
newest p (a ∷ rows) = if p a then some (newer a (newest p rows)) else newest p rows

unfoldable pub active_adapter : List Adapter → String → Option Adapter
unfolding newest
active_adapter rows ws = newest (λ a. (a.workspace == ws) && a.active) rows

unfoldable pub any_active_adapter : List Adapter → Option Adapter
unfolding newest
any_active_adapter rows = newest (λ a. a.active) rows
