-- ===== src/ControlPlane/Events.antt =====
-- The append-only event table of src/nilscript/controlplane/store.py: `EventStore.ingest` and its
-- deduplication. The columns that `ingest` copies from the envelope's body and never reads back are
-- one text here, the stored envelope.
pub mod Dedup
use nilscript.Base.{
  ℕ, Bool, true, false, String, ◌==◌, Option, none, some, List, [], ◌∷◌, eqb, any, if◌then◌else◌,
  ◌&&◌, ◌≡◌, refl,
}

-- A row of the table. An absent id of the envelope is "".
pub record Event : Type 0 where
  pub event_id : String
  pub workspace : String
  pub sequence : Option ℕ
  pub envelope : String

abbrev pub Events : Type 0
Events = List Event

abbrev pub has_id : String → Event → Bool
has_id id e = e.event_id == id

abbrev pub has_sequence : String → ℕ → Event → Bool
has_sequence workspace n e = elim e.sequence [
  | none ↦ false
  | some m ↦ (e.workspace == workspace) && eqb m n
]

-- Whether a row like this one is in the table: by the id if there is one, else by the sequence if
-- there is one.
unfoldable pub already_seen : Events → Event → Bool
already_seen events e =
    if e.event_id == ""
    then elim e.sequence [ none ↦ false | some n ↦ any (has_sequence e.workspace n) events ]
    else any (has_id e.event_id) events

-- The newest row first.
unfoldable pub ingest : Event → Events → Bool × Events
unfolding already_seen
ingest e events = if already_seen events e then (false, events) else (true, e ∷ events)
