-- ===== src/ControlPlane/Events/Dedup.antt =====
-- What `EventStore.ingest` of src/nilscript/controlplane/store.py promises.
use nilscript.Base.{
  Bool, true, false, ◌==◌, none, some, List, [], ◌∷◌, any, if◌then◌else◌, ◌≡◌, arith, eq_refl,
  Bool-cases, Option-cases, inl, inr, eqb_iff,
}
use nilscript.ControlPlane.Events.{Event, Events, already_seen, ingest}

-- An envelope that can be told from others: it has an id or a sequence.
unfoldable pub is_marked : Event → Bool
is_marked e = if e.event_id == "" then elim e.sequence [ none ↦ false | some n ↦ true ] else true

pub ingest_all : List Event → Events → Events
ingest_all [] events = events
ingest_all (e ∷ es) events = ingest_all es (ingest e events).1

any-cons :
    (p : Event → Bool) (e : Event) (events : Events)
    → any p events ≡ true
    → any p (e ∷ events) ≡ true
any-cons p e events h = ground (arith, h)

seen-cons :
    (e f : Event) (events : Events)
    → already_seen events e ≡ true
    → already_seen (f ∷ events) e ≡ true
unfolding already_seen
seen-cons e f events h = ground (arith, h)

seen-ingest :
    (e f : Event) (events : Events)
    → already_seen events e ≡ true
    → already_seen (ingest f events).1 e ≡ true
unfolding ingest
seen-ingest e f events h = elim (Bool-cases (already_seen events f)) [
  | inl t ↦ ground (arith, h, t)
  | inr g ↦ ground (arith, g, seen-cons e f events h)
]

seen-ingest_all :
    (es : List Event) (e : Event) (events : Events)
    → already_seen events e ≡ true
    → already_seen (ingest_all es events) e ≡ true
unfolding ingest_all
seen-ingest_all [] e events h = h
seen-ingest_all (f ∷ es) e events h =
    seen-ingest_all es e (ingest f events).1 (seen-ingest e f events h)

seen_first : (e : Event) (events : Events) → is_marked e ≡ true → already_seen (e ∷ events) e ≡ true
unfolding is_marked already_seen
seen_first e events h = elim (Bool-cases (e.event_id == "")) [
  | inr f ↦ ground (arith, f, eq_refl e.event_id)
  | inl t ↦ elim (Option-cases e.sequence) [
    | inl q ↦ absurd (ground (arith, h, t, q))
    | inr (n, q) ↦ ground (arith, t, q, eq_refl e.workspace, eqb_iff n n)
  ]
]

seen_after :
    (e : Event) (events : Events) → is_marked e ≡ true → already_seen (ingest e events).1 e ≡ true
unfolding ingest
seen_after e events h = elim (Bool-cases (already_seen events e)) [
  | inl t ↦ ground (arith, t)
  | inr f ↦ ground (arith, f, seen_first e events h)
]

-- An envelope that has an id or a sequence is stored once: after it has come, and whatever else
-- comes then, it is refused and the table stays as it is.
pub ingest-again :
    (e : Event) (es : List Event) (events : Events)
    → is_marked e ≡ true
    → ingest e (ingest_all es (ingest e events).1) ≡ (false, ingest_all es (ingest e events).1)
unfolding ingest
ingest-again e es events h =
    ground (arith, seen-ingest_all es e (ingest e events).1 (seen_after e events h))
