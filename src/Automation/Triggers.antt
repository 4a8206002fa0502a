-- ===== src/Automation/Triggers.antt =====
-- src/nilscript/automation/triggers.py and the triggers of models.py: whether an event or a tick of
-- the clock fires an automation, and under which key.
pub mod Clock
pub mod Cron
use Prim.Native.String.{◌++◌}
use nilscript.Base.{
  ℕ, ◌-◌, ◌*◌, Bool, true, false, ◌&&◌, ◌||◌, String, ◌==◌, Option, none, some, List, ltb, leb,
  if◌then◌else◌,
}
use nilscript.Kernel.Value.{
  Value, null, bool, int, str, list, dict, Items, Fields, end, field, get_field,
}
use nilscript.Kernel.Guards.Compare.{truth, value_equal}
use nilscript.Automation.Triggers.Clock.{Moment, micros, minute_of, isoformat, to_minute, to_second}
use nilscript.Automation.Triggers.Cron.{cron_matches}

-- `ScheduleTrigger`, `EventTrigger` and `ManualTrigger`.
pub data Trigger : Type 0 where
  schedule : Option String → Option ℕ → Trigger
  event : String → String → Fields → Trigger
  manual : Trigger

-- What the scheduler reads of an envelope.
pub record Envelope : Type 0 where
  pub id : Option String
  pub grant : Option String
  pub workspace : Option String
  pub body : Option Value

-- `value or {}`, which is read with `get`: `none` is the AttributeError.
unfoldable pub or_empty : Option Value → Option Fields
unfolding truth
or_empty none = some end
or_empty (some (dict fs)) = some fs
or_empty (some v) = if truth v then none else some end

-- d.get(key)
abbrev pub get : String → Fields → Value
get k fs = elim (get_field k fs) [ none ↦ null | some v ↦ v ]

-- The filter of a trigger, over its items.
unfoldable pub filter_matches : Fields → Fields → Fields → Bool
unfolding value_equal get_field
filter_matches end args body = true
filter_matches (field k v rest) args body =
    (value_equal (get k args) v || value_equal (get k body) v) && filter_matches rest args body

abbrev args_match : Fields → Fields → Option Fields → Option Bool
args_match filter body none = none
args_match filter body (some args) = some (filter_matches filter args body)

abbrev body_matches : String → String → Fields → Option Fields → Option Bool
body_matches verb kind filter none = none
body_matches verb kind filter (some body) =
    if value_equal (get "event" body) (str kind) && value_equal (get "verb" body) (str verb)
    then args_match filter body (or_empty (get_field "args" body))
    else some false

-- `event_matches`, of the trigger's `on_verb`, `on_event` and `match`.
unfoldable pub event_matches : String → String → Fields → Envelope → Option Bool
unfolding or_empty filter_matches value_equal get_field
event_matches verb kind filter envelope = body_matches verb kind filter (or_empty envelope.body)

-- Whether a cron trigger is due: at most once in a minute.
unfoldable pub cron_due : String → Option ℕ → Moment → Bool
unfolding cron_matches micros
cron_due expr none now = cron_matches expr now
cron_due expr (some last) now =
    cron_matches expr now && ltb (minute_of last) (minute_of (micros now))

-- now - last, which is negative where `last` lies ahead.
unfoldable pub interval_due : ℕ → Option ℕ → Moment → Bool
unfolding micros
interval_due seconds none now = true
interval_due seconds (some last) now =
    leb last (micros now) && leb (seconds * 1000000) (micros now - last)

-- `schedule_due`, with the time of the last run in microseconds.
unfoldable pub schedule_due : Option String → Option ℕ → Option ℕ → Moment → Bool
unfolding cron_due interval_due
schedule_due (some expr) seconds last now = cron_due expr last now
schedule_due none none last now = false
schedule_due none (some seconds) last now = interval_due seconds last now

-- value or other
abbrev or_else : Option String → String → String
or_else none other = other
or_else (some s) other = if s == "" then other else s

unfoldable pub event_fire_key : Envelope → String
event_fire_key envelope = "event:" ++ or_else envelope.id "noid"

unfoldable pub schedule_fire_key : Option String → Moment → String
unfolding isoformat
schedule_fire_key (some expr) now = "schedule:" ++ isoformat (to_minute now)
schedule_fire_key none now = "schedule:" ++ isoformat (to_second now)
