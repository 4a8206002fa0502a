-- ===== src/Automation/Triggers/Clock.antt =====
-- What src/nilscript/automation/triggers.py uses of `datetime`, in UTC: the fields, `weekday`, the
-- difference of two times in microseconds, `replace` and `isoformat`.
use Prim.Native.Nat.{◌/◌, ◌%◌}
use Prim.Native.String.{◌++◌}
use nilscript.Base.{ℕ, ◌+◌, ◌-◌, ◌*◌, Bool, ◌&&◌, ◌||◌, not, String, ltb, eqb, if◌then◌else◌}
use nilscript.Base.Decimal.{decimal}

pub record Moment : Type 0 where
  pub year : ℕ
  pub month : ℕ
  pub day : ℕ
  pub hour : ℕ
  pub minute : ℕ
  pub second : ℕ
  pub microsecond : ℕ

abbrev is_leap : ℕ → Bool
is_leap y = eqb (y % 4) 0 && (not (eqb (y % 100) 0) || eqb (y % 400) 0)

abbrev before_year : ℕ → ℕ
before_year y = (y - 1) * 365 + (y - 1) / 4 - (y - 1) / 100 + (y - 1) / 400

-- The days of a common year before a month.
abbrev before_month : ℕ → ℕ
before_month m =
    if eqb m 1
    then 0
    else if eqb m 2
    then 31
    else if eqb m 3
    then 59
    else if eqb m 4
    then 90
    else if eqb m 5
    then 120
    else if eqb m 6
    then 151
    else if eqb m 7
    then 181
    else if eqb m 8
    then 212
    else if eqb m 9
    then 243
    else if eqb m 10
    then 273
    else if eqb m 11
    then 304
    else 334

-- toordinal()
unfoldable pub ordinal : Moment → ℕ
ordinal t =
    before_year t.year
    + before_month t.month
    + (if ltb 2 t.month && is_leap t.year then 1 else 0)
    + t.day

-- weekday(), where Monday is 0.
unfoldable pub weekday : Moment → ℕ
unfolding ordinal
weekday t = (ordinal t + 6) % 7

-- Microseconds since the day 0, for differences.
unfoldable pub micros : Moment → ℕ
unfolding ordinal
micros t = (((ordinal t * 24 + t.hour) * 60 + t.minute) * 60 + t.second) * 1000000 + t.microsecond

-- The minute of a time in microseconds.
abbrev pub minute_of : ℕ → ℕ
minute_of t = t / 60000000

-- replace(second=0, microsecond=0) and replace(microsecond=0)
abbrev pub to_minute : Moment → Moment
to_minute t = record t { second = 0; microsecond = 0 }

abbrev pub to_second : Moment → Moment
to_second t = record t { microsecond = 0 }

-- At least so many digits.
abbrev pad2 : ℕ → String
pad2 n = if ltb n 10 then "0" ++ decimal n else decimal n

abbrev pad4 : ℕ → String
pad4 n = if ltb n 100 then "00" ++ pad2 n else if ltb n 1000 then "0" ++ decimal n else decimal n

-- isoformat() of a time with no microseconds.
unfoldable pub isoformat : Moment → String
unfolding decimal
isoformat t =
    pad4 t.year
    ++ "-"
    ++ pad2 t.month
    ++ "-"
    ++ pad2 t.day
    ++ "T"
    ++ pad2 t.hour
    ++ ":"
    ++ pad2 t.minute
    ++ ":"
    ++ pad2 t.second
    ++ "+00:00"
