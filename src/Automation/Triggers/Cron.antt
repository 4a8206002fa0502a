-- ===== src/Automation/Triggers/Cron.antt =====
-- `_matches_field` and `cron_matches` of src/nilscript/automation/triggers.py.
use Prim.Native.Char.{code}
use Prim.Native.Nat.{◌%◌}
use nilscript.Base.{
  ℕ, zero, suc, ◌+◌, ◌-◌, ◌*◌, Bool, true, false, ◌&&◌, ◌||◌, String, ◌==◌, Option, none, some,
  List, [], ◌∷◌, leb, eqb, if◌then◌else◌,
}
use nilscript.Base.Texts.{onto_first, split, split_once}
use nilscript.Kernel.Value.{ℤ, pos, negsuc}
use nilscript.Kernel.References.{is_digit}
use nilscript.Kernel.Guards.Words.{is_space}
use nilscript.Automation.Triggers.Clock.{Moment, weekday}

-- s.split(): the words between whitespace. An empty word in front stands for no word yet.
unfoldable pub words_from : String → List String
words_from String.[] = "" ∷ []
words_from (String.◌∷◌ c s) =
    let parts = words_from s in if is_space c then "" ∷ parts else onto_first c parts

abbrev drop_empty : List String → List String
drop_empty [] = []
drop_empty (s ∷ parts) = let rest = drop_empty parts in if s == "" then rest else s ∷ rest

unfoldable pub words : String → List String
unfolding words_from
words s = drop_empty (words_from s)

-- The digits of an int, with single underscores between them. The flag tells that a digit has just
-- been read.
unfoldable pub digits_from : ℕ → Bool → String → Option ℕ
digits_from n true String.[] = some n
digits_from n false String.[] = none
digits_from n after (String.◌∷◌ c s) =
    let more = digits_from (n * 10 + (code c - 48)) true s in
    let skipped = digits_from n false s in
    if is_digit c then more else if after && eqb (code c) 95 then skipped else none

abbrev negated : Option ℕ → Option ℤ
negated none = none
negated (some zero) = some (pos 0)
negated (some (suc n)) = some (negsuc n)

abbrev positive : Option ℕ → Option ℤ
positive none = none
positive (some n) = some (pos n)

-- int(s), for a text with no whitespace; `none` is the ValueError.
unfoldable pub parse_int : String → Option ℤ
unfolding digits_from
parse_int String.[] = none
parse_int (String.◌∷◌ c s) =
    if eqb (code c) 45
    then negated (digits_from 0 false s)
    else if eqb (code c) 43
    then positive (digits_from 0 false s)
    else positive (digits_from 0 false (String.◌∷◌ c s))

-- A range and its step.
abbrev pub Range : Type 0
Range = ℤ × ℤ × ℤ

abbrev range_of : Option ℤ → Option ℤ → Option ℤ → Option Range
range_of (some step) (some start) (some end) = some (start, end, step)
range_of none start end = none
range_of (some step) none end = none
range_of (some step) (some start) none = none

abbrev step_of : Option String → Option ℤ
unfolding parse_int
step_of none = some (pos 1)
step_of (some s) = parse_int s

abbrev bounds_of : String × Option String → Option ℤ → Option Range
unfolding parse_int
bounds_of (a, some b) step = range_of step (parse_int a) (parse_int b)
bounds_of (a, none) step = range_of step (parse_int a) (parse_int a)

-- One part of a field between commas; `none` where it is malformed.
unfoldable pub parse_part : ℕ → ℕ → String → Option Range
unfolding parse_int split_once
parse_part lo hi part =
    let (body, step) = split_once 47 part in
    if body == "*"
    then range_of (step_of step) (some (pos lo)) (some (pos hi))
    else bounds_of (split_once 45 body) (step_of step)

-- start <= value <= end and step > 0 and (value - start) % step == 0
unfoldable pub in_range : ℕ → Range → Bool
in_range value (pos start, pos end, pos (suc step)) =
    leb start value && leb value end && eqb ((value - start) % suc step) 0
in_range value (negsuc start, pos end, pos (suc step)) =
    leb value end && eqb ((value + suc start) % suc step) 0
in_range value (start, end, step) = false

abbrev part_matches : ℕ → Option Range → Bool
part_matches value none = false
part_matches value (some r) = in_range value r

unfoldable pub any_part : ℕ → ℕ → ℕ → List String → Bool
unfolding parse_part in_range
any_part value lo hi [] = false
any_part value lo hi (part ∷ parts) =
    part_matches value (parse_part lo hi part) || any_part value lo hi parts

-- `_matches_field`
unfoldable pub matches_field : String → ℕ → ℕ → ℕ → Bool
unfolding any_part split
matches_field spec value lo hi = any_part value lo hi (split 44 spec)

-- Sunday is 0.
abbrev cron_weekday : Moment → ℕ
cron_weekday t = (weekday t + 1) % 7

abbrev weekday_matches : String → ℕ → Bool
weekday_matches spec w = matches_field spec w 0 7 || (eqb w 0 && matches_field spec 7 0 7)

abbrev fields_match : List String → Moment → Bool
fields_match (minute ∷ hour ∷ day ∷ month ∷ week ∷ []) t =
    matches_field minute t.minute 0 59
    && matches_field hour t.hour 0 23
    && matches_field day t.day 1 31
    && matches_field month t.month 1 12
    && weekday_matches week (cron_weekday t)
fields_match _ t = false

unfoldable pub cron_matches : String → Moment → Bool
unfolding words matches_field weekday
cron_matches expr t = fields_match (words expr) t
