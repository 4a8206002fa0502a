-- ===== src/Kernel/References.antt =====
-- src/nilscript/kernel/references.py: the references `$.step_k.output.field`. The two regular
-- expressions are scanners by clauses over the text; `\w` is read on ASCII.
pub mod Collect
use Prim.Native.Char.{Char, code}
use Prim.Native.String.{◌++◌ as str_append}
use nilscript.Base.{
  ℕ, zero, suc, ◌+◌, ◌-◌, ◌*◌, Bool, ◌||◌, ◌&&◌, String, ◌==◌, Option, none, some, List, [], ◌∷◌,
  ◌++◌, elem, lookup, eqb, leb, if◌then◌else◌,
}
use nilscript.Kernel.Value.{
  Value, null, bool, int, str, list, dict, Items, nil, cons, Fields, end, field, get_field,
}
use nilscript.Kernel.RunResult.{Context}

-- str | int
pub data Segment : Type 0 where
  name : String → Segment
  index : ℕ → Segment

pub record Reference : Type 0 where
  pub source : String
  pub segments : List Segment

abbrev pub is_digit : Char → Bool
is_digit c = leb 48 (code c) && leb (code c) 57

-- [A-Za-z_]
abbrev pub is_start : Char → Bool
is_start c =
    (leb 65 (code c) && leb (code c) 90) || (leb 97 (code c) && leb (code c) 122) || eqb (code c) 95

-- \w
abbrev pub is_word : Char → Bool
is_word c = is_start c || is_digit c

-- A text of one character.
abbrev pub single : Char → String
single c = String.◌∷◌ c String.[]

-- Where the scanner of the path stands: before a segment, behind `.`, in a name, behind `[`, in an
-- index, behind a last newline, which `$` ignores.
pub data Place : Type 0 where
  between after_dot after_bracket after_newline : Place
  in_name : String → Place
  in_index : ℕ → Place

abbrev pub begin : Char → Option Place
begin c =
    if eqb (code c) 46
    then some after_dot
    else if eqb (code c) 91
    then some after_bracket
    else if eqb (code c) 10
    then some after_newline
    else none

-- What a character does: the new place and the segments that it completes.
unfoldable pub advance : Place → Char → Option (Place × List Segment)
advance between c = elim (begin c) [ none ↦ none | some p ↦ some (p, []) ]
advance after_dot c = if is_start c then some (in_name (single c), []) else none
advance (in_name s) c =
    if is_word c
    then some (in_name (str_append s (single c)), [])
    else elim (begin c) [ none ↦ none | some p ↦ some (p, name s ∷ []) ]
advance after_bracket c = if is_digit c then some (in_index (code c - 48), []) else none
advance (in_index n) c =
    if is_digit c
    then some (in_index (n * 10 + (code c - 48)), [])
    else if eqb (code c) 93
    then some (between, index n ∷ [])
    else none
advance after_newline c = none

unfoldable pub finish : Place → Option (List Segment)
finish between = some []
finish (in_name s) = some (name s ∷ [])
finish after_newline = some []
finish after_dot = none
finish after_bracket = none
finish (in_index n) = none

abbrev pub prepend : List Segment → Option (List Segment) → Option (List Segment)
prepend done none = none
prepend done (some rest) = some (done ++ rest)

-- The group `path` behind the source, and `_SEGMENT.findall` of it.
unfoldable pub scan_path : Place → String → Option (List Segment)
unfolding advance finish
scan_path p String.[] = finish p
scan_path p (String.◌∷◌ c s) = elim (advance p c) [
  | none ↦ none
  | some (q, done) ↦ prepend done (scan_path q s)
]

-- The text behind a prefix.
abbrev pub strip_prefix : String → String → Option String
strip_prefix String.[] s = some s
strip_prefix (String.◌∷◌ c p) String.[] = none
strip_prefix (String.◌∷◌ c p) (String.◌∷◌ d s) =
    if eqb (code c) (code d) then strip_prefix p s else none

-- [0-9]+ of `step_[0-9]+`, the digits so far first.
abbrev pub scan_step : String → String → String × String
scan_step source String.[] = (source, String.[])
scan_step source (String.◌∷◌ c s) =
    let more = scan_step (str_append source (single c)) s in
    if is_digit c then more else (source, String.◌∷◌ c s)

-- The group `source`, and the text behind it.
abbrev pub scan_source : String → Option (String × String)
scan_source s = elim (strip_prefix "step_" s) [
  | some rest ↦
      let (source, path) = scan_step "step_" rest in
      if source == "step_" then none else some (source, path)
  | none ↦ elim (strip_prefix "item" s) [
    | some path ↦ some ("item", path)
    | none ↦ elim (strip_prefix "input" s) [ some path ↦ some ("input", path) | none ↦ none ]
  ]
]

-- A path has one segment at least.
abbrev pub with_source : String → Option (List Segment) → Option Reference
with_source source (some (s ∷ segments)) =
    some (record { source = source; segments = s ∷ segments })
with_source source (some []) = none
with_source source none = none

unfoldable pub parse_text : String → Option Reference
unfolding scan_path
parse_text s = elim (strip_prefix "$." s) [
  | none ↦ none
  | some rest ↦ elim (scan_source rest) [
    | none ↦ none
    | some (source, path) ↦ with_source source (scan_path between path)
  ]
]

unfoldable pub parse_reference : Value → Option Reference
unfolding parse_text
parse_reference (str s) = parse_text s
parse_reference null = none
parse_reference (bool b) = none
parse_reference (int n) = none
parse_reference (list xs) = none
parse_reference (dict fs) = none

-- xs[n] of a list, and s[n] of a text.
abbrev pub item_at : ℕ → Items → Option Value
item_at n nil = none
item_at zero (cons v xs) = some v
item_at (suc n) (cons v xs) = item_at n xs

abbrev pub char_at : ℕ → String → Option Value
char_at n String.[] = none
char_at zero (String.◌∷◌ c s) = some (str (single c))
char_at (suc n) (String.◌∷◌ c s) = char_at n s

-- cursor[segment]; `none` is the KeyError, IndexError or TypeError.
unfoldable pub step_into : Value → Segment → Option Value
unfolding get_field
step_into (dict fs) (name s) = get_field s fs
step_into (list xs) (index n) = item_at n xs
step_into (str s) (index n) = char_at n s
step_into (dict fs) (index n) = none
step_into (list xs) (name s) = none
step_into (str t) (name s) = none
step_into null s = none
step_into (bool b) s = none
step_into (int n) s = none

unfoldable pub follow : Value → List Segment → Option Value
unfolding step_into
follow root [] = some root
follow root (s ∷ segments) = elim (step_into root s) [ none ↦ none | some v ↦ follow v segments ]

-- Where a reference is looked up; `none` is the ReferenceError.
unfoldable pub resolve_reference : Reference → Context → Value → Option Value
unfolding follow
resolve_reference ref ctx item =
    if ref.source == "item"
    then follow item ref.segments
    else elim (lookup ref.source ctx) [ none ↦ none | some root ↦ follow root ref.segments ]

unfoldable mutual
  unfolding parse_reference resolve_reference

  pub resolve : Value → Context → Value → Option Value
  resolve (dict fs) ctx item = elim (resolve_fields fs ctx item) [
    | none ↦ none
    | some gs ↦ some (dict gs)
  ]
  resolve (list xs) ctx item = elim (resolve_items xs ctx item) [
    | none ↦ none
    | some ys ↦ some (list ys)
  ]
  resolve (str s) ctx item = elim (parse_reference (str s)) [
    | none ↦ some (str s)
    | some ref ↦ resolve_reference ref ctx item
  ]
  resolve null ctx item = some null
  resolve (bool b) ctx item = some (bool b)
  resolve (int n) ctx item = some (int n)

  pub resolve_items : Items → Context → Value → Option Items
  resolve_items nil ctx item = some nil
  resolve_items (cons v xs) ctx item = elim (resolve v ctx item) [
    | none ↦ none
    | some w ↦ elim (resolve_items xs ctx item) [ none ↦ none | some ys ↦ some (cons w ys) ]
  ]

  pub resolve_fields : Fields → Context → Value → Option Fields
  resolve_fields end ctx item = some end
  resolve_fields (field k v fs) ctx item = elim (resolve v ctx item) [
    | none ↦ none
    | some w ↦ elim (resolve_fields fs ctx item) [ none ↦ none | some gs ↦ some (field k w gs) ]
  ]
