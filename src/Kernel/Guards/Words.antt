-- ===== src/Kernel/Guards/Words.antt =====
-- The groups of `_TOKEN` of src/nilscript/kernel/guards.py: each matches a prefix of the text, and
-- gives it with the text behind it. `\s`, `\d` and `\w` are read on ASCII.
use Prim.Native.Char.{Char, code}
use Prim.Native.String.{◌++◌}
use nilscript.Base.{
  ℕ, suc, Bool, true, false, ◌||◌, ◌&&◌, String, ◌==◌, Option, none, some, List, [], ◌∷◌, eqb, leb,
  if◌then◌else◌,
}
use nilscript.Kernel.References.{is_digit, is_start, is_word, single, strip_prefix, scan_source}

-- \s
abbrev pub is_space : Char → Bool
is_space c = eqb (code c) 32 || (leb 9 (code c) && leb (code c) 13)

-- The longest prefix of characters that pass a test.
unfoldable pub span : (Char → Bool) → String → String × String
span p String.[] = (String.[], String.[])
span p (String.◌∷◌ c s) =
    let (taken, rest) = span p s in
    if p c then (String.◌∷◌ c taken, rest) else (String.[], String.◌∷◌ c s)

-- One character at least.
abbrev pub some_prefix : String × String → Option (String × String)
some_prefix (String.[], rest) = none
some_prefix (String.◌∷◌ c taken, rest) = some (String.◌∷◌ c taken, rest)

abbrev pub in_front : String → Option (String × String) → Option (String × String)
in_front s none = none
in_front s (some (taken, rest)) = some (s ++ taken, rest)

-- \s+
unfoldable pub match_ws : String → Option (String × String)
unfolding span
match_ws s = some_prefix (span is_space s)

-- [A-Za-z_]\w*
unfoldable pub match_name : String → Option (String × String)
unfolding span
match_name String.[] = none
match_name (String.◌∷◌ c s) =
    if is_start c then some_prefix (span is_word (String.◌∷◌ c s)) else none

-- \d+
unfoldable pub match_digits : String → Option (String × String)
unfolding span
match_digits s = some_prefix (span is_digit s)

-- (?:\.\d+)? behind the digits
unfoldable pub match_fraction : Option (String × String) → Option (String × String)
unfolding match_digits
match_fraction none = none
match_fraction (some (digits, rest)) = elim (strip_prefix "." rest) [
  | none ↦ some (digits, rest)
  | some behind ↦ elim (match_digits behind) [
    | none ↦ some (digits, rest)
    | some (more, end) ↦ some (digits ++ "." ++ more, end)
  ]
]

-- -?\d+(?:\.\d+)?
unfoldable pub match_number : String → Option (String × String)
unfolding match_digits match_fraction
match_number s = elim (strip_prefix "-" s) [
  | none ↦ match_fraction (match_digits s)
  | some digits ↦ in_front "-" (match_fraction (match_digits digits))
]

-- [^']*' behind the quote, and the same for ".
unfoldable pub match_quoted : String → String → Option (String × String)
unfolding span
match_quoted quote s =
    let (inner, rest) = span (λ c. elim (single c == quote) [ true ↦ false | false ↦ true ]) s in
    elim (strip_prefix quote rest) [
      | none ↦ none
      | some behind ↦ some (quote ++ inner ++ quote, behind)
    ]

-- '[^']*'|"[^"]*"
unfoldable pub match_string : String → Option (String × String)
unfolding match_quoted
match_string s = elim (strip_prefix "'" s) [
  | some inner ↦ match_quoted "'" inner
  | none ↦ elim (strip_prefix "\"" s) [ some inner ↦ match_quoted "\"" inner | none ↦ none ]
]

-- The first of the alternatives that the text starts with.
abbrev pub match_any : List String → String → Option (String × String)
match_any [] s = none
match_any (o ∷ os) s = elim (strip_prefix o s) [
  | none ↦ match_any os s
  | some rest ↦ some (o, rest)
]

-- <=|>=|==|!=|&&|\|\||[<>!()\[\],]
abbrev pub op_texts : List String
op_texts =
    "<=" ∷ ">=" ∷ "==" ∷ "!=" ∷ "&&" ∷ "||" ∷ "<" ∷ ">" ∷ "!" ∷ "(" ∷ ")" ∷ "[" ∷ "]" ∷ "," ∷ []

unfoldable pub match_op : String → Option (String × String)
match_op s = match_any op_texts s

-- Where the scanner of a path stands: behind a segment, behind `.`, in a name, behind `[`, in an
-- index.
pub data Spot : Type 0 where
  between after_dot in_name after_bracket in_index : Spot

abbrev pub begin_segment : Char → Option Spot
begin_segment c =
    if eqb (code c) 46 then some after_dot else if eqb (code c) 91 then some after_bracket else none

unfoldable pub step_spot : Spot → Char → Option Spot
step_spot between c = begin_segment c
step_spot after_dot c = if is_start c then some in_name else none
step_spot in_name c = if is_word c then some in_name else begin_segment c
step_spot after_bracket c = if is_digit c then some in_index else none
step_spot in_index c =
    if is_digit c then some in_index else if eqb (code c) 93 then some between else none

-- A path may end there.
abbrev pub is_whole : Spot → Bool
is_whole between = true
is_whole in_name = true
is_whole _ = false

-- The longest path behind a source: the text so far, and the longest match so far with the text
-- behind it.
unfoldable pub scan_segments : Spot → String → String × String → String → String × String
unfolding step_spot
scan_segments q read found String.[] = found
scan_segments q read found (String.◌∷◌ c s) = elim (step_spot q c) [
  | none ↦ found
  | some r ↦
      let longer = read ++ single c in
      scan_segments r longer (if is_whole r then (longer, s) else found) s
]

-- \$\.(?:step_[0-9]+|item|input)(?:\.[A-Za-z_]\w*|\[[0-9]+\])*
unfoldable pub match_ref : String → Option (String × String)
unfolding scan_segments
match_ref s = elim (strip_prefix "$." s) [
  | none ↦ none
  | some rest ↦ elim (scan_source rest) [
    | none ↦ none
    | some (source, path) ↦
        let start = "$." ++ source in some (scan_segments between start (start, path) path)
  ]
]

abbrev pub text_length : String → ℕ
text_length String.[] = 0
text_length (String.◌∷◌ c s) = suc (text_length s)
