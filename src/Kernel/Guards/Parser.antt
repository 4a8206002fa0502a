-- ===== src/Kernel/Guards/Parser.antt =====
-- `_Parser` of src/nilscript/kernel/guards.py, which evaluates as it parses. A method takes the tokens
-- from `_pos` on and returns those that are left. What it leaves is no structural part of them, so a
-- call costs a unit of fuel.
use nilscript.Base.{
  ℕ, zero, suc, Bool, true, false, not, ◌&&◌, ◌||◌, String, ◌==◌, Option, none, some, List, [], ◌∷◌,
  if◌then◌else◌, elem,
}
use Prim.Native.Char.{code}
use nilscript.Base.{◌-◌, ◌+◌, ◌*◌}
use nilscript.Kernel.Value.{ℤ, pos, negsuc, Value, null, bool, int, str, list, Items, nil, cons}
use nilscript.Kernel.RunResult.{Context}
use nilscript.Kernel.References.{parse_text, resolve, strip_prefix}
use nilscript.Kernel.Guards.{
  Result, ok, guard_error, fraction, out_of_fuel, ◌>>=◌, ref, number, text, op, word, Token,
}
use nilscript.Kernel.Guards.Compare.{truth, apply, size}

-- The text of the token that `_peek` answers with is this one.
unfoldable pub peeks : String → List Token → Bool
peeks t [] = false
peeks t (tok ∷ ts) = tok.text == t

-- The tokens behind the one that `_advance` takes.
abbrev pub behind : List Token → List Token
behind [] = []
behind (tok ∷ ts) = ts

unfoldable pub expect : String → List Token → Result (List Token)
expect t [] = guard_error
expect t (tok ∷ ts) = if tok.text == t then ok ts else guard_error

-- `_COMPARATORS`
abbrev comparators : List String
comparators = "==" ∷ "!=" ∷ "<" ∷ "<=" ∷ ">" ∷ ">=" ∷ "in" ∷ []

-- The operator that `_comparison` finds behind its left operand.
unfoldable pub comparator : List Token → Option String
comparator [] = none
comparator (tok ∷ ts) = if elem tok.text comparators then some tok.text else none

-- int(text), of digits.
unfoldable pub digits_value : ℕ → String → ℕ
digits_value n String.[] = n
digits_value n (String.◌∷◌ c s) = digits_value (n * 10 + (code c - 48)) s

abbrev pub minus : ℕ → ℤ
minus zero = pos 0
minus (suc n) = negsuc n

unfoldable pub has_dot : String → Bool
has_dot String.[] = false
has_dot (String.◌∷◌ c s) = String.◌∷◌ c String.[] == "." || has_dot s

-- float(text) if "." in text else int(text)
unfoldable pub number_value : String → Result Value
unfolding digits_value has_dot
number_value s = if has_dot s then fraction else elim (strip_prefix "-" s) [
  | none ↦ ok (int (pos (digits_value 0 s)))
  | some digits ↦ ok (int (minus (digits_value 0 digits)))
]

-- text[1:-1], of a quoted text.
unfoldable pub but_last : String → String
but_last String.[] = String.[]
but_last (String.◌∷◌ c String.[]) = String.[]
but_last (String.◌∷◌ c (String.◌∷◌ d s)) = String.◌∷◌ c (but_last (String.◌∷◌ d s))

unfoldable pub unquoted : String → String
unfolding but_last
unquoted String.[] = String.[]
unquoted (String.◌∷◌ c s) = but_last s

-- `_KEYWORDS`, and an unknown name.
unfoldable pub keyword : String → Result Value
keyword s =
    if s == "true"
    then ok (bool true)
    else if s == "false"
    then ok (bool false)
    else if s == "null"
    then ok null
    else guard_error

-- The branch that `_primary`, and `_name` within it, takes for a token. `literal` is a value, or an
-- error, that the token has by itself.
pub data Start : Type 0 where
  group listing sizing : Start
  reference : String → Start
  literal : Result Value → Start

unfoldable pub start : Token → Start
unfolding number_value unquoted keyword
start tok = if tok.text == "(" then group else if tok.text == "[" then listing else elim tok.kind [
  | ref ↦ reference tok.text
  | number ↦ literal (number_value tok.text)
  | text ↦ literal (ok (str (unquoted tok.text)))
  | word ↦ if tok.text == "size" then sizing else literal (keyword tok.text)
  | op ↦ literal guard_error
]

abbrev pub found : Option Value → Result Value
found none = guard_error
found (some v) = ok v

-- `_resolve_ref`
unfoldable pub resolve_ref : Context → Value → String → Result Value
unfolding parse_text resolve
resolve_ref ctx item s = elim (parse_text s) [
  | none ↦ guard_error
  | some parsed ↦ found (resolve (str s) ctx item)
]

module _ (ctx : Context) (item : Value) where
  unfoldable mutual
    unfolding peeks expect comparator start truth apply size resolve_ref

    -- `_or`
    pub parse_or : ℕ → List Token → Result (Value × List Token)
    parse_or zero ts = out_of_fuel
    parse_or (suc f) ts = parse_and f ts >>= λ (v, rest). or_loop f v rest

    -- The loop of `_or`.
    pub or_loop : ℕ → Value → List Token → Result (Value × List Token)
    or_loop zero v ts = out_of_fuel
    or_loop (suc f) v ts = elim (peeks "||" ts) [
      | false ↦ ok (v, ts)
      | true ↦ parse_and f (behind ts) >>= λ (w, rest). or_loop f (bool (truth v || truth w)) rest
    ]

    -- `_and`
    pub parse_and : ℕ → List Token → Result (Value × List Token)
    parse_and zero ts = out_of_fuel
    parse_and (suc f) ts = parse_not f ts >>= λ (v, rest). and_loop f v rest

    -- The loop of `_and`.
    pub and_loop : ℕ → Value → List Token → Result (Value × List Token)
    and_loop zero v ts = out_of_fuel
    and_loop (suc f) v ts = elim (peeks "&&" ts) [
      | false ↦ ok (v, ts)
      | true ↦ parse_not f (behind ts) >>= λ (w, rest). and_loop f (bool (truth v && truth w)) rest
    ]

    -- `_not`
    pub parse_not : ℕ → List Token → Result (Value × List Token)
    parse_not zero ts = out_of_fuel
    parse_not (suc f) ts = elim (peeks "!" ts) [
      | false ↦ parse_comparison f ts
      | true ↦ parse_not f (behind ts) >>= λ (v, rest). ok (bool (not (truth v)), rest)
    ]

    -- `_comparison`
    pub parse_comparison : ℕ → List Token → Result (Value × List Token)
    parse_comparison zero ts = out_of_fuel
    parse_comparison (suc f) ts = parse_primary f ts >>= λ (left, rest). elim (comparator rest) [
      | none ↦ ok (left, rest)
      | some o ↦ parse_primary f (behind rest) >>= λ (right, end).
          apply o left right >>= λ b. ok (bool b, end)
    ]

    -- `_primary`
    pub parse_primary : ℕ → List Token → Result (Value × List Token)
    parse_primary zero ts = out_of_fuel
    parse_primary (suc f) [] = guard_error
    parse_primary (suc f) (tok ∷ ts) = elim (start tok) [
      | group ↦ parse_or f ts >>= λ (v, rest). expect ")" rest >>= λ end. ok (v, end)
      | listing ↦ parse_list f ts >>= λ (xs, rest). ok (list xs, rest)
      | sizing ↦ expect "(" ts >>= λ inner. parse_or f inner >>= λ (v, rest).
          expect ")" rest >>= λ end. size v >>= λ n. ok (int (pos n), end)
      | reference s ↦ resolve_ref ctx item s >>= λ v. ok (v, ts)
      | literal r ↦ r >>= λ v. ok (v, ts)
    ]

    -- `_list`
    pub parse_list : ℕ → List Token → Result (Items × List Token)
    parse_list zero ts = out_of_fuel
    parse_list (suc f) ts = elim (peeks "]" ts) [
      | true ↦ ok (nil, behind ts)
      | false ↦
          parse_primary f ts >>= λ (v, rest). list_loop f rest >>= λ (xs, end). ok (cons v xs, end)
    ]

    -- The loop of `_list`: the items behind the first.
    pub list_loop : ℕ → List Token → Result (Items × List Token)
    list_loop zero ts = out_of_fuel
    list_loop (suc f) ts = elim (peeks "," ts) [
      | false ↦ expect "]" ts >>= λ end. ok (nil, end)
      | true ↦ parse_primary f (behind ts) >>= λ (v, rest).
          list_loop f rest >>= λ (xs, end). ok (cons v xs, end)
    ]
