-- ===== src/Kernel/Guards/Tokens.antt =====
-- `_tokenize` and `_rewrite_has` of src/nilscript/kernel/guards.py. Each loop has the length of its
-- text as fuel.
use Prim.Native.String.{◌++◌}
use nilscript.Base.{ℕ, zero, suc, String, Option, none, some, List, [], ◌∷◌}
use nilscript.Kernel.Value.{Value, str}
use nilscript.Kernel.RunResult.{Context}
use nilscript.Kernel.References.{single, strip_prefix, parse_text, resolve}
use nilscript.Kernel.Guards.{
  Result, ok, guard_error, out_of_fuel, ◌>>=◌, Kind, ref, number, text, op, word, Token,
}
use nilscript.Kernel.Guards.Words.{
  is_space, span, match_ws, match_ref, match_number, match_string, match_op, match_name,
  text_length,
}

abbrev pub token : Kind → String × String → Token × String
token k (matched, rest) = (record { kind = k; text = matched }, rest)

-- The alternatives of `_TOKEN` behind `ws`, in order.
unfoldable pub match_token : String → Option (Token × String)
unfolding match_ref match_number match_string match_op match_name
match_token s = elim (match_ref s) [
  | some m ↦ some (token ref m)
  | none ↦ elim (match_number s) [
    | some m ↦ some (token number m)
    | none ↦ elim (match_string s) [
      | some m ↦ some (token text m)
      | none ↦ elim (match_op s) [
        | some m ↦ some (token op m)
        | none ↦ elim (match_name s) [ some m ↦ some (token word m) | none ↦ none ]
      ]
    ]
  ]
]

unfoldable pub tokenize_from : ℕ → String → Result (List Token)
unfolding match_token match_ws
tokenize_from fuel String.[] = ok []
tokenize_from zero (String.◌∷◌ c s) = out_of_fuel
tokenize_from (suc fuel) (String.◌∷◌ c s) = elim (match_ws (String.◌∷◌ c s)) [
  | some (spaces, rest) ↦ tokenize_from fuel rest
  | none ↦ elim (match_token (String.◌∷◌ c s)) [
    | none ↦ guard_error
    | some (t, rest) ↦ tokenize_from fuel rest >>= λ ts. ok (t ∷ ts)
  ]
]

unfoldable pub tokenize : String → Result (List Token)
unfolding tokenize_from
tokenize s = tokenize_from (text_length s) s

abbrev pub skip_spaces : String → String
skip_spaces s = (span is_space s).1

-- \s*\) behind the reference
abbrev pub close_has : Option (String × String) → Option (String × String)
close_has none = none
close_has (some (r, rest)) = elim (strip_prefix ")" (skip_spaces rest)) [
  | none ↦ none
  | some behind ↦ some (r, behind)
]

-- has\(\s*(…)\s*\): the reference, and the text behind the call.
unfoldable pub match_has : String → Option (String × String)
unfolding match_ref span
match_has s = elim (strip_prefix "has(" s) [
  | none ↦ none
  | some inner ↦ close_has (match_ref (skip_spaces inner))
]

abbrev pub presence : Option Value → String
presence (some v) = "true"
presence none = "false"

-- `replace`, of the group.
unfoldable pub replace : Context → Value → String → Result String
unfolding parse_text resolve
replace ctx item r = elim (parse_text r) [
  | none ↦ guard_error
  | some parsed ↦ ok (presence (resolve (str r) ctx item))
]

unfoldable pub rewrite_from : ℕ → Context → Value → String → Result String
unfolding match_has replace
rewrite_from fuel ctx item String.[] = ok ""
rewrite_from zero ctx item (String.◌∷◌ c s) = out_of_fuel
rewrite_from (suc fuel) ctx item (String.◌∷◌ c s) = elim (match_has (String.◌∷◌ c s)) [
  | none ↦ rewrite_from fuel ctx item s >>= λ out. ok (single c ++ out)
  | some (r, rest) ↦ replace ctx item r >>= λ literal.
      rewrite_from fuel ctx item rest >>= λ out. ok (literal ++ out)
]

unfoldable pub rewrite_has : String → Context → Value → Result String
unfolding rewrite_from
rewrite_has s ctx item = rewrite_from (text_length s) ctx item s
