-- ===== src/Kernel/Guards/Enough.antt =====
-- The tokenizer and the rewriting of `has` end within their fuel.
use Prim.Native.String.{◌++◌}
use nilscript.Base.{
  ℕ, zero, suc, ◌≤◌, ◌<◌, Bool, true, false, String, Option, none, some, arith, inl, inr,
  Option-cases, if◌then◌else◌,
}
use nilscript.Kernel.Value.{Value, str}
use nilscript.Kernel.RunResult.{Context}
use nilscript.Kernel.References.{Reference, scan_step, scan_source, parse_text, resolve}
use nilscript.Kernel.Guards.{
  Result, ok, guard_error, Token, Kind, Kept, returns, raises, Kept-bind, ref, number, text, op,
  word,
}
use nilscript.Kernel.Guards.Words.{
  text_length, scan_segments, Spot, between, step_spot, match_ref, match_ws, is_space,
}
use nilscript.Kernel.Guards.Tokens.{
  token, match_token, tokenize_from, tokenize, match_has, close_has, skip_spaces, presence, replace,
  rewrite_from, rewrite_has,
}
use nilscript.Kernel.Guards.Shorter.{
  Leaves, Leaves-le, Leaves-prefix, text_length-scan_step, text_length-span, match_ws-Leaves,
  match_number-Leaves, match_string-Leaves, match_op-Leaves, match_name-Leaves,
}

step_source :
    (n : ℕ) (b : Bool) (m : String × String)
    → text_length m.1 < n
    → Leaves n (if b then none else some m)
step_source n true m h = tt
step_source n false m h = h

scan_source-Leaves : (s : String) → Leaves (text_length s) (scan_source s)
scan_source-Leaves s =
    Leaves-prefix _ "step_" s _ _
      (Leaves-prefix _ "item" s _ (λ path. some ("item", path))
        (Leaves-prefix _ "input" s none (λ path. some ("input", path)) tt λ path e. omega arith)
        λ path e. omega arith)
      λ rest e.
        step_source _ _ (scan_step "step_" rest) (omega (arith, text_length-scan_step "step_" rest))

-- What the longest path leaves.
text_length-scan_segments :
    (q : Spot) (read : String) (found : String × String) (s : String) (n : ℕ)
    → text_length found.1 ≤ n
    → text_length s ≤ n
    → text_length (scan_segments q read found s).1 ≤ n
unfolding scan_segments
text_length-scan_segments q read found String.[] n h l = h
text_length-scan_segments q read found (String.◌∷◌ c s) n h l =
    elim (Option-cases (step_spot q c)) [
      | inl e ↦ rw (e, scan_segments) h
      | inr (r, e) ↦
          rw (e, scan_segments) (text_length-scan_segments r _ _ s n (ground arith) (omega arith))
    ]

match_ref-Leaves : (s : String) → Leaves (text_length s) (match_ref s)
unfolding match_ref
match_ref-Leaves s =
    Leaves-prefix _ "$." s none _ tt
      λ rest e. path_behind rest (scan_source rest) (scan_source-Leaves rest) (omega arith)
  where
    path_behind :
        (rest : String) (o : Option (String × String))
        → Leaves (text_length rest) o
        → text_length rest < text_length s
        → Leaves (text_length s) (elim o [
          | none ↦ none
          | some (source, path) ↦
              let start = "$." ++ source in some (scan_segments between start (start, path) path)
        ])
    path_behind rest none h l = tt
    path_behind rest (some (source, path)) h l = omega (
      arith,
      text_length-scan_segments between ("$." ++ source) ("$." ++ source, path) path
          (text_length path) (omega arith) (omega arith),
    )

-- The first of two alternatives that matches.
either :
    (n : ℕ) (k : Kind) (o : Option (String × String)) (other : Option (Token × String))
    → Leaves n o
    → Leaves n other
    → Leaves n (elim o [ some m ↦ some (token k m) | none ↦ other ])
either n k none other h l = l
either n k (some (t, rest)) other h l = h

match_token-Leaves : (s : String) → Leaves (text_length s) (match_token s)
unfolding match_token
match_token-Leaves s = either _ ref _ _ (match_ref-Leaves s) (
    either _ number _ _ (match_number-Leaves s) (
      either _ text _ _ (match_string-Leaves s)
        (either _ op _ _ (match_op-Leaves s) (either _ word _ none (match_name-Leaves s) tt))))

abbrev pub Anything {ℓ} : {A : Type ℓ} → A → Type 0
Anything a = Unit

-- What is done without a match and with one.
Kept-match :
    {A B : Type 0} {P : B → Type 0} (n : ℕ) (o : Option (A × String)) (r : Result B)
    (k : A × String → Result B)
    → Leaves n o
    → Kept P r
    → ((m : A × String) → text_length m.1 < n → Kept P (k m))
    → Kept P (elim o [ none ↦ r | some m ↦ k m ])
Kept-match n none r k l h f = h
Kept-match n (some m) r k l h f = f m l

-- A text that is no longer than its fuel.
tokenize_from-Kept : (n : ℕ) (s : String) → text_length s ≤ n → Kept Anything (tokenize_from n s)
unfolding tokenize_from
tokenize_from-Kept n String.[] h = returns tt
tokenize_from-Kept zero (String.◌∷◌ c s) h = absurd (omega arith)
tokenize_from-Kept (suc n) (String.◌∷◌ c s) h =
    Kept-match _ (match_ws (String.◌∷◌ c s)) _ _ (match_ws-Leaves (String.◌∷◌ c s))
      (Kept-match _ (match_token (String.◌∷◌ c s)) guard_error _
        (match_token-Leaves (String.◌∷◌ c s)) raises
        λ (t, rest) l. Kept-bind (tokenize_from-Kept n rest (omega arith)) λ ts h. returns tt)
      λ (spaces, rest) l. tokenize_from-Kept n rest (omega arith)

pub tokenize-Kept : (s : String) → Kept Anything (tokenize s)
unfolding tokenize
tokenize-Kept s = tokenize_from-Kept (text_length s) s (omega arith)

close_has-Leaves : (n : ℕ) (o : Option (String × String)) → Leaves n o → Leaves n (close_has o)
close_has-Leaves n none h = tt
close_has-Leaves n (some (r, rest)) h =
    Leaves-prefix _ ")" (skip_spaces rest) none (λ behind. some (r, behind)) tt
      λ behind e. omega (arith, text_length-span is_space rest)

match_has-Leaves : (s : String) → Leaves (text_length s) (match_has s)
unfolding match_has
match_has-Leaves s = Leaves-prefix _ "has(" s none _ tt λ inner e. close_has-Leaves _ _ (
    Leaves-le _ _ _ (omega (arith, text_length-span is_space inner))
      (match_ref-Leaves (skip_spaces inner)))

replaced :
    (ctx : Context) (item : Value) (r : String) (o : Option Reference)
    → Kept Anything
        (elim o [ none ↦ guard_error | some parsed ↦ ok (presence (resolve (str r) ctx item)) ])
replaced ctx item r none = raises
replaced ctx item r (some parsed) = returns tt

replace-Kept : (ctx : Context) (item : Value) (r : String) → Kept Anything (replace ctx item r)
unfolding replace
replace-Kept ctx item r = replaced ctx item r (parse_text r)

rewrite_from-Kept :
    (n : ℕ) (ctx : Context) (item : Value) (s : String)
    → text_length s ≤ n
    → Kept Anything (rewrite_from n ctx item s)
unfolding rewrite_from
rewrite_from-Kept n ctx item String.[] h = returns tt
rewrite_from-Kept zero ctx item (String.◌∷◌ c s) h = absurd (omega arith)
rewrite_from-Kept (suc n) ctx item (String.◌∷◌ c s) h =
    Kept-match _ (match_has (String.◌∷◌ c s)) _ _ (match_has-Leaves (String.◌∷◌ c s))
      (Kept-bind (rewrite_from-Kept n ctx item s (omega arith)) λ out k. returns tt)
      λ (r, rest) l.
        Kept-bind (replace-Kept ctx item r) λ literal k.
          Kept-bind (rewrite_from-Kept n ctx item rest (omega arith)) λ out j. returns tt

pub rewrite_has-Kept :
    (s : String) (ctx : Context) (item : Value) → Kept Anything (rewrite_has s ctx item)
unfolding rewrite_has
rewrite_has-Kept s ctx item = rewrite_from-Kept (text_length s) ctx item s (omega arith)
