-- ===== src/Kernel/Guards/Shorter.antt =====
-- Each group of `_TOKEN` takes a character at least: the text behind it is shorter.
use Prim.Native.Char.{Char}
use Prim.Native.String.{◌++◌}
use nilscript.Base.{
  ℕ, suc, ◌+◌, ◌≤◌, ◌<◌, Bool, true, false, String, Option, none, some, List, [], ◌∷◌, ◌≡◌, refl,
  arith, All, if◌then◌else◌,
}
use nilscript.Kernel.References.{strip_prefix, scan_step, single, is_digit, is_start, is_word}
use nilscript.Kernel.Guards.Words.{
  span, text_length, some_prefix, match_ws, match_name, match_digits, match_fraction, match_number,
  match_quoted, match_string, match_any, op_texts, match_op, in_front,
}

-- What a match leaves of a text is shorter than `n`.
abbrev pub Leaves {ℓ} : {A : Type ℓ} → ℕ → Option (A × String) → Type 0
Leaves n none = Unit
Leaves n (some (a, rest)) = text_length rest < n

pub text_length-strip_prefix :
    (p s rest : String)
    → strip_prefix p s ≡ some rest
    → text_length rest + text_length p ≡ text_length s
text_length-strip_prefix String.[] s rest h = ground (arith)
text_length-strip_prefix (String.◌∷◌ c p) String.[] rest h = absurd (cc)
text_length-strip_prefix (String.◌∷◌ c p) (String.◌∷◌ d s) rest h =
    ground (arith, text_length-strip_prefix p s rest)

pub text_length-span : (p : Char → Bool) (s : String) → text_length (span p s).1 ≤ text_length s
unfolding span
text_length-span p String.[] = omega arith
text_length-span p (String.◌∷◌ c s) = ground (arith, text_length-span p s)

span_taken :
    (p : Char → Bool) (c : Char) (s : String) (b : Bool)
    → Leaves (suc (text_length s)) (
        some_prefix
          (if b then (String.◌∷◌ c (span p s).0, (span p s).1) else (String.[], String.◌∷◌ c s)))
unfolding span
span_taken p c s true = omega (arith, text_length-span p s)
span_taken p c s false = tt

-- A prefix that is not empty leaves less.
some_prefix-span : (p : Char → Bool) (s : String) → Leaves (text_length s) (some_prefix (span p s))
unfolding span
some_prefix-span p String.[] = tt
some_prefix-span p (String.◌∷◌ c s) = span_taken p c s (p c)

pub text_length-scan_step : (source s : String) → text_length (scan_step source s).1 ≤ text_length s
text_length-scan_step source String.[] = omega arith
text_length-scan_step source (String.◌∷◌ c s) =
    ground (arith, text_length-scan_step (source ++ single c) s)

pub match_ws-Leaves : (s : String) → Leaves (text_length s) (match_ws s)
unfolding match_ws
match_ws-Leaves s = some_prefix-span _ s

-- An alternative whose match comes by a test.
Leaves-if :
    (b : Bool) (n : ℕ) (m : Option (String × String))
    → Leaves n m
    → Leaves n (if b then m else none)
Leaves-if true n m h = h
Leaves-if false n m h = tt

pub match_name-Leaves : (s : String) → Leaves (text_length s) (match_name s)
unfolding match_name
match_name-Leaves String.[] = tt
match_name-Leaves (String.◌∷◌ c s) =
    Leaves-if (is_start c) _ (some_prefix (span is_word (String.◌∷◌ c s)))
      (some_prefix-span is_word (String.◌∷◌ c s))

-- What a match behind a prefix leaves.
pub Leaves-le : {A : Type 0} (m n : ℕ) (o : Option (A × String)) → m ≤ n → Leaves m o → Leaves n o
Leaves-le m n none h l = tt
Leaves-le m n (some (a, rest)) h l = omega arith

in_front-Leaves :
    (n : ℕ) (s : String) (o : Option (String × String)) → Leaves n o → Leaves n (in_front s o)
in_front-Leaves n s none h = tt
in_front-Leaves n s (some (a, rest)) h = h

module _ {A : Type 0} (n : ℕ) (p s : String) (other : Option (A × String)) where
  after_prefix :
      (k : String → Option (A × String)) (o : Option String)
      → strip_prefix p s ≡ o
      → Leaves n other
      → ((rest : String) → text_length rest + text_length p ≡ text_length s → Leaves n (k rest))
      → Leaves n (elim o [ none ↦ other | some rest ↦ k rest ])
  after_prefix k none e l h = l
  after_prefix k (some rest) e l h = h rest (text_length-strip_prefix p s rest e)

  -- A match that goes on behind a prefix, with another one where the text has not that prefix.
  pub Leaves-prefix :
      (k : String → Option (A × String))
      → Leaves n other
      → ((rest : String) → text_length rest + text_length p ≡ text_length s → Leaves n (k rest))
      → Leaves n (elim (strip_prefix p s) [ none ↦ other | some rest ↦ k rest ])
  Leaves-prefix k = after_prefix k (strip_prefix p s) refl

match_digits-Leaves : (s : String) → Leaves (text_length s) (match_digits s)
unfolding match_digits
match_digits-Leaves s = some_prefix-span is_digit s

decimals :
    (digits rest behind : String) (n : ℕ) (o : Option (String × String))
    → text_length rest < n
    → text_length behind ≤ text_length rest
    → Leaves (text_length behind) o
    → Leaves n (elim o [
      | none ↦ some (digits, rest)
      | some (more, end) ↦ some (digits ++ "." ++ more, end)
    ])
decimals digits rest behind n none h l m = h
decimals digits rest behind n (some (more, end)) h l m = omega arith

match_fraction-Leaves :
    (n : ℕ) (o : Option (String × String)) → Leaves n o → Leaves n (match_fraction o)
unfolding match_fraction
match_fraction-Leaves n none h = tt
match_fraction-Leaves n (some (digits, rest)) h =
    Leaves-prefix n "." rest (some (digits, rest)) _ h λ behind e.
      decimals digits rest behind n (match_digits behind) h (omega arith)
        (match_digits-Leaves behind)

pub match_number-Leaves : (s : String) → Leaves (text_length s) (match_number s)
unfolding match_number
match_number-Leaves s =
    Leaves-prefix _ "-" s (match_fraction (match_digits s)) _
      (match_fraction-Leaves _ _ (match_digits-Leaves s))
      λ digits e.
        Leaves-le (text_length digits) _ _ (omega arith)
          (in_front-Leaves _ "-" _ (match_fraction-Leaves _ _ (match_digits-Leaves digits)))

match_quoted-Leaves : (quote s : String) → Leaves (suc (text_length s)) (match_quoted quote s)
unfolding match_quoted
match_quoted-Leaves quote s =
    Leaves-prefix _ quote _ none _ tt λ behind e. omega (arith, text_length-span _ s)

pub match_string-Leaves : (s : String) → Leaves (text_length s) (match_string s)
unfolding match_string
match_string-Leaves s =
    Leaves-prefix _ "'" s _ (match_quoted "'")
      (Leaves-prefix _ "\"" s none (match_quoted "\"") tt
        λ inner e. Leaves-le _ _ _ (omega arith) (match_quoted-Leaves "\"" inner))
      λ inner e. Leaves-le _ _ _ (omega arith) (match_quoted-Leaves "'" inner)

match_any-Leaves :
    (os : List String) (s : String)
    → All (λ o. 0 < text_length o) os
    → Leaves (text_length s) (match_any os s)
match_any-Leaves [] s h = tt
match_any-Leaves (o ∷ os) s h =
    Leaves-prefix _ o s (match_any os s) (λ rest. some (o, rest)) (match_any-Leaves os s h.1)
      λ rest e. omega (arith, h.0)

pub match_op-Leaves : (s : String) → Leaves (text_length s) (match_op s)
unfolding match_op
match_op-Leaves s = match_any-Leaves op_texts s (omega arith)
