-- ===== src/Kernel/Guards/Fuel.antt =====
-- Every guard is evaluated within the fuel that `evaluate_guard` gives: each call of `_primary` takes
-- a token, and at most five calls stand between two of them.
use nilscript.Base.{
  ℕ, zero, suc, ◌+◌, ◌*◌, ◌≤◌, ◌<◌, Bool, true, false, String, Option, none, some, List, [], ◌∷◌,
  ◌≡◌, ◌≢◌, refl, arith, length, if◌then◌else◌, ◌==◌,
}
use nilscript.Kernel.Value.{Value, null, bool, int, pos, str, list, dict}
use nilscript.Kernel.RunResult.{Context}
use nilscript.Kernel.Guards.{
  Result, ok, guard_error, fraction, out_of_fuel, ◌>>=◌, Kept, returns, raises, stops, Kept-bind,
  Kept-out_of_fuel, Token,
}
use nilscript.Kernel.Guards.Enough.{tokenize-Kept, rewrite_has-Kept}
use nilscript.Kernel.Guards.Compare.{apply, size}
use nilscript.Kernel.Guards.Parser.{
  peeks, behind, expect, comparator, Start, group, listing, sizing, reference, literal, start,
  resolve_ref, parse_or, or_loop, parse_and, and_loop, parse_not, parse_comparison, parse_primary,
  parse_list, list_loop,
}
use nilscript.Kernel.Guards.Evaluate.{parse, no_trailing, enough, only_bool, evaluate_guard}
use nilscript.Kernel.Guards.Settled.{
  Settled, apply-Settled, size-Settled, resolve_ref-Settled, IsSettled, start-IsSettled,
}

-- Fewer tokens than `n` are left.
abbrev Fewer : {A : Type 0} → ℕ → A × List Token → Type 0
Fewer n m = length m.1 < n

length-behind : (t : String) (ts : List Token) → peeks t ts ≡ true → length (behind ts) < length ts
unfolding peeks
length-behind t [] h = absurd (cc)
length-behind t (tok ∷ ts) h = omega arith

length-behind-le : (ts : List Token) → length (behind ts) ≤ length ts
length-behind-le [] = omega arith
length-behind-le (tok ∷ ts) = omega arith

expect-Kept : (t : String) (ts : List Token) → Kept (λ rest. length rest < length ts) (expect t ts)
unfolding expect
expect-Kept t [] = raises
expect-Kept t (tok ∷ ts) = matched (tok.text == t)
  where
    matched :
        (b : Bool) → Kept (λ rest. length rest < suc (length ts)) (if b then ok ts else guard_error)
    matched true = returns (omega arith)
    matched false = raises

-- What is done by whether a token is next.
Kept-peeks :
    {A : Type 0} {P : A → Type 0} (t : String) (ts : List Token) (r s : Result A)
    → (length (behind ts) < length ts → Kept P r)
    → Kept P s
    → Kept P (elim (peeks t ts) [ true ↦ r | false ↦ s ])
Kept-peeks {P} t ts r s h k = next (peeks t ts) refl
  where
    next : (b : Bool) → peeks t ts ≡ b → Kept P (elim b [ true ↦ r | false ↦ s ])
    next true e = h (length-behind t ts e)
    next false e = k

module _ (ctx : Context) (item : Value) where
  -- What each method does with `n` units of fuel, if they are enough for its tokens.
  record WithFuel (n : ℕ) : Type 0 where
    on_or :
        (ts : List Token)
        → 5 * length ts + 5 ≤ n
        → Kept (Fewer (length ts)) (parse_or ctx item n ts)
    on_or_loop :
        (v : Value) (ts : List Token)
        → 5 * length ts + 1 ≤ n
        → Kept (Fewer (suc (length ts))) (or_loop ctx item n v ts)
    on_and :
        (ts : List Token)
        → 5 * length ts + 4 ≤ n
        → Kept (Fewer (length ts)) (parse_and ctx item n ts)
    on_and_loop :
        (v : Value) (ts : List Token)
        → 5 * length ts + 1 ≤ n
        → Kept (Fewer (suc (length ts))) (and_loop ctx item n v ts)
    on_not :
        (ts : List Token)
        → 5 * length ts + 3 ≤ n
        → Kept (Fewer (length ts)) (parse_not ctx item n ts)
    on_comparison :
        (ts : List Token)
        → 5 * length ts + 2 ≤ n
        → Kept (Fewer (length ts)) (parse_comparison ctx item n ts)
    on_primary :
        (ts : List Token)
        → 5 * length ts + 1 ≤ n
        → Kept (Fewer (length ts)) (parse_primary ctx item n ts)
    on_list :
        (ts : List Token)
        → 5 * length ts + 2 ≤ n
        → Kept (Fewer (length ts)) (parse_list ctx item n ts)
    on_list_loop :
        (ts : List Token)
        → 5 * length ts + 1 ≤ n
        → Kept (Fewer (length ts)) (list_loop ctx item n ts)

  primary_step :
      (n : ℕ) (tok : Token) (ts : List Token) (st : Start)
      → WithFuel n
      → 5 * length ts + 5 ≤ n
      → IsSettled st
      → Kept (Fewer (suc (length ts))) (elim st [
        | group ↦ parse_or ctx item n ts >>= λ (v, rest). expect ")" rest >>= λ end. ok (v, end)
        | listing ↦ parse_list ctx item n ts >>= λ (xs, rest). ok (list xs, rest)
        | sizing ↦ expect "(" ts >>= λ inner. parse_or ctx item n inner >>= λ (v, rest).
            expect ")" rest >>= λ end. size v >>= λ k. ok (int (pos k), end)
        | reference s ↦ resolve_ref ctx item s >>= λ v. ok (v, ts)
        | literal r ↦ r >>= λ v. ok (v, ts)
      ])
  primary_step n tok ts group w h k =
      Kept-bind (w.on_or ts (omega arith))
        λ (v, rest) l. Kept-bind (expect-Kept ")" rest) λ end m. returns (omega arith)
  primary_step n tok ts listing w h k =
      Kept-bind (w.on_list ts (omega arith)) λ (xs, rest) l. returns (omega arith)
  primary_step n tok ts sizing w h k = Kept-bind (expect-Kept "(" ts) λ inner i.
      Kept-bind (w.on_or inner (omega arith)) λ (v, rest) l.
        Kept-bind (expect-Kept ")" rest)
          λ end m. Kept-bind (size-Settled v) λ k s. returns (omega arith)
  primary_step n tok ts (reference s) w h k =
      Kept-bind (resolve_ref-Settled ctx item s) λ v l. returns (omega arith)
  primary_step n tok ts (literal r) w h k = Kept-bind k λ v l. returns (omega arith)

  comparison_step :
      (n : ℕ) (left : Value) (rest : List Token) (o : Option String)
      → WithFuel n
      → 5 * length rest + 1 ≤ n
      → Kept (Fewer (suc (length rest))) (elim o [
        | none ↦ ok (left, rest)
        | some o ↦ parse_primary ctx item n (behind rest) >>= λ (right, end).
            apply o left right >>= λ b. ok (bool b, end)
      ])
  comparison_step n left rest none w h = returns (omega arith)
  comparison_step n left rest (some o) w h =
      Kept-bind (w.on_primary (behind rest) (omega (arith, length-behind-le rest)))
        λ (right, end) l.
          Kept-bind (apply-Settled o left right)
            λ b s. returns (omega (arith, length-behind-le rest))

  no_fuel : WithFuel zero
  no_fuel = record {
    on_or = λ ts h. absurd (omega arith);
    on_or_loop = λ v ts h. absurd (omega arith);
    on_and = λ ts h. absurd (omega arith);
    on_and_loop = λ v ts h. absurd (omega arith);
    on_not = λ ts h. absurd (omega arith);
    on_comparison = λ ts h. absurd (omega arith);
    on_primary = λ ts h. absurd (omega arith);
    on_list = λ ts h. absurd (omega arith);
    on_list_loop = λ ts h. absurd (omega arith);
  }

  -- A postcondition may be weakened.
  fewer :
      {A : Type 0} (m n : ℕ) (r : Result (A × List Token))
      → m ≤ n
      → Kept (Fewer m) r
      → Kept (Fewer n) r
  fewer m n (ok a) le (returns h) = returns (omega arith)
  fewer m n guard_error le raises = raises
  fewer m n fraction le stops = stops
  fewer m n out_of_fuel le h = absurd (Kept-out_of_fuel h refl)

  primary_with :
      (n : ℕ)
      → WithFuel n
      → (ts : List Token) → 5 * length ts + 1 ≤ suc n
      → Kept (Fewer (length ts)) (parse_primary ctx item (suc n) ts)
  unfolding parse_primary
  primary_with n w [] h = raises
  primary_with n w (tok ∷ ts) h =
      primary_step n tok ts (start tok) w (omega arith) (start-IsSettled tok)

  more_fuel : (n : ℕ) → WithFuel n → WithFuel (suc n)
  unfolding parse_or
  more_fuel n w = record {
    on_or = λ ts h.
        Kept-bind (w.on_and ts (omega arith))
          λ (v, rest) l. fewer _ _ _ (omega arith) (w.on_or_loop v rest (omega arith));
    on_or_loop = λ v ts h.
        Kept-peeks "||" ts _ _
          (λ b.
            Kept-bind (w.on_and (behind ts) (omega arith))
              λ (u, rest) l. fewer _ _ _ (omega arith) (w.on_or_loop _ rest (omega arith)))
          (returns (omega arith));
    on_and = λ ts h.
        Kept-bind (w.on_not ts (omega arith))
          λ (v, rest) l. fewer _ _ _ (omega arith) (w.on_and_loop v rest (omega arith));
    on_and_loop = λ v ts h.
        Kept-peeks "&&" ts _ _
          (λ b.
            Kept-bind (w.on_not (behind ts) (omega arith))
              λ (u, rest) l. fewer _ _ _ (omega arith) (w.on_and_loop _ rest (omega arith)))
          (returns (omega arith));
    on_not = λ ts h.
        Kept-peeks "!" ts _ _
          (λ b. Kept-bind (w.on_not (behind ts) (omega arith)) λ (v, rest) l. returns (omega arith))
          (w.on_comparison ts (omega arith));
    on_comparison = λ ts h. Kept-bind (w.on_primary ts (omega arith)) λ (left, rest) l.
        fewer _ _ _ (omega arith) (comparison_step n left rest (comparator rest) w (omega arith));
    on_primary = primary_with n w;
    on_list = λ ts h.
        Kept-peeks "]" ts _ _ (λ b. returns (omega arith))
          (Kept-bind (w.on_primary ts (omega arith)) λ (v, rest) l.
            Kept-bind (w.on_list_loop rest (omega arith)) λ (xs, end) m. returns (omega arith));
    on_list_loop = λ ts h.
        Kept-peeks "," ts _ _
          (λ b. Kept-bind (w.on_primary (behind ts) (omega arith)) λ (v, rest) l.
            Kept-bind (w.on_list_loop rest (omega arith)) λ (xs, end) m. returns (omega arith))
          (Kept-bind (expect-Kept "]" ts) λ end m. returns (omega arith));
  }

  with_fuel : (n : ℕ) → WithFuel n
  with_fuel zero = no_fuel
  with_fuel (suc n) = more_fuel n (with_fuel n)

no_trailing-Settled : (m : Value × List Token) → Settled (no_trailing m)
no_trailing-Settled (v, []) = returns tt
no_trailing-Settled (v, tok ∷ ts) = raises

only_bool-Settled : (v : Value) → Settled (only_bool v)
unfolding only_bool
only_bool-Settled (bool b) = returns tt
only_bool-Settled null = raises
only_bool-Settled (int n) = raises
only_bool-Settled (str s) = raises
only_bool-Settled (list xs) = raises
only_bool-Settled (dict fs) = raises

parse-Settled : (ctx : Context) (item : Value) (ts : List Token) → Settled (parse ctx item ts)
unfolding parse enough
parse-Settled ctx item ts =
    Kept-bind ((with_fuel ctx item (enough ts)).on_or ts (omega arith)) λ m h. no_trailing-Settled m

evaluate_guard-Settled :
    (expression : String) (ctx : Context) (item : Value)
    → Settled (evaluate_guard expression ctx item)
unfolding evaluate_guard
evaluate_guard-Settled expression ctx item =
    Kept-bind (rewrite_has-Kept expression ctx item) λ rewritten h.
      Kept-bind (tokenize-Kept rewritten)
        λ ts k. Kept-bind (parse-Settled ctx item ts) λ v l. only_bool-Settled v

-- Whatever text a guard is, with whatever context, its rewriting, its tokenizing and its evaluation
-- end within their fuel: the guard returns a Boolean, or raises a GuardError, or has a number with a
-- fraction.
pub evaluate_guard-out_of_fuel :
    (expression : String) (ctx : Context) (item : Value)
    → evaluate_guard expression ctx item ≢ out_of_fuel
evaluate_guard-out_of_fuel expression ctx item =
    Kept-out_of_fuel (evaluate_guard-Settled expression ctx item)
