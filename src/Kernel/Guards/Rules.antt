-- ===== src/Kernel/Guards/Rules.antt =====
-- One unit of fuel more: each method of `_Parser` agrees with its rule of the grammar, if those that it
-- calls do.
use nilscript.Base.{
  ℕ, suc, Bool, true, false, not, ◌&&◌, ◌||◌, String, Option, none, some, List, refl, ap, sym, ◌∙◌,
}
use nilscript.Kernel.Value.{Value, bool, Items, cons}
use nilscript.Kernel.RunResult.{Context}
use nilscript.Kernel.Guards.{Result, ok, ◌>>=◌, Token}
use nilscript.Kernel.Guards.Compare.{truth, apply}
use nilscript.Kernel.Guards.Parser.{
  peeks, behind, comparator, parse_or, or_loop, parse_and, and_loop, parse_not, parse_comparison,
  parse_primary, parse_list, list_loop,
}
use nilscript.Kernel.Guards.Evaluate.{answer}
use nilscript.Kernel.Guards.Grammar.{
  Expr, either, both, negation, comparison, Exprs, expr, meaning, meanings, read_or, read_ors,
  read_and, read_ands, read_not, read_comparison, read_primary, read_list, read_more,
}
use nilscript.Kernel.Guards.Sequence.{
  Alike, Alike-under, bind_assoc, valued, Agrees, Agrees-bind, Agrees-behind,
}

-- What is done by whether a token is next, on both sides.
pub by_peek :
    {A B : Type 0} (f : A → Result B) (b : Bool) (r s : Result A) (r' s' : Result B)
    → Alike r' (r >>= f)
    → Alike s' (s >>= f)
    → Alike (elim b [ true ↦ r' | false ↦ s' ]) (elim b [ true ↦ r | false ↦ s ] >>= f)
by_peek f true r s r' s' h k = h
by_peek f false r s r' s' h k = k

-- A run behind a value, by whether a token is next.
behind_peek :
    {A B U : Type 0} (f : A → Result B) (u : Result U) (b : Bool) (r s : Result A)
    (r' s' : U → Result B)
    → Alike (u >>= r') (r >>= f)
    → Alike (u >>= s') (s >>= f)
    → Alike
        (u >>= λ v. elim b [ true ↦ r' v | false ↦ s' v ])
        (elim b [ true ↦ r | false ↦ s ] >>= f)
behind_peek f u true r s r' s' h k = h
behind_peek f u false r s r' s' h k = k

-- A value of two values, and one of a Boolean of two values, with the tokens that are left.
pub renamed :
    {U V : Type 0} (r : Result U) (g : U → V) (rest : List Token)
    → Alike {A = V × List Token}
        (r >>= λ u. ok (g u, rest))
        ((r >>= λ u. ok (g u)) >>= λ v. ok (v, rest))
renamed r g rest = sym (ap answer (bind_assoc r (λ u. ok (g u)) (λ v. ok (v, rest))))

triple :
    {U V : Type 0} (r : Result U) (s : Result V) (f : U → V → Result Bool) (end : List Token)
    → Alike {A = Value × List Token}
        (r >>= λ u. s >>= λ v. f u v >>= λ t. ok (bool t, end))
        ((r >>= λ u. s >>= λ v. f u v >>= λ t. ok (bool t)) >>= λ v. ok (v, end))
triple r s f end =
    Alike-under r _ _ (λ u.
      Alike-under s _ _ (λ v. renamed (f u v) (λ t. bool t) end)
      ∙ sym (ap answer (bind_assoc s (λ v. f u v >>= λ t. ok (bool t)) (λ v. ok (v, end)))))
    ∙ sym (ap answer (bind_assoc r (λ u. s >>= λ v. f u v >>= λ t. ok (bool t)) (λ v. ok (v, end))))

module _ (ctx : Context) (item : Value) where
  abbrev pub mean : Expr → Result Value
  mean = meaning ctx item

  abbrev pub means : Exprs → Result Items
  means = meanings ctx item

  -- With `n` units of fuel, each method agrees with its rule of the grammar.
  pub record AgreesAt (n : ℕ) : Type 0 where
    pub at_or : (ts : List Token) → Agrees mean (read_or n ts) (parse_or ctx item n ts)
    pub at_or_loop :
        (e : Expr) (ts : List Token)
        → Alike (mean e >>= λ v. or_loop ctx item n v ts) (read_ors n e ts >>= valued mean)
    pub at_and : (ts : List Token) → Agrees mean (read_and n ts) (parse_and ctx item n ts)
    pub at_and_loop :
        (e : Expr) (ts : List Token)
        → Alike (mean e >>= λ v. and_loop ctx item n v ts) (read_ands n e ts >>= valued mean)
    pub at_not : (ts : List Token) → Agrees mean (read_not n ts) (parse_not ctx item n ts)
    pub at_comparison :
        (ts : List Token) → Agrees mean (read_comparison n ts) (parse_comparison ctx item n ts)
    pub at_primary :
        (ts : List Token) → Agrees mean (read_primary n ts) (parse_primary ctx item n ts)
    pub at_list : (ts : List Token) → Agrees means (read_list n ts) (parse_list ctx item n ts)
    pub at_list_loop : (ts : List Token) → Agrees means (read_more n ts) (list_loop ctx item n ts)

  -- The meaning of a binary expression, and what comes behind it.
  joined :
      (a b : Expr) (op : Value → Value → Value) (k : Value → Result (Value × List Token))
      → Alike
          (mean a >>= λ v. mean b >>= λ w. k (op v w))
          ((mean a >>= λ v. mean b >>= λ w. ok (op v w)) >>= k)
  joined a b op k = sym (
      ap answer (bind_assoc (mean a) _ k)
      ∙ Alike-under (mean a) _ _ λ v. ap answer (bind_assoc (mean b) (λ w. ok (op v w)) k))

  pub or_with :
      (n : ℕ)
      → AgreesAt n
      → (e : Expr) (ts : List Token)
      → Alike
          (mean e >>= λ v. or_loop ctx item (suc n) v ts)
          (read_ors (suc n) e ts >>= valued mean)
  unfolding meaning or_loop read_ors
  or_with n w e ts =
      behind_peek (valued mean) (mean e) (peeks "||" ts) _ _ _ _
        (Agrees-behind mean mean (read_and n (behind ts)) _ (mean e) _
          (λ (d, rest). read_ors n (either e d) rest) (w.at_and (behind ts))
          λ d rest.
            joined e d (λ u v. bool (truth u || truth v)) (λ v. or_loop ctx item n v rest)
            ∙ w.at_or_loop (either e d) rest)
        refl

  pub and_with :
      (n : ℕ)
      → AgreesAt n
      → (e : Expr) (ts : List Token)
      → Alike
          (mean e >>= λ v. and_loop ctx item (suc n) v ts)
          (read_ands (suc n) e ts >>= valued mean)
  unfolding meaning and_loop read_ands
  and_with n w e ts =
      behind_peek (valued mean) (mean e) (peeks "&&" ts) _ _ _ _
        (Agrees-behind mean mean (read_not n (behind ts)) _ (mean e) _
          (λ (d, rest). read_ands n (both e d) rest) (w.at_not (behind ts))
          λ d rest.
            joined e d (λ u v. bool (truth u && truth v)) (λ v. and_loop ctx item n v rest)
            ∙ w.at_and_loop (both e d) rest)
        refl

  compared :
      (n : ℕ)
      → AgreesAt n
      → (a : Expr) (rest : List Token) (o : Option String)
      → Alike
          (mean a >>= λ left. elim o [
            | none ↦ ok (left, rest)
            | some o ↦ parse_primary ctx item n (behind rest) >>= λ (right, end).
                apply o left right >>= λ b. ok (bool b, end)
          ])
          (elim o [
            | none ↦ ok (a, rest)
            | some o ↦ read_primary n (behind rest) >>= λ (b, end). ok (comparison o a b, end)
          ]
            >>= valued mean)
  unfolding meaning
  compared n w a rest none = refl
  compared n w a rest (some o) =
      Agrees-behind mean mean (read_primary n (behind rest)) _ (mean a) _
        (λ (b, end). ok (comparison o a b, end)) (w.at_primary (behind rest))
        λ b end. triple (mean a) (mean b) (apply o) end

  -- A comparison, of its first operand.
  pub compared_at :
      (n : ℕ)
      → AgreesAt n
      → (ts : List Token)
      → Agrees mean (read_comparison (suc n) ts) (parse_comparison ctx item (suc n) ts)
  unfolding read_comparison parse_comparison
  compared_at n w ts =
      Agrees-bind mean mean (read_primary n ts) _ _
        (λ (a, rest). elim (comparator rest) [
          | none ↦ ok (a, rest)
          | some o ↦ read_primary n (behind rest) >>= λ (b, end). ok (comparison o a b, end)
        ])
        (w.at_primary ts) λ a rest. compared n w a rest (comparator rest)

  -- The items of a list, of the first one.
  pub listed :
      (n : ℕ)
      → AgreesAt n
      → (ts : List Token)
      → Alike
          (parse_primary ctx item n ts >>= λ (v, rest).
            list_loop ctx item n rest >>= λ (xs, end). ok (cons v xs, end))
          ((read_primary n ts >>= λ (e, rest).
              read_more n rest >>= λ (es, end). ok (expr e es, end))
            >>= valued means)
  unfolding meaning
  listed n w ts =
      Agrees-bind mean means (read_primary n ts) _ _
        (λ (e, rest). read_more n rest >>= λ (es, end). ok (expr e es, end)) (w.at_primary ts)
        λ e rest.
          Agrees-behind means means (read_more n rest) _ (mean e) _
            (λ (es, end). ok (expr e es, end)) (w.at_list_loop rest)
            λ es end.
              Alike-under (mean e) _ _ (λ v. renamed (means es) (λ xs. cons v xs) end)
              ∙ sym (
                  ap answer (
                    bind_assoc (mean e) (λ v. means es >>= λ xs. ok (cons v xs))
                      (λ xs. ok (xs, end))))

  pub negated :
      (n : ℕ)
      → AgreesAt n
      → (ts : List Token) → Agrees mean (read_not (suc n) ts) (parse_not ctx item (suc n) ts)
  unfolding read_not parse_not meaning
  negated n w ts =
      by_peek (valued mean) (peeks "!" ts) _ _ _ _
        (Agrees-bind mean mean (read_not n (behind ts)) _ _ (λ (e, rest). ok (negation e, rest))
          (w.at_not (behind ts)) λ e rest. renamed (mean e) (λ v. bool (not (truth v))) rest)
        (w.at_comparison ts)
