-- ===== src/Kernel/Guards/Grammar.antt =====
-- The grammar at the top of src/nilscript/kernel/guards.py by itself: expressions, how tokens are read
-- as one, and what an expression means in a context. The code never builds an expression.
use nilscript.Base.{ℕ, zero, suc, true, false, not, ◌&&◌, ◌||◌, String, none, some, List, [], ◌∷◌}
use nilscript.Kernel.Value.{Value, bool, int, pos, list, Items, nil, cons}
use nilscript.Kernel.RunResult.{Context}
use nilscript.Kernel.Guards.{Result, ok, guard_error, out_of_fuel, ◌>>=◌, Token}
use nilscript.Kernel.Guards.Compare.{truth, apply, size}
use nilscript.Kernel.Guards.Parser.{
  peeks, behind, expect, comparator, group, listing, sizing, reference, literal, start, resolve_ref,
}
use nilscript.Kernel.Guards.Evaluate.{enough}

mutual
  pub data Expr : Type 0 where
    either both : Expr → Expr → Expr
    negation size_of : Expr → Expr
    comparison : String → Expr → Expr → Expr
    value_at : String → Expr
    constant : Value → Expr
    list_of : Exprs → Expr

  pub data Exprs : Type 0 where
    no_exprs : Exprs
    expr : Expr → Exprs → Exprs

module _ (ctx : Context) (item : Value) where
  -- The value of an expression: of both operands, whatever the first is.
  unfoldable mutual
    unfolding truth apply size resolve_ref

    pub meaning : Expr → Result Value
    meaning (either a b) = meaning a >>= λ v. meaning b >>= λ w. ok (bool (truth v || truth w))
    meaning (both a b) = meaning a >>= λ v. meaning b >>= λ w. ok (bool (truth v && truth w))
    meaning (negation a) = meaning a >>= λ v. ok (bool (not (truth v)))
    meaning (size_of a) = meaning a >>= λ v. size v >>= λ n. ok (int (pos n))
    meaning (comparison o a b) =
        meaning a >>= λ v. meaning b >>= λ w. apply o v w >>= λ t. ok (bool t)
    meaning (value_at s) = resolve_ref ctx item s
    meaning (constant v) = ok v
    meaning (list_of es) = meanings es >>= λ xs. ok (list xs)

    pub meanings : Exprs → Result Items
    meanings no_exprs = ok nil
    meanings (expr e es) = meaning e >>= λ v. meanings es >>= λ xs. ok (cons v xs)

unfoldable mutual
  unfolding peeks expect comparator start

  -- or := and ( '||' and )*
  pub read_or : ℕ → List Token → Result (Expr × List Token)
  read_or zero ts = out_of_fuel
  read_or (suc f) ts = read_and f ts >>= λ (e, rest). read_ors f e rest

  pub read_ors : ℕ → Expr → List Token → Result (Expr × List Token)
  read_ors zero e ts = out_of_fuel
  read_ors (suc f) e ts = elim (peeks "||" ts) [
    | false ↦ ok (e, ts)
    | true ↦ read_and f (behind ts) >>= λ (d, rest). read_ors f (either e d) rest
  ]

  -- and := not ( '&&' not )*
  pub read_and : ℕ → List Token → Result (Expr × List Token)
  read_and zero ts = out_of_fuel
  read_and (suc f) ts = read_not f ts >>= λ (e, rest). read_ands f e rest

  pub read_ands : ℕ → Expr → List Token → Result (Expr × List Token)
  read_ands zero e ts = out_of_fuel
  read_ands (suc f) e ts = elim (peeks "&&" ts) [
    | false ↦ ok (e, ts)
    | true ↦ read_not f (behind ts) >>= λ (d, rest). read_ands f (both e d) rest
  ]

  -- not := '!' not | comparison
  pub read_not : ℕ → List Token → Result (Expr × List Token)
  read_not zero ts = out_of_fuel
  read_not (suc f) ts = elim (peeks "!" ts) [
    | false ↦ read_comparison f ts
    | true ↦ read_not f (behind ts) >>= λ (e, rest). ok (negation e, rest)
  ]

  -- comp := primary ( ( '=='|'!='|'<'|'<='|'>'|'>='|'in' ) primary )?
  pub read_comparison : ℕ → List Token → Result (Expr × List Token)
  read_comparison zero ts = out_of_fuel
  read_comparison (suc f) ts = read_primary f ts >>= λ (a, rest). elim (comparator rest) [
    | none ↦ ok (a, rest)
    | some o ↦ read_primary f (behind rest) >>= λ (b, end). ok (comparison o a b, end)
  ]

  -- primary := '(' or ')' | macro | reference | number | string | 'true'|'false'|'null' | list
  pub read_primary : ℕ → List Token → Result (Expr × List Token)
  read_primary zero ts = out_of_fuel
  read_primary (suc f) [] = guard_error
  read_primary (suc f) (tok ∷ ts) = elim (start tok) [
    | group ↦ read_or f ts >>= λ (e, rest). expect ")" rest >>= λ end. ok (e, end)
    | listing ↦ read_list f ts >>= λ (es, rest). ok (list_of es, rest)
    | sizing ↦ expect "(" ts >>= λ inner.
        read_or f inner >>= λ (e, rest). expect ")" rest >>= λ end. ok (size_of e, end)
    | reference s ↦ ok (value_at s, ts)
    | literal r ↦ r >>= λ v. ok (constant v, ts)
  ]

  -- list := '[' ( primary ( ',' primary )* )? ']'
  pub read_list : ℕ → List Token → Result (Exprs × List Token)
  read_list zero ts = out_of_fuel
  read_list (suc f) ts = elim (peeks "]" ts) [
    | true ↦ ok (no_exprs, behind ts)
    | false ↦
        read_primary f ts >>= λ (e, rest). read_more f rest >>= λ (es, end). ok (expr e es, end)
  ]

  pub read_more : ℕ → List Token → Result (Exprs × List Token)
  read_more zero ts = out_of_fuel
  read_more (suc f) ts = elim (peeks "," ts) [
    | false ↦ expect "]" ts >>= λ end. ok (no_exprs, end)
    | true ↦ read_primary f (behind ts) >>= λ (e, rest).
        read_more f rest >>= λ (es, end). ok (expr e es, end)
  ]

abbrev pub all_read : Expr × List Token → Result Expr
all_read (e, []) = ok e
all_read (e, tok ∷ ts) = guard_error

-- The expression that all tokens together are.
unfoldable pub read : List Token → Result Expr
unfolding read_or enough
read ts = read_or (enough ts) ts >>= λ m. all_read m
