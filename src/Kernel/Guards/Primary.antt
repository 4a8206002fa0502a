-- ===== src/Kernel/Guards/Primary.antt =====
-- One unit of fuel more in `parse_primary`, by what its first token starts.
use nilscript.Base.{ℕ, suc, List, [], ◌∷◌, refl, ap, sym, ◌∙◌}
use nilscript.Kernel.Value.{Value, int, pos, list}
use nilscript.Kernel.RunResult.{Context}
use nilscript.Kernel.Guards.{Result, ok, ◌>>=◌, Token}
use nilscript.Kernel.Guards.Compare.{size}
use nilscript.Kernel.Guards.Parser.{
  expect, Start, group, listing, sizing, reference, literal, start, resolve_ref, parse_or,
  parse_primary, parse_list,
}
use nilscript.Kernel.Guards.Evaluate.{answer}
use nilscript.Kernel.Guards.Grammar.{
  Expr, size_of, value_at, constant, list_of, meaning, read_or, read_primary, read_list,
}
use nilscript.Kernel.Guards.Sequence.{
  Alike, Alike-under, Alike-swap, bind_assoc, valued, Agrees, Agrees-bind,
}
use nilscript.Kernel.Guards.Rules.{renamed, mean, means, AgreesAt}

module _ (ctx : Context) (item : Value) where
  sized :
      (e : Expr) (r : Result (List Token))
      → Alike
          ((mean ctx item) e >>= λ v. r >>= λ end. size v >>= λ k. ok (int (pos k), end))
          ((r >>= λ end. ok (size_of e, end)) >>= valued (mean ctx item))
  unfolding meaning
  sized e r =
      Alike-swap ((mean ctx item) e) r (λ v end. size v >>= λ k. ok (int (pos k), end))
      ∙ Alike-under r _ _ (λ end.
        Alike-under ((mean ctx item) e) _ _ (λ v. renamed (size v) (λ k. int (pos k)) end)
        ∙ sym (
            ap answer (
              bind_assoc ((mean ctx item) e) (λ v. size v >>= λ k. ok (int (pos k)))
                (λ v. ok (v, end)))))
      ∙ sym (ap answer (bind_assoc r (λ end. ok (size_of e, end)) (valued (mean ctx item))))

  closed :
      (e : Expr) (r : Result (List Token))
      → Alike
          ((mean ctx item) e >>= λ v. r >>= λ end. ok (v, end))
          ((r >>= λ end. ok (e, end)) >>= valued (mean ctx item))
  closed e r =
      Alike-swap ((mean ctx item) e) r (λ v end. ok (v, end))
      ∙ sym (ap answer (bind_assoc r (λ end. ok (e, end)) (valued (mean ctx item))))

  primary_at :
      (n : ℕ)
      → AgreesAt ctx item n
      → (ts : List Token) (st : Start)
      → Agrees
          (mean ctx item)
          (elim st [
            | group ↦ read_or n ts >>= λ (e, rest). expect ")" rest >>= λ end. ok (e, end)
            | listing ↦ read_list n ts >>= λ (es, rest). ok (list_of es, rest)
            | sizing ↦ expect "(" ts >>= λ inner.
                read_or n inner >>= λ (e, rest). expect ")" rest >>= λ end. ok (size_of e, end)
            | reference s ↦ ok (value_at s, ts)
            | literal r ↦ r >>= λ v. ok (constant v, ts)
          ])
          (elim st [
            | group ↦ parse_or ctx item n ts >>= λ (v, rest). expect ")" rest >>= λ end. ok (v, end)
            | listing ↦ parse_list ctx item n ts >>= λ (xs, rest). ok (list xs, rest)
            | sizing ↦ expect "(" ts >>= λ inner. parse_or ctx item n inner >>= λ (v, rest).
                expect ")" rest >>= λ end. size v >>= λ k. ok (int (pos k), end)
            | reference s ↦ resolve_ref ctx item s >>= λ v. ok (v, ts)
            | literal r ↦ r >>= λ v. ok (v, ts)
          ])
  unfolding meaning
  primary_at n w ts group =
      Agrees-bind (mean ctx item) (mean ctx item) (read_or n ts) _ _
        (λ (e, rest). expect ")" rest >>= λ end. ok (e, end)) (w.at_or ts)
        λ e rest. closed e (expect ")" rest)
  primary_at n w ts listing =
      Agrees-bind (means ctx item) (mean ctx item) (read_list n ts) _ _
        (λ (es, rest). ok (list_of es, rest)) (w.at_list ts)
        λ es rest. renamed ((means ctx item) es) (λ xs. list xs) rest
  primary_at n w ts sizing =
      Alike-under (expect "(" ts) _ _ (λ inner.
        Agrees-bind (mean ctx item) (mean ctx item) (read_or n inner) _ _
          (λ (e, rest). expect ")" rest >>= λ end. ok (size_of e, end)) (w.at_or inner)
          λ e rest. sized e (expect ")" rest))
      ∙ sym (
          ap answer (
            bind_assoc (expect "(" ts)
              (λ inner.
                read_or n inner >>= λ (e, rest). expect ")" rest >>= λ end. ok (size_of e, end))
              (valued (mean ctx item))))
  primary_at n w ts (reference s) = refl
  primary_at n w ts (literal r) =
      sym (ap answer (bind_assoc r (λ v. ok (constant v, ts)) (valued (mean ctx item))))

  pub primary_with :
      (n : ℕ)
      → AgreesAt ctx item n
      → (ts : List Token)
      → Agrees (mean ctx item) (read_primary (suc n) ts) (parse_primary ctx item (suc n) ts)
  unfolding read_primary parse_primary
  primary_with n w [] = refl
  primary_with n w (tok ∷ ts) = primary_at n w ts (start tok)
