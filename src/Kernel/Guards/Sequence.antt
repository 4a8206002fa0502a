-- ===== src/Kernel/Guards/Sequence.antt =====
-- Runs that agree with what was read: the laws of sequencing, up to which error stops a run.
use nilscript.Base.{Option, none, some, List, ◌≡◌, refl, ap, sym, ◌∙◌}
use nilscript.Kernel.Guards.{Result, ok, guard_error, fraction, out_of_fuel, ◌>>=◌, Token}
use nilscript.Kernel.Guards.Evaluate.{answer}

-- Two runs that give the same value, or none.
abbrev pub Alike : {A : Type 0} → Result A → Result A → Type 0
Alike r s = answer r ≡ answer s

abbrev then_answer : {A B : Type 0} → (A → Result B) → Option A → Option B
then_answer f none = none
then_answer f (some a) = answer (f a)

module _ {A B : Type 0} where
  answer-bind : (r : Result A) (f : A → Result B) → answer (r >>= f) ≡ then_answer f (answer r)
  unfolding answer
  answer-bind (ok a) f = refl
  answer-bind guard_error f = refl
  answer-bind fraction f = refl
  answer-bind out_of_fuel f = refl

  pub Alike-bind : (r s : Result A) (f : A → Result B) → Alike r s → Alike (r >>= f) (s >>= f)
  Alike-bind r s f h = answer-bind r f ∙ ap (then_answer f) h ∙ sym (answer-bind s f)

  pub Alike-under :
      (r : Result A) (f g : A → Result B)
      → ((a : A) → Alike (f a) (g a))
      → Alike (r >>= f) (r >>= g)
  Alike-under (ok a) f g h = h a
  Alike-under guard_error f g h = refl
  Alike-under fraction f g h = refl
  Alike-under out_of_fuel f g h = refl

  pub answer-fails : (r : Result A) (s : Result B) → answer s ≡ none → answer (r >>= λ a. s) ≡ none
  unfolding answer
  answer-fails (ok a) s h = h
  answer-fails guard_error s h = refl
  answer-fails fraction s h = refl
  answer-fails out_of_fuel s h = refl

pub bind_assoc :
    {A B C : Type 0} (r : Result A) (f : A → Result B) (g : B → Result C)
    → ((r >>= f) >>= g) ≡ (r >>= λ a. f a >>= g)
bind_assoc (ok a) f g = refl
bind_assoc guard_error f g = refl
bind_assoc fraction f g = refl
bind_assoc out_of_fuel f g = refl

-- Two runs that do not depend on each other may change places.
pub Alike-swap :
    {A B C : Type 0} (r : Result A) (s : Result B) (f : A → B → Result C)
    → Alike (r >>= λ a. s >>= λ b. f a b) (s >>= λ b. r >>= λ a. f a b)
unfolding answer
Alike-swap (ok a) s f = refl
Alike-swap guard_error s f = sym (answer-fails s guard_error refl)
Alike-swap fraction s f = sym (answer-fails s fraction refl)
Alike-swap out_of_fuel s f = sym (answer-fails s out_of_fuel refl)

module _ {E V : Type 0} where
  -- The value of what was read, with the tokens that are left.
  abbrev pub valued : (E → Result V) → E × List Token → Result (V × List Token)
  valued m (e, rest) = m e >>= λ v. ok (v, rest)

  -- A run gives the value of what is read.
  abbrev pub Agrees : (E → Result V) → Result (E × List Token) → Result (V × List Token) → Type 0
  Agrees m read run = Alike run (read >>= valued m)

module _ {E V E' V' : Type 0} (m : E → Result V) (m' : E' → Result V')
    (read : Result (E × List Token)) (run : Result (V × List Token)) where
  -- What a run does next, when it agrees with what is read.
  pub Agrees-next :
      {B : Type 0} (k : V × List Token → Result B)
      → Agrees m read run
      → Alike (run >>= k) (read >>= λ (e, rest). m e >>= λ v. k (v, rest))
  Agrees-next k h =
      Alike-bind run (read >>= valued m) k h
      ∙ ap answer (bind_assoc read (valued m) k)
      ∙ Alike-under read _ _ λ (e, rest). ap answer (bind_assoc (m e) (λ v. ok (v, rest)) k)

  pub Agrees-bind :
      (k : V × List Token → Result (V' × List Token))
      (h : E × List Token → Result (E' × List Token))
      → Agrees m read run
      → ((e : E) (rest : List Token) → Alike (m e >>= λ v. k (v, rest)) (h (e, rest) >>= valued m'))
      → Agrees m' (read >>= h) (run >>= k)
  Agrees-bind k h a next =
      Agrees-next k a
      ∙ Alike-under read _ _ (λ (e, rest). next e rest)
      ∙ sym (ap answer (bind_assoc read h (valued m')))

  -- The same behind another value that was found before.
  pub Agrees-behind :
      {U : Type 0} (r : Result U) (k : U → V × List Token → Result (V' × List Token))
      (h : E × List Token → Result (E' × List Token))
      → Agrees m read run
      → ((e : E) (rest : List Token)
          → Alike (r >>= λ u. m e >>= λ v. k u (v, rest)) (h (e, rest) >>= valued m'))
      → Alike (r >>= λ u. run >>= k u) ((read >>= h) >>= valued m')
  Agrees-behind r k h a next =
      Alike-under r _ _ (λ u. Agrees-next (k u) a)
      ∙ Alike-swap r read (λ u (e, rest). m e >>= λ v. k u (v, rest))
      ∙ Alike-under read _ _ (λ (e, rest). next e rest)
      ∙ sym (ap answer (bind_assoc read h (valued m')))
