-- ===== src/Kernel/Guards.antt =====
-- src/nilscript/kernel/guards.py: the guard language of conditions. The outcome of a guard, and its
-- tokens; the children hold the tokenizer, Python's comparisons, the parser and `evaluate_guard`.
pub mod Words
pub mod Tokens
pub mod Compare
pub mod Parser
pub mod Evaluate
pub mod Shorter
pub mod Enough
pub mod Settled
pub mod Fuel
pub mod Grammar
pub mod Rules
pub mod Primary
pub mod Agreement
pub mod Sequence
mod Examples
use nilscript.Base.{String, ◌≢◌}

-- What the code returns or raises. `guard_error` is a GuardError. `fraction` stands for a guard in
-- which a number with a fraction is read: the model has no floats and stops there. `out_of_fuel`
-- has no counterpart in the code.
pub data Result {ℓ} (A : Type ℓ) : Type ℓ where
  ok : A → Result A
  guard_error fraction out_of_fuel : Result A

module _ {ℓ κ} {A : Type ℓ} {B : Type κ} where
  infixl 1 ◌>>=◌ ◌>>◌
  abbrev pub ◌>>=◌ : Result A → (A → Result B) → Result B
  ok a >>= f = f a
  guard_error >>= f = guard_error
  fraction >>= f = fraction
  out_of_fuel >>= f = out_of_fuel

  abbrev pub ◌>>◌ : Result A → Result B → Result B
  r >> s = r >>= λ _. s

-- The groups of `_TOKEN` by name, but for `ws`.
pub data Kind : Type 0 where
  ref number text op word : Kind

-- `_Tok`
pub record Token : Type 0 where
  pub kind : Kind
  pub text : String

-- The run ended within its fuel, and its value, if it has one, has a property.
pub data Kept {ℓ} {A : Type ℓ} (P : A → Type 0) : Result A → Type ℓ where
  returns : {a : A} → P a → Kept P (ok a)
  raises : Kept P guard_error
  stops : Kept P fraction

module _ {ℓ} {A : Type ℓ} {P : A → Type 0} where
  pub Kept-bind {κ} :
      {B : Type κ} {Q : B → Type 0} {r : Result A} {f : A → Result B}
      → Kept P r
      → ((a : A) → P a → Kept Q (f a))
      → Kept Q (r >>= f)
  Kept-bind (returns {a} h) k = k a h
  Kept-bind raises k = raises
  Kept-bind stops k = stops

  pub Kept-out_of_fuel : {r : Result A} → Kept P r → r ≢ out_of_fuel
  Kept-out_of_fuel (returns h) = cc
  Kept-out_of_fuel raises = cc
  Kept-out_of_fuel stops = cc
