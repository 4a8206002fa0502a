-- ===== src/Base/Names.antt =====
-- Lists of names without repetition, and positions in them.
use Prim.Native.Nat.{ℕ, ◌≤◌, ◌<◌}
use Prim.Native.String.{String}
use mathlib.Core.Path.{◌≡◌, refl}
use mathlib.Core.Logic.{inl, inr}
use mathlib.Core.Bool.{true, false}
use mathlib.Core.List.{List, [], ◌∷◌}
use native.Mathlib.Omega.{arith}
use text.Mathlib.Text.{◌==◌}
use text.Mathlib.TextEquality.{eq_iff}
use nilscript.Base.Tests.{if◌then◌else◌, Bool-cases}
use nilscript.Base.Lists.{length, elem}

-- No name stands twice.
abbrev pub NoRepeat : List String → Type 0
NoRepeat [] = Unit
NoRepeat (x ∷ xs) = (elem x xs ≡ false) × NoRepeat xs

-- All names of one list stand in another.
abbrev pub Within : List String → List String → Type 0
Within [] ys = Unit
Within (x ∷ xs) ys = (elem x ys ≡ true) × Within xs ys

pub Within-elem :
    (xs ys : List String) (v : String) → Within xs ys → elem v xs ≡ true → elem v ys ≡ true
Within-elem [] ys v h k = absurd (cc)
Within-elem (x ∷ xs) ys v h k = ground (arith, eq_iff x v, Within-elem xs ys v h.1)

-- The list without one name.
without : String → List String → List String
without k [] = []
without k (x ∷ xs) = let rest = without k xs in if x == k then rest else x ∷ rest

elem-without_ne :
    (k j : String) (xs : List String) → (k == j) ≡ false → elem j (without k xs) ≡ elem j xs
unfolding without
elem-without_ne k j [] h = refl
elem-without_ne k j (x ∷ xs) h =
    ground (arith, elem-without_ne k j xs h, eq_iff x k, eq_iff x j, eq_iff k j)

length-without-le : (k : String) (xs : List String) → length (without k xs) ≤ length xs
unfolding without
length-without-le k [] = omega arith
length-without-le k (x ∷ xs) = ground (arith, length-without-le k xs)

length-without-lt :
    (k : String) (xs : List String) → elem k xs ≡ true → length (without k xs) < length xs
unfolding without
length-without-lt k [] h = absurd (cc)
length-without-lt k (x ∷ xs) h =
    ground (arith, length-without-lt k xs, length-without-le k xs, eq_iff x k)

Within-without :
    (k : String) (xs ys : List String) → elem k xs ≡ false → Within xs ys → Within xs (without k ys)
Within-without k [] ys h w = tt
Within-without k (x ∷ xs) ys h w = (
  ground (arith, elem-without_ne k x ys, eq_iff x k, eq_iff k x),
  Within-without k xs ys (ground arith) w.1,
)

-- A list without repetition within another is no longer than it.
pub NoRepeat-length : (xs ys : List String) → NoRepeat xs → Within xs ys → length xs ≤ length ys
NoRepeat-length [] ys h w = omega arith
NoRepeat-length (x ∷ xs) ys h w = omega (
  arith,
  length-without-lt x ys w.0,
  NoRepeat-length xs (without x ys) h.1 (Within-without x xs ys h.0 w.1),
)

-- A list without repetition within one that is no longer holds all of its names.
pub NoRepeat-covers :
    (xs ys : List String) (y : String)
    → NoRepeat xs
    → Within xs ys
    → length ys ≤ length xs
    → elem y ys ≡ true
    → elem y xs ≡ true
NoRepeat-covers xs ys y h w le m = elim (Bool-cases (elem y xs)) [
  | inl t ↦ t
  | inr absent ↦ absurd (omega (arith, NoRepeat-length (y ∷ xs) ys (absent, h) (m, w)))
]

-- How many names stand behind a name.
abbrev pub position : String → List String → ℕ
position v [] = 0
position v (x ∷ rest) = if x == v then length rest else position v rest

pub position-lt-length :
    (v : String) (xs : List String) → elem v xs ≡ true → position v xs < length xs
position-lt-length v [] h = absurd (cc)
position-lt-length v (x ∷ xs) h = ground (arith, position-lt-length v xs)
