-- ===== src/Base/Texts.antt =====
-- Python's `split` of a text at a character.
use Prim.Native.Char.{Char, code}
use Prim.Native.Nat.{ℕ}
use Prim.Native.String.{String}
use mathlib.Core.List.{List, [], ◌∷◌}
use mathlib.Core.Option.{Option, none, some}
use nilscript.Base.Tests.{eqb, if◌then◌else◌}

abbrev pub onto_first : Char → List String → List String
onto_first c [] = String.◌∷◌ c String.[] ∷ []
onto_first c (s ∷ parts) = String.◌∷◌ c s ∷ parts

-- s.split(separator), for the character with a code.
unfoldable pub split : ℕ → String → List String
split d String.[] = "" ∷ []
split d (String.◌∷◌ c s) =
    let parts = split d s in if eqb (code c) d then "" ∷ parts else onto_first c parts

-- s.split(separator, 1): the text in front of the first separator, and the text behind it if there
-- is one.
unfoldable pub split_once : ℕ → String → String × Option String
split_once d String.[] = ("", none)
split_once d (String.◌∷◌ c s) =
    let (first, rest) = split_once d s in
    if eqb (code c) d then ("", some s) else (String.◌∷◌ c first, rest)
