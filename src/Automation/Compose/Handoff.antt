-- ===== src/Automation/Compose/Handoff.antt =====
-- What a handoff reads: a value of the source that it names, and nothing where that is missing.
use nilscript.Base.{
  ℕ, String, Option, none, some, List, [], ◌∷◌, ◌≡◌, refl, ap, ◌∙◌, arith, eqb, Bool-cases, inl,
  inr,
}
use Prim.Native.Char.{code}
use nilscript.Base.Texts.{split, split_once, onto_first}
use nilscript.Kernel.Value.{Value, null, bool, int, str, list, dict, Fields, get_field}
use nilscript.Kernel.References.{strip_prefix}
use nilscript.Automation.Compose.{handoff_source, walk_keys, resolve_handoff}

-- The keys that `split` gives, in front of the first separator and behind it.
split-first : (d : ℕ) (s : String) → (keys : List String) × (split d s ≡ (split_once d s).0 ∷ keys)
unfolding split split_once
split-first d String.[] = ([], refl)
split-first d (String.◌∷◌ c s) = elim (Bool-cases (eqb (code c) d)) [
  | inl same ↦ (split d s, ground arith)
  | inr other ↦
      let (keys, first) = split-first d s in (keys, ground (arith, ap (onto_first c) first))
]

walk_keys-missing :
    (ctx : Fields) (k : String) (keys : List String)
    → get_field k ctx ≡ none
    → walk_keys (dict ctx) (k ∷ keys) ≡ null
unfolding walk_keys
walk_keys-missing ctx k keys h = rw (walk_keys, h)

-- A handoff from a source that the context does not have gives no value, whatever its path is.
pub resolve_handoff-missing :
    (ref : Value) (source : String) (ctx : Fields)
    → handoff_source ref ≡ some source
    → get_field source ctx ≡ none
    → resolve_handoff ref ctx ≡ null
unfolding handoff_source resolve_handoff
resolve_handoff-missing (str s) source ctx h missing = read (strip_prefix "$." s) h
  where
    read :
        (o : Option String)
        → (elim o [ none ↦ none | some rest ↦ some (split_once 46 rest).0 ]) ≡ some source
        → (elim o [ none ↦ str s | some path ↦ walk_keys (dict ctx) (split 46 path) ]) ≡ null
    read none h = absurd (cc)
    read (some path) h =
        let (keys, first) = split-first 46 path in
        let named : (split_once 46 path).0 ≡ source = ground arith in
        ap (walk_keys (dict ctx)) first
        ∙ walk_keys-missing ctx (split_once 46 path).0 keys
            (ap (λ k. get_field k ctx) named ∙ missing)
resolve_handoff-missing null source ctx h missing = refl
resolve_handoff-missing (bool b) source ctx h missing = absurd (cc)
resolve_handoff-missing (int n) source ctx h missing = absurd (cc)
resolve_handoff-missing (list xs) source ctx h missing = absurd (cc)
resolve_handoff-missing (dict fs) source ctx h missing = absurd (cc)
