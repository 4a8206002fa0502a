-- ===== src/Kernel/References/Collect.antt =====
-- The references of a value and of a text: `iter_references`, `iter_full_references` and
-- `references_in_text` of src/nilscript/kernel/references.py.
use nilscript.Base.{String, Option, none, some, List, [], ◌∷◌, ◌++◌, elem, if◌then◌else◌}
use nilscript.Kernel.Value.{
  Value, null, bool, int, str, list, dict, Items, nil, cons, Fields, end, field,
}
use nilscript.Base.{◌≡◌, refl}
use nilscript.Kernel.References.{Reference, parse_reference, strip_prefix, scan_source}

-- The list that `_collect_full` makes of a text.
abbrev listed_full : Option Reference → List Reference
listed_full none = []
listed_full (some ref) = ref ∷ []

abbrev listed_source : Option Reference → List String
listed_source none = []
listed_source (some ref) = ref.source ∷ []

unfoldable mutual
  unfolding parse_reference

  -- `_collect_full`
  pub collect_full : Value → List Reference
  collect_full (dict fs) = collect_fields fs
  collect_full (list xs) = collect_items xs
  collect_full (str s) = listed_full (parse_reference (str s))
  collect_full null = []
  collect_full (bool b) = []
  collect_full (int n) = []

  pub collect_items : Items → List Reference
  collect_items nil = []
  collect_items (cons v xs) = collect_full v ++ collect_items xs

  pub collect_fields : Fields → List Reference
  collect_fields end = []
  collect_fields (field k v fs) = collect_full v ++ collect_fields fs

unfoldable mutual
  unfolding parse_reference

  -- `_collect`
  pub collect : Value → List String
  collect (dict fs) = collect_in_fields fs
  collect (list xs) = collect_in_items xs
  collect (str s) = listed_source (parse_reference (str s))
  collect null = []
  collect (bool b) = []
  collect (int n) = []

  pub collect_in_items : Items → List String
  collect_in_items nil = []
  collect_in_items (cons v xs) = collect v ++ collect_in_items xs

  pub collect_in_fields : Fields → List String
  collect_in_fields end = []
  collect_in_fields (field k v fs) = collect v ++ collect_in_fields fs

-- The first of each name, in order; `seen` is the set.
unfoldable pub dedupe : List String → List String → List String
dedupe seen [] = []
dedupe seen (x ∷ xs) = if elem x seen then dedupe seen xs else x ∷ dedupe (x ∷ seen) xs

unfoldable pub iter_references : Value → List String
unfolding dedupe collect
iter_references v = dedupe [] (collect v)

unfoldable pub iter_full_references : Value → List Reference
unfolding collect_full
iter_full_references v = collect_full v

-- The source of a reference token at the start of a text.
abbrev pub token_at : String → List String
token_at s = elim (strip_prefix "$." s) [
  | none ↦ []
  | some rest ↦ elim (scan_source rest) [ none ↦ [] | some (source, path) ↦ source ∷ [] ]
]

-- `findall` resumes behind a token's path. A path has no `$`, so that no token starts in it.
unfoldable pub references_in_text : String → List String
references_in_text String.[] = []
references_in_text (String.◌∷◌ c s) = token_at (String.◌∷◌ c s) ++ references_in_text s

-- The sources of references, in order.
abbrev pub sources_of : List Reference → List String
sources_of [] = []
sources_of (r ∷ rs) = r.source ∷ sources_of rs

sources_of-append :
    (xs ys : List Reference) → sources_of (xs ++ ys) ≡ sources_of xs ++ sources_of ys
sources_of-append [] ys = refl
sources_of-append (x ∷ xs) ys = cc (sources_of-append xs ys)

collect-text : (o : Option Reference) → listed_source o ≡ sources_of (listed_full o)
collect-text none = refl
collect-text (some ref) = refl

mutual
  unfolding collect collect_full

  -- The two collections go over a value alike: one keeps the references, the other their sources.
  pub collect-collect_full : (v : Value) → collect v ≡ sources_of (collect_full v)
  collect-collect_full (dict fs) = collect-fields fs
  collect-collect_full (list xs) = collect-items xs
  collect-collect_full (str s) = collect-text (parse_reference (str s))
  collect-collect_full null = refl
  collect-collect_full (bool b) = refl
  collect-collect_full (int n) = refl

  collect-items : (xs : Items) → collect_in_items xs ≡ sources_of (collect_items xs)
  collect-items nil = refl
  collect-items (cons v xs) = cc (
    collect-collect_full v,
    collect-items xs,
    sources_of-append (collect_full v) (collect_items xs),
  )

  collect-fields : (fs : Fields) → collect_in_fields fs ≡ sources_of (collect_fields fs)
  collect-fields end = refl
  collect-fields (field k v fs) = cc (
    collect-collect_full v,
    collect-fields fs,
    sources_of-append (collect_full v) (collect_fields fs),
  )
