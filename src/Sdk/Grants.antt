-- ===== src/Sdk/Grants.antt =====
-- src/nilscript/sdk/grants.py: the default-deny scope check.
use Prim.Native.Char.{code}
use Prim.Native.String.{◌++◌ as str_append}
use nilscript.Base.{String, Bool, List, eqb, elem, ◌||◌, if◌then◌else◌}

-- verb.partition(".")[0]: the text before the first dot, or all of it.
unfoldable pub profile_of : String → String
profile_of String.[] = ""
profile_of (String.◌∷◌ c s) = if eqb (code c) b'.' then "" else String.◌∷◌ c (profile_of s)

unfoldable pub scope_allows : List String → String → Bool
unfolding profile_of
scope_allows scopes verb = elem verb scopes || elem (str_append (profile_of verb) ".*") scopes
