-- ===== src/Mcp/Tenant.antt =====
-- src/nilscript/mcp/tenant.py and the lookup of registry.py: the backend that a connection is bound to.
-- The headers are a function from their names, with `none` for a missing one, or are missing.
pub mod Secure
use nilscript.Base.{
  Bool, true, false, ◌&&◌, ◌||◌, String, ◌==◌, Option, none, some, List, [], ◌∷◌, if◌then◌else◌,
}
use nilscript.Base.Texts.{split}
use nilscript.Kernel.References.{strip_prefix}
use nilscript.Kernel.Guards.Words.{is_space, span}

pub record Tenant : Type 0 where
  pub adapter_url : String
  pub bearer : String
  pub grant_id : String
  pub workspace : String
  pub scopes : Option (List String)

-- name.get(header) or None
abbrev pub filled : Option String → Option String
filled none = none
filled (some s) = if s == "" then none else some s

abbrev pub Headers : Type 0
Headers = Option (String → Option String)

-- `_get`
abbrev pub get_header : Headers → String → Option String
get_header none name = none
get_header (some headers) name = filled (headers name)

abbrev pub or_text : Option String → String → String
or_text none other = other
or_text (some s) other = s

-- s.strip(): without whitespace in front and behind.
unfoldable pub trim_end : String → String
trim_end String.[] = String.[]
trim_end (String.◌∷◌ c s) =
    let rest = trim_end s in if (rest == "") && is_space c then String.[] else String.◌∷◌ c rest

unfoldable pub strip : String → String
unfolding span trim_end
strip s = trim_end (span is_space s).1

abbrev pub stripped : List String → List String
unfolding strip
stripped [] = []
stripped (s ∷ parts) = let rest = stripped parts in if strip s == "" then rest else strip s ∷ rest

-- The set of scopes of a header.
unfoldable pub scopes_of : Option String → Option (List String)
unfolding split strip
scopes_of none = none
scopes_of (some raw) = some (stripped (split 44 raw))

-- `none` is a TenantError.
abbrev pub Registry : Type 0
Registry = String → Option Tenant

abbrev pub default_workspace : Option Tenant → String
default_workspace none = ""
default_workspace (some t) = t.workspace

abbrev pub from_registry : Option Registry → String → Option Tenant
from_registry none ws = none
from_registry (some registry) ws = if ws == "" then none else registry ws

abbrev pub first_of : Option Tenant → Option Tenant → Option Tenant
first_of none other = other
first_of (some t) other = some t

-- The tenant of the connection's own headers.
unfoldable pub own_tenant : Headers → String → Tenant
unfolding scopes_of
own_tenant headers url = record {
  adapter_url = url;
  bearer = or_text (get_header headers "x-nil-adapter-bearer") "";
  grant_id = or_text (get_header headers "x-nil-grant-id") "remote";
  workspace = or_text (get_header headers "x-nil-workspace") "";
  scopes = scopes_of (get_header headers "x-nil-scopes");
}

-- adapter_url.startswith("https://") or allow_insecure
abbrev pub is_allowed : String → Bool → Bool
is_allowed url insecure = elim (strip_prefix "https://" url) [ some rest ↦ true | none ↦ insecure ]

abbrev pub resolve_multi : Headers → Option Tenant → Bool → Option Registry → Option Tenant
unfolding own_tenant
resolve_multi headers default insecure registry = elim (get_header headers "x-nil-adapter-url") [
  | none ↦
      let ws = or_text (get_header headers "x-nil-workspace") (default_workspace default) in
      first_of (from_registry registry ws) default
  | some url ↦ if is_allowed url insecure then some (own_tenant headers url) else none
]

unfoldable pub resolve_tenant :
    Headers → Option Tenant → Bool → Bool → Option Registry → Option Tenant
unfolding own_tenant
resolve_tenant headers default multi insecure registry =
    let resolved = resolve_multi headers default insecure registry in
    if multi then resolved else default

-- What the control plane answers of a workspace's active adapter; `none` where the request fails.
pub record Answer : Type 0 where
  pub url : Option String
  pub bearer : Option String
  pub adapter_id : Option String

-- The lookup that `make_registry_lookup` makes of the request.
unfoldable pub registry_lookup : (String → Option Answer) → Registry
registry_lookup request workspace = elim (request workspace) [
  | none ↦ none
  | some answer ↦ elim (filled answer.url) [
    | none ↦ none
    | some url ↦ some (record {
      adapter_url = url;
      bearer = or_text (filled answer.bearer) "";
      grant_id = or_text (filled answer.adapter_id) "remote";
      workspace = workspace;
      scopes = none;
    })
  ]
]
