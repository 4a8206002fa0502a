-- ===== src/Mcp/Tenant/Secure.antt =====
-- Over which transport a connection's own backend is reached.
use nilscript.Base.{◌≡◌, true, false, String, Option, some, arith, Option-cases, inl, inr}
use nilscript.Kernel.References.{strip_prefix}
use nilscript.Mcp.Tenant.{Tenant, Headers, Registry, get_header, own_tenant, resolve_tenant}

-- With several tenants and no leave for insecure ones, a connection that names its adapter is bound to
-- this adapter, whatever the registry and the default say, and only if the address starts with
-- "https://".
pub resolve_tenant-https :
    (headers : Headers) (default : Option Tenant) (registry : Option Registry) (url : String)
    (t : Tenant)
    → get_header headers "x-nil-adapter-url" ≡ some url
    → resolve_tenant headers default true false registry ≡ some t
    → (t.adapter_url ≡ url) × ((rest : String) × (strip_prefix "https://" url ≡ some rest))
unfolding resolve_tenant own_tenant
resolve_tenant-https headers default registry url t named h =
    elim (Option-cases (strip_prefix "https://" url)) [
      | inl plain ↦ absurd (ground arith)
      | inr (rest, secure) ↦ (ground arith, (rest, secure))
    ]
