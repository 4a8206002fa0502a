-- ===== src/Mcp/Examples.antt =====
-- The theorems about the MCP server at concrete inputs.
use nilscript.Base.{
  ℕ, suc, ◌≡◌, refl, ap, true, false, String, ◌==◌, Option, none, some, [], ◌∷◌, arith, eq_iff,
  if◌then◌else◌,
}
use nilscript.Kernel.References.{strip_prefix}
use nilscript.Sdk.Idempotency.{commit_idempotency_key}
use nilscript.Mcp.Gate.{
  Proposed, Remembered, Sessions, human, recall, remember, Block, blocked, committed, gate_decision,
  commit,
}
use nilscript.Mcp.Gate.Approved.{commit-held, commit-other_session}
use nilscript.Mcp.Tenant.{Tenant, resolve_tenant, own_tenant}
use nilscript.Mcp.Tenant.Secure.{resolve_tenant-https}

-- The world counts the COMMITs; the control plane says that the proposal waits.
abbrev waits : String → ℕ → Option String × ℕ
waits id n = (some "pending", n)

abbrev ignore : String → Option Remembered → ℕ → ℕ
ignore id r n = n

abbrev count : String → String → ℕ → String × ℕ
count id key n = ("executed", suc n)

abbrev plain : String → String
plain s = s

abbrev delete : Remembered
delete = record { tier = some "HIGH"; verb = "crm.delete"; preview = none }

abbrev sessions : Sessions
sessions = ("s", ("p", delete) ∷ []) ∷ []

-- The text of an answer.
abbrev text_of : Option String → String
text_of none = ""
text_of (some s) = s

commit-held_example :
    let tried = commit human true waits ignore plain count sessions "s" "p" 0 in
    (b : Block) × (tried.0 ≡ blocked b)
    × (tried.1 ≡ (gate_decision human true waits ignore sessions "s" "p" 0).1)
unfolding recall
commit-held_example =
    commit-held true waits ignore plain count sessions "s" "p" delete 0 refl refl
      λ e. ground (arith, (eq_iff "pending" "approved").1 (ap text_of e))

abbrev proposed : Proposed
proposed = record {
  is_refusal = false;
  id = some "p";
  tier = some "CRITICAL";
  verb = "crm.delete";
  preview = none;
}

commit-other_session_example :
    let (outcome, after) = count "p" (commit_idempotency_key plain "t" "p") 0 in
    commit human true waits ignore plain count (remember [] "s" proposed) "t" "p" 0
    ≡ (committed outcome, after)
unfolding recall
commit-other_session_example =
    commit-other_session true waits ignore plain count [] "s" "t" "p" proposed 0
      (λ e. ground (arith, (eq_iff "s" "t").1 e)) refl

abbrev headers : String → Option String
headers name = if name == "x-nil-adapter-url" then some "https://a" else none

abbrev tenant : Tenant
tenant = record {
  adapter_url = "https://a";
  bearer = "";
  grant_id = "remote";
  workspace = "";
  scopes = none;
}

resolve_tenant-https_example :
    (tenant.adapter_url ≡ "https://a")
    × ((rest : String) × (strip_prefix "https://" "https://a" ≡ some rest))
unfolding resolve_tenant own_tenant
resolve_tenant-https_example =
    resolve_tenant-https (some headers) none none "https://a" tenant refl refl
