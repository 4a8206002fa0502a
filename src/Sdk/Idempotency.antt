-- ===== src/Sdk/Idempotency.antt =====
-- src/nilscript/sdk/idempotency.py. `digest` is the hexadecimal SHA-256 of a text, of `hashlib`.
use Prim.Native.String.{◌++◌}
use nilscript.Base.{ℕ, zero, suc, String, List, [], ◌∷◌}
use nilscript.Base.Decimal.{decimal}

module _ (digest : String → String) where
  unfoldable pub nil_uuid : String → String → ℕ → String
  unfolding decimal
  nil_uuid session_id request_timestamp command_index =
      digest (session_id ++ ":" ++ request_timestamp ++ ":" ++ decimal command_index)

  abbrev tokens_from : String → String → ℕ → ℕ → List String
  unfolding nil_uuid
  tokens_from session_id request_timestamp i zero = []
  tokens_from session_id request_timestamp i (suc n) =
      nil_uuid session_id request_timestamp i ∷ tokens_from session_id request_timestamp (suc i) n

  unfoldable pub batch_tokens : String → String → ℕ → List String
  unfolding nil_uuid
  batch_tokens session_id request_timestamp count = tokens_from session_id request_timestamp 0 count

  unfoldable pub commit_idempotency_key : String → String → String
  unfolding nil_uuid
  commit_idempotency_key session_id proposal_id = nil_uuid session_id proposal_id 0
