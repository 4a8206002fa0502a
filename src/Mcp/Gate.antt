-- ===== src/Mcp/Gate.antt =====
-- `NilTools` of src/nilscript/mcp/tools.py: what a session remembers of its proposals, and the gate
-- in front of a COMMIT. The client is an argument: it acts on the outside world, of type `W`. So is
-- the control plane: `ask` is the GET of a decision, with `none` where that fails, and `hold` the POST
-- of a hold, whose failure is ignored.
pub mod Approved
use nilscript.Base.{
  ℕ, Bool, true, false, ◌&&◌, ◌||◌, not, String, ◌==◌, Option, none, some, List, [], ◌∷◌, lookup,
  insert, elem, if◌then◌else◌,
}
use nilscript.Sdk.Idempotency.{commit_idempotency_key}

-- A `ProposalBody`, as far as the tools read it.
pub record Proposed : Type 0 where
  pub is_refusal : Bool
  pub id : Option String
  pub tier : Option String
  pub verb : String
  pub preview : Option String

-- What is remembered of a proposal.
pub record Remembered : Type 0 where
  pub tier : Option String
  pub verb : String
  pub preview : Option String

-- self._proposals
abbrev pub Sessions : Type 0
Sessions = List (String × List (String × Remembered))

abbrev pub proposals_of : Option (List (String × Remembered)) → List (String × Remembered)
proposals_of none = []
proposals_of (some proposals) = proposals

abbrev pub remembered : Proposed → Remembered
remembered p = record { tier = p.tier; verb = p.verb; preview = p.preview }

-- `_remember`
unfoldable pub remember : Sessions → String → Proposed → Sessions
remember sessions sid p = if p.is_refusal then sessions else elim p.id [
  | none ↦ sessions
  | some id ↦ insert sid (insert id (remembered p) (proposals_of (lookup sid sessions))) sessions
]

-- `GATE_MODES`
pub data GateMode : Type 0 where
  two_step human auto : GateMode

abbrev pub is_human : GateMode → Bool
is_human human = true
is_human two_step = false
is_human auto = false

-- tier in GATED_TIERS
abbrev pub is_gated : Option String → Bool
is_gated none = false
is_gated (some tier) = (tier == "HIGH") || (tier == "CRITICAL")

abbrev pub tier_of : Option Remembered → Option String
tier_of none = none
tier_of (some r) = r.tier

unfoldable pub recall : Sessions → String → String → Option Remembered
recall sessions sid id = lookup id (proposals_of (lookup sid sessions))

-- The envelope that blocks a COMMIT, if it is blocked.
pub data Block : Type 0 where
  approval_required : Option String → Block
  rejected : Option String → Block

-- What `commit` returns.
pub data CommitResult (O : Type 0) : Type 0 where
  blocked : Block → CommitResult O
  committed : O → CommitResult O

module _ {W : Type 0} (mode : GateMode) (configured : Bool) (ask : String → W → Option String × W)
    (hold : String → Option Remembered → W → W) where
  abbrev pub on_answer :
      Sessions → String → String → Option String → Option String × W → Option Block × W
  on_answer sessions sid id tier (none, world) = (some (approval_required tier), world)
  on_answer sessions sid id tier (some status, world) =
      if status == "approved"
      then (none, world)
      else if status == "rejected"
      then (some (rejected tier), world)
      else (some (approval_required tier), hold id (recall sessions sid id) world)

  -- `_gate_decision`
  unfoldable pub gate_decision : Sessions → String → String → W → Option Block × W
  unfolding recall
  gate_decision sessions sid id world =
      let tier = tier_of (recall sessions sid id) in
      let asked = on_answer sessions sid id tier (ask id world) in
      if is_human mode && is_gated tier
      then (if configured then asked else (some (approval_required tier), world))
      else (none, world)

  module _ {O : Type 0} (digest : String → String)
      (client_commit : String → String → W → O × W) where
    abbrev pub send_commit : String → String → Option Block × W → CommitResult O × W
    unfolding commit_idempotency_key
    send_commit sid id (some block, world) = (blocked block, world)
    send_commit sid id (none, world) =
        let (outcome, world') = client_commit id (commit_idempotency_key digest sid id) world in
        (committed outcome, world')

    -- `commit`
    unfoldable pub commit : Sessions → String → String → W → CommitResult O × W
    unfolding gate_decision commit_idempotency_key
    commit sessions sid id world = send_commit sid id (gate_decision sessions sid id world)
