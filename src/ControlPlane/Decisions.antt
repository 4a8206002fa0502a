-- ===== src/ControlPlane/Decisions.antt =====
-- The decisions of src/nilscript/controlplane/app.py: `post_decision` and `_execute_approved`. The
-- client is an argument: `commit` sends a COMMIT to an adapter under a grant for one verb, and acts
-- on the outside world, of type `W`; `none` is an exception. `digest` is SHA-256.
pub mod Once
use Prim.Native.String.{◌++◌}
use nilscript.Base.{
  ℕ, suc, ◌+◌, Bool, true, false, ◌&&◌, ◌||◌, String, ◌==◌, Option, none, some, List, [], ◌∷◌,
  lookup, if◌then◌else◌,
}
use nilscript.Sdk.Idempotency.{commit_idempotency_key}
use nilscript.ControlPlane.Approvals.{
  Approval, Approvals, Meta, Preview, await_approval, decision, decide,
}
use nilscript.ControlPlane.Adapters.{Adapter, any_active_adapter}

-- What the answer says of the execution.
pub data Execution (O : Type 0) : Type 0 where
  no_adapter failed : Execution O
  executed : O → Execution O

-- The answer to a posted decision.
pub data Answer (O : Type 0) : Type 0 where
  bad_status : Answer O
  answered : Bool → String → Option (Execution O) → Answer O

-- A request to the endpoints of a proposal: a hold, with what `_enrich` finds, or a decision, with the
-- `status` of its body, if there is one. The last member is the clock.
pub data Request : Type 0 where
  hold : String → Option String → Option String → Preview → Meta → ℕ → Request
  post : String → Option String → String → String → ℕ → Request

-- verb and the set of scopes of the grant
abbrev pub scopes_for : Option Approval → List String
scopes_for none = []
scopes_for (some row) = elim row.verb [
  | none ↦ []
  | some verb ↦ if verb == "" then [] else verb ∷ []
]

module _ {W O : Type 0} (digest : String → String)
    (commit : Adapter → List String → String → String → W → Option O × W) where
  abbrev pub outcome_of : Option O × W → Execution O × W
  outcome_of (none, world) = (failed, world)
  outcome_of (some o, world) = (executed o, world)

  -- `_execute_approved`; it is told the rows of the registry.
  unfoldable pub execute_approved : Approvals → List Adapter → String → W → Execution O × W
  unfolding any_active_adapter commit_idempotency_key
  execute_approved table adapters proposal_id world = elim (any_active_adapter adapters) [
    | none ↦ (no_adapter, world)
    | some adapter ↦
        let key = commit_idempotency_key digest ("cp-approve:" ++ proposal_id) proposal_id in
        let tried =
          outcome_of
            (commit adapter (scopes_for (lookup proposal_id table)) proposal_id key world) in
        if adapter.url == "" then (no_adapter, world) else tried
  ]

  -- What is answered once the store has decided.
  abbrev pub after_decide :
      List Adapter
      → String
      → String
      → W
      → Option (Approvals × Bool)
      → Approvals
      → Answer O × Approvals × W
  unfolding decision execute_approved
  after_decide adapters proposal_id status world none table = (bad_status, table, world)
  after_decide adapters proposal_id status world (some (after, done)) table =
      let executed = execute_approved after adapters proposal_id world in
      elim (done && (status == "approved")) [
        | true ↦ (answered done (decision after proposal_id) (some executed.0), after, executed.1)
        | false ↦ (answered done (decision after proposal_id) none, after, world)
      ]

  unfoldable pub post_decision :
      List Adapter
      → Approvals
      → W
      → String
      → Option String
      → String
      → String
      → ℕ
      → Answer O × Approvals × W
  unfolding decide decision execute_approved
  post_decision adapters table world proposal_id none actor reason now = (bad_status, table, world)
  post_decision adapters table world proposal_id (some status) actor reason now =
      after_decide adapters proposal_id status world
        (decide table proposal_id status actor reason now) table

  -- The table and the world after a request.
  unfoldable pub serve : List Adapter → Approvals → W → Request → Approvals × W
  unfolding await_approval post_decision
  serve adapters table world (hold proposal_id verb tier preview meta now) =
      ((await_approval table proposal_id verb tier preview meta now).0, world)
  serve adapters table world (post proposal_id status actor reason now) =
      let done = post_decision adapters table world proposal_id status actor reason now in
      (done.1, done.2)

  -- The registry may change between two requests.
  unfoldable pub serve_all : List (List Adapter × Request) → Approvals → W → Approvals × W
  unfolding serve
  serve_all [] table world = (table, world)
  serve_all ((adapters, r) ∷ requests) table world =
      let (table', world') = serve adapters table world r in serve_all requests table' world'
