-- ===== src/Mcp/Gate/Approved.antt =====
-- What the human gate holds back, and what it does not.
use nilscript.Base.{
  ◌≡◌, ◌≢◌, refl, ap, ◌∙◌, Bool, true, false, String, ◌==◌, Option, none, some, lookup, insert,
  lookup-insert, arith, eq_iff, eq_refl, Option-cases, Bool-cases, inl, inr,
}
use nilscript.Sdk.Idempotency.{commit_idempotency_key}
use nilscript.Mcp.Gate.{
  Proposed, Remembered, Sessions, proposals_of, remembered, remember, human, is_gated, tier_of,
  recall, Block, approval_required, rejected, CommitResult, blocked, committed, on_answer,
  gate_decision, send_commit, commit,
}

recall-remember :
    (sessions : Sessions) (sid id : String) (p : Proposed)
    → p.is_refusal ≡ false
    → p.id ≡ some id
    → recall (remember sessions sid p) sid id ≡ some (remembered p)
unfolding recall remember
recall-remember sessions sid id p ok named = ground (
  arith,
  ap proposals_of (
      lookup-insert sid sid (insert id (remembered p) (proposals_of (lookup sid sessions)))
        sessions),
  eq_refl sid,
  lookup-insert id id (remembered p) (proposals_of (lookup sid sessions)),
  eq_refl id,
)

-- Remembering in one session leaves what another one recalls.
recall-remember_other :
    (sessions : Sessions) (sid other id : String) (p : Proposed)
    → sid ≢ other
    → recall (remember sessions sid p) other id ≡ recall sessions other id
unfolding recall remember
recall-remember_other sessions sid other id p ne = elim (Bool-cases p.is_refusal) [
  | inl refused ↦ ground arith
  | inr ok ↦ elim (Option-cases p.id) [
    | inl unnamed ↦ ground arith
    | inr (i, named) ↦ ground (
      arith,
      ap (λ o. lookup id (proposals_of o))
          (lookup-insert sid other (insert i (remembered p) (proposals_of (lookup sid sessions)))
            sessions),
      eq_iff sid other,
      ne,
    )
  ]
]

module _ {W O : Type 0} (configured : Bool) (ask : String → W → Option String × W)
    (hold : String → Option Remembered → W → W) (digest : String → String)
    (client_commit : String → String → W → O × W) where
  answer_held :
      (sessions : Sessions) (sid id : String) (tier : Option String) (asked : Option String × W)
      → asked.0 ≢ some "approved"
      → (b : Block) × ((on_answer human configured ask hold sessions sid id tier asked).0 ≡ some b)
  answer_held sessions sid id tier (none, world) ne = (approval_required tier, refl)
  answer_held sessions sid id tier (some status, world) ne =
      elim (Bool-cases (status == "approved")) [
        | inl same ↦ absurd (ne (ap some ((eq_iff status "approved").0 same)))
        | inr other ↦ elim (Bool-cases (status == "rejected")) [
          | inl rejects ↦ (rejected tier, ground arith)
          | inr waits ↦ (approval_required tier, ground arith)
        ]
      ]

  gate_held :
      (sessions : Sessions) (sid id : String) (r : Remembered) (world : W)
      → recall sessions sid id ≡ some r
      → is_gated r.tier ≡ true
      → (ask id world).0 ≢ some "approved"
      → (b : Block) × ((gate_decision human configured ask hold sessions sid id world).0 ≡ some b)
  unfolding gate_decision
  gate_held sessions sid id r world known high ne =
      let (b, held) =
        answer_held sessions sid id (tier_of (recall sessions sid id)) (ask id world) ne in
      elim (Bool-cases configured) [
        | inl on ↦ (b, ground arith)
        | inr off ↦ (approval_required (tier_of (recall sessions sid id)), ground arith)
      ]

  sent_blocked :
      (sid id : String) (g : Option Block × W) (b : Block)
      → g.0 ≡ some b
      → send_commit human configured ask hold digest client_commit sid id g ≡ (blocked b, g.1)
  unfolding commit_idempotency_key
  sent_blocked sid id (some c, world) b h = ground arith
  sent_blocked sid id (none, world) b h = absurd (cc)

  -- With the human gate, a COMMIT of a proposal that its session remembers with a gated tier does not
  -- reach the client unless the control plane answers that it is approved: it is blocked, and the
  -- world is the one that the gate leaves.
  pub commit-held :
      (sessions : Sessions) (sid id : String) (r : Remembered) (world : W)
      → recall sessions sid id ≡ some r
      → is_gated r.tier ≡ true
      → (ask id world).0 ≢ some "approved"
      → let tried = commit human configured ask hold digest client_commit sessions sid id world in
        (b : Block) × (tried.0 ≡ blocked b)
        × (tried.1 ≡ (gate_decision human configured ask hold sessions sid id world).1)
  unfolding commit
  commit-held sessions sid id r world known high ne =
      let (b, held) = gate_held sessions sid id r world known high ne in
      let sent = sent_blocked sid id _ b held in
      (b, ap (λ (x : CommitResult O × W). x.0) sent, ap (λ (x : CommitResult O × W). x.1) sent)

  -- The gate looks only in the session of the COMMIT: a proposal that was made in one session, of
  -- whatever tier, is committed in another one, which does not know it, without asking anyone.
  pub commit-other_session :
      (sessions : Sessions) (sid other id : String) (p : Proposed) (world : W)
      → sid ≢ other
      → recall sessions other id ≡ none
      → let (outcome, after) = client_commit id (commit_idempotency_key digest other id) world in
        commit human configured ask hold digest client_commit
          (remember sessions sid p)
          other
          id
          world
        ≡ (committed outcome, after)
  unfolding commit gate_decision
  commit-other_session sessions sid other id p world ne unknown =
      let gone = recall-remember_other sessions sid other id p ne ∙ unknown in
      rw (commit, gate_decision, gone) refl
