-- ===== src/ControlPlane/Decisions/Once.antt =====
-- However often a proposal is held and decided, the control plane commits it at most once.
use nilscript.Base.{
  ℕ, suc, ◌+◌, ◌≤◌, ◌≡◌, refl, ap, sym, ◌∙◌, ◌⊎◌, Bool, ◌&&◌, ◌||◌, String, ◌==◌, Option, none,
  some, List, [], ◌∷◌, lookup, arith, eq_iff, Bool-cases, Option-cases, inl, inr, if◌then◌else◌,
}
use Prim.Native.String.{◌++◌ as str_append}
use nilscript.Sdk.Idempotency.{commit_idempotency_key}
use nilscript.ControlPlane.Approvals.{Approvals, Meta, Preview, await_approval, decision, decide}
use nilscript.ControlPlane.Approvals.Final.{decide-decision, decide-status, await-Moves}
use nilscript.ControlPlane.Adapters.{Adapter, any_active_adapter}
use nilscript.ControlPlane.Decisions.{
  Request, hold, post, scopes_for, outcome_of, execute_approved, after_decide, serve, serve_all,
}

-- The outside world with a count of the COMMITs of one proposal.
pub record Counted (W : Type 0) : Type 0 where
  pub world : W
  pub commits : ℕ

-- A client that counts the COMMITs of `j`.
abbrev pub counting :
    {W O : Type 0}
    → (Adapter → List String → String → String → W → Option O × W)
    → String
    → Adapter
    → List String
    → String
    → String
    → Counted W
    → Option O × Counted W
counting commit j adapter scopes proposal_id key c =
    let (o, world) = commit adapter scopes proposal_id key c.world in
    (o, record { world = world; commits = if proposal_id == j then suc c.commits else c.commits })

-- How many COMMITs of a proposal may come yet.
abbrev pub room : String → ℕ
room s = if (s == "unknown") || (s == "pending") then 1 else 0

module _ {W O : Type 0} (digest : String → String)
    (commit : Adapter → List String → String → String → W → Option O × W) (j : String) where
  abbrev client : Adapter → List String → String → String → Counted W → Option O × Counted W
  client = counting commit j

  outcome-commits :
      (o : Option O × Counted W) → (outcome_of digest client o).1.commits ≡ o.1.commits
  outcome-commits (none, c) = refl
  outcome-commits (some o, c) = refl

  execute-commits :
      (table : Approvals) (adapters : List Adapter) (p : String) (c : Counted W)
      → (execute_approved digest client table adapters p c).1.commits
        ≤ (if p == j then suc c.commits else c.commits)
  unfolding execute_approved
  execute-commits table adapters p c = elim (Option-cases (any_active_adapter adapters)) [
    | inl idle ↦ ground arith
    | inr (adapter, found) ↦ ground (
      arith,
      outcome-commits (
          client adapter (scopes_for (lookup p table)) p
            (commit_idempotency_key digest (str_append "cp-approve:" p) p) c),
    )
  ]

  room-Moves :
      (s t : String) (n : ℕ)
      → (s ≡ t) ⊎ ((s ≡ "unknown") × (t ≡ "pending"))
      → n + room t ≤ n + room s
  room-Moves s t n (inl same) = ground (arith, ap room same)
  room-Moves s t n (inr (was, is_held)) = ground (arith, ap room was, ap room is_held)

  room-decided : (s : String) → (s ≡ "approved") ⊎ (s ≡ "rejected") → room s ≡ 0
  room-decided s (inl yea) = ap room yea
  room-decided s (inr nay) = ap room nay

  decided-commits :
      (adapters : List Adapter) (table : Approvals) (c : Counted W) (p status actor reason : String)
      (now : ℕ) (out : Option (Approvals × Bool))
      → decide table p status actor reason now ≡ out
      → let done = after_decide digest client adapters p status c out table in
        done.2.commits + room (decision done.1 j) ≤ c.commits + room (decision table j)
  unfolding decision after_decide
  decided-commits adapters table c p status actor reason now none e = omega arith
  decided-commits adapters table c p status actor reason now (some (after, done)) e =
      let (reported, changed) = decide-decision table p status actor reason j now e in
      let executes = execute-commits after adapters p c in
      let settled = room-decided status (decide-status table p status actor reason now e) in
      let now_is = ap room changed in
      elim (Bool-cases (p == j)) [
        | inl same ↦ elim (Bool-cases done) [
          | inl hit ↦
              let was : room (decision table j) ≡ 1 = ap room (
                ap (decision table) (sym ((eq_iff p j).0 same))
                ∙ (eq_iff (decision table p) "pending").0 (sym reported ∙ hit)) in
              elim (Bool-cases (status == "approved")) [
                | inl yea ↦ ground arith
                | inr nay ↦ ground arith
              ]
          | inr miss ↦ ground arith
        ]
        | inr other ↦ elim (Bool-cases (done && (status == "approved"))) [
          | inl runs ↦ ground arith
          | inr waits ↦ ground arith
        ]
      ]

  hold-room :
      (table : Approvals) (p : String) (verb tier : Option String) (preview : Preview) (meta : Meta)
      (now n : ℕ)
      → n + room (decision (await_approval table p verb tier preview meta now).0 j)
        ≤ n + room (decision table j)
  hold-room table p verb tier preview meta now n =
      elim (await-Moves table p j verb tier preview meta now) [
        | inl same ↦ room-Moves _ _ n (inl same)
        | inr (inl held) ↦ room-Moves _ _ n (inr held)
        | inr (inr (was, end)) ↦ ground (arith, ap room was, room-decided _ end)
      ]

  serve-commits :
      (adapters : List Adapter) (table : Approvals) (c : Counted W) (r : Request)
      → let done = serve digest client adapters table c r in
        done.1.commits + room (decision done.0 j) ≤ c.commits + room (decision table j)
  unfolding serve
  serve-commits adapters table c (hold p verb tier preview meta now) =
      hold-room table p verb tier preview meta now c.commits
  serve-commits adapters table c (post p none actor reason now) = omega arith
  serve-commits adapters table c (post p (some status) actor reason now) =
      decided-commits adapters table c p status actor reason now _ refl

  serve_all-commits :
      (requests : List (List Adapter × Request)) (table : Approvals) (c : Counted W)
      → let done = serve_all digest client requests table c in
        done.1.commits + room (decision done.0 j) ≤ c.commits + room (decision table j)
  unfolding serve_all
  serve_all-commits [] table c = omega arith
  serve_all-commits ((adapters, r) ∷ requests) table c =
      let done = serve digest client adapters table c r in
      omega (arith, serve-commits adapters table c r, serve_all-commits requests done.0 done.1)

-- Whatever holds and decisions come, from whatever table and with whatever adapters active at each of
-- them, the control plane sends at most one COMMIT of a proposal `j`, and none at all if `j` is
-- decided already.
pub serve_all-once :
    {W O : Type 0} (digest : String → String)
    (commit : Adapter → List String → String → String → W → Option O × W) (j : String)
    (requests : List (List Adapter × Request)) (table : Approvals) (world : W)
    → let start : Counted W = record { world = world; commits = 0 } in
      (serve_all digest (counting commit j) requests table start).1.commits
      ≤ room (decision table j)
serve_all-once digest commit j requests table world = omega (
  arith,
  serve_all-commits digest commit j requests table (record { world = world; commits = 0 }),
)
