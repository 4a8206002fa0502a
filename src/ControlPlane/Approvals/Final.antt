-- ===== src/ControlPlane/Approvals/Final.antt =====
-- A decision is made at most once, and is final.
use nilscript.Base.{
  ℕ, ◌≡◌, ◌≢◌, refl, sym, ◌∙◌, ◌⊎◌, inl, inr, Bool, ◌&&◌, String, ◌==◌, Option, none, some, List,
  [], ◌∷◌, lookup, lookup-insert, eq_iff, arith, Option-cases, Bool-cases, if◌then◌else◌,
}
use nilscript.ControlPlane.Approvals.{
  Approvals, Meta, Preview, held_row, decided_row, await_approval, decision, decide,
}

-- A request to the table; both may come in any order, and as often as anyone likes.
pub data Request : Type 0 where
  await : String → Option String → Option String → Preview → Meta → ℕ → Request
  decided : String → String → String → String → ℕ → Request

-- The table after a request; a request that raises leaves it alone.
abbrev pub serve : Approvals → Request → Approvals
serve table (await p verb tier preview meta now) =
    (await_approval table p verb tier preview meta now).0
serve table (decided p status actor reason now) = elim (decide table p status actor reason now) [
  | none ↦ table
  | some (t, done) ↦ t
]

unfoldable pub serve_all : Approvals → List Request → Approvals
serve_all table [] = table
serve_all table (r ∷ rs) = serve_all (serve table r) rs

-- What one `decide` returns and what it does to the decision of every proposal `j`: it reports
-- success exactly if its own proposal was pending, and then only that proposal gets the new status.
pub decide-decision :
    (table : Approvals) (p status actor reason j : String) (now : ℕ) {after : Approvals}
    {done : Bool}
    → decide table p status actor reason now ≡ some (after, done)
    → (done ≡ (decision table p == "pending"))
      × (decision after j ≡ (if (p == j) && done then status else decision table j))
unfolding decide decision
decide-decision table p status actor reason j now h = elim (Option-cases (lookup p table)) [
  | inl absent ↦ ground (arith, eq_iff (decision table p) "pending", eq_iff "unknown" "pending")
  | inr (row, found) ↦
      ground (arith, eq_iff p j, lookup-insert p j (decided_row row status actor reason now) table)
]

-- How the decision of one proposal may change: it stays, or a hold makes an unknown one pending, or
-- a decision makes a pending one approved or rejected.
abbrev pub Moves : String → String → Type 0
Moves s t =
    (s ≡ t)
    ⊎ ((s ≡ "unknown") × (t ≡ "pending"))
    ⊎ ((s ≡ "pending") × ((t ≡ "approved") ⊎ (t ≡ "rejected")))

pub await-Moves :
    (table : Approvals) (p j : String) (verb tier : Option String) (preview : Preview) (meta : Meta)
    (now : ℕ)
    → Moves (decision table j) (decision (await_approval table p verb tier preview meta now).0 j)
unfolding await_approval decision
await-Moves table p j verb tier preview meta now = elim (Option-cases (lookup p table)) [
  | inl absent ↦ elim (Bool-cases (p == j)) [
    | inl same ↦
        let q = (eq_iff p j).0 same in
        let gone = rw q at absent in
        inr (
          inl (
            rw (gone, decision),
            ground (arith, lookup-insert p j (held_row verb tier preview meta now) table),
          ))
    | inr other ↦
        inl (ground (arith, lookup-insert p j (held_row verb tier preview meta now) table))
  ]
  | inr (row, found) ↦ inl (ground arith)
]

pub decide-status :
    (table : Approvals) (p status actor reason : String) (now : ℕ) {out : Approvals × Bool}
    → decide table p status actor reason now ≡ some out
    → (status ≡ "approved") ⊎ (status ≡ "rejected")
unfolding decide
decide-status table p status actor reason now h = elim (Bool-cases (status == "approved")) [
  | inl yea ↦ inl ((eq_iff status "approved").0 yea)
  | inr other ↦ inr ((eq_iff status "rejected").0 (ground arith))
]

decide-Moves :
    (table : Approvals) (p j status actor reason : String) (now : ℕ)
    → Moves (decision table j) (decision (serve table (decided p status actor reason now)) j)
decide-Moves table p j status actor reason now =
    elim (Option-cases (decide table p status actor reason now)) [
      | inl raised ↦ inl (ground arith)
      | inr ((after, done), e) ↦
          let (reported, changed) = decide-decision table p status actor reason j now e in
          elim (Bool-cases ((p == j) && done)) [
            | inl hit ↦
                let q : p ≡ j = (eq_iff p j).0 (ground arith) in
                let was : decision table j ≡ "pending" =
                  (eq_iff (decision table j) "pending").0 (ground arith) in
                let now_is : decision (serve table (decided p status actor reason now)) j ≡ status =
                  ground arith in
                inr (inr (was, rw now_is (decide-status table p status actor reason now e)))
            | inr miss ↦ inl (ground arith)
          ]
    ]

-- The table refines the abstract state machine of a proposal: under any request, to it or to another,
-- the decision of a proposal stays, or goes from unknown to pending, or from pending to approved or
-- rejected.
pub serve-Moves :
    (table : Approvals) (r : Request) (j : String)
    → Moves (decision table j) (decision (serve table r) j)
serve-Moves table (await p verb tier preview meta now) j =
    await-Moves table p j verb tier preview meta now
serve-Moves table (decided p status actor reason now) j =
    decide-Moves table p j status actor reason now

-- The states that a proposal can be in.
abbrev pub IsDecision : String → Type 0
IsDecision s = (s ≡ "unknown") ⊎ (s ≡ "pending") ⊎ (s ≡ "approved") ⊎ (s ≡ "rejected")

Moves-IsDecision : {s t : String} → Moves s t → IsDecision s → IsDecision t
Moves-IsDecision (inl same) h = rw same at h
Moves-IsDecision (inr (inl (_, e))) h = inr (inl e)
Moves-IsDecision (inr (inr (_, e))) h = inr (inr e)

serve_all-IsDecision_from :
    (table : Approvals) (rs : List Request) (j : String)
    → IsDecision (decision table j)
    → IsDecision (decision (serve_all table rs) j)
unfolding serve_all
serve_all-IsDecision_from table [] j h = h
serve_all-IsDecision_from table (r ∷ rs) j h =
    serve_all-IsDecision_from (serve table r) rs j (Moves-IsDecision (serve-Moves table r j) h)

-- From the empty table, whatever the requests, every proposal is unknown, pending, approved or
-- rejected.
pub serve_all-IsDecision :
    (rs : List Request) (j : String) → IsDecision (decision (serve_all [] rs) j)
unfolding decision
serve_all-IsDecision rs j = serve_all-IsDecision_from [] rs j (inl refl)

Moves-final : (s t : String) → s ≢ "unknown" → s ≢ "pending" → Moves s t → t ≡ s
Moves-final s t known settled (inl e) = sym e
Moves-final s t known settled (inr (inl (e, _))) = absurd (known e)
Moves-final s t known settled (inr (inr (e, _))) = absurd (settled e)

-- A decision is final: once a proposal is neither unknown nor pending, no later holds or decisions,
-- on it or on others, change what `decision` answers for it.
pub serve_all-final :
    (rs : List Request) (table : Approvals) (j : String)
    → decision table j ≢ "unknown"
    → decision table j ≢ "pending"
    → decision (serve_all table rs) j ≡ decision table j
unfolding serve_all
serve_all-final [] table j known settled = refl
serve_all-final (r ∷ rs) table j known settled =
    let e = Moves-final _ _ known settled (serve-Moves table r j) in
    serve_all-final rs (serve table r) j (λ q. known (sym e ∙ q)) (λ q. settled (sym e ∙ q)) ∙ e
