-- ===== src/Cli/Repair/Loop.antt =====
-- The bounds of `run_repair_loop` of src/nilscript/cli/repair.py.
use nilscript.Base.{
  ℕ, zero, suc, ◌+◌, ◌≤◌, ◌≡◌, String, ◌==◌, List, [], ◌∷◌, ◌++◌, ltb, length, insert, arith,
  Bool-cases, Option-cases, inl, inr, length-append,
}
use nilscript.Cli.Repair.{
  Body, RepairBlock, Resolution, Created, RepairOutcome, Host, after_retry, after_propose,
  after_resolve, repair_from, run_repair_loop,
}

-- No more attempts than a bound, and no more prerequisites than attempts.
abbrev pub Within-bounds : ℕ → RepairOutcome → Type 0
Within-bounds bound o = (o.attempts ≤ bound) × (length o.created ≤ o.attempts)

module _ {World : Type 0} (host : Host World) where
  -- A further turn stays within a bound if it has created no more than a number of prerequisites.
  Bounded :
      ℕ
      → ℕ
      → (Body → List (String × String) → List Created → World → RepairOutcome × World)
      → Type 0
  Bounded bound made again =
      (refusal : Body) (args : List (String × String)) (created : List Created) (w : World)
      → length created ≤ made
      → Within-bounds bound (again refusal args created w).0

  after_retry-bounds :
      (bound attempt : ℕ)
      (again : Body → List (String × String) → List Created → World → RepairOutcome × World)
      (args : List (String × String)) (created : List Created) (r : Body × World)
      → attempt ≤ bound
      → length created ≤ attempt
      → Bounded bound attempt again
      → Within-bounds bound (after_retry host again attempt args created r).0
  unfolding Bounded
  after_retry-bounds bound attempt again args created (result, w) le lc h =
      elim (Option-cases result.repair) [
        | inl e ↦ ground (arith, e, le, lc)
        | inr (block, e) ↦ elim (Bool-cases result.is_refusal) [
          | inl t ↦ ground (arith, e, t, h result args created w lc)
          | inr f ↦ ground (arith, e, f, le, lc)
        ]
      ]

  after_propose-bounds :
      (bound attempt : ℕ)
      (again : Body → List (String × String) → List Created → World → RepairOutcome × World)
      (block : RepairBlock) (args : List (String × String)) (created : List Created)
      (r : Created × World)
      → suc attempt ≤ bound
      → length created ≤ attempt
      → Bounded bound (suc attempt) again
      → Within-bounds bound (after_propose host again (suc attempt) block args created r).0
  after_propose-bounds bound attempt again block args created (c, w) le lc h =
      let carried = insert block.target_arg (c.field block.source_field) args in
      after_retry-bounds bound (suc attempt) again carried (created ++ c ∷ [])
        (host.retry_original carried w) le (omega (arith, length-append created (c ∷ []))) h

  after_resolve-bounds :
      (bound attempt : ℕ)
      (again : Body → List (String × String) → List Created → World → RepairOutcome × World)
      (block : RepairBlock) (args : List (String × String)) (created : List Created)
      (r : Resolution × World)
      → suc attempt ≤ bound
      → length created ≤ attempt
      → Bounded bound (suc attempt) again
      → Within-bounds bound (after_resolve host again (suc attempt) block args created r).0
  after_resolve-bounds bound attempt again block args created (r, w) le lc h =
      let p =
        after_propose-bounds bound attempt again block args created
          (host.propose_prerequisite block.resolve_with r.value w) le lc h in
      elim (Bool-cases (ltb 1 (length r.candidates))) [
        | inl t ↦ rw t (le, omega arith)
        | inr f ↦ elim (Bool-cases (r.value == "")) [
          | inl t ↦ rw (f, t) (le, omega arith)
          | inr g ↦ rw (f, g) p
        ]
      ]

  repair_from-bounds :
      (bound left made : ℕ) → bound ≡ left + made → Bounded bound made (repair_from host left made)
  unfolding repair_from Bounded
  repair_from-bounds bound zero made b refusal args created w lc = (omega arith, lc)
  repair_from-bounds bound (suc left) made b refusal args created w lc =
      elim (Option-cases refusal.repair) [
        | inl e ↦ ground (arith, e)
        | inr (block, e) ↦
            let p =
              after_resolve-bounds bound made (repair_from host left (suc made)) block args created
                (host.resolve block.missing_entity w) (omega arith) lc
                (repair_from-bounds bound left (suc made) (omega arith)) in
            ground (arith, e, p)
      ]

  -- The loop makes no more attempts than `max_attempts`, and proposes no more prerequisites than
  -- it makes attempts, whatever the host answers.
  pub run_repair_loop-bounds :
      (max_attempts : ℕ) (refusal : Body) (args : List (String × String)) (w : World)
      → Within-bounds max_attempts (run_repair_loop host max_attempts refusal args w).0
  unfolding run_repair_loop Bounded
  run_repair_loop-bounds max_attempts refusal args w =
      let (a, b) =
        repair_from-bounds max_attempts max_attempts 0 (omega arith) refusal args [] w
          (omega arith) in
      (omega (arith, a), b)
