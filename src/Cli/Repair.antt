-- ===== src/Cli/Repair.antt =====
-- src/nilscript/cli/repair.py: the bounded repair of a refusal, and the unwind of committed steps.
-- The host's callables are arguments. The dictionary of carried arguments is an association list.
pub mod Unwind
pub mod Loop
use nilscript.Base.{
  ℕ, zero, suc, ◌+◌, ◌≡◌, Bool, true, false, ◌&&◌, String, ◌==◌, Option, none, some, List, [], ◌∷◌,
  ◌++◌, reverse, elem, insert, eqb, ltb, length, if◌then◌else◌,
}

-- A committed step. The token and the result are left to `compensate`.
pub record CommittedStep : Type 0 where
  pub verb : String
  pub reversibility : String

pub record UnwindOutcome : Type 0 where
  pub status : String
  pub compensated : List String
  pub parked : List String
  pub irreversible : List String

abbrev pub started : UnwindOutcome
started = record { status = "compensated"; compensated = []; parked = []; irreversible = [] }

-- What the loop does with a step.
unfoldable pub unwind_step : List String → CommittedStep → UnwindOutcome → UnwindOutcome
unwind_step auto step o =
    if step.reversibility == "IRREVERSIBLE"
    then record o { irreversible = o.irreversible ++ step.verb ∷ [] }
    else if (step.reversibility == "REVERSIBLE") && elem step.verb auto
    then record o { compensated = o.compensated ++ step.verb ∷ [] }
    else record o { parked = o.parked ++ step.verb ∷ [] }

unfoldable pub unwind_steps : List String → List CommittedStep → UnwindOutcome → UnwindOutcome
unfolding unwind_step
unwind_steps auto [] o = o
unwind_steps auto (s ∷ steps) o = unwind_steps auto steps (unwind_step auto s o)

unfoldable pub closing : UnwindOutcome → UnwindOutcome
closing o =
    if ltb 0 (length o.irreversible)
    then record o { status = "blocked" }
    else if ltb 0 (length o.parked)
    then record o { status = "parked" }
    else o

-- The calls of `compensate` are those of the steps whose verbs are `compensated`, in that order.
unfoldable pub run_saga_unwind : List CommittedStep → List String → UnwindOutcome
unfolding unwind_steps closing
run_saga_unwind steps auto = closing (unwind_steps auto (reverse steps) started)

-- A `RepairBlock`, with its two properties in place of `carry`.
pub record RepairBlock : Type 0 where
  pub missing_entity : String
  pub resolve_with : String
  pub target_arg : String
  pub source_field : String

-- What the loop reads of a body: whether it is a refusal, and `repair_of` it.
pub record Body : Type 0 where
  pub is_refusal : Bool
  pub repair : Option RepairBlock
  pub text : String

-- A value that is None is "".
pub record Resolution : Type 0 where
  pub value : String
  pub candidates : List String

-- What `propose_prerequisite` created: its text, and the value of a field.
pub record Created : Type 0 where
  pub text : String
  pub field : String → String

pub data RepairStatus : Type 0 where
  repaired ambiguous unresolved exhausted not_repairable : RepairStatus

pub record RepairOutcome : Type 0 where
  pub status : RepairStatus
  pub attempts : ℕ
  pub created : List Created
  pub candidates : List String
  pub final : Option Body

pub record Host (World : Type 0) : Type 0 where
  pub resolve : String → World → Resolution × World
  pub propose_prerequisite : String → String → World → Created × World
  pub retry_original : List (String × String) → World → Body × World

module _ {World : Type 0} (host : Host World) where
  abbrev pub outcome : RepairStatus → ℕ → List Created → RepairOutcome
  outcome status attempts created = record {
    status = status;
    attempts = attempts;
    created = created;
    candidates = [];
    final = none;
  }

  -- The next turn of the loop: the refusal, the arguments, what is created so far.
  abbrev pub Again : Type 0
  Again = Body → List (String × String) → List Created → World → RepairOutcome × World

  abbrev pub after_retry :
      Again → ℕ → List (String × String) → List Created → Body × World → RepairOutcome × World
  after_retry again attempt args created (result, w) = elim result.repair [
    | none ↦ (record (outcome repaired attempt created) { final = some result }, w)
    | some block ↦
        let more = again result args created w in
        if result.is_refusal
        then more
        else (record (outcome repaired attempt created) { final = some result }, w)
  ]

  abbrev pub after_propose :
      Again
      → ℕ
      → RepairBlock
      → List (String × String)
      → List Created
      → Created × World
      → RepairOutcome × World
  after_propose again attempt block args created (c, w) =
      let carried = insert block.target_arg (c.field block.source_field) args in
      after_retry again attempt carried (created ++ c ∷ []) (host.retry_original carried w)

  abbrev pub after_resolve :
      Again
      → ℕ
      → RepairBlock
      → List (String × String)
      → List Created
      → Resolution × World
      → RepairOutcome × World
  after_resolve again attempt block args created (r, w) =
      let proceed =
        after_propose again attempt block args created
          (host.propose_prerequisite block.resolve_with r.value w) in
      if ltb 1 (length r.candidates)
      then (record (outcome ambiguous attempt created) { candidates = r.candidates }, w)
      else if r.value == ""
      then (outcome unresolved attempt created, w)
      else proceed

  -- The loop, with the attempts that are left and the attempts that are made.
  unfoldable pub repair_from : ℕ → ℕ → Again
  repair_from zero made refusal args created w = (outcome exhausted made created, w)
  repair_from (suc left) made refusal args created w = elim refusal.repair [
    | none ↦ (outcome (if eqb made 0 then not_repairable else repaired) (suc made) created, w)
    | some block ↦
        after_resolve (repair_from left (suc made)) (suc made) block args created
          (host.resolve block.missing_entity w)
  ]

  unfoldable pub run_repair_loop : ℕ → Body → List (String × String) → World → RepairOutcome × World
  unfolding repair_from
  run_repair_loop max_attempts refusal args w = repair_from max_attempts 0 refusal args [] w
