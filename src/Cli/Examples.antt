-- ===== src/Cli/Examples.antt =====
-- The theorems about the repair of refusals at concrete inputs.
use nilscript.Base.{ℕ, ◌+◌, true, String, some, List, [], ◌∷◌}
use nilscript.Cli.Repair.{CommittedStep, RepairBlock, Body, Host, run_repair_loop}
use nilscript.Cli.Repair.Loop.{Within-bounds, run_repair_loop-bounds}

abbrev create : CommittedStep
create = record { verb = "create"; reversibility = "REVERSIBLE" }

abbrev send : CommittedStep
send = record { verb = "send"; reversibility = "IRREVERSIBLE" }

abbrev auto : List String
auto = "create" ∷ []

abbrev block : RepairBlock
block = record {
  missing_entity = "customer";
  resolve_with = "create";
  target_arg = "party";
  source_field = "name";
}

abbrev refusal : Body
refusal = record { is_refusal = true; repair = some block; text = "UNRESOLVED" }

-- A host whose retries are always refused.
abbrev stubborn : Host ℕ
stubborn = record {
  resolve = λ entity w. (record { value = "Ali"; candidates = [] }, w);
  propose_prerequisite = λ verb value w. (record { text = value; field = λ f. value }, w + 1);
  retry_original = λ args w. (refusal, w);
}

run_repair_loop-bounds_example : Within-bounds 3 (run_repair_loop stubborn 3 refusal [] 0).0
run_repair_loop-bounds_example = run_repair_loop-bounds stubborn 3 refusal [] 0
