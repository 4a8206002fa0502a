-- ===== src/Kernel/Executor/Keys.antt =====
-- The idempotency keys under which the executor of src/nilscript/kernel/executor.py commits.
use nilscript.Base.{false, String, none, some, List, ◌∷◌}
use nilscript.Kernel.Value.{Value, Fields, null}
use nilscript.Kernel.Executor.{Client, status_body}

-- A client that proposes every verb under an id of its own, answers every commit, and whose world
-- is the list of the keys of the commits, the last one first.
abbrev pub recorder : (String → Fields → List String → String) → Client (List String)
recorder id_of = record {
  propose = λ verb args w.
      (some (record { is_refusal = false; id = some (id_of verb args w); code = none }), w);
  commit = λ i key w. (some (status_body i (some "executed")), key ∷ w);
  query = λ verb args w. (some null, w);
  status = λ i w. (some none, w);
}
