-- ===== src/Kernel/Executor/Unwind.antt =====
-- `_compensate` and `execute` of src/nilscript/kernel/executor.py.
pub mod Prefix
pub mod Outcome
use nilscript.Base.{
  ℕ, zero, suc, ◌+◌, Bool, true, false, not, ◌||◌, ◌&&◌, String, ◌==◌, Option, none, some, List, [],
  ◌∷◌, ◌++◌, reverse, insert, take, eqb, leb, if◌then◌else◌,
}
use Prim.Native.String.{◌++◌ as str_append}
use nilscript.Kernel.Value.{
  ℤ, pos, negsuc, Value, null, bool, int, str, list, dict, Items, nil, cons, Fields, end, field,
  get_field,
}
use nilscript.Kernel.Program.{
  CompensateWith, ActionNode, QueryNode, ConditionNode, ParallelNode, ForeachNode,
  AwaitApprovalNode, WaitNode, NotifyNode, NodeType, action, query, condition, parallel, foreach,
  await_approval, wait, notify, Node, find_node, WosoolProgram,
}
use nilscript.Kernel.Graph.{Output, next_after, idem_key}
use nilscript.Kernel.References.{resolve, resolve_fields}
use nilscript.Kernel.RunResult.{Context, Refusal, Notification, RunResult}
use nilscript.Kernel.Executor.{
  Proposal, CommitOutcome, Client, Guard, Crash, client_error, unresolved_reference, guard_error,
  missing_node, too_many_steps, out_of_fuel, Ending, finished, halted, crashed, Done, output,
  stopped, Walk, max_steps, approval_route, outcome_dict, usable_id, code_of, output_of, capped,
  count_items, items_of_names, text_field, opt_field,
}
use nilscript.Kernel.Executor.Steps.{set_world, walk}

-- What the unwind returns, or the exception that it raises.
pub data Unwound : Type 0 where
  undone : List String → Unwound
  failed : Crash → Unwound

-- What `execute` returns, or the exception that it raises.
pub data Execution : Type 0 where
  returned : RunResult → Execution
  raised : Crash → Execution

-- node.get("compensate_with")
unfoldable pub compensation_of : NodeType → Option CompensateWith
compensation_of (action n) = n.compensate_with
compensation_of (query n) = none
compensation_of (condition n) = none
compensation_of (parallel n) = none
compensation_of (foreach n) = none
compensation_of (await_approval n) = none
compensation_of (wait n) = none
compensation_of (notify n) = none

abbrev pub prepend_done : String → Unwound → Unwound
prepend_done id (undone done) = undone (id ∷ done)
prepend_done id (failed c) = failed c

module _ {World : Type 0} (client : Client World) (guard : Guard) (p : WosoolProgram)
    (run_id : String) (max_polls : ℕ) where
  abbrev pub Unwinder : Type 0
  Unwinder = Walk World → Unwound × Walk World

  abbrev pub undo_done : String → Unwound × Walk World → Unwound × Walk World
  undo_done id (u, s) = (prepend_done id u, s)

  abbrev pub undo_commit :
      Unwinder → String → Option CommitOutcome × World → Walk World → Unwound × Walk World
  undo_commit more id (none, w) s =
      (failed client_error, set_world client guard p run_id max_polls w s)
  undo_commit more id (some outcome, w) s =
      undo_done id (more (set_world client guard p run_id max_polls w s))

  abbrev pub undo_usable :
      Unwinder → String → Option String → World → Walk World → Unwound × Walk World
  undo_usable more id none w s = (undone [], set_world client guard p run_id max_polls w s)
  undo_usable more id (some i) w s =
      undo_commit more id (client.commit i (idem_key run_id (str_append id ":rollback")) w) s

  abbrev pub undo_propose :
      Unwinder → String → Option Proposal × World → Walk World → Unwound × Walk World
  undo_propose more id (none, w) s =
      (failed client_error, set_world client guard p run_id max_polls w s)
  undo_propose more id (some proposal, w) s = undo_usable more id (usable_id proposal) w s

  abbrev pub undo_resolved :
      Unwinder → String → String → Option Fields → Walk World → Unwound × Walk World
  undo_resolved more id verb none s = (failed unresolved_reference, s)
  undo_resolved more id verb (some args) s =
      undo_propose more id (client.propose verb args s.world) s

  abbrev pub undo_with :
      Unwinder → String → Option CompensateWith → Walk World → Unwound × Walk World
  undo_with more id none s = (undone [], s)
  undo_with more id (some comp) s =
      undo_resolved more id comp.verb (resolve_fields comp.args s.ctx null) s

  abbrev pub undo_node : Unwinder → String → Option Node → Walk World → Unwound × Walk World
  undo_node more id none s = (failed missing_node, s)
  undo_node more id (some n) s = undo_with more id (compensation_of n.type) s

  -- The loop of `_compensate` over the committed nodes, the last one first.
  unfoldable pub unwind : List String → Walk World → Unwound × Walk World
  unfolding compensation_of
  unwind [] s = (undone [], s)
  unwind (id ∷ rest) s = undo_node (unwind rest) id (find_node id p.pipeline) s

  unfoldable pub compensate : Walk World → Unwound × Walk World
  unfolding unwind
  compensate s = unwind (reverse s.committed) s

  unfoldable pub initial_ctx : Option Value → Context
  initial_ctx none = []
  initial_ctx (some v) = ("input", v) ∷ []

  abbrev pub partial_result : Refusal → Unwound × Walk World → Execution
  partial_result r (failed c, s) = raised c
  partial_result r (undone done, s) = returned (record {
    completed = false;
    context = s.ctx;
    notifications = s.notifications;
    compensated = done;
    is_partial = true;
    blocked_at = some r.node;
    refusal = some r;
  })

  abbrev pub halted_result : Refusal → Walk World → RunResult
  halted_result r s = record {
    completed = false;
    context = s.ctx;
    notifications = s.notifications;
    compensated = [];
    is_partial = false;
    blocked_at = some r.node;
    refusal = some r;
  }

  abbrev pub completed_result : Walk World → RunResult
  completed_result s = record {
    completed = true;
    context = s.ctx;
    notifications = s.notifications;
    compensated = [];
    is_partial = false;
    blocked_at = none;
    refusal = none;
  }

  unfoldable pub conclude : Ending × Walk World → Execution
  unfolding compensate
  conclude (finished, s) = returned (completed_result s)
  conclude (crashed c, s) = raised c
  conclude (halted r, s) =
      let unwound = partial_result r (compensate s) in
      if p.on_error == "compensate" then unwound else returned (halted_result r s)

  -- The fuel is the largest number of nodes of a program.
  unfoldable pub execute : Option Value → World → Execution
  unfolding conclude initial_ctx walk
  execute input w = conclude (
      walk client guard p run_id max_polls 256 0 (some p.entry) null
        (record { world = w; ctx = initial_ctx input; notifications = []; committed = [] }))
