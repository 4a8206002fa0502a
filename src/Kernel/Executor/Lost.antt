-- ===== src/Kernel/Executor/Lost.antt =====
-- Which endings of a walk of src/nilscript/kernel/executor.py are those of a walk that is lost, and that
-- the nodes without nested walks do not come to one.
use nilscript.Base.{ℕ, zero, suc, Bool, true, false, String, Option, none, some}
use nilscript.Kernel.Value.{Value, str, field}
use nilscript.Kernel.Program.{
  ActionNode, QueryNode, ConditionNode, AwaitApprovalNode, NotifyNode, WosoolProgram,
}
use nilscript.Kernel.Graph.{idem_key}
use nilscript.Kernel.References.{resolve, resolve_fields}
use nilscript.Kernel.Executor.{
  Proposal, CommitOutcome, Client, Guard, client_error, unresolved_reference, guard_error,
  missing_node, too_many_steps, out_of_fuel, Ending, finished, halted, crashed, Done, output,
  stopped, Walk, approval_route, usable_id, opt_field,
}
use nilscript.Base.{◌≡◌, refl, inl, inr, Option-cases, arith}
use nilscript.Kernel.Executor.Steps.{
  committing, proposing, do_action, querying, do_query, polled, poll, do_await_approval, do_notify,
  do_condition,
}

-- A node that is not in the pipeline, more than `max_steps` steps, or the end of the fuel.
unfoldable pub is_lost : Ending → Bool
is_lost finished = false
is_lost (halted r) = false
is_lost (crashed client_error) = false
is_lost (crashed unresolved_reference) = false
is_lost (crashed guard_error) = false
is_lost (crashed missing_node) = true
is_lost (crashed too_many_steps) = true
is_lost (crashed out_of_fuel) = true

unfoldable pub stops_lost : Done → Bool
unfolding is_lost
stops_lost (output v) = false
stops_lost (stopped e) = is_lost e

module _ {World : Type 0} (client : Client World) (guard : Guard) (p : WosoolProgram)
    (run_id : String) (max_polls : ℕ) where
  committing-lost :
      (id i : String) (r : Option CommitOutcome × World) (s : Walk World)
      → stops_lost (committing client guard p run_id max_polls id i r s).0 ≡ false
  unfolding stops_lost is_lost
  committing-lost id i (none, w) s = refl
  committing-lost id i (some c, w) s = refl

  proposing-lost :
      (id : String) (r : Option Proposal × World) (s : Walk World)
      → stops_lost (proposing client guard p run_id max_polls id r s).0 ≡ false
  unfolding stops_lost is_lost
  proposing-lost id (none, w) s = refl
  proposing-lost id (some proposal, w) s = elim (Option-cases (usable_id proposal)) [
    | inl e ↦ ground (arith, e)
    | inr (i, e) ↦
        ground (arith, e, committing-lost id i (client.commit i (idem_key run_id id) w) s)
  ]

  pub do_action-lost :
      (id : String) (n : ActionNode) (item : Value) (s : Walk World)
      → stops_lost (do_action client guard p run_id max_polls id n item s).0 ≡ false
  unfolding do_action stops_lost is_lost
  do_action-lost id n item s = elim (Option-cases (resolve_fields n.args s.ctx item)) [
    | inl e ↦ ground (arith, e)
    | inr (args, e) ↦ ground (arith, e, proposing-lost id (client.propose n.verb args s.world) s)
  ]

  querying-lost :
      (r : Option Value × World) (s : Walk World)
      → stops_lost (querying client guard p run_id max_polls r s).0 ≡ false
  unfolding stops_lost is_lost
  querying-lost (none, w) s = refl
  querying-lost (some v, w) s = refl

  pub do_query-lost :
      (n : QueryNode) (item : Value) (s : Walk World)
      → stops_lost (do_query client guard p run_id max_polls n item s).0 ≡ false
  unfolding do_query stops_lost is_lost
  do_query-lost n item s = elim (Option-cases (resolve_fields n.args s.ctx item)) [
    | inl e ↦ ground (arith, e)
    | inr (args, e) ↦ ground (arith, e, querying-lost (client.query n.verb args s.world) s)
  ]

  polled-lost :
      (again : Walk World → Done × Walk World) (r : Option (Option String) × World) (s : Walk World)
      → ((t : Walk World) → stops_lost (again t).0 ≡ false)
      → stops_lost (polled client guard p run_id max_polls again r s).0 ≡ false
  unfolding stops_lost is_lost
  polled-lost again (none, w) s h = refl
  polled-lost again (some none, w) s h = h (record s { world = w })
  polled-lost again (some (some state), w) s h = elim (Option-cases (approval_route state)) [
    | inl e ↦ ground (arith, e, h (record s { world = w }))
    | inr (route, e) ↦ ground (arith, e)
  ]

  poll-lost :
      (polls : ℕ) (v : Value) (s : Walk World)
      → stops_lost (poll client guard p run_id max_polls polls v s).0 ≡ false
  unfolding poll stops_lost is_lost
  poll-lost zero v s = refl
  poll-lost (suc polls) v s =
      polled-lost (poll client guard p run_id max_polls polls v) (client.status v s.world) s
        (poll-lost polls v)

  pub do_await_approval-lost :
      (n : AwaitApprovalNode) (item : Value) (s : Walk World)
      → stops_lost (do_await_approval client guard p run_id max_polls n item s).0 ≡ false
  unfolding do_await_approval stops_lost is_lost
  do_await_approval-lost n item s = elim (Option-cases (resolve (str n.proposal) s.ctx item)) [
    | inl e ↦ ground (arith, e)
    | inr (v, e) ↦ ground (arith, e, poll-lost max_polls v s)
  ]

  pub do_notify-lost :
      (n : NotifyNode) (item : Value) (s : Walk World)
      → stops_lost (do_notify client guard p run_id max_polls n item s).0 ≡ false
  unfolding do_notify stops_lost is_lost
  do_notify-lost n item s =
      elim (Option-cases
        (resolve_fields (field "ar" (str n.message.ar) (opt_field "en" n.message.en)) s.ctx item)) [
          | inl e ↦ ground (arith, e)
          | inr (v, e) ↦ ground (arith, e)
        ]

  pub do_condition-lost :
      (n : ConditionNode) (item : Value) (s : Walk World)
      → stops_lost (do_condition client guard p run_id max_polls n item s).0 ≡ false
  unfolding do_condition stops_lost is_lost
  do_condition-lost n item s = elim (Option-cases (guard n.expression s.ctx item)) [
    | inl e ↦ ground (arith, e)
    | inr (v, e) ↦ ground (arith, e)
  ]
