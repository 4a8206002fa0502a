-- ===== src/Kernel/Executor/Steady.antt =====
-- Predicates on the fields of the executor of src/nilscript/kernel/executor.py that its four kinds of
-- changes keep, and that the nodes without nested walks keep them.
use nilscript.Base.{ℕ, zero, suc, String, Option, none, some, List, [], ◌∷◌}
use nilscript.Kernel.Value.{Value, str, dict, end, field}
use nilscript.Kernel.Program.{
  ActionNode, QueryNode, ConditionNode, AwaitApprovalNode, NotifyNode, action, Node, find_node,
  WosoolProgram,
}
use nilscript.Kernel.Graph.{idem_key}
use nilscript.Kernel.References.{resolve, resolve_fields}
use nilscript.Kernel.Executor.{
  Proposal, CommitOutcome, Client, Guard, Done, Walk, approval_route, usable_id, opt_field,
}
use nilscript.Base.{◌≡◌, inl, inr, Option-cases}
use nilscript.Kernel.Executor.Steps.{
  committing, proposing, do_action, querying, do_query, polled, poll, do_await_approval, do_notify,
  do_condition,
}
use nilscript.Base.{◌++◌, insert}
use nilscript.Kernel.Executor.{text_field}
use nilscript.Kernel.RunResult.{Notification}

module _ {World : Type 0} (client : Client World) (guard : Guard) (p : WosoolProgram)
    (run_id : String) (max_polls : ℕ) where
  -- A predicate that each of the four changes keeps.
  pub record Steady (Q : Walk World → Type 0) : Type 0 where
    pub moved : (w : World) (s : Walk World) → Q s → Q (record s { world = w })
    pub committing_node :
        (id : String) (n : Node) (a : ActionNode) (w : World) (s : Walk World)
        → find_node id p.pipeline ≡ some n
        → n.type ≡ action a
        → Q s
        → Q (record s { world = w; committed = s.committed ++ n.id ∷ [] })
    pub notified :
        (x : List Notification) (s : Walk World) → Q s → Q (record s { notifications = x })
    pub recorded :
        (id : String) (n : Node) (v : Value) (s : Walk World)
        → find_node id p.pipeline ≡ some n
        → Q s
        → Q (record s { ctx = insert n.id (dict (field "output" v end)) s.ctx })

  module _ (Q : Walk World → Type 0) (steady : Steady Q) where
    committing-kept :
        (k : String) (n : Node) (a : ActionNode) (i : String) (r : Option CommitOutcome × World)
        (s : Walk World)
        → find_node k p.pipeline ≡ some n
        → n.type ≡ action a
        → Q s
        → Q (committing client guard p run_id max_polls n.id i r s).1
    committing-kept k n a i (none, w) s f t q = steady.moved w s q
    committing-kept k n a i (some c, w) s f t q = steady.committing_node k n a w s f t q

    proposing-kept :
        (k : String) (n : Node) (a : ActionNode) (r : Option Proposal × World) (s : Walk World)
        → find_node k p.pipeline ≡ some n
        → n.type ≡ action a
        → Q s
        → Q (proposing client guard p run_id max_polls n.id r s).1
    proposing-kept k n a (none, w) s f t q = steady.moved w s q
    proposing-kept k n a (some proposal, w) s f t q = elim (Option-cases (usable_id proposal)) [
      | inl e ↦ rw (e, proposing) (steady.moved w s q)
      | inr (i, e) ↦
          rw (e, proposing)
            (committing-kept k n a i (client.commit i (idem_key run_id n.id) w) s f t q)
    ]

    pub do_action-kept :
        (k : String) (n : Node) (a : ActionNode) (item : Value) (s : Walk World)
        → find_node k p.pipeline ≡ some n
        → n.type ≡ action a
        → Q s
        → Q (do_action client guard p run_id max_polls n.id a item s).1
    unfolding do_action
    do_action-kept k n a item s f t q = elim (Option-cases (resolve_fields a.args s.ctx item)) [
      | inl e ↦ rw (e, do_action) q
      | inr (args, e) ↦
          rw (e, do_action) (proposing-kept k n a (client.propose a.verb args s.world) s f t q)
    ]

    querying-kept :
        (r : Option Value × World) (s : Walk World)
        → Q s
        → Q (querying client guard p run_id max_polls r s).1
    querying-kept (none, w) s q = steady.moved w s q
    querying-kept (some v, w) s q = steady.moved w s q

    pub do_query-kept :
        (n : QueryNode) (item : Value) (s : Walk World)
        → Q s
        → Q (do_query client guard p run_id max_polls n item s).1
    unfolding do_query
    do_query-kept n item s q = elim (Option-cases (resolve_fields n.args s.ctx item)) [
      | inl e ↦ rw (e, do_query) q
      | inr (args, e) ↦ rw (e, do_query) (querying-kept (client.query n.verb args s.world) s q)
    ]

    polled-kept :
        (again : Walk World → Done × Walk World) (r : Option (Option String) × World)
        (s : Walk World)
        → ((t : Walk World) → Q t → Q (again t).1)
        → Q s
        → Q (polled client guard p run_id max_polls again r s).1
    polled-kept again (none, w) s h q = steady.moved w s q
    polled-kept again (some none, w) s h q = h (record s { world = w }) (steady.moved w s q)
    polled-kept again (some (some state), w) s h q = elim (Option-cases (approval_route state)) [
      | inl e ↦ rw (e, polled) (h (record s { world = w }) (steady.moved w s q))
      | inr (route, e) ↦ rw (e, polled) (steady.moved w s q)
    ]

    poll-kept :
        (polls : ℕ) (v : Value) (s : Walk World)
        → Q s
        → Q (poll client guard p run_id max_polls polls v s).1
    unfolding poll
    poll-kept zero v s q = q
    poll-kept (suc polls) v s q =
        polled-kept (poll client guard p run_id max_polls polls v) (client.status v s.world) s
          (poll-kept polls v) q

    pub do_await_approval-kept :
        (n : AwaitApprovalNode) (item : Value) (s : Walk World)
        → Q s
        → Q (do_await_approval client guard p run_id max_polls n item s).1
    unfolding do_await_approval
    do_await_approval-kept n item s q = elim (Option-cases (resolve (str n.proposal) s.ctx item)) [
      | inl e ↦ rw (e, do_await_approval) q
      | inr (v, e) ↦ rw (e, do_await_approval) (poll-kept max_polls v s q)
    ]

    pub do_notify-kept :
        (n : NotifyNode) (item : Value) (s : Walk World)
        → Q s
        → Q (do_notify client guard p run_id max_polls n item s).1
    unfolding do_notify
    do_notify-kept n item s q =
        elim (Option-cases (
          resolve_fields (field "ar" (str n.message.ar) (opt_field "en" n.message.en)) s.ctx
            item)) [
              | inl e ↦ rw (e, do_notify) q
              | inr (m, e) ↦
                  rw (e, do_notify)
                    (steady.notified
                      (s.notifications
                        ++ (record { ar = text_field "ar" m; en = text_field "en" m }) ∷ [])
                      s q)
            ]

    pub do_condition-kept :
        (n : ConditionNode) (item : Value) (s : Walk World)
        → Q s
        → Q (do_condition client guard p run_id max_polls n item s).1
    unfolding do_condition
    do_condition-kept n item s q = elim (Option-cases (guard n.expression s.ctx item)) [
      | inl e ↦ rw (e, do_condition) q
      | inr (b, e) ↦ rw (e, do_condition) q
    ]
