-- ===== src/Kernel/Executor/Keeping.antt =====
-- Induction over the walk of src/nilscript/kernel/executor.py: what every change of the executor's
-- fields keeps, the whole walk keeps, nested walks included.
use nilscript.Base.{ℕ, zero, suc, String, Option, none, some, List, [], ◌∷◌, leb}
use nilscript.Kernel.Value.{pos, Value, null, int, str, list, dict, end, field}
use nilscript.Kernel.Program.{
  ForeachNode, NodeType, action, query, condition, parallel, foreach, await_approval, wait, notify,
  Node, find_node, WosoolProgram,
}
use nilscript.Kernel.Graph.{next_after}
use nilscript.Kernel.References.{resolve}
use nilscript.Kernel.Executor.{
  Client, Guard, client_error, unresolved_reference, guard_error, missing_node, too_many_steps,
  out_of_fuel, Ending, finished, halted, crashed, Done, output, stopped, Walk, max_steps, output_of,
  capped, count_items, items_of_names,
}
use nilscript.Base.{◌≡◌, refl, inl, inr, Option-cases, Bool-cases}
use nilscript.Kernel.Executor.Steps.{
  Walker, after_branch, do_branches, then_output, after_element, do_elements, do_foreach,
  execute_node, record_output, after_node, walk,
}
use nilscript.Kernel.Executor.Steady.{
  Steady, do_action-kept, do_query-kept, do_condition-kept, do_notify-kept, do_await_approval-kept,
}

module _ {World : Type 0} (client : Client World) (guard : Guard) (p : WosoolProgram)
    (run_id : String) (max_polls : ℕ) where
  module _ (Q : Walk World → Type 0) (steady : Steady client guard p run_id max_polls Q) where
    -- A nested walk from any node keeps the predicate.
    Keeper : Walker client guard p run_id max_polls → Type 0
    Keeper go = (b : String) (item : Value) (s : Walk World) → Q s → Q (go b item s).1

    after_branch-kept :
        (more : Walk World → Ending × Walk World) (r : Ending × Walk World)
        → ((t : Walk World) → Q t → Q (more t).1)
        → Q r.1
        → Q (after_branch client guard p run_id max_polls more r).1
    after_branch-kept more (finished, t) h q = h t q
    after_branch-kept more (halted r, t) h q = h t q
    after_branch-kept more (crashed client_error, t) h q = h t q
    after_branch-kept more (crashed unresolved_reference, t) h q = h t q
    after_branch-kept more (crashed guard_error, t) h q = h t q
    after_branch-kept more (crashed missing_node, t) h q = h t q
    after_branch-kept more (crashed too_many_steps, t) h q = h t q
    after_branch-kept more (crashed out_of_fuel, t) h q = q

    do_branches-kept :
        (go : Walker client guard p run_id max_polls) (bs : List String) (s : Walk World)
        → Keeper go
        → Q s
        → Q (do_branches client guard p run_id max_polls go bs s).1
    unfolding do_branches Keeper
    do_branches-kept go [] s h q = q
    do_branches-kept go (b ∷ bs) s h q =
        after_branch-kept (do_branches client guard p run_id max_polls go bs) (go b null s)
          (λ t k. do_branches-kept go bs t h k) (h b null s q)

    then_output-kept :
        (v : Value) (r : Ending × Walk World)
        → Q r.1
        → Q (then_output client guard p run_id max_polls v r).1
    then_output-kept v (finished, t) q = q
    then_output-kept v (halted r, t) q = q
    then_output-kept v (crashed c, t) q = q

    after_element-kept :
        (more : Walk World → Ending × Walk World) (r : Ending × Walk World)
        → ((t : Walk World) → Q t → Q (more t).1)
        → Q r.1
        → Q (after_element client guard p run_id max_polls more r).1
    after_element-kept more (finished, t) h q = h t q
    after_element-kept more (halted r, t) h q = q
    after_element-kept more (crashed c, t) h q = q

    do_elements-kept :
        (go : Walker client guard p run_id max_polls) (body as_ : String) (vs : List Value)
        (s : Walk World)
        → Keeper go
        → Q s
        → Q (do_elements client guard p run_id max_polls go body as_ vs s).1
    unfolding do_elements Keeper
    do_elements-kept go body as_ [] s h q = q
    do_elements-kept go body as_ (v ∷ vs) s h q =
        after_element-kept (do_elements client guard p run_id max_polls go body as_ vs)
          (go body (dict (field as_ v end)) s) (λ t k. do_elements-kept go body as_ vs t h k)
          (h body (dict (field as_ v end)) s q)

    do_foreach-kept :
        (go : Walker client guard p run_id max_polls) (n : ForeachNode) (item : Value)
        (s : Walk World)
        → Keeper go
        → Q s
        → Q (do_foreach client guard p run_id max_polls go n item s).1
    unfolding do_foreach
    do_foreach-kept go n item s h q = elim (Option-cases (resolve (str n.items) s.ctx item)) [
      | inl e ↦ rw (e, do_foreach) q
      | inr (v, e) ↦
          rw (e, do_foreach)
            (then_output-kept
              (dict (field "count" (int (pos (count_items (capped n.max_items v)))) end))
              (do_elements client guard p run_id max_polls go n.body n.as_ (capped n.max_items v) s)
              (do_elements-kept go n.body n.as_ (capped n.max_items v) s h q))
    ]

    execute_node-kept :
        (go : Walker client guard p run_id max_polls) (k : String) (n : Node) (t : NodeType)
        (item : Value) (s : Walk World)
        → find_node k p.pipeline ≡ some n
        → n.type ≡ t
        → Keeper go
        → Q s
        → Q (execute_node client guard p run_id max_polls go n.id t item s).1
    unfolding execute_node
    execute_node-kept go k n (action a) item s f t h q =
        do_action-kept client guard p run_id max_polls Q steady k n a item s f t q
    execute_node-kept go k n (query a) item s f t h q =
        do_query-kept client guard p run_id max_polls Q steady a item s q
    execute_node-kept go k n (condition a) item s f t h q =
        do_condition-kept client guard p run_id max_polls Q steady a item s q
    execute_node-kept go k n (notify a) item s f t h q =
        do_notify-kept client guard p run_id max_polls Q steady a item s q
    execute_node-kept go k n (wait a) item s f t h q = q
    execute_node-kept go k n (parallel a) item s f t h q =
        then_output-kept (dict (field "branches" (list (items_of_names a.branches)) end))
          (do_branches client guard p run_id max_polls go a.branches s)
          (do_branches-kept go a.branches s h q)
    execute_node-kept go k n (foreach a) item s f t h q = do_foreach-kept go a item s h q
    execute_node-kept go k n (await_approval a) item s f t h q =
        do_await_approval-kept client guard p run_id max_polls Q steady a item s q

    after_node-kept :
        (k : String) (n : Node) (more : Option String → Walk World → Ending × Walk World)
        (d : Done × Walk World)
        → find_node k p.pipeline ≡ some n
        → ((o : Option String) (t : Walk World) → Q t → Q (more o t).1)
        → Q d.1
        → Q (after_node client guard p run_id max_polls n.type n.id more d).1
    after_node-kept k n more (output v, t) f h q =
        h (next_after n.type (output_of v)) (record_output client guard p run_id max_polls n.id v t)
          (steady.recorded k n v t f q)
    after_node-kept k n more (stopped e, t) f h q = q

    -- A walk keeps what the four changes of the executor's fields keep, wherever it starts.
    pub walk-kept :
        (fuel steps : ℕ) (at : Option String) (item : Value) (s : Walk World)
        → Q s
        → Q (walk client guard p run_id max_polls fuel steps at item s).1
    unfolding walk Keeper
    walk-kept fuel steps none item s q = q
    walk-kept zero steps (some id) item s q = q
    walk-kept (suc fuel) steps (some id) item s q = elim (Bool-cases (leb max_steps steps)) [
      | inl t ↦ rw (t, walk) q
      | inr t ↦ elim (Option-cases (find_node id p.pipeline)) [
        | inl f ↦ rw (t, f, walk) q
        | inr (n, f) ↦
            rw (t, f, walk)
              (after_node-kept id n
                (λ next u. walk client guard p run_id max_polls fuel (suc steps) next item u)
                (execute_node client guard p run_id max_polls
                  (λ b i u. walk client guard p run_id max_polls fuel 0 (some b) i u) n.id n.type
                  item s)
                f (λ o u k. walk-kept fuel (suc steps) o item u k)
                (execute_node-kept
                  (λ b i u. walk client guard p run_id max_polls fuel 0 (some b) i u) id n n.type
                  item s f refl (λ b i u k. walk-kept fuel 0 (some b) i u k) q))
      ]
    ]
