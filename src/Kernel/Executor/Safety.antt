-- ===== src/Kernel/Executor/Safety.antt =====
-- What the walk of src/nilscript/kernel/executor.py never does with an admitted program.
use nilscript.Base.{ℕ, zero, suc, ◌+◌, true, false, String, Option, none, some, List, [], ◌∷◌, leb}
use nilscript.Kernel.Value.{pos, Value, null, int, str, list, dict, end, field}
use nilscript.Kernel.Program.{
  ForeachNode, NodeType, action, query, condition, parallel, foreach, await_approval, wait, notify,
  Node, find_node, WosoolProgram,
}
use nilscript.Kernel.Graph.{Output, next_after}
use nilscript.Kernel.References.{resolve}
use nilscript.Kernel.Executor.{
  Client, Guard, client_error, unresolved_reference, guard_error, missing_node, too_many_steps,
  out_of_fuel, Ending, finished, halted, crashed, Done, output, stopped, Walk, max_steps, output_of,
  capped, count_items, items_of_names,
}
use nilscript.Base.{
  ◌≡◌, refl, ◌≤◌, ◌<◌, inl, inr, Option-cases, Bool-cases, arith, elem, elem-append, eq_refl,
}
use mathlib.Core.Path.{subst⁻¹}
use nilscript.Kernel.Graph.{successor_targets, next_after-successor, listed}
use nilscript.Kernel.Diagnostics.{ok}
use nilscript.Kernel.Context.{ValidationContext}
use nilscript.Kernel.Validator.{validate}
use nilscript.Kernel.Admission.Targets.{
  place, place-lt, validate-target, validate-place, validate-entry,
}
use nilscript.Kernel.Executor.Steps.{
  Walker, after_branch, do_branches, then_output, after_element, do_elements, do_foreach,
  execute_node, record_output, after_node, walk,
}
use nilscript.Kernel.Executor.Lost.{
  is_lost, stops_lost, do_action-lost, do_query-lost, do_condition-lost, do_notify-lost,
  do_await_approval-lost,
}

module _ {World : Type 0} (client : Client World) (guard : Guard) (p : WosoolProgram)
    (run_id : String) (max_polls : ℕ) where
  -- A nested walk from a node does not get lost.
  Safe : Walker client guard p run_id max_polls → String → Type 0
  Safe go b = (item : Value) (s : Walk World) → is_lost (go b item s).0 ≡ false

  after_branch-lost :
      (more : Walk World → Ending × Walk World) (r : Ending × Walk World)
      → is_lost r.0 ≡ false
      → ((t : Walk World) → is_lost (more t).0 ≡ false)
      → is_lost (after_branch client guard p run_id max_polls more r).0 ≡ false
  unfolding is_lost
  after_branch-lost more (finished, t) h k = k t
  after_branch-lost more (halted r, t) h k = k t
  after_branch-lost more (crashed client_error, t) h k = k t
  after_branch-lost more (crashed unresolved_reference, t) h k = k t
  after_branch-lost more (crashed guard_error, t) h k = k t
  after_branch-lost more (crashed missing_node, t) h k = k t
  after_branch-lost more (crashed too_many_steps, t) h k = k t
  after_branch-lost more (crashed out_of_fuel, t) h k = h

  do_branches-lost :
      (go : Walker client guard p run_id max_polls) (bs : List String) (s : Walk World)
      → ((b : String) → elem b bs ≡ true → Safe go b)
      → is_lost (do_branches client guard p run_id max_polls go bs s).0 ≡ false
  unfolding do_branches Safe is_lost
  do_branches-lost go [] s h = refl
  do_branches-lost go (b ∷ bs) s h =
      after_branch-lost (do_branches client guard p run_id max_polls go bs) (go b null s)
        (h b (ground (arith, eq_refl b)) null s)
        (λ t. do_branches-lost go bs t (λ c k. h c (ground (arith, k))))

  then_output-lost :
      (v : Value) (r : Ending × Walk World)
      → is_lost r.0 ≡ false
      → stops_lost (then_output client guard p run_id max_polls v r).0 ≡ false
  unfolding stops_lost is_lost
  then_output-lost v (finished, t) h = refl
  then_output-lost v (halted r, t) h = h
  then_output-lost v (crashed c, t) h = h

  after_element-lost :
      (more : Walk World → Ending × Walk World) (r : Ending × Walk World)
      → is_lost r.0 ≡ false
      → ((t : Walk World) → is_lost (more t).0 ≡ false)
      → is_lost (after_element client guard p run_id max_polls more r).0 ≡ false
  unfolding is_lost
  after_element-lost more (finished, t) h k = k t
  after_element-lost more (halted r, t) h k = h
  after_element-lost more (crashed c, t) h k = h

  do_elements-lost :
      (go : Walker client guard p run_id max_polls) (body as_ : String) (vs : List Value)
      (s : Walk World)
      → Safe go body
      → is_lost (do_elements client guard p run_id max_polls go body as_ vs s).0 ≡ false
  unfolding do_elements Safe is_lost
  do_elements-lost go body as_ [] s h = refl
  do_elements-lost go body as_ (v ∷ vs) s h =
      after_element-lost (do_elements client guard p run_id max_polls go body as_ vs)
        (go body (dict (field as_ v end)) s) (h (dict (field as_ v end)) s)
        (λ t. do_elements-lost go body as_ vs t h)

  do_foreach-lost :
      (go : Walker client guard p run_id max_polls) (n : ForeachNode) (item : Value)
      (s : Walk World)
      → Safe go n.body
      → stops_lost (do_foreach client guard p run_id max_polls go n item s).0 ≡ false
  unfolding do_foreach stops_lost is_lost
  do_foreach-lost go n item s h = elim (Option-cases (resolve (str n.items) s.ctx item)) [
    | inl e ↦ ground (arith, e)
    | inr (v, e) ↦ ground (
      arith,
      e,
      then_output-lost (dict (field "count" (int (pos (count_items (capped n.max_items v)))) end))
          (do_elements client guard p run_id max_polls go n.body n.as_ (capped n.max_items v) s)
          (do_elements-lost go n.body n.as_ (capped n.max_items v) s h),
    )
  ]

  output-lost : (v : Value) → stops_lost (output v) ≡ false
  unfolding stops_lost
  output-lost v = refl

  execute_node-lost :
      (go : Walker client guard p run_id max_polls) (id : String) (n : NodeType) (item : Value)
      (s : Walk World)
      → ((b : String) → elem b (successor_targets n) ≡ true → Safe go b)
      → stops_lost (execute_node client guard p run_id max_polls go id n item s).0 ≡ false
  unfolding execute_node successor_targets
  execute_node-lost go id (action n) item s h =
      do_action-lost client guard p run_id max_polls id n item s
  execute_node-lost go id (query n) item s h =
      do_query-lost client guard p run_id max_polls n item s
  execute_node-lost go id (condition n) item s h =
      do_condition-lost client guard p run_id max_polls n item s
  execute_node-lost go id (notify n) item s h =
      do_notify-lost client guard p run_id max_polls n item s
  execute_node-lost go id (wait n) item s h = output-lost null
  execute_node-lost go id (parallel n) item s h =
      then_output-lost (dict (field "branches" (list (items_of_names n.branches)) end))
        (do_branches client guard p run_id max_polls go n.branches s)
        (do_branches-lost go n.branches s
          (λ b k. h b (ground (arith, k, elem-append b (listed n.next) n.branches))))
  execute_node-lost go id (foreach n) item s h =
      do_foreach-lost go n item s (
        h n.body (ground (arith, eq_refl n.body, elem-append n.body (listed n.next) (n.body ∷ []))))
  execute_node-lost go id (await_approval n) item s h =
      do_await_approval-lost client guard p run_id max_polls n item s

  after_node-lost :
      (n : NodeType) (id : String) (more : Option String → Walk World → Ending × Walk World)
      (d : Done × Walk World)
      → stops_lost d.0 ≡ false
      → ((o : Output) (t : Walk World) → is_lost (more (next_after n o) t).0 ≡ false)
      → is_lost (after_node client guard p run_id max_polls n id more d).0 ≡ false
  unfolding stops_lost
  after_node-lost n id more (output v, t) h k =
      k (output_of v) (record_output client guard p run_id max_polls id v t)
  after_node-lost n id more (stopped e, t) h k = h

  visited :
      (fuel steps : ℕ) (id : String) (n : Node) (item : Value) (s : Walk World)
      → find_node id p.pipeline ≡ some n
      → steps < max_steps
      → is_lost
          (after_node client guard p run_id max_polls n.type n.id
            (λ next t. walk client guard p run_id max_polls fuel (suc steps) next item t)
            (execute_node client guard p run_id max_polls
              (λ b i t. walk client guard p run_id max_polls fuel 0 (some b) i t)
              n.id
              n.type
              item
              s)).0
        ≡ false
      → is_lost (walk client guard p run_id max_polls (suc fuel) steps (some id) item s).0 ≡ false
  unfolding walk
  visited fuel steps id n item s f few h = elim (Bool-cases (leb max_steps steps)) [
    | inl t ↦ absurd (ground (arith, t, few))
    | inr g ↦ ground (arith, g, f, h)
  ]

  next-lost :
      (fuel steps : ℕ) (o : Option String) (item : Value) (s : Walk World)
      → o ≡ none
      → is_lost (walk client guard p run_id max_polls fuel steps o item s).0 ≡ false
  unfolding walk is_lost
  next-lost fuel steps none item s e = refl
  next-lost fuel steps (some b) item s e = absurd (cc)

  next-at :
      (fuel steps : ℕ) (o : Option String) (b : String) (item : Value) (s : Walk World)
      → o ≡ some b
      → is_lost (walk client guard p run_id max_polls fuel steps (some b) item s).0 ≡ false
      → is_lost (walk client guard p run_id max_polls fuel steps o item s).0 ≡ false
  next-at fuel steps o b item s e h =
      subst⁻¹
        (λ (x : Option String).
          is_lost (walk client guard p run_id max_polls fuel steps x item s).0 ≡ false)
        e h

  -- When the program is admitted and the fuel and the steps so far fit the place of a node of the
  -- pipeline, a walk from that node is not lost.
  pub walk-lost :
      (vctx : ValidationContext)
      → (validate p vctx).result ≡ ok
      → (fuel steps : ℕ) (id : String) (n : Node) (item : Value) (s : Walk World)
      → find_node id p.pipeline ≡ some n
      → 256 ≤ fuel + place p id
      → steps ≤ place p id
      → is_lost (walk client guard p run_id max_polls fuel steps (some id) item s).0 ≡ false
  unfolding walk is_lost Safe
  walk-lost vctx ok_ zero steps id n item s f enough few =
      absurd (omega (arith, place-lt p vctx id n ok_ f))
  walk-lost vctx ok_ (suc fuel) steps id n item s f enough few =
      let go = walk client guard p run_id max_polls in
      visited fuel steps id n item s f (omega (arith, place-lt p vctx id n ok_ f)) (
        after_node-lost n.type n.id (λ next t. go fuel (suc steps) next item t)
          (execute_node client guard p run_id max_polls (λ b i t. go fuel 0 (some b) i t) n.id
            n.type item s)
          (execute_node-lost (λ b i t. go fuel 0 (some b) i t) n.id n.type item s
            (λ b k i t.
              let (m, g) = validate-target p vctx id n b ok_ f k in
              walk-lost vctx ok_ fuel 0 b m i t g
                (omega (arith, validate-place p vctx id n b ok_ f k)) (omega arith)))
          (λ o t. elim (Option-cases (next_after n.type o)) [
            | inl e ↦ next-lost fuel (suc steps) (next_after n.type o) item t e
            | inr (b, e) ↦
                let k = next_after-successor n.type o b e in
                let (m, g) = validate-target p vctx id n b ok_ f k in
                next-at fuel (suc steps) (next_after n.type o) b item t e (
                  walk-lost vctx ok_ fuel (suc steps) b m item t g
                    (omega (arith, validate-place p vctx id n b ok_ f k))
                    (omega (arith, validate-place p vctx id n b ok_ f k)))
          ]))

  -- When the program is admitted, the walk that `execute` starts at the entry does not come to a
  -- node outside the pipeline, does not exceed the limit on steps, and ends within its fuel.
  pub execute_walk-lost :
      (vctx : ValidationContext) (item : Value) (s : Walk World)
      → (validate p vctx).result ≡ ok
      → is_lost (walk client guard p run_id max_polls 256 0 (some p.entry) item s).0 ≡ false
  execute_walk-lost vctx item s h =
      let (n, f) = validate-entry p vctx h in
      walk-lost vctx h 256 0 p.entry n item s f (omega arith) (omega arith)
