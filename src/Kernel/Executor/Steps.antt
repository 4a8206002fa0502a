-- ===== src/Kernel/Executor/Steps.antt =====
-- The walk of src/nilscript/kernel/executor.py: `_walk`, `_execute`, `_do_action`,
-- `_do_await_approval`.
use nilscript.Base.{
  ℕ, zero, suc, true, false, String, ◌==◌, Option, none, some, List, [], ◌∷◌, ◌++◌, insert, leb,
  if◌then◌else◌,
}
use nilscript.Kernel.Value.{pos, Value, null, bool, int, str, list, dict, end, field}
use nilscript.Kernel.Program.{
  ActionNode, QueryNode, ConditionNode, ForeachNode, AwaitApprovalNode, NotifyNode, NodeType,
  action, query, condition, parallel, foreach, await_approval, wait, notify, find_node,
  WosoolProgram,
}
use nilscript.Kernel.Graph.{next_after, idem_key}
use nilscript.Kernel.References.{resolve, resolve_fields}
use nilscript.Kernel.Executor.{
  Proposal, CommitOutcome, Client, Guard, client_error, unresolved_reference, guard_error,
  missing_node, too_many_steps, out_of_fuel, Ending, finished, halted, crashed, Done, output,
  stopped, Walk, max_steps, approval_route, outcome_dict, usable_id, code_of, output_of, capped,
  count_items, items_of_names, text_field, opt_field,
}

module _ {World : Type 0} (client : Client World) (guard : Guard) (p : WosoolProgram)
    (run_id : String) (max_polls : ℕ) where
  abbrev pub set_world : World → Walk World → Walk World
  set_world w s = record s { world = w }

  -- The node's id joins the committed ones.
  abbrev pub commit_node : String → World → Walk World → Walk World
  commit_node id w s = record s { world = w; committed = s.committed ++ id ∷ [] }

  abbrev pub on_refusal : String → String → Done
  on_refusal id code =
      if p.on_error == "compensate"
      then stopped (halted (record { node = id; code = code }))
      else output (dict (field "refused" (str code) end))

  abbrev pub committing :
      String → String → Option CommitOutcome × World → Walk World → Done × Walk World
  committing id proposal_id (none, w) s = (stopped (crashed client_error), set_world w s)
  committing id proposal_id (some outcome, w) s =
      (output (outcome_dict outcome proposal_id), commit_node id w s)

  abbrev pub proposing : String → Option Proposal × World → Walk World → Done × Walk World
  proposing id (none, w) s = (stopped (crashed client_error), set_world w s)
  proposing id (some proposal, w) s = elim (usable_id proposal) [
    | none ↦ (on_refusal id (code_of proposal), set_world w s)
    | some i ↦ committing id i (client.commit i (idem_key run_id id) w) s
  ]

  unfoldable pub do_action : String → ActionNode → Value → Walk World → Done × Walk World
  do_action id n item s = elim (resolve_fields n.args s.ctx item) [
    | none ↦ (stopped (crashed unresolved_reference), s)
    | some args ↦ proposing id (client.propose n.verb args s.world) s
  ]

  abbrev pub querying : Option Value × World → Walk World → Done × Walk World
  querying (none, w) s = (stopped (crashed client_error), set_world w s)
  querying (some v, w) s = (output v, set_world w s)

  unfoldable pub do_query : QueryNode → Value → Walk World → Done × Walk World
  do_query n item s = elim (resolve_fields n.args s.ctx item) [
    | none ↦ (stopped (crashed unresolved_reference), s)
    | some args ↦ querying (client.query n.verb args s.world) s
  ]

  abbrev pub routed : Option String → Option String
  routed none = none
  routed (some state) = approval_route state

  abbrev pub polled :
      (Walk World → Done × Walk World)
      → Option (Option String) × World
      → Walk World
      → Done × Walk World
  polled again (none, w) s = (stopped (crashed client_error), set_world w s)
  polled again (some state, w) s = elim (routed state) [
    | some route ↦ (output (str route), set_world w s)
    | none ↦ again (set_world w s)
  ]

  unfoldable pub poll : ℕ → Value → Walk World → Done × Walk World
  poll zero proposal_id s = (output (str "timeout"), s)
  poll (suc polls) proposal_id s =
      polled (poll polls proposal_id) (client.status proposal_id s.world) s

  unfoldable pub do_await_approval : AwaitApprovalNode → Value → Walk World → Done × Walk World
  unfolding poll
  do_await_approval n item s = elim (resolve (str n.proposal) s.ctx item) [
    | none ↦ (stopped (crashed unresolved_reference), s)
    | some proposal_id ↦ poll max_polls proposal_id s
  ]

  unfoldable pub do_notify : NotifyNode → Value → Walk World → Done × Walk World
  do_notify n item s =
      elim (resolve_fields (field "ar" (str n.message.ar) (opt_field "en" n.message.en)) s.ctx
        item) [
          | none ↦ (stopped (crashed unresolved_reference), s)
          | some message ↦ (
            output null,
            record s {
              notifications =
                  s.notifications
                  ++ (record { ar = text_field "ar" message; en = text_field "en" message }) ∷ [];
            },
          )
        ]

  unfoldable pub do_condition : ConditionNode → Value → Walk World → Done × Walk World
  do_condition n item s = elim (guard n.expression s.ctx item) [
    | none ↦ (stopped (crashed guard_error), s)
    | some b ↦ (output (bool b), s)
  ]

  -- A walk from a node with the binding of `item`.
  abbrev pub Walker : Type 0
  Walker = String → Value → Walk World → Ending × Walk World

  -- return_exceptions=True: what a branch raises is dropped, and its effects stay.
  abbrev pub after_branch :
      (Walk World → Ending × Walk World) → Ending × Walk World → Ending × Walk World
  after_branch more (crashed out_of_fuel, s) = (crashed out_of_fuel, s)
  after_branch more (finished, s) = more s
  after_branch more (halted r, s) = more s
  after_branch more (crashed client_error, s) = more s
  after_branch more (crashed unresolved_reference, s) = more s
  after_branch more (crashed guard_error, s) = more s
  after_branch more (crashed missing_node, s) = more s
  after_branch more (crashed too_many_steps, s) = more s

  unfoldable pub do_branches : Walker → List String → Walk World → Ending × Walk World
  do_branches walk [] s = (finished, s)
  do_branches walk (b ∷ bs) s = after_branch (do_branches walk bs) (walk b null s)

  abbrev pub then_output : Value → Ending × Walk World → Done × Walk World
  then_output v (finished, s) = (output v, s)
  then_output v (halted r, s) = (stopped (halted r), s)
  then_output v (crashed c, s) = (stopped (crashed c), s)

  abbrev pub after_element :
      (Walk World → Ending × Walk World) → Ending × Walk World → Ending × Walk World
  after_element more (finished, s) = more s
  after_element more (halted r, s) = (halted r, s)
  after_element more (crashed c, s) = (crashed c, s)

  unfoldable pub do_elements :
      Walker → String → String → List Value → Walk World → Ending × Walk World
  do_elements walk body as_ [] s = (finished, s)
  do_elements walk body as_ (v ∷ vs) s =
      after_element (do_elements walk body as_ vs) (walk body (dict (field as_ v end)) s)

  unfoldable pub do_foreach : Walker → ForeachNode → Value → Walk World → Done × Walk World
  unfolding do_elements
  do_foreach walk n item s = elim (resolve (str n.items) s.ctx item) [
    | none ↦ (stopped (crashed unresolved_reference), s)
    | some items ↦
        let elements = capped n.max_items items in
        then_output (dict (field "count" (int (pos (count_items elements))) end))
          (do_elements walk n.body n.as_ elements s)
  ]

  -- `_execute`; the nested walks are an argument.
  unfoldable pub execute_node : Walker → String → NodeType → Value → Walk World → Done × Walk World
  unfolding do_action do_query do_await_approval do_notify do_condition do_branches do_foreach
  execute_node walk id (action n) item s = do_action id n item s
  execute_node walk id (query n) item s = do_query n item s
  execute_node walk id (condition n) item s = do_condition n item s
  execute_node walk id (notify n) item s = do_notify n item s
  execute_node walk id (wait n) item s = (output null, s)
  execute_node walk id (parallel n) item s =
      then_output (dict (field "branches" (list (items_of_names n.branches)) end))
        (do_branches walk n.branches s)
  execute_node walk id (foreach n) item s = do_foreach walk n item s
  execute_node walk id (await_approval n) item s = do_await_approval n item s

  -- self._ctx[node["id"]] = {"output": output}
  abbrev pub record_output : String → Value → Walk World → Walk World
  record_output id v s = record s { ctx = insert id (dict (field "output" v end)) s.ctx }

  abbrev pub after_node :
      NodeType
      → String
      → (Option String → Walk World → Ending × Walk World)
      → Done × Walk World
      → Ending × Walk World
  after_node n id more (stopped e, s) = (e, s)
  after_node n id more (output v, s) = more (next_after n (output_of v)) (record_output id v s)

  -- `_walk`: fuel, the steps so far, the node to go to, and the binding of `item`. A nested walk
  -- starts at step 0. A nested walk and a next step take one unit of fuel each.
  unfoldable pub walk : ℕ → ℕ → Option String → Value → Walk World → Ending × Walk World
  unfolding execute_node
  walk fuel steps none item s = (finished, s)
  walk zero steps (some id) item s = (crashed out_of_fuel, s)
  walk (suc fuel) steps (some id) item s = elim (leb max_steps steps) [
    | true ↦ (crashed too_many_steps, s)
    | false ↦ elim (find_node id p.pipeline) [
      | none ↦ (crashed missing_node, s)
      | some n ↦
          after_node n.type n.id (λ next t. walk fuel (suc steps) next item t)
            (execute_node (λ b i t. walk fuel 0 (some b) i t) n.id n.type item s)
    ]
  ]
