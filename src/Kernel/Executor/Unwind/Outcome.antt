-- ===== src/Kernel/Executor/Unwind/Outcome.antt =====
-- What `execute` of src/nilscript/kernel/executor.py raises for an admitted program.
use nilscript.Base.{ℕ, String, Option, none, some, List, [], ◌∷◌, reverse}
use Prim.Native.String.{◌++◌ as str_append}
use nilscript.Kernel.Value.{null, Fields}
use nilscript.Kernel.Program.{CompensateWith, Node, find_node, WosoolProgram}
use nilscript.Kernel.Graph.{idem_key}
use nilscript.Kernel.References.{resolve_fields}
use nilscript.Kernel.Executor.{Proposal, CommitOutcome, Client, Guard, Walk, usable_id}
use mathlib.Core.Path.{subst}
use nilscript.Base.{◌≡◌, refl}
use nilscript.Kernel.Executor.Unwind.{
  Unwound, undone, failed, compensation_of, undo_done, undo_commit, undo_propose, undo_usable,
  undo_resolved, undo_with, undo_node, unwind, compensate,
}
use nilscript.Base.{
  Bool, true, false, elem, elem-append, eq_iff, eq_refl, arith, sym, ◌∙◌, Bool-cases, inl, inr,
  ◌==◌,
}
use nilscript.Kernel.Program.{Node, ActionNode, action}
use nilscript.Kernel.RunResult.{Refusal}
use nilscript.Kernel.Value.{Value, null}
use nilscript.Kernel.Executor.{Ending, finished, halted, crashed}
use nilscript.Kernel.Executor.Steps.{walk}
use nilscript.Kernel.Executor.Lost.{is_lost}
use nilscript.Kernel.Executor.Safety.{execute_walk-lost}
use nilscript.Kernel.Executor.Steady.{Steady}
use nilscript.Kernel.Executor.Keeping.{walk-kept}
use nilscript.Kernel.Admission.Passes.{find_node-id}
use nilscript.Kernel.Admission.Sources.{elem-reverse}
use nilscript.Kernel.Context.{ValidationContext}
use nilscript.Kernel.Diagnostics.{ok}
use nilscript.Kernel.Validator.{validate}
use nilscript.Kernel.Executor.Unwind.{
  conclude, execute, initial_ctx, Execution, returned, raised, partial_result,
}

unwound_lost : Unwound → Bool
unfolding is_lost
unwound_lost (undone done) = false
unwound_lost (failed c) = is_lost (crashed c)

unfoldable pub execution_lost : Execution → Bool
unfolding is_lost
execution_lost (returned r) = false
execution_lost (raised c) = is_lost (crashed c)

at_id :
    (ns : List Node) (k id : String) (n : Node)
    → find_node k ns ≡ some n
    → (n.id == id) ≡ true
    → find_node id ns ≡ some n
at_id ns k id n f e =
    subst (λ (x : String). find_node x ns ≡ some n)
      (sym (find_node-id k ns n f) ∙ (eq_iff n.id id).0 e) f

module _ {World : Type 0} (client : Client World) (guard : Guard) (p : WosoolProgram)
    (run_id : String) (max_polls : ℕ) where
  -- The committed nodes are action nodes of the pipeline.
  CommittedNodes : Walk World → Type 0
  CommittedNodes s =
      (id : String)
      → elem id s.committed ≡ true
      → (n : Node) × (a : ActionNode) × (find_node id p.pipeline ≡ some n) × (n.type ≡ action a)

  CommittedNodes-Steady : Steady client guard p run_id max_polls CommittedNodes
  unfolding CommittedNodes
  CommittedNodes-Steady = record {
    moved = λ w s q. q;
    committing_node = λ k n a w s f t q id h. elim (Bool-cases (elem id s.committed)) [
      | inl m ↦ q id m
      | inr m ↦ (
        n,
        a,
        at_id p.pipeline k id n f (ground (arith, h, m, elem-append id s.committed (n.id ∷ []))),
        t,
      )
    ];
    notified = λ x s q. q;
    recorded = λ k n v s f q. q;
  }

  walk-CommittedNodes :
      (fuel steps : ℕ) (at : Option String) (item : Value) (s : Walk World)
      → s.committed ≡ []
      → CommittedNodes (walk client guard p run_id max_polls fuel steps at item s).1
  unfolding CommittedNodes
  walk-CommittedNodes fuel steps at item s e =
      walk-kept client guard p run_id max_polls CommittedNodes CommittedNodes-Steady fuel steps at
        item s (λ id h. absurd (ground (arith, h, e)))

  -- When a walk has started with no committed node, every node that it has committed is an action
  -- node of the pipeline.
  pub walk-committed :
      (fuel steps : ℕ) (at : Option String) (item : Value) (s : Walk World) (id : String)
      → s.committed ≡ []
      → elem id (walk client guard p run_id max_polls fuel steps at item s).1.committed ≡ true
      → (n : Node) × (a : ActionNode) × (find_node id p.pipeline ≡ some n) × (n.type ≡ action a)
  unfolding CommittedNodes
  walk-committed fuel steps at item s id e h = walk-CommittedNodes fuel steps at item s e id h

  undo_done-lost :
      (id : String) (r : Unwound × Walk World)
      → unwound_lost r.0 ≡ false
      → unwound_lost (undo_done client guard p run_id max_polls id r).0 ≡ false
  unfolding unwound_lost
  undo_done-lost id (undone done, s) h = refl
  undo_done-lost id (failed c, s) h = h

  MoreLost : (Walk World → Unwound × Walk World) → Type 0
  MoreLost more = (t : Walk World) → unwound_lost (more t).0 ≡ false

  undo_commit-lost :
      (more : Walk World → Unwound × Walk World) (id : String) (o : Option CommitOutcome × World)
      (s : Walk World)
      → MoreLost more
      → unwound_lost (undo_commit client guard p run_id max_polls more id o s).0 ≡ false
  unfolding unwound_lost MoreLost is_lost
  undo_commit-lost more id (none, w) s h = refl
  undo_commit-lost more id (some o, w) s h =
      undo_done-lost id (more (record s { world = w })) (h (record s { world = w }))

  undo_usable-lost :
      (more : Walk World → Unwound × Walk World) (id : String) (i : Option String) (w : World)
      (s : Walk World)
      → MoreLost more
      → unwound_lost (undo_usable client guard p run_id max_polls more id i w s).0 ≡ false
  unfolding unwound_lost is_lost
  undo_usable-lost more id none w s h = refl
  undo_usable-lost more id (some i) w s h =
      undo_commit-lost more id (client.commit i (idem_key run_id (str_append id ":rollback")) w) s h

  undo_propose-lost :
      (more : Walk World → Unwound × Walk World) (id : String) (o : Option Proposal × World)
      (s : Walk World)
      → MoreLost more
      → unwound_lost (undo_propose client guard p run_id max_polls more id o s).0 ≡ false
  unfolding unwound_lost is_lost
  undo_propose-lost more id (none, w) s h = refl
  undo_propose-lost more id (some proposal, w) s h =
      undo_usable-lost more id (usable_id proposal) w s h

  undo_resolved-lost :
      (more : Walk World → Unwound × Walk World) (id verb : String) (args : Option Fields)
      (s : Walk World)
      → MoreLost more
      → unwound_lost (undo_resolved client guard p run_id max_polls more id verb args s).0 ≡ false
  unfolding unwound_lost is_lost
  undo_resolved-lost more id verb none s h = refl
  undo_resolved-lost more id verb (some args) s h =
      undo_propose-lost more id (client.propose verb args s.world) s h

  undo_with-lost :
      (more : Walk World → Unwound × Walk World) (id : String) (c : Option CompensateWith)
      (s : Walk World)
      → MoreLost more
      → unwound_lost (undo_with client guard p run_id max_polls more id c s).0 ≡ false
  unfolding unwound_lost is_lost
  undo_with-lost more id none s h = refl
  undo_with-lost more id (some comp) s h =
      undo_resolved-lost more id comp.verb (resolve_fields comp.args s.ctx null) s h

  undo_node-lost :
      (more : Walk World → Unwound × Walk World) (id : String) (o : Option Node) (n : Node)
      (s : Walk World)
      → o ≡ some n
      → MoreLost more
      → unwound_lost (undo_node client guard p run_id max_polls more id o s).0 ≡ false
  undo_node-lost more id none n s f h = absurd (cc)
  undo_node-lost more id (some m) n s f h = undo_with-lost more id (compensation_of m.type) s h

  AllNodes : List String → Type 0
  AllNodes ids =
      (id : String) → elem id ids ≡ true → (n : Node) × (find_node id p.pipeline ≡ some n)

  unwind-lost :
      (ids : List String) → AllNodes ids → MoreLost (unwind client guard p run_id max_polls ids)
  unfolding unwind MoreLost AllNodes unwound_lost
  unwind-lost [] h s = refl
  unwind-lost (id ∷ rest) h s =
      let (n, f) = h id (ground (arith, eq_refl id)) in
      undo_node-lost (unwind client guard p run_id max_polls rest) id (find_node id p.pipeline) n s
        f (unwind-lost rest (λ j k. h j (ground (arith, k))))

  partial-lost :
      (r : Refusal) (u : Unwound × Walk World)
      → unwound_lost u.0 ≡ false
      → execution_lost (partial_result client guard p run_id max_polls r u) ≡ false
  unfolding unwound_lost execution_lost
  partial-lost r (failed c, s) h = h
  partial-lost r (undone done, s) h = refl

  conclude-lost :
      (r : Ending × Walk World)
      → is_lost r.0 ≡ false
      → CommittedNodes r.1
      → execution_lost (conclude client guard p run_id max_polls r) ≡ false
  unfolding conclude compensate execution_lost CommittedNodes AllNodes MoreLost
  conclude-lost (finished, s) h c = refl
  conclude-lost (crashed e, s) h c = h
  conclude-lost (halted r, s) h c =
      let l = partial-lost r (compensate client guard p run_id max_polls s) (
        unwind-lost (reverse s.committed)
          (λ id k. let (n, a, f, t) = c id (elem-reverse id s.committed k) in (n, f)) s) in
      elim (Bool-cases (p.on_error == "compensate")) [
        | inl t ↦ ground (arith, t, l)
        | inr g ↦ ground (arith, g)
      ]

  -- When the program is admitted, `execute` returns a result, or raises an error of the client, of a
  -- reference without a value or of the guard engine, and no other: it neither looks up a node that
  -- is missing, in the walk or in the unwind, nor exceeds the limit on steps or its fuel.
  pub execute-raised :
      (vctx : ValidationContext) (input : Option Value) (w : World)
      → (validate p vctx).result ≡ ok
      → execution_lost (execute client guard p run_id max_polls input w) ≡ false
  unfolding execute
  execute-raised vctx input w h =
      let s : Walk World = record {
        world = w;
        ctx = initial_ctx client guard p run_id max_polls input;
        notifications = [];
        committed = [];
      } in
      conclude-lost (walk client guard p run_id max_polls 256 0 (some p.entry) null s)
        (execute_walk-lost client guard p run_id max_polls vctx null s h)
        (walk-CommittedNodes 256 0 (some p.entry) null s refl)
