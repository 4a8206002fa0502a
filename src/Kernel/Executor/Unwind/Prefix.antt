-- ===== src/Kernel/Executor/Unwind/Prefix.antt =====
-- What `_compensate` of src/nilscript/kernel/executor.py undoes.
use nilscript.Base.{ℕ, String, Option, none, some, List, [], ◌∷◌, reverse}
use Prim.Native.String.{◌++◌ as str_append}
use nilscript.Kernel.Value.{null, Fields}
use nilscript.Kernel.Program.{CompensateWith, Node, find_node, WosoolProgram}
use nilscript.Kernel.Graph.{idem_key}
use nilscript.Kernel.References.{resolve_fields}
use nilscript.Kernel.Executor.{Proposal, CommitOutcome, Client, Guard, Walk, usable_id}
use mathlib.Core.Path.{subst}
use nilscript.Base.{◌≡◌, refl}
use nilscript.Kernel.Executor.Unwind.{
  Unwound, undone, failed, compensation_of, undo_done, undo_commit, undo_propose, undo_usable,
  undo_resolved, undo_with, undo_node, unwind, compensate,
}

-- The names are the first ones of a list, and the node of each declares its inverse.
pub Undoable : WosoolProgram → List String → List String → Type 0
Undoable p [] ids = Unit
Undoable p (x ∷ done) [] = ⊥
Undoable p (x ∷ done) (y ∷ ids) =
    (x ≡ y)
    × ((n : Node) × (comp : CompensateWith) × (find_node x p.pipeline ≡ some n)
        × (compensation_of n.type ≡ some comp))
    × Undoable p done ids

UnwoundOk : WosoolProgram → Unwound → List String → Type 0
UnwoundOk p (undone done) ids = Undoable p done ids
UnwoundOk p (failed c) ids = Unit

module _ {World : Type 0} (client : Client World) (guard : Guard) (p : WosoolProgram)
    (run_id : String) (max_polls : ℕ) where
  More : List String → Type 0
  More rest = (t : Walk World) → UnwoundOk p (unwind client guard p run_id max_polls rest t).0 rest

  undo_done-ok :
      (id : String) (rest : List String) (n : Node) (comp : CompensateWith)
      (r : Unwound × Walk World)
      → find_node id p.pipeline ≡ some n
      → compensation_of n.type ≡ some comp
      → UnwoundOk p r.0 rest
      → UnwoundOk p (undo_done client guard p run_id max_polls id r).0 (id ∷ rest)
  unfolding UnwoundOk Undoable
  undo_done-ok id rest n comp (undone done, s) f c h = (refl, (n, comp, f, c), h)
  undo_done-ok id rest n comp (failed e, s) f c h = tt

  undo_commit-ok :
      (id : String) (rest : List String) (n : Node) (comp : CompensateWith)
      (o : Option CommitOutcome × World) (s : Walk World)
      → find_node id p.pipeline ≡ some n
      → compensation_of n.type ≡ some comp
      → More rest
      → UnwoundOk p
          (undo_commit client guard p run_id max_polls
            (unwind client guard p run_id max_polls rest)
            id
            o
            s).0
          (id ∷ rest)
  unfolding UnwoundOk More
  undo_commit-ok id rest n comp (none, w) s f c h = tt
  undo_commit-ok id rest n comp (some o, w) s f c h =
      undo_done-ok id rest n comp
        (unwind client guard p run_id max_polls rest (record s { world = w })) f c
        (h (record s { world = w }))

  undo_usable-ok :
      (id : String) (rest : List String) (n : Node) (comp : CompensateWith) (i : Option String)
      (w : World) (s : Walk World)
      → find_node id p.pipeline ≡ some n
      → compensation_of n.type ≡ some comp
      → More rest
      → UnwoundOk p
          (undo_usable client guard p run_id max_polls
            (unwind client guard p run_id max_polls rest)
            id
            i
            w
            s).0
          (id ∷ rest)
  unfolding UnwoundOk Undoable
  undo_usable-ok id rest n comp none w s f c h = tt
  undo_usable-ok id rest n comp (some i) w s f c h =
      undo_commit-ok id rest n comp
        (client.commit i (idem_key run_id (str_append id ":rollback")) w) s f c h

  undo_propose-ok :
      (id : String) (rest : List String) (n : Node) (comp : CompensateWith)
      (o : Option Proposal × World) (s : Walk World)
      → find_node id p.pipeline ≡ some n
      → compensation_of n.type ≡ some comp
      → More rest
      → UnwoundOk p
          (undo_propose client guard p run_id max_polls
            (unwind client guard p run_id max_polls rest)
            id
            o
            s).0
          (id ∷ rest)
  unfolding UnwoundOk
  undo_propose-ok id rest n comp (none, w) s f c h = tt
  undo_propose-ok id rest n comp (some proposal, w) s f c h =
      undo_usable-ok id rest n comp (usable_id proposal) w s f c h

  undo_resolved-ok :
      (id : String) (rest : List String) (n : Node) (comp : CompensateWith) (verb : String)
      (args : Option Fields) (s : Walk World)
      → find_node id p.pipeline ≡ some n
      → compensation_of n.type ≡ some comp
      → More rest
      → UnwoundOk p
          (undo_resolved client guard p run_id max_polls
            (unwind client guard p run_id max_polls rest)
            id
            verb
            args
            s).0
          (id ∷ rest)
  unfolding UnwoundOk
  undo_resolved-ok id rest n comp verb none s f c h = tt
  undo_resolved-ok id rest n comp verb (some args) s f c h =
      undo_propose-ok id rest n comp (client.propose verb args s.world) s f c h

  undo_with-ok :
      (id : String) (rest : List String) (n : Node) (comp : Option CompensateWith) (s : Walk World)
      → find_node id p.pipeline ≡ some n
      → compensation_of n.type ≡ comp
      → More rest
      → UnwoundOk p
          (undo_with client guard p run_id max_polls
            (unwind client guard p run_id max_polls rest)
            id
            comp
            s).0
          (id ∷ rest)
  unfolding UnwoundOk Undoable
  undo_with-ok id rest n none s f c h = tt
  undo_with-ok id rest n (some comp) s f c h =
      undo_resolved-ok id rest n comp comp.verb (resolve_fields comp.args s.ctx null) s f c h

  undo_node-ok :
      (id : String) (rest : List String) (n : Option Node) (s : Walk World)
      → find_node id p.pipeline ≡ n
      → More rest
      → UnwoundOk p
          (undo_node client guard p run_id max_polls
            (unwind client guard p run_id max_polls rest)
            id
            n
            s).0
          (id ∷ rest)
  unfolding UnwoundOk
  undo_node-ok id rest none s f h = tt
  undo_node-ok id rest (some n) s f h = undo_with-ok id rest n (compensation_of n.type) s f refl h

  unwind-ok : (ids : List String) → More ids
  unfolding unwind More UnwoundOk Undoable
  unwind-ok [] s = tt
  unwind-ok (id ∷ rest) s = undo_node-ok id rest (find_node id p.pipeline) s refl (unwind-ok rest)

  returned-Undoable :
      (u : Unwound) (done ids : List String)
      → u ≡ undone done
      → UnwoundOk p u ids
      → Undoable p done ids
  unfolding UnwoundOk
  returned-Undoable u done ids e h = subst (λ (x : Unwound). UnwoundOk p x ids) e h

  -- When the unwind returns, the nodes that it reports are the last committed ones, the last one
  -- first and none left out between them, and each of them is a node of the pipeline that declares
  -- its inverse.
  pub compensate-Undoable :
      (s : Walk World) (done : List String)
      → (compensate client guard p run_id max_polls s).0 ≡ undone done
      → Undoable p done (reverse s.committed)
  unfolding compensate More
  compensate-Undoable s done e =
      returned-Undoable (unwind client guard p run_id max_polls (reverse s.committed) s).0 done
        (reverse s.committed) e (unwind-ok (reverse s.committed) s)
