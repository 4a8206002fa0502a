-- ===== src/Kernel/Graph.antt =====
-- The control flow of a program: `_successor_targets` of src/nilscript/kernel/validator.py, and
-- src/nilscript/kernel/graph.py.
use Prim.Native.String.{◌++◌ as str_append}
use nilscript.Base.{
  ◌≡◌, Bool, true, String, ◌==◌, Option, none, some, List, [], ◌∷◌, ◌++◌, elem, arith, eq_refl,
  elem-append, if◌then◌else◌,
}
use nilscript.Kernel.Program.{
  NodeErrorPolicy, NodeType, action, query, condition, parallel, foreach, await_approval, wait,
  notify,
}

abbrev pub listed : Option String → List String
listed none = []
listed (some t) = t ∷ []

abbrev pub error_target : Option NodeErrorPolicy → List String
error_target none = []
error_target (some e) = listed e.to

-- In the source's order of attributes; then the branches, then the target of `on_error`.
unfoldable pub successor_targets : NodeType → List String
successor_targets (action n) = listed n.next ++ error_target n.on_error
successor_targets (query n) = listed n.next ++ error_target n.on_error
successor_targets (condition n) = listed n.next ++ n.on_true ∷ listed n.on_false
successor_targets (parallel n) = listed n.next ++ n.branches
successor_targets (foreach n) = listed n.next ++ n.body ∷ []
successor_targets (await_approval n) = n.on_approved ∷ listed n.on_rejected ++ listed n.on_timeout
successor_targets (wait n) = listed n.next
successor_targets (notify n) = listed n.next

-- What `next_after` reads of an output: its truth, and its text for `on_{output}`.
pub record Output : Type 0 where
  pub truthy : Bool
  pub text : String

abbrev pub or_next : Option String → Option String → Option String
or_next none next = next
or_next (some t) next = some t

-- An output other than the three routes names no key of an `await_approval` node.
unfoldable pub next_after : NodeType → Output → Option String
next_after (condition n) out = if out.truthy then some n.on_true else or_next n.on_false n.next
next_after (await_approval n) out =
    if out.text == "approved"
    then some n.on_approved
    else if out.text == "rejected"
    then n.on_rejected
    else if out.text == "timeout"
    then n.on_timeout
    else none
next_after (action n) out = n.next
next_after (query n) out = n.next
next_after (parallel n) out = n.next
next_after (foreach n) out = n.next
next_after (wait n) out = n.next
next_after (notify n) out = n.next

-- f"{run_id}:{node_id}"
unfoldable pub idem_key : String → String → String
idem_key run_id node_id = str_append run_id (str_append ":" node_id)

elem-listed : (t : String) (o : Option String) → o ≡ some t → elem t (listed o) ≡ true
elem-listed t o h = ground (arith, eq_refl t)

-- Wherever the interpreter goes from a node, the validator has seen that target.
pub next_after-successor :
    (n : NodeType) (out : Output) (t : String)
    → next_after n out ≡ some t
    → elem t (successor_targets n) ≡ true
unfolding next_after successor_targets
next_after-successor (condition n) out t h = ground (
  arith,
  elem-append t (listed n.next) (n.on_true ∷ listed n.on_false),
  elem-listed t n.next,
  elem-listed t n.on_false,
  eq_refl t,
)
next_after-successor (await_approval n) out t h = ground (
  arith,
  elem-append t (listed n.on_rejected) (listed n.on_timeout),
  elem-listed t n.on_rejected,
  elem-listed t n.on_timeout,
  eq_refl t,
)
next_after-successor (action n) out t h =
    ground (arith, elem-append t (listed n.next) (error_target n.on_error), elem-listed t n.next h)
next_after-successor (query n) out t h =
    ground (arith, elem-append t (listed n.next) (error_target n.on_error), elem-listed t n.next h)
next_after-successor (parallel n) out t h =
    ground (arith, elem-append t (listed n.next) n.branches, elem-listed t n.next h)
next_after-successor (foreach n) out t h =
    ground (arith, elem-append t (listed n.next) (n.body ∷ []), elem-listed t n.next h)
next_after-successor (wait n) out t h = elem-listed t n.next h
next_after-successor (notify n) out t h = elem-listed t n.next h
