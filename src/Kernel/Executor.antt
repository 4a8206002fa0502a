-- ===== src/Kernel/Executor.antt =====
-- src/nilscript/kernel/executor.py: `LocalExecutor`. The client and the guard engine are arguments:
-- an operation of the client takes the state of the world outside and returns the next one, with
-- `none` where it raises. The branches of a parallel node run one after the other, which is one of
-- the schedules of `asyncio.gather`. Waiting takes no time.
pub mod Steps
pub mod Lost
pub mod Safety
pub mod Steady
pub mod Keeping
pub mod Keys
pub mod Unwind
use nilscript.Base.{
  ℕ, zero, suc, ◌+◌, Bool, true, false, not, ◌||◌, ◌&&◌, String, ◌==◌, Option, none, some, List, [],
  ◌∷◌, ◌++◌, reverse, insert, take, eqb, leb, if◌then◌else◌,
}
use Prim.Native.String.{◌++◌ as str_append}
use nilscript.Kernel.Value.{
  ℤ, pos, negsuc, Value, null, bool, int, str, list, dict, Items, nil, cons, Fields, end, field,
  get_field,
}
use nilscript.Kernel.Program.{
  CompensateWith, ActionNode, QueryNode, ConditionNode, ParallelNode, ForeachNode,
  AwaitApprovalNode, WaitNode, NotifyNode, NodeType, action, query, condition, parallel, foreach,
  await_approval, wait, notify, Node, find_node, WosoolProgram,
}
use nilscript.Kernel.Graph.{Output, next_after, idem_key}
use nilscript.Kernel.References.{resolve, resolve_fields}
use nilscript.Kernel.RunResult.{Context, Refusal, Notification, RunResult}

-- What the executor reads of a `ProposalBody`.
pub record Proposal : Type 0 where
  pub is_refusal : Bool
  pub id : Option String
  pub code : Option String

-- The answer to COMMIT: a `StatusBody`, or a `ProposalBody` when parked.
pub data CommitOutcome : Type 0 where
  status_body : String → Option String → CommitOutcome
  parked : Option String → CommitOutcome

-- `NilClient`
pub record Client (World : Type 0) : Type 0 where
  pub propose : String → Fields → World → Option Proposal × World
  pub commit : String → String → World → Option CommitOutcome × World
  pub query : String → Fields → World → Option Value × World
  pub status : Value → World → Option (Option String) × World

abbrev pub Guard : Type 0
Guard = String → Context → Value → Option Bool

-- The exceptions other than `CompensationHalt`.
pub data Crash : Type 0 where
  client_error unresolved_reference guard_error : Crash
  missing_node too_many_steps : Crash
  -- Not an exception of the program: the model's fuel is used up.
  out_of_fuel : Crash

pub data Ending : Type 0 where
  finished : Ending
  halted : Refusal → Ending
  crashed : Crash → Ending

-- What `_execute` of a node does.
pub data Done : Type 0 where
  output : Value → Done
  stopped : Ending → Done

-- The fields of the executor that a walk changes.
pub record Walk (World : Type 0) : Type 0 where
  pub world : World
  pub ctx : Context
  pub notifications : List Notification
  pub committed : List String

abbrev pub max_steps : ℕ
max_steps = 1000

-- `_APPROVAL_ROUTE`
unfoldable pub approval_route : String → Option String
approval_route s =
    if s == "approved"
    then some "approved"
    else if s == "executed"
    then some "approved"
    else if s == "rejected"
    then some "rejected"
    else if s == "expired"
    then some "timeout"
    else if s == "failed_terminal"
    then some "rejected"
    else if s == "suspended"
    then some "rejected"
    else none

abbrev pub opt_str : Option String → Value
opt_str none = null
opt_str (some s) = str s

-- `_outcome_dict`
unfoldable pub outcome_dict : CommitOutcome → String → Value
outcome_dict (status_body proposal state) proposal_id =
    dict (field "proposal" (str proposal) (field "state" (opt_str state) end))
outcome_dict (parked tier) proposal_id = dict (
    field "proposal" (str proposal_id)
      (field "parked" (bool true) (field "tier" (opt_str tier) end)))

abbrev pub is_empty_text : String → Bool
is_empty_text s = s == ""

-- The id of a proposal that may be committed: `none` for a refusal or an empty id.
unfoldable pub usable_id : Proposal → Option String
usable_id p =
    if p.is_refusal
    then none
    else elim p.id [ none ↦ none | some i ↦ if is_empty_text i then none else some i ]

abbrev pub code_of : Proposal → String
code_of p = elim p.code [ none ↦ "UNKNOWN" | some c ↦ c ]

-- The truth of a value, and the text that `next_after` puts behind `on_`. Only the output of an
-- approval is read as a text, and it is a text.
unfoldable pub output_of : Value → Output
output_of null = record { truthy = false; text = "" }
output_of (bool b) = record { truthy = b; text = "" }
output_of (int (pos n)) = record { truthy = not (eqb n 0); text = "" }
output_of (int (negsuc n)) = record { truthy = true; text = "" }
output_of (str s) = record { truthy = not (is_empty_text s); text = s }
output_of (list nil) = record { truthy = false; text = "" }
output_of (list (cons v xs)) = record { truthy = true; text = "" }
output_of (dict end) = record { truthy = false; text = "" }
output_of (dict (field k v fs)) = record { truthy = true; text = "" }

abbrev pub items_list : Items → List Value
items_list nil = []
items_list (cons v xs) = v ∷ items_list xs

-- list(items)[:max_items] of a list, and [] of anything else.
unfoldable pub capped : ℕ → Value → List Value
capped n (list xs) = take n (items_list xs)
capped n null = []
capped n (bool b) = []
capped n (int i) = []
capped n (str s) = []
capped n (dict fs) = []

abbrev pub count_items : List Value → ℕ
count_items [] = 0
count_items (x ∷ xs) = suc (count_items xs)

abbrev pub items_of_names : List String → Items
items_of_names [] = nil
items_of_names (x ∷ xs) = cons (str x) (items_of_names xs)

-- message.get(key, "")
unfoldable pub text_field : String → Fields → Value
text_field k fs = elim (get_field k fs) [ none ↦ str "" | some v ↦ v ]

abbrev pub opt_field : String → Option String → Fields
opt_field k none = end
opt_field k (some s) = field k (str s) end
