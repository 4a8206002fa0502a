-- ===== src/Kernel/Program.antt =====
-- src/nilscript/kernel/models.py: the program and its eight kinds of nodes. Field values that the
-- parser alone constrains (patterns, ranges) are not restricted by the types; `retry_policy`, which
-- the kernel never reads, and the `type` tag, which is the constructor, are left out.
use nilscript.Base.{
  ℕ, Bool, true, false, ◌&&◌, String, ◌==◌, Option, none, some, List, [], ◌∷◌, length, elem, leb,
  if◌then◌else◌,
}
use nilscript.Kernel.Value.{Fields}

pub record NodeErrorPolicy : Type 0 where
  pub action : String
  pub to : Option String

pub record CompensateWith : Type 0 where
  pub verb : String
  pub args : Fields

pub record ActionNode : Type 0 where
  pub skill : String
  pub verb : String
  pub args : Fields
  pub next : Option String
  pub on_error : Option NodeErrorPolicy
  pub compensate_with : Option CompensateWith

pub record QueryNode : Type 0 where
  pub verb : String
  pub args : Fields
  pub next : Option String
  pub on_error : Option NodeErrorPolicy

pub record ConditionNode : Type 0 where
  pub expression : String
  pub on_true : String
  pub on_false : Option String
  pub next : Option String

pub record ParallelNode : Type 0 where
  pub branches : List String
  pub join : String
  pub next : Option String

pub record ForeachNode : Type 0 where
  pub items : String
  pub as_ : String
  pub body : String
  pub max_items : ℕ
  pub next : Option String

pub record AwaitApprovalNode : Type 0 where
  pub proposal : String
  pub timeout_seconds : ℕ
  pub on_approved : String
  pub on_rejected : Option String
  pub on_timeout : Option String

pub record WaitNode : Type 0 where
  pub seconds : ℕ
  pub next : Option String

pub record BilingualText : Type 0 where
  pub ar : String
  pub en : Option String

pub record NotifyNode : Type 0 where
  pub message : BilingualText
  pub next : Option String

pub data NodeType : Type 0 where
  action : ActionNode → NodeType
  query : QueryNode → NodeType
  condition : ConditionNode → NodeType
  parallel : ParallelNode → NodeType
  foreach : ForeachNode → NodeType
  await_approval : AwaitApprovalNode → NodeType
  wait : WaitNode → NodeType
  notify : NotifyNode → NodeType

pub record Node : Type 0 where
  pub id : String
  pub type : NodeType

pub record WosoolProgram : Type 0 where
  pub workspace : String
  pub locale : String
  pub entry : String
  pub pipeline : List Node
  pub on_error : String

-- The ids of the pipeline, in its order.
abbrev pub ids : List Node → List String
ids [] = []
ids (n ∷ ns) = n.id ∷ ids ns

-- `_ids_are_unique`
unfoldable pub ids_are_unique : List Node → Bool
ids_are_unique [] = true
ids_are_unique (n ∷ ns) = if elem n.id (ids ns) then false else ids_are_unique ns

-- min_length=1, max_length=256 of `pipeline`
unfoldable pub fits_pipeline : List Node → Bool
fits_pipeline ns = leb 1 (length (ids ns)) && leb (length (ids ns)) 256

-- nodes[k] for the dict `nodes`, and `none` for a missing key.
unfoldable pub find_node : String → List Node → Option Node
find_node k [] = none
find_node k (n ∷ ns) = if n.id == k then some n else find_node k ns
