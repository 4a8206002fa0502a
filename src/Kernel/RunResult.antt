-- ===== src/Kernel/RunResult.antt =====
-- `RunResult` of src/nilscript/kernel/executor.py: the outcome of executing one program.
use nilscript.Base.{Bool, String, Option, List}
use nilscript.Kernel.Value.{Value}

-- The append-only execution context: a node's id and what it produced.
abbrev pub Context : Type 0
Context = List (String × Value)

-- {"node": …, "code": …}
pub record Refusal : Type 0 where
  pub node : String
  pub code : String

-- {"ar": …, "en": …}, the values before `str` makes texts of them.
pub record Notification : Type 0 where
  pub ar : Value
  pub en : Value

pub record RunResult : Type 0 where
  pub completed : Bool
  pub context : Context
  pub notifications : List Notification
  pub compensated : List String
  pub is_partial : Bool
  pub blocked_at : Option String
  pub refusal : Option Refusal
