-- ===== src/ControlPlane/Runs.antt =====
-- The run table of src/nilscript/controlplane/store.py. `run_id` is the primary key, so the table
-- is a dictionary. `T` is the type of the traces, which are stored as JSON; a time is a number.
use nilscript.Base.{
  ℕ, ◌≡◌, Bool, true, false, String, ◌==◌, Option, none, some, List, lookup, insert, lookup-insert,
  arith, Option-cases, inl, inr, if◌then◌else◌,
}

pub record Run (T : Type 0) : Type 0 where
  pub run_id : String
  pub workspace : String
  pub automation_id : String
  pub version : ℕ
  pub content_hash : String
  pub fired_by : String
  pub state : String
  pub trace : Option T
  pub started_at : ℕ
  pub ended_at : Option ℕ

abbrev pub Runs : Type 0 → Type 0
Runs T = List (String × Run T)

-- What `start_run` is told of the run.
pub record Start : Type 0 where
  pub run_id : String
  pub workspace : String
  pub automation_id : String
  pub version : ℕ
  pub content_hash : String
  pub fired_by : String

module _ {T : Type 0} where
  unfoldable pub get_run : Runs T → String → Option (Run T)
  get_run runs run_id = lookup run_id runs

  abbrev pub opened : Start → ℕ → Run T
  opened s now = record {
    run_id = s.run_id;
    workspace = s.workspace;
    automation_id = s.automation_id;
    version = s.version;
    content_hash = s.content_hash;
    fired_by = s.fired_by;
    state = "running";
    trace = none;
    started_at = now;
    ended_at = none;
  }

  unfoldable pub start_run : Runs T → Start → ℕ → Runs T × Bool
  start_run runs s now = elim (lookup s.run_id runs) [
    | some old ↦ (runs, false)
    | none ↦ (insert s.run_id (opened s now) runs, true)
  ]

  abbrev pub closed : Run T → String → Option T → ℕ → Run T
  closed run state trace now = record run { state = state; trace = trace; ended_at = some now }

  unfoldable pub finish_run : Runs T → String → String → Option T → ℕ → Runs T × Bool
  finish_run runs run_id state trace now = elim (lookup run_id runs) [
    | none ↦ (runs, false)
    | some run ↦ (insert run_id (closed run state trace now) runs, true)
  ]

  -- A run that is started can be read, and one that is there is not started again.
  pub get_run-start_run :
      (runs : Runs T) (s : Start) (now : ℕ) (j : String)
      → get_run (start_run runs s now).0 j ≡ (
          if (start_run runs s now).1
          then (if s.run_id == j then some (opened s now) else get_run runs j)
          else get_run runs j)
  unfolding get_run start_run
  get_run-start_run runs s now j = elim (Option-cases (lookup s.run_id runs)) [
    | inl absent ↦ ground (arith, lookup-insert s.run_id j (opened s now) runs)
    | inr (old, found) ↦ ground arith
  ]

  pub get_run-finish_run :
      (runs : Runs T) (run : Run T) (run_id st : String) (trace : Option T) (now : ℕ)
      → get_run runs run_id ≡ some run
      → (j : String)
      → get_run (finish_run runs run_id st trace now).0 j
        ≡ (if run_id == j then some (closed run st trace now) else get_run runs j)
  unfolding get_run finish_run
  get_run-finish_run runs run run_id st trace now h j =
      ground (arith, lookup-insert run_id j (closed run st trace now) runs)

  pub start_run-new :
      (runs : Runs T) (s : Start) (now : ℕ)
      → get_run runs s.run_id ≡ none
      → (start_run runs s now).1 ≡ true
  unfolding get_run start_run
  start_run-new runs s now h = ground arith

  -- A run id that is in the table cannot be opened again.
  pub start_run-old :
      (runs : Runs T) (s : Start) (now : ℕ) {run : Run T}
      → get_run runs s.run_id ≡ some run
      → start_run runs s now ≡ (runs, false)
  unfolding get_run start_run
  start_run-old runs s now h = ground arith
