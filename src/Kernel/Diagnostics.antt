-- ===== src/Kernel/Diagnostics.antt =====
-- src/nilscript/kernel/diagnostics.py: the result of a validation. A message, and the location that
-- only the schema gate gives, are left out.
use nilscript.Base.{
  ◌≡◌, refl, Bool, true, false, ◌||◌, String, Option, none, some, List, [], ◌∷◌, ◌++◌, any,
  if◌then◌else◌, arith,
}

pub data Severity : Type 0 where
  error warning : Severity

pub record Diagnostic : Type 0 where
  pub code : String
  pub severity : Severity
  pub node : Option String

pub data Verdict : Type 0 where
  ok fail : Verdict

pub record ValidationResult : Type 0 where
  pub result : Verdict
  pub diagnostics : List Diagnostic

-- `DiagnosticCollector.error` and `.warning`: what they append.
abbrev pub error_at : String → String → List Diagnostic
error_at code node = (record { code = code; severity = error; node = some node }) ∷ []

abbrev pub error_of : String → List Diagnostic
error_of code = (record { code = code; severity = error; node = none }) ∷ []

abbrev pub warning_at : String → String → List Diagnostic
warning_at code node = (record { code = code; severity = warning; node = some node }) ∷ []

abbrev pub is_error : Diagnostic → Bool
is_error d = elim d.severity [ error ↦ true | warning ↦ false ]

-- `DiagnosticCollector.has_errors`
unfoldable pub has_errors : List Diagnostic → Bool
has_errors ds = any is_error ds

-- Admit unless any diagnostic is an error.
unfoldable pub of : List Diagnostic → ValidationResult
unfolding has_errors
of ds = record { result = if has_errors ds then fail else ok; diagnostics = ds }

pub has_errors-append :
    (xs ys : List Diagnostic) → has_errors (xs ++ ys) ≡ (has_errors xs || has_errors ys)
unfolding has_errors
has_errors-append [] ys = refl
has_errors-append (x ∷ xs) ys = ground (arith, has_errors-append xs ys)
