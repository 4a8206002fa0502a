-- ===== src/Kernel/Guards/Evaluate.antt =====
-- `evaluate_guard` of src/nilscript/kernel/guards.py, and the guard engine of the executor.
use nilscript.Base.{ℕ, ◌+◌, ◌*◌, Bool, String, Option, none, some, List, [], ◌∷◌, length}
use nilscript.Kernel.Value.{Value, null, bool, int, str, list, dict}
use nilscript.Kernel.RunResult.{Context}
use nilscript.Kernel.Executor.{Guard}
use nilscript.Kernel.Guards.{Result, ok, guard_error, fraction, out_of_fuel, ◌>>=◌, Token}
use nilscript.Kernel.Guards.Tokens.{tokenize, rewrite_has}
use nilscript.Kernel.Guards.Parser.{parse_or}

-- Enough for a list of tokens of that length: a call of `_or` is five calls above one of `_primary`.
unfoldable pub enough : List Token → ℕ
enough ts = 5 * length ts + 5

abbrev pub no_trailing : Value × List Token → Result Value
no_trailing (v, []) = ok v
no_trailing (v, tok ∷ ts) = guard_error

-- `parse`
unfoldable pub parse : Context → Value → List Token → Result Value
unfolding parse_or enough
parse ctx item ts = parse_or ctx item (enough ts) ts >>= λ (v, rest). no_trailing (v, rest)

unfoldable pub only_bool : Value → Result Bool
only_bool (bool b) = ok b
only_bool null = guard_error
only_bool (int n) = guard_error
only_bool (str s) = guard_error
only_bool (list xs) = guard_error
only_bool (dict fs) = guard_error

unfoldable pub evaluate_guard : String → Context → Value → Result Bool
unfolding tokenize rewrite_has parse only_bool
evaluate_guard expression ctx item = rewrite_has expression ctx item >>= λ rewritten.
    tokenize rewritten >>= λ ts. parse ctx item ts >>= λ v. only_bool v

unfoldable pub answer {ℓ} : {A : Type ℓ} → Result A → Option A
answer (ok a) = some a
answer guard_error = none
answer fraction = none
answer out_of_fuel = none

-- The guard engine that the executor calls.
unfoldable pub guard_engine : Guard
unfolding evaluate_guard answer
guard_engine expression ctx item = answer (evaluate_guard expression ctx item)
