-- ===== src/Sdk/Breaker.antt =====
-- src/nilscript/sdk/breaker.py: the circuit breaker. A clock reading is a number of some fixed
-- unit; a call takes the readings that it makes as arguments, in the order in which it makes them.
pub mod Trace
use nilscript.Base.{ℕ, zero, ◌+◌, Bool, false, true, Option, none, some, leb, if◌then◌else◌}

pub data BreakerState : Type 0 where
  closed opened half_open : BreakerState

pub record CircuitBreaker : Type 0 where
  pub failure_threshold : ℕ
  pub recovery_seconds : ℕ
  pub consecutive_failures : ℕ
  pub opened_at : Option ℕ

unfoldable pub new : ℕ → ℕ → CircuitBreaker
new threshold recovery = record {
  failure_threshold = threshold;
  recovery_seconds = recovery;
  consecutive_failures = 0;
  opened_at = none;
}

-- The property `state`, read at clock value `now`.
unfoldable pub state : CircuitBreaker → ℕ → BreakerState
state b now = elim b.opened_at [
  | none ↦ closed
  | some t ↦ if leb (t + b.recovery_seconds) now then half_open else opened
]

is_half_open : BreakerState → Bool
is_half_open half_open = true
is_half_open _ = false

unfoldable pub allow : CircuitBreaker → ℕ → Bool
unfolding state
allow b now = elim (state b now) [ opened ↦ false | _ ↦ true ]

unfoldable pub record_success : CircuitBreaker → CircuitBreaker
record_success b = record b { consecutive_failures = 0; opened_at = none }

-- `seen` is the reading of the test of `state`, `now` the one that is stored.
unfoldable pub record_failure : CircuitBreaker → ℕ → ℕ → CircuitBreaker
unfolding state is_half_open
record_failure b seen now =
    if is_half_open (state b seen)
    then record b { opened_at = some now }
    else (let failures = b.consecutive_failures + 1 in
        if leb b.failure_threshold failures
        then record b { consecutive_failures = failures; opened_at = some now }
        else record b { consecutive_failures = failures })
