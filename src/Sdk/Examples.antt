-- ===== src/Sdk/Examples.antt =====
-- The theorems about the SDK at concrete inputs.
use nilscript.Base.{ℕ, zero, suc, ◌<◌, ◌≡◌, refl, ◌↔◌, false, none, List, [], ◌∷◌, arith}
use nilscript.Sdk.Breaker
use nilscript.Sdk.Breaker.{CircuitBreaker, record_failure, allow}
use nilscript.Sdk.Breaker.Trace.{Call, failure, run, trailing_failures, run-closed_iff}
use nilscript.Sdk.Transport.{Turn, timeout, response, object, send, judge}
use nilscript.Sdk.Transport.Requests.{Answered, send-Answered}
use nilscript.Sdk.Events
use nilscript.Sdk.Events.{Key, EventDeduper, is_new, deliver}
use nilscript.Sdk.Events.Window.{is_new-deliver}

abbrev two_failures : List Call
two_failures = failure 1 2 ∷ failure 3 4 ∷ []

run-closed_iff_example :
    ((run (Breaker.new 2 30) two_failures).opened_at ≡ none)
    ↔ (trailing_failures 0 two_failures < 2)
run-closed_iff_example = run-closed_iff 2 30 two_failures (omega arith)

abbrev fragile : CircuitBreaker
fragile = Breaker.new 1 30

-- A timeout first, and then an object.
abbrev flaky : ℕ → Turn ℕ
flaky zero = record { at = 0; answer = timeout; seen = 1; now = 1 }
flaky (suc n) = record { at = 2; answer = response 200 (object 7); seen = 3; now = 3 }

send-Answered_example : Answered flaky 3 7 (send 2 (Breaker.new 5 30) flaky)
unfolding send Breaker.new allow record_failure judge
send-Answered_example = send-Answered flaky 2 (Breaker.new 5 30) 7 refl

abbrev keys : List Key
keys = ("w", 1) ∷ ("w", 2) ∷ ("w", 1) ∷ ("w", 3) ∷ []

is_new-deliver_example :
    (is_new (deliver (is_new (Events.new 3) ("w", 9)).0 (("w", 1) ∷ ("v", 9) ∷ [])) ("w", 9)).1
    ≡ false
unfolding is_new Events.new
is_new-deliver_example =
    is_new-deliver (Events.new 3) ("w", 9) (("w", 1) ∷ ("v", 9) ∷ []) refl (omega arith)
