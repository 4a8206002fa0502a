-- ===== src/Sdk/Breaker/Trace.antt =====
-- The circuit breaker over whole histories of calls.
use nilscript.Base.{
  ℕ, ◌+◌, ◌≤◌, ◌<◌, ◌≡◌, refl, ◌↔◌, ◌⊎◌, inl, inr, none, some, List, [], ◌∷◌, arith, leb,
}
use nilscript.Sdk.Breaker.{CircuitBreaker, new, allow, record_success, record_failure}

-- One recorded outcome; a failure with its two clock readings.
pub data Call : Type 0 where
  success : Call
  failure : ℕ → ℕ → Call

abbrev pub record_call : CircuitBreaker → Call → CircuitBreaker
record_call b success = record_success b
record_call b (failure seen now) = record_failure b seen now

pub run : CircuitBreaker → List Call → CircuitBreaker
run b [] = b
run b (c ∷ cs) = run (record_call b c) cs

-- The failures since the last success, `n` of them before the list.
abbrev pub trailing_failures : ℕ → List Call → ℕ
trailing_failures n [] = n
trailing_failures n (success ∷ cs) = trailing_failures 0 cs
trailing_failures n (failure seen now ∷ cs) = trailing_failures (n + 1) cs

-- What a breaker that has seen `n` failures since the last success looks like.
record Counts (threshold n : ℕ) (b : CircuitBreaker) : Type 0 where
  same : b.failure_threshold ≡ threshold
  tally :
      (b.opened_at ≡ none) × (b.consecutive_failures ≡ n) × (n < threshold)
      ⊎ ((t : ℕ) × (b.opened_at ≡ some t)) × (threshold ≤ b.consecutive_failures) × (threshold ≤ n)

Counts-success :
    {t n : ℕ} {b : CircuitBreaker} → 0 < t → Counts t n b → Counts t 0 (record_success b)
unfolding record_success
Counts-success pos h = record { same = h.same; tally = inl (refl, refl, pos) }

Counts-failure :
    {t n : ℕ} {b : CircuitBreaker} (seen now : ℕ)
    → Counts t n b
    → Counts t (n + 1) (record_failure b seen now)
unfolding record_failure
Counts-failure seen now h = ground arith

Counts-run :
    {t : ℕ} (pos : 0 < t) (cs : List Call) {n : ℕ} {b : CircuitBreaker}
    → Counts t n b
    → Counts t (trailing_failures n cs) (run b cs)
unfolding run
Counts-run pos [] h = h
Counts-run pos (success ∷ cs) h = Counts-run pos cs (Counts-success pos h)
Counts-run pos (failure seen now ∷ cs) h = Counts-run pos cs (Counts-failure seen now h)

-- With a positive threshold, a new breaker is closed after any history exactly when fewer failures
-- than the threshold have come since the last success, whatever the clock read.
pub run-closed_iff :
    (threshold recovery : ℕ) (cs : List Call)
    → 0 < threshold
    → ((run (new threshold recovery) cs).opened_at ≡ none) ↔ (trailing_failures 0 cs < threshold)
unfolding new
run-closed_iff t r cs pos =
    let h =
      Counts-run pos cs {b = new t r} (record { same = refl; tally = inl (refl, refl, pos) }) in
    elim h.tally [
      | inl (o, c, lt) ↦ ((λ _. lt), (λ _. o))
      | inr (o, c, le) ↦ ((λ e. absurd (ground arith)), (λ lt. absurd (omega arith)))
    ]

-- A failure that leaves the breaker open blocks every call for exactly the recovery time from the
-- reading that it stored: until then none is allowed, and from then on a trial call is.
pub allow-record_failure :
    (b : CircuitBreaker) (seen now at : ℕ)
    → (record_failure b seen now).opened_at ≡ some now
    → allow (record_failure b seen now) at ≡ leb (now + b.recovery_seconds) at
unfolding record_failure allow
allow-record_failure b seen now at h = ground arith
