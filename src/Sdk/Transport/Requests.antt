-- ===== src/Sdk/Transport/Requests.antt =====
-- How often a request is sent, what is retried, and when it succeeds.
use native.Mathlib.Nat.{zero-add}
use nilscript.Base.{
  ℕ, zero, suc, ◌+◌, ◌≤◌, ◌<◌, ◌≡◌, ◌⊎◌, inl, inr, Bool-cases, ap, refl, Bool, false, true, ◌||◌,
  none, List, [], ◌∷◌, eqb, arith,
}
use nilscript.Sdk.Breaker.{CircuitBreaker, allow, record_success, record_failure}
use nilscript.Sdk.Transport.{
  object, Answer, timeout, transport_fault, response, other_json, not_json, Turn, Error, no_attempt,
  Result, ok, Effect, pause, request, retriable_status, is_client_error, Outcome, Verdict, retry,
  finish, judge, attempts, send,
}

abbrev pub count_requests : List Effect → ℕ
count_requests [] = 0
count_requests (pause i ∷ es) = count_requests es
count_requests (request i ∷ es) = suc (count_requests es)

abbrev pub requested : ℕ → List Effect → Bool
requested j [] = false
requested j (pause i ∷ es) = requested j es
requested j (request i ∷ es) = eqb i j || requested j es

abbrev pub is_retry : {P : Type 0} → Verdict P → Bool
is_retry (retry e) = true
is_retry (finish good r) = false

Verdict-cases :
    {P : Type 0} (v : Verdict P)
    → ((e : Error) × (v ≡ retry e)) ⊎ ((good : Bool) × (r : Result P) × (v ≡ finish good r))
Verdict-cases (retry e) = inl (e, refl)
Verdict-cases (finish good r) = inr (good, r, refl)

-- The one way to end with an answer.
judge-ok :
    {P : Type 0} (ans : Answer P) (good : Bool) (p : P)
    → judge ans ≡ finish good (ok p)
    → (status : ℕ) × (ans ≡ response status (object p))
      × (retriable_status status ≡ false)
      × (is_client_error status ≡ false)
      × (good ≡ true)
unfolding judge
judge-ok timeout good p h = absurd (cc)
judge-ok transport_fault good p h = absurd (cc)
judge-ok (response s (object q)) good p h =
    (s, ground arith, ground arith, ground arith, ground arith)
judge-ok (response s other_json) good p h = absurd (ground arith)
judge-ok (response s not_json) good p h = absurd (ground arith)

module _ {P : Type 0} (env : ℕ → Turn P) where
  -- The breaker after a failed attempt `a`.
  abbrev failed : ℕ → CircuitBreaker → CircuitBreaker
  failed a b = record_failure b (env a).seen (env a).now

  attempts-le :
      (n a : ℕ) (last : Error) (b : CircuitBreaker)
      → count_requests (attempts n a last b env).effects ≤ n
  unfolding attempts
  attempts-le zero a last b = omega arith
  attempts-le (suc n) a last b = elim (Verdict-cases (judge (env a).answer)) [
    | inl (e, j) ↦ ground (arith, attempts-le n (a + 1) e (failed a b))
    | inr (good, r, j) ↦ ground arith
  ]

  attempts-retried :
      (n a i : ℕ) (last : Error) (b : CircuitBreaker)
      → a ≤ i
      → requested (suc i) (attempts n a last b env).effects ≡ true
      → is_retry (judge (env i).answer) ≡ true
  unfolding attempts
  attempts-retried zero a i last b le h = cc
  attempts-retried (suc n) a i last b le h = elim (Verdict-cases (judge (env a).answer)) [
    | inl (e, j) ↦ elim (Bool-cases (eqb a i)) [
      | inl same ↦
          let q : a ≡ i = ground arith in ground (arith, ap (λ (k : ℕ). judge (env k).answer) q)
      | inr other ↦ ground (arith, attempts-retried n (a + 1) i e (failed a b))
    ]
    | inr (good, r, j) ↦ ground arith
  ]

  -- What holds of a request that was answered.
  pub record Answered (n : ℕ) (p : P) (o : Outcome P) : Type 0 where
    pub attempt : ℕ
    pub within : attempt < n
    pub status : ℕ
    pub answered : (env attempt).answer ≡ response status (object p)
    pub final : retriable_status status ≡ false
    pub accepted : is_client_error status ≡ false
    pub closed : o.breaker.opened_at ≡ none
    pub reset : o.breaker.consecutive_failures ≡ 0

  attempts-Answered :
      (n a : ℕ) (last : Error) (b : CircuitBreaker) (p : P)
      → (attempts n a last b env).result ≡ ok p
      → Answered (a + n) p (attempts n a last b env)
  unfolding attempts record_success
  attempts-Answered zero a last b p h = cc
  attempts-Answered (suc n) a last b p h = elim (Bool-cases (allow b (env a).at)) [
    | inr blocked ↦ absurd (ground arith)
    | inl allowed ↦ elim (Verdict-cases (judge (env a).answer)) [
      | inl (e, j) ↦
          let k = attempts-Answered n (a + 1) e (failed a b) p (ground arith) in
          record {
            attempt = k.attempt;
            within = omega (arith, k.within);
            status = k.status;
            answered = k.answered;
            final = k.final;
            accepted = k.accepted;
            closed = ground (arith, k.closed);
            reset = ground (arith, k.reset);
          }
      | inr (good, r, j) ↦
          let (s, answered, final, accepted, counted) =
            judge-ok (env a).answer good p (ground arith) in
          record {
            attempt = a;
            within = omega arith;
            status = s;
            answered = answered;
            final = final;
            accepted = accepted;
            closed = ground (arith, counted);
            reset = ground (arith, counted);
          }
    ]
  ]

  -- Whatever the client answers, one request is sent at most `max_retries + 1` times.
  pub count_requests-send-le :
      (max_retries : ℕ) (b : CircuitBreaker)
      → count_requests (send max_retries b env).effects ≤ max_retries + 1
  unfolding send
  count_requests-send-le m b = attempts-le (m + 1) 0 no_attempt b

  -- An attempt follows attempt `i` only if the answer to `i` was a timeout, a transport fault or a
  -- retriable status.
  pub requested-send-is_retry :
      (max_retries i : ℕ) (b : CircuitBreaker)
      → requested (suc i) (send max_retries b env).effects ≡ true
      → is_retry (judge (env i).answer) ≡ true
  unfolding send
  requested-send-is_retry m i b h = attempts-retried (m + 1) 0 i no_attempt b (omega arith) h

  -- A request that returns a payload got it from one of its at most `max_retries + 1` attempts, by
  -- a response whose status is neither retriable nor 4xx, and leaves the breaker closed with its
  -- count of failures at 0.
  pub send-Answered :
      (max_retries : ℕ) (b : CircuitBreaker) (p : P)
      → (send max_retries b env).result ≡ ok p
      → Answered (max_retries + 1) p (send max_retries b env)
  unfolding send
  send-Answered m b p h = rw zero-add at (attempts-Answered (m + 1) 0 no_attempt b p h)
