-- ===== src/Sdk/Transport.antt =====
-- src/nilscript/sdk/transport.py: one request with bounded retries behind the circuit breaker.
-- The HTTP client is the argument `env`: for each attempt the clock readings that the breaker makes
-- and the client's answer. The length of a pause (a float) is not modelled, the pause is.
pub mod Requests
use nilscript.Base.{
  ℕ, zero, suc, ◌+◌, Bool, false, true, ◌||◌, ◌&&◌, Option, none, some, List, [], ◌∷◌, ◌++◌, ltb,
  leb, eqb, if◌then◌else◌,
}
use nilscript.Sdk.Breaker.{CircuitBreaker, allow, record_success, record_failure}

-- `response.json()`: an object, another JSON value, or text that is no JSON.
pub data Payload (P : Type 0) : Type 0 where
  object : P → Payload P
  other_json : Payload P
  not_json : Payload P

pub data Answer (P : Type 0) : Type 0 where
  timeout transport_fault : Answer P
  response : ℕ → Payload P → Answer P

-- One turn of the loop as the outside world plays it: the reading of `allow`, the answer, and the
-- two readings of `record_failure`.
pub record Turn (P : Type 0) : Type 0 where
  pub at : ℕ
  pub answer : Answer P
  pub seen : ℕ
  pub now : ℕ

pub data Error : Type 0 where
  circuit_open timed_out transport_failure not_an_object json_error no_attempt : Error
  http_status our_bug : ℕ → Error

pub data Result (P : Type 0) : Type 0 where
  ok : P → Result P
  err : Error → Result P

-- What the loop does to the outside, in order: the attempts that it pauses before or makes.
pub data Effect : Type 0 where
  pause request : ℕ → Effect

-- `RETRIABLE_STATUS`
abbrev pub retriable_status : ℕ → Bool
retriable_status s = eqb s 429 || eqb s 500 || eqb s 502 || eqb s 503 || eqb s 504

-- `response.is_client_error` of httpx: a status of 4xx.
abbrev pub is_client_error : ℕ → Bool
is_client_error s = leb 400 s && ltb s 500

pub record Outcome (P : Type 0) : Type 0 where
  pub result : Result P
  pub breaker : CircuitBreaker
  pub effects : List Effect

-- What one answer means: a failure to retry with its error, or the end of the request. `finish
-- true r` records a success first, `finish false r` records nothing.
pub data Verdict (P : Type 0) : Type 0 where
  retry : Error → Verdict P
  finish : Bool → Result P → Verdict P

-- The pause stands before every attempt but the first.
unfoldable pub attempt_effects : ℕ → List Effect
attempt_effects attempt =
    if ltb 0 attempt then pause attempt ∷ request attempt ∷ [] else request attempt ∷ []

module _ {P : Type 0} where
  unfoldable pub payload_result : Payload P → Result P
  payload_result (object p) = ok p
  payload_result other_json = err not_an_object
  payload_result not_json = err json_error

  unfoldable pub judge : Answer P → Verdict P
  unfolding payload_result
  judge timeout = retry timed_out
  judge transport_fault = retry transport_failure
  judge (response s body) =
      if retriable_status s
      then retry (http_status s)
      else if is_client_error s
      then finish false (err (our_bug s))
      else finish true (payload_result body)

  abbrev pub outcome : Result P → CircuitBreaker → Outcome P
  outcome r b = record { result = r; breaker = b; effects = [] }

  abbrev pub after : List Effect → Outcome P → Outcome P
  after before o = record o { effects = before ++ o.effects }

  -- The rounds that are left, the number of this attempt, and the error of the last one.
  unfoldable pub attempts : ℕ → ℕ → Error → CircuitBreaker → (ℕ → Turn P) → Outcome P
  unfolding attempt_effects
  attempts zero attempt last b env = outcome (err last) b
  attempts (suc rounds) attempt last b env = elim (allow b (env attempt).at) [
    | false ↦ outcome (err circuit_open) b
    | true ↦ after (attempt_effects attempt) (elim (judge (env attempt).answer) [
      | finish good r ↦ outcome r (if good then record_success b else b)
      | retry e ↦
          attempts rounds (attempt + 1) e (record_failure b (env attempt).seen (env attempt).now)
            env
    ])
  ]

  -- `_request`
  unfoldable pub send : ℕ → CircuitBreaker → (ℕ → Turn P) → Outcome P
  unfolding attempts
  send max_retries b env = attempts (max_retries + 1) 0 no_attempt b env
