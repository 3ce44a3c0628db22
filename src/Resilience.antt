-- ===== src/Resilience.antt =====
-- services/resilience.py: the circuit breaker and the bounded retries of the model clients. A time is a
-- number of time units of the monotonic clock, and the clock's reading is an argument. Log lines are left
-- out; the counters of the metrics registry are what `Report` says.
pub mod Breaking
pub mod Retrying
use mlpal_memory.Prelude.{
  ℕ, zero, suc, ◌+◌, ◌-◌, ◌*◌, ◌^◌, Bool, true, false, ◌&&◌, not, Option, none, some, List, [], ◌∷◌,
  ◌==◌, leb, is_none, any, min, max, if◌then◌else◌,
}

-- What a call of httpx raises: TimeoutException, HTTPStatusError with its code, another TransportError,
-- any other Exception.
pub data Failure : Type 0 where
  timeout transport other : Failure
  http_status : ℕ → Failure

-- The reasons of `ModelUnavailable`.
pub data Reason : Type 0 where
  timeout status_429 status_5xx transport error breaker_open exhausted : Reason

-- RETRYABLE_STATUS
abbrev pub retryable_status : List ℕ
retryable_status = 429 ∷ 500 ∷ 502 ∷ 503 ∷ 504 ∷ []

unfoldable pub classify : Failure → Option Reason
classify Failure.timeout = some Reason.timeout
classify (Failure.http_status code) =
    if code == 429
    then some Reason.status_429
    else if any (λ c. code == c) retryable_status
    then some Reason.status_5xx
    else none
classify Failure.transport = some Reason.transport
classify Failure.other = none

pub record Breaker : Type 0 where
  pub failures_to_open : ℕ
  pub open_seconds : ℕ
  pub failures : ℕ
  pub opened_at : Option ℕ
  pub half_open_inflight : Bool

-- `Breaker.__init__`
unfoldable pub breaker : ℕ → ℕ → Breaker
breaker failures_to_open open_seconds = record {
  failures_to_open = max 1 failures_to_open;
  open_seconds = open_seconds;
  failures = 0;
  opened_at = none;
  half_open_inflight = false;
}

pub data State : Type 0 where
  closed half_open open_ : State

-- The property `state` at a reading of the clock: `now - opened_at >= open_seconds`.
unfoldable pub state : ℕ → Breaker → State
state now b = elim b.opened_at [
  | none ↦ closed
  | some t ↦ if leb (t + b.open_seconds) now then half_open else open_
]

-- The half-open probe is let through if none is in flight.
abbrev pub probe : Breaker → Bool × Breaker
probe b =
    if b.half_open_inflight then (false, b) else (true, record b { half_open_inflight = true })

unfoldable pub allow : ℕ → Breaker → Bool × Breaker
unfolding state
allow now b = elim (state now b) [ closed ↦ (true, b) | half_open ↦ probe b | open_ ↦ (false, b) ]

unfoldable pub record_success : Breaker → Breaker
record_success b = record b { failures = 0; opened_at = none; half_open_inflight = false }

-- It opens at the limit; a failed probe opens it for another window.
unfoldable pub record_failure : ℕ → Breaker → Breaker
record_failure now b =
    let b' : Breaker = record b { failures = b.failures + 1; half_open_inflight = false } in
    if is_none b.opened_at && leb b.failures_to_open (b.failures + 1)
    then record b' { opened_at = some now }
    else if not (is_none b.opened_at)
    then record b' { opened_at = some now }
    else b'

-- What an attempt gives. A cancelled task raises CancelledError, which is no Exception.
pub data Outcome {ℓ} (A : Type ℓ) : Type ℓ where
  value : A → Outcome A
  raised : Failure → Outcome A
  cancelled : Outcome A

-- One call, with the breaker to itself: what other tasks do to a shared breaker while it sleeps is left out.

-- How `with_retries` ends.
pub data Reply {ℓ} (A : Type ℓ) : Type ℓ where
  ok : A → Reply A
  unavailable : Reason → Reply A
  task_cancelled : Reply A

-- The reply, the breaker, the attempts made, and the delays slept before jitter.
pub record Report {ℓ} (A : Type ℓ) : Type ℓ where
  pub reply : Reply A
  pub breaker : Option Breaker
  pub attempts : ℕ
  pub delays : List ℕ

abbrev pub note_success : Option Breaker → Option Breaker
note_success none = none
note_success (some b) = some (record_success b)

abbrev pub note_failure : ℕ → Option Breaker → Option Breaker
note_failure now none = none
note_failure now (some b) = some (record_failure now b)

-- `min(max_delay, base_delay * 2 ** (attempt - 1))`
unfoldable pub backoff : ℕ → ℕ → ℕ → ℕ
backoff base_delay max_delay attempt = min max_delay (base_delay * 2 ^ (attempt - 1))

-- The settings of one call: `attempts`, `base_delay`, `max_delay`.
pub record Budget : Type 0 where
  pub attempts : ℕ
  pub base_delay : ℕ
  pub max_delay : ℕ

module _ {ℓ} {A : Type ℓ} (budget : Budget) (call : ℕ → Outcome A) (clock : ℕ → ℕ) where
  -- The loop on the rounds left; `call` and `clock` say what attempt number n gives, and when.
  unfoldable pub attempt_loop : ℕ → ℕ → Option Breaker → Report A
  attempt_loop zero attempt b = record {
    reply = unavailable Reason.exhausted;
    breaker = b;
    attempts = 0;
    delays = [];
  }
  attempt_loop (suc rounds) attempt b =
      let rest = attempt_loop rounds (attempt + 1) b in
      elim (call attempt) [
        | value a ↦ record { reply = ok a; breaker = note_success b; attempts = 1; delays = [] }
        | cancelled ↦ record { reply = task_cancelled; breaker = b; attempts = 1; delays = [] }
        | raised exc ↦ elim (classify exc) [
          | none ↦ record {
            reply = unavailable Reason.error;
            breaker = note_failure (clock attempt) b;
            attempts = 1;
            delays = [];
          }
          | some reason ↦
              if leb budget.attempts attempt
              then record {
                reply = unavailable reason;
                breaker = note_failure (clock attempt) b;
                attempts = 1;
                delays = [];
              }
              else record rest {
                attempts = rest.attempts + 1;
                delays = backoff budget.base_delay budget.max_delay attempt ∷ rest.delays;
              }
        ]
      ]

  abbrev pub start : Bool → Option Breaker → Report A
  start false b = record {
    reply = unavailable Reason.breaker_open;
    breaker = b;
    attempts = 0;
    delays = [];
  }
  start true b = attempt_loop (max 1 budget.attempts) 1 b

  unfoldable pub with_retries : ℕ → Option Breaker → Report A
  with_retries now none = start true none
  with_retries now (some b) = let (let_through, b') = allow now b in start let_through (some b')
