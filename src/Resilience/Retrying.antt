-- ===== src/Resilience/Retrying.antt =====
-- What `with_retries` of services/resilience.py does with the outcomes of its attempts.
use mlpal_memory.Prelude.{
  ℕ, zero, suc, ◌+◌, ◌<◌, ◌≡◌, Bool, true, false, Option, none, some, List, [], ◌∷◌, ◌⊎◌, arith,
  or_else, is_some,
}
use mlpal_memory.Resilience.{
  Reason, Breaker, classify, Outcome, value, raised, cancelled, Reply, ok, unavailable,
  task_cancelled, Report, Budget, note_success, note_failure, attempt_loop, allow, with_retries,
  backoff,
}

-- A failure after which another attempt is worth making.
abbrev pub is_retryable {ℓ} : {A : Type ℓ} → Outcome A → Bool
is_retryable (value a) = false
is_retryable (raised exc) = is_some (classify exc)
is_retryable cancelled = false

-- What the caller gets if this outcome is the last.
abbrev pub verdict {ℓ} : {A : Type ℓ} → Outcome A → Reply A
verdict (value a) = ok a
verdict (raised exc) = unavailable (or_else (classify exc) Reason.error)
verdict cancelled = task_cancelled

-- What the breaker is told of it.
abbrev pub noted {ℓ} : {A : Type ℓ} → ℕ → Outcome A → Option Breaker → Option Breaker
noted now (value a) b = note_success b
noted now (raised exc) b = note_failure now b
noted now cancelled b = b

-- The delays after `n` failures, from the attempt of the number on.
abbrev pub backoffs : Budget → ℕ → ℕ → List ℕ
backoffs budget first zero = []
backoffs budget first (suc n) =
    backoff budget.base_delay budget.max_delay first ∷ backoffs budget (first + 1) n

module _ {ℓ} {A : Type ℓ} (budget : Budget) (call : ℕ → Outcome A) (clock : ℕ → ℕ) where
  -- The report of attempts `first`, `first + 1`, … of which number `first + i` is the last: all before it
  -- failed in a way that is worth another attempt, it did not or there is no round left, the reply is its
  -- verdict, the breaker is told of it and of nothing else, and each retry slept its backoff.
  pub record IsDecided (rounds first : ℕ) (b : Option Breaker) (r : Report A) (i : ℕ) : Type ℓ where
    pub attempts : r.attempts ≡ i + 1
    pub within : i < rounds
    pub retried : (j : ℕ) → j < i → is_retryable (call (first + j)) ≡ true
    pub stopped : (is_retryable (call (first + i)) ≡ false) ⊎ (i + 1 ≡ rounds)
    pub reply : r.reply ≡ verdict (call (first + i))
    pub breaker : r.breaker ≡ noted (clock (first + i)) (call (first + i)) b
    pub delays : r.delays ≡ backoffs budget first i

  -- The report of a loop that stops at its first attempt.
  abbrev last_report : ℕ → Option Breaker → Report A
  last_report first b = record {
    reply = verdict (call first);
    breaker = noted (clock first) (call first) b;
    attempts = 1;
    delays = [];
  }

  abbrev Decided : ℕ → ℕ → Option Breaker → Type ℓ
  Decided rounds first b =
      (i : ℕ) × IsDecided rounds first b (attempt_loop budget call clock rounds first b) i

-- What the breaker becomes when it is asked.
abbrev pub asked : ℕ → Option Breaker → Option Breaker
asked now none = none
asked now (some b) = some (allow now b).1

-- A breaker that lets nothing through costs no attempt.
pub with_retries_refused {ℓ} :
    {A : Type ℓ} (budget : Budget) (call : ℕ → Outcome A) (clock : ℕ → ℕ) (now : ℕ) (b : Breaker)
    → (allow now b).0 ≡ false
    → with_retries budget call clock now (some b) ≡ record {
      reply = unavailable Reason.breaker_open;
      breaker = some b;
      attempts = 0;
      delays = [];
    }
unfolding with_retries allow
with_retries_refused budget call clock now b h = ground arith

-- An open breaker refused the call, at no attempt and with no change.
abbrev pub IsRefused {ℓ} : {A : Type ℓ} → ℕ → Option Breaker → Report A → Type ℓ
IsRefused now b r =
    (k : Breaker) × (b ≡ some k)
    × ((allow now k).0 ≡ false)
    × (r ≡ record {
      reply = unavailable Reason.breaker_open;
      breaker = some k;
      attempts = 0;
      delays = [];
    })
