-- ===== src/Tests/Resilience.antt =====
-- The breaker and the retries on concrete calls.
use mlpal_memory.Prelude.{
  ℕ, ◌<◌, ◌≤◌, ◌≡◌, zero, suc, ◌↔◌, refl, true, false, some, none, [], ◌∷◌, max,
}
use mlpal_memory.Resilience.{
  Failure, classify, Breaker, breaker, state, allow, record_success, record_failure, Outcome, value,
  raised, Budget, ok, backoff, attempt_loop, with_retries,
}
use mlpal_memory.Resilience.Breaking.{
  ask, succeed, fail, on, on_all, IsCoherent, on_all-IsCoherent, fail_all, fail_all_opens, granted,
  granted-le-one, granted_in_flight,
}

program : Unit {0}
unfolding classify breaker state allow record_success record_failure on backoff attempt_loop
    with_retries
program = tt

on_all-IsCoherent_example :
    IsCoherent (on_all (breaker 2 30) (fail 1 ∷ fail 2 ∷ ask 40 ∷ succeed ∷ []))
on_all-IsCoherent_example = on_all-IsCoherent 2 30 (fail 1 ∷ fail 2 ∷ ask 40 ∷ succeed ∷ [])

two_failures_reach : ((fail_all (breaker 2 30) (1 ∷ 2 ∷ [])).opened_at ≡ none) ↔ (2 < max 1 2)
two_failures_reach = fail_all_opens 2 30 (1 ∷ 2 ∷ [])

abbrev opened : Breaker
opened = record {
  failures_to_open = 2;
  open_seconds = 30;
  failures = 2;
  opened_at = some 2;
  half_open_inflight = false;
}

opened_is : fail_all (breaker 2 30) (1 ∷ 2 ∷ []) ≡ opened
unfolding program
opened_is = refl

-- One probe of three requests is let through.
granted-one : granted opened (10 ∷ 40 ∷ 41 ∷ []) ≡ 1
unfolding program
granted-one = refl

at_most_one : granted opened (10 ∷ 40 ∷ 41 ∷ []) ≤ 1
at_most_one = granted-le-one opened (10 ∷ 40 ∷ 41 ∷ []) refl

abbrev probing : Breaker
probing = record opened { half_open_inflight = true }

probe_shuts_door : granted probing (40 ∷ 4000 ∷ []) ≡ 0
probe_shuts_door = granted_in_flight probing (40 ∷ 4000 ∷ []) refl refl

-- A call that is refused for its rate, then for the server's state, then answers.
abbrev flaky : ℕ → Outcome ℕ
flaky zero = value 0
flaky (suc zero) = raised (Failure.http_status 429)
flaky (suc (suc zero)) = raised (Failure.http_status 503)
flaky (suc (suc (suc n))) = value 7

abbrev three : Budget
three = record { attempts = 3; base_delay = 1; max_delay = 8 }

flaky_reply : (with_retries three flaky (λ n. n) 0 (some (breaker 2 30))).reply ≡ ok 7
unfolding program
flaky_reply = refl

breaker-closed : (allow 0 (breaker 2 30)).0 ≡ true
unfolding program
breaker-closed = refl
