-- ===== src/Resilience/Breaking.antt =====
-- The states of `Breaker` of services/resilience.py, over sequences of events.
use mlpal_memory.Prelude.{
  ℕ, suc, ◌+◌, ◌≤◌, ◌<◌, ◌≡◌, ◌↔◌, refl, true, none, inl, inr, List, [], ◌∷◌, map, arith, max,
  length, is_some, Option-cases, if◌then◌else◌,
}
use mlpal_memory.Resilience.{Breaker, breaker, allow, record_success, record_failure}

-- What callers do to a breaker, with the clock's reading.
pub data Event : Type 0 where
  ask : ℕ → Event
  succeed : Event
  fail : ℕ → Event

unfoldable pub on : Breaker → Event → Breaker
on b (ask now) = (allow now b).1
on b succeed = record_success b
on b (fail now) = record_failure now b

abbrev pub on_all : Breaker → List Event → Breaker
on_all b [] = b
on_all b (e ∷ es) = on_all (on b e) es

-- It is closed exactly below the limit of consecutive failures, and a probe is in flight only while it is not.
pub record IsCoherent (b : Breaker) : Type 0 where
  pub limit : 0 < b.failures_to_open
  pub closed_below : b.opened_at ≡ none → b.failures < b.failures_to_open
  pub open_from : is_some b.opened_at ≡ true → b.failures_to_open ≤ b.failures
  pub probing : b.half_open_inflight ≡ true → is_some b.opened_at ≡ true

on-IsCoherent : (b : Breaker) (e : Event) → IsCoherent b → IsCoherent (on b e)
unfolding on allow record_success record_failure
on-IsCoherent b (ask now) h = record {
  limit = ground (arith, h.limit);
  closed_below = λ p. ground arith;
  open_from = λ p. ground arith;
  probing = λ p. ground arith;
}
on-IsCoherent b succeed h = record {
  limit = h.limit;
  closed_below = λ p. h.limit;
  open_from = λ p. cc;
  probing = λ p. cc;
}
on-IsCoherent b (fail now) h = record {
  limit = ground (arith, h.limit);
  closed_below = λ p. ground arith;
  open_from = λ p. ground arith;
  probing = λ p. ground arith;
}

-- From a new breaker, whatever happens: it is closed exactly while fewer failures than the limit followed
-- one another, and a probe is in flight only while it is not closed.
pub on_all-IsCoherent :
    (failures_to_open open_seconds : ℕ) (es : List Event)
    → IsCoherent (on_all (breaker failures_to_open open_seconds) es)
unfolding breaker
on_all-IsCoherent failures_to_open open_seconds es = go es _ (record {
  limit = omega arith;
  closed_below = λ p. omega arith;
  open_from = λ p. cc;
  probing = λ p. cc;
})
  where
    go : (es : List Event) (b : Breaker) → IsCoherent b → IsCoherent (on_all b es)
    go [] b h = h
    go (e ∷ es) b h = go es (on b e) (on-IsCoherent b e h)

-- The breaker after failures at the given times, and nothing else.
abbrev pub fail_all : Breaker → List ℕ → Breaker
fail_all b ts = on_all b (map fail ts)

counts-fail_all :
    (ts : List ℕ) (b : Breaker)
    → ((fail_all b ts).failures ≡ b.failures + length ts)
      × ((fail_all b ts).failures_to_open ≡ b.failures_to_open)
unfolding on record_failure
counts-fail_all [] b = (omega arith, refl)
counts-fail_all (t ∷ ts) b =
    let (n, limit) = counts-fail_all ts (record_failure t b) in (ground arith, ground arith)

-- Consecutive failures open a new breaker exactly when they reach the limit, which is at least one.
pub fail_all_opens :
    (failures_to_open open_seconds : ℕ) (ts : List ℕ)
    → ((fail_all (breaker failures_to_open open_seconds) ts).opened_at ≡ none)
      ↔ (length ts < max 1 failures_to_open)
unfolding breaker
fail_all_opens failures_to_open open_seconds ts =
    let b = breaker failures_to_open open_seconds in
    let c = on_all-IsCoherent failures_to_open open_seconds (map fail ts) in
    let (n, limit) = counts-fail_all ts b in
    (
      λ h. omega (arith, c.closed_below h),
      λ few. elim (Option-cases (fail_all b ts).opened_at) [
        | inl shut ↦ shut
        | inr (t, opened) ↦ absurd (omega (arith, c.open_from (rw opened)))
      ],
    )

-- How many of the requests at these times are let through, when no result comes in between.
abbrev pub granted : Breaker → List ℕ → ℕ
granted b [] = 0
granted b (t ∷ ts) = let rest = granted (allow t b).1 ts in if (allow t b).0 then suc rest else rest

-- While a probe is in flight nothing is let through, at any time: only a recorded result ends that, so a
-- probe whose task is cancelled, which records none, closes the way for good.
pub granted_in_flight :
    (b : Breaker) (ts : List ℕ)
    → is_some b.opened_at ≡ true
    → b.half_open_inflight ≡ true
    → granted b ts ≡ 0
unfolding allow
granted_in_flight b [] o f = refl
granted_in_flight b (t ∷ ts) o f = ground (arith, granted_in_flight b ts)

-- An open breaker lets at most one request through until a result is recorded, whatever the times.
pub granted-le-one : (b : Breaker) (ts : List ℕ) → is_some b.opened_at ≡ true → granted b ts ≤ 1
unfolding allow
granted-le-one b [] o = omega arith
granted-le-one b (t ∷ ts) o =
    ground
      (arith, granted-le-one b ts, granted_in_flight (record b { half_open_inflight = true }) ts)
