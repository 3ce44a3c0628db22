-- ===== src/Worker/Progress.antt =====
-- Whatever the table holds, an episode does not stay pending: services/worker.py.
use mlpal_memory.Prelude.{
  ℕ, zero, suc, ◌+◌, ◌≤◌, String, Bool, ◌≡◌, refl, sym, ap, ◌∙◌, true, false, none, some, Option,
  inl, inr, List, [], ◌∷◌, ◌⊎◌, arith, find, leb, Bool-cases, Option-cases,
}
use mlpal_memory.Graph.{Store}
use mlpal_memory.Fold.{Episode}
use mlpal_memory.Fold.Process.{World, Report, process_episode}
use mlpal_memory.Fold.Process.Settles.{Settled, by_gate, by_fold, process_episode_settles}
use mlpal_memory.Worker.{
  State, Attempt, done, model_unavailable, failed, has_id, is_pending, replace, record_failure,
  settle, process_one, attempt_with,
}
use mlpal_memory.Worker.Death.{retry}

abbrev waits : Option Episode → Bool
waits none = false
waits (some ep) = is_pending ep

-- The episode stands in the table and is pending.
abbrev pub is_waiting : String → State → Bool
is_waiting id st = waits (find (has_id id) st.episodes)

-- A replaced row is the one that is found, if any is.
found_replaced :
    (id : String) (new : Episode) (eps : List Episode)
    → (find (has_id id) (replace id new eps) ≡ none)
      ⊎ (find (has_id id) (replace id new eps) ≡ some new)
found_replaced id new [] = inl refl
found_replaced id new (x ∷ eps) = elim (Bool-cases (has_id id x)) [
  | inl y ↦ elim (Bool-cases (has_id id new)) [
    | inl own ↦ inr (rw (y, own) refl)
    | inr other ↦ rw (y, other) (found_replaced id new eps)
  ]
  | inr n ↦ rw (n, n) (found_replaced id new eps)
]

quiet_replaced :
    (id : String) (new : Episode) (st : State) (s : Store)
    → is_pending new ≡ false
    → is_waiting id (record st { episodes = replace id new st.episodes; store = s }) ≡ false
quiet_replaced id new st s h = elim (found_replaced id new st.episodes) [
  | inl n ↦ rw n refl
  | inr e ↦ rw e h
]

-- A fold that returned leaves its episode processed.
processed-Settled :
    (w : World) (now : ℕ) (ep : Episode) (s : Store) (out : Report × Episode × Store)
    → Settled w now ep s out
    → out.1.processed ≡ true
processed-Settled w now ep s _ (by_gate scope r ep' own verdict) = refl
processed-Settled w now ep s _ (by_fold scope ep' t own clear ran) = refl

-- A fold that does not wait for a model: it returns and has processed its episode, or it raises.
abbrev Ends : Attempt → Type 0
Ends (done ep s) = ep.processed ≡ true
Ends model_unavailable = ⊥
Ends (failed error) = Unit

module _ (max_retries now : ℕ) (attempt : Episode → Store → Attempt) (id : String) where
  -- It is settled, or the attempts left reach the limit.
  IsTried : ℕ → State → Type 0
  IsTried n st =
      (is_waiting id st ≡ false)
      ⊎ ((ep : Episode) × (find (has_id id) st.episodes ≡ some ep)
          × (max_retries ≤ ep.error_count + n)
          × (1 ≤ n))

  quiet_step :
      (st : State) → is_waiting id st ≡ false → (process_one max_retries now attempt id st).1 ≡ st
  unfolding process_one
  quiet_step st h = elim (Option-cases (find (has_id id) st.episodes)) [
    | inl n ↦ rw (n, process_one) refl
    | inr (ep, found) ↦ let quiet = ap waits (sym found) ∙ h in rw (found, process_one, quiet) refl
  ]

  IsTried-failure :
      (error : String) (n : ℕ) (st : State) (ep : Episode)
      → max_retries ≤ ep.error_count + suc n
      → IsTried n (record st {
        episodes = replace id (record_failure max_retries now error ep) st.episodes;
      })
  unfolding record_failure IsTried
  IsTried-failure error n st ep enough =
      let new = record_failure max_retries now error ep in
      elim (found_replaced id new st.episodes) [
        | inl n ↦ inl (rw n refl)
        | inr e ↦ elim (Bool-cases (leb max_retries (ep.error_count + 1))) [
          | inl y ↦ inl (rw e (ground (arith, y)))
          | inr m ↦ inr (new, e, ground (arith, m, enough), ground (arith, m, enough))
        ]
      ]

  IsTried-settle :
      (n : ℕ) (st : State) (ep : Episode) (a : Attempt)
      → max_retries ≤ ep.error_count + suc n
      → Ends a
      → IsTried n (settle max_retries now id ep a st).1
  unfolding settle IsTried
  IsTried-settle n st ep (done ep' s') enough h =
      inl (quiet_replaced id ep' st s' (ground (arith, h)))
  IsTried-settle n st ep model_unavailable enough h = absurd h
  IsTried-settle n st ep (failed error) enough h = IsTried-failure error n st ep enough

  IsTried-process_one :
      (n : ℕ) (st : State)
      → ((ep : Episode) (s : Store) → Ends (attempt ep s))
      → IsTried (suc n) st
      → IsTried n (process_one max_retries now attempt id st).1
  unfolding process_one IsTried
  IsTried-process_one n st ends (inl quiet) = inl (ap (is_waiting id) (quiet_step st quiet) ∙ quiet)
  IsTried-process_one n st ends (inr (ep, found, enough, some_left)) =
      elim (Bool-cases (is_pending ep)) [
        | inl y ↦
            rw (found, process_one, y)
              (IsTried-settle n st ep (attempt ep st.store) enough (ends ep st.store))
        | inr m ↦
            let quiet = ap waits found ∙ m in inl (ap (is_waiting id) (quiet_step st quiet) ∙ quiet)
      ]

  settles_in :
      (error : String) (n : ℕ) (st : State)
      → ((ep : Episode) (s : Store) → Ends (attempt ep s))
      → IsTried n st
      → is_waiting id (retry max_retries now attempt id error n st) ≡ false
  unfolding IsTried
  settles_in error zero st ends (inl quiet) = quiet
  settles_in error zero st ends (inr (ep, found, enough, some_left)) =
      absurd (omega (arith, some_left))
  settles_in error (suc n) st ends h =
      settles_in error n (process_one max_retries now attempt id st).1 ends
        (IsTried-process_one n st ends h)

started :
    (max_retries now : ℕ) (attempt : Episode → Store → Attempt) (id : String) (n : ℕ) (st : State)
    → max_retries ≤ suc n
    → IsTried max_retries now attempt id (suc n) st
unfolding IsTried
started max_retries now attempt id n st enough =
    elim (Option-cases (find (has_id id) st.episodes)) [
      | inl h ↦ inl (ap waits h)
      | inr (ep, h) ↦ inr (ep, h, omega (arith, enough), omega arith)
    ]

Ends-attempt_with :
    (w : World) (now : ℕ) (error : String) (ep : Episode) (s : Store)
    → Ends (attempt_with w now (λ e. false) error ep s)
Ends-attempt_with w now error ep s = elim (Option-cases (process_episode w now ep s)) [
  | inl raised ↦ rw raised tt
  | inr (out, ran) ↦
      rw ran (processed-Settled w now ep s out (process_episode_settles w now ep s out ran))
]

-- While no model is away, an episode is not pending any more once the worker tried it as often as the limit
-- says, and at least once: it was processed, or it is dead, whatever the world and the tables hold.
pub retry_settles :
    (max_retries now n : ℕ) (w : World) (error id : String) (st : State)
    → max_retries ≤ suc n
    → is_waiting id
        (retry max_retries now (attempt_with w now (λ ep. false) error) id error (suc n) st)
      ≡ false
retry_settles max_retries now n w error id st enough =
    settles_in max_retries now (attempt_with w now (λ ep. false) error) id error (suc n) st
      (Ends-attempt_with w now error)
      (started max_retries now (attempt_with w now (λ ep. false) error) id n st enough)
