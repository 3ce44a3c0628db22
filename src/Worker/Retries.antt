-- ===== src/Worker/Retries.antt =====
-- The bounded retries of services/worker.py.
use mlpal_memory.Prelude.{
  ℕ, ◌<◌, String, ◌≡◌, refl, subst, Bool, true, false, none, some, inl, inr, List, [], ◌∷◌, arith,
  find, All, All-append, is_none, Bool-cases, Option-cases,
}
use mlpal_memory.Graph.{Store}
use mlpal_memory.Fold.{Episode}
use mlpal_memory.Fold.Process.{World, process_episode}
use mlpal_memory.Worker.Budget.{RedactsTexts, SameBudgetOr, SameBudget-process_episode}
use mlpal_memory.Worker.{
  State, Attempt, done, model_unavailable, failed, has_id, is_pending, replace, record_failure,
  settle, process_one, process_batch, fetch_unprocessed_ids, drain, attempt_with, insert_episode,
}

-- The budget of an episode: it is dead once its failures reach the limit.
abbrev pub IsBudgeted : ℕ → Episode → Type 0
IsBudgeted max_retries ep = is_none ep.dead_at ≡ true → ep.error_count < max_retries

All-replace :
    (P : Episode → Type 0) (id : String) (new : Episode) (eps : List Episode)
    → P new
    → All P eps
    → All P (replace id new eps)
All-replace P id new [] p h = tt
All-replace P id new (ep ∷ eps) p h = elim (Bool-cases (has_id id ep)) [
  | inl y ↦ rw y (p, All-replace P id new eps p h.1)
  | inr n ↦ rw n (h.0, All-replace P id new eps p h.1)
]

find_head :
    (id : String) (x : Episode) (eps : List Episode) (ep : Episode)
    → has_id id x ≡ true
    → find (has_id id) (x ∷ eps) ≡ some ep
    → x ≡ ep
find_head id x eps ep y found = ground (arith, y, found)

find_tail :
    (id : String) (x : Episode) (eps : List Episode) (ep : Episode)
    → has_id id x ≡ false
    → find (has_id id) (x ∷ eps) ≡ some ep
    → find (has_id id) eps ≡ some ep
find_tail id x eps ep n found = ground (arith, n, found)

All-find :
    (P : Episode → Type 0) (id : String) (eps : List Episode) (ep : Episode)
    → All P eps
    → find (has_id id) eps ≡ some ep
    → P ep
All-find P id [] ep h found = cc
All-find P id (x ∷ eps) ep h found = elim (Bool-cases (has_id id x)) [
  | inl y ↦ subst P (find_head id x eps ep y found) h.0
  | inr n ↦ All-find P id eps ep h.1 (find_tail id x eps ep n found)
]

module _ (max_retries now : ℕ) (attempt : Episode → Store → Attempt) where
  -- A fold that returns leaves the count of failures as it is, or the episode dead.
  abbrev pub KeepsBudget : Type 0
  KeepsBudget =
      (ep ep' : Episode) (s s' : Store)
      → attempt ep s ≡ done ep' s'
      → IsBudgeted max_retries ep
      → IsBudgeted max_retries ep'

  record_failure-IsBudgeted :
      (error : String) (ep : Episode)
      → IsBudgeted max_retries (record_failure max_retries now error ep)
  unfolding record_failure
  record_failure-IsBudgeted error ep alive = ground arith

  process_one-IsBudgeted :
      (id : String) (st : State)
      → KeepsBudget
      → All (IsBudgeted max_retries) st.episodes
      → All (IsBudgeted max_retries) (process_one max_retries now attempt id st).1.episodes
  unfolding process_one settle
  process_one-IsBudgeted id st keeps h = elim (Option-cases (find (has_id id) st.episodes)) [
    | inl absent ↦ rw (absent, process_one) h
    | inr (ep, found) ↦ elim (Bool-cases (is_pending ep)) [
      | inr n ↦ rw (found, process_one, n) h
      | inl y ↦
          rw (found, process_one, y)
            (settled ep (All-find (IsBudgeted max_retries) id st.episodes ep h found)
              (attempt ep st.store) refl)
    ]
  ]
    where
      settled :
          (ep : Episode)
          → IsBudgeted max_retries ep
          → (a : Attempt) → attempt ep st.store ≡ a
          → All (IsBudgeted max_retries) (settle max_retries now id ep a st).1.episodes
      settled ep p (done ep' s') e =
          All-replace (IsBudgeted max_retries) id ep' st.episodes (keeps ep ep' st.store s' e p) h
      settled ep p model_unavailable e = h
      settled ep p (failed error) e =
          All-replace (IsBudgeted max_retries) id (record_failure max_retries now error ep)
            st.episodes (record_failure-IsBudgeted error ep) h

  process_batch-IsBudgeted :
      (ids : List String) (st : State)
      → KeepsBudget
      → All (IsBudgeted max_retries) st.episodes
      → All (IsBudgeted max_retries) (process_batch max_retries now attempt ids st).episodes
  unfolding process_batch
  process_batch-IsBudgeted [] st keeps h = h
  process_batch-IsBudgeted (id ∷ ids) st keeps h =
      let out = process_one max_retries now attempt id st in
      let here = process_one-IsBudgeted id st keeps h in
      elim (Bool-cases out.0) [
        | inl y ↦ rw (y, process_batch) here
        | inr n ↦ rw (n, process_batch) (process_batch-IsBudgeted ids out.1 keeps here)
      ]

  -- A batch, and so a tick, keeps every episode within its budget.
  drain-IsBudgeted :
      (batch : ℕ) (st : State)
      → KeepsBudget
      → All (IsBudgeted max_retries) st.episodes
      → All (IsBudgeted max_retries) (drain max_retries now attempt batch st).episodes
  unfolding drain
  drain-IsBudgeted batch st keeps h =
      process_batch-IsBudgeted (fetch_unprocessed_ids batch st.episodes) st keeps h

KeepsBudget-attempt_with :
    (max_retries now : ℕ) (w : World) (outage : Episode → Bool) (error : String)
    → RedactsTexts w
    → KeepsBudget max_retries now (attempt_with w now outage error)
KeepsBudget-attempt_with max_retries now w outage error texts ep ep' s s' e h alive =
    elim (Option-cases (process_episode w now ep s)) [
      | inl raised ↦ absurd (ground (arith, e, raised))
      | inr ((report, new, store), ran) ↦
          let (count, dead) =
            subst (SameBudgetOr ep) ran (SameBudget-process_episode w now ep s texts) in
          ground (arith, e, ran, count, dead, h, alive)
    ]

-- What happens to the table: an episode is recorded, or the worker ticks, at a clock's reading, with models
-- away for some episodes.
pub data Event : Type 0 where
  arrive : Episode → Event
  tick : ℕ → (Episode → Bool) → String → ℕ → Event

-- The columns of a new row that the writer does not set.
abbrev pub new_row : Episode → Episode
new_row ep = record ep { processed = false; error_count = 0; dead_at = none }

module _ (max_retries : ℕ) (w : World) where
  unfoldable pub on : State → Event → State
  on st (arrive ep) = record st { episodes = (insert_episode (new_row ep) st.episodes).1 }
  on st (tick now outage error batch) =
      drain max_retries now (attempt_with w now outage error) batch st

  abbrev pub on_all : State → List Event → State
  on_all st [] = st
  on_all st (e ∷ es) = on_all (on st e) es

  insert_episode-IsBudgeted :
      (ep : Episode) (table : List Episode)
      → 0 < max_retries
      → All (IsBudgeted max_retries) table
      → All (IsBudgeted max_retries) (insert_episode (new_row ep) table).1
  unfolding insert_episode
  insert_episode-IsBudgeted ep table pos h = elim (Option-cases (find (has_id ep.event_id) table)) [
    | inl new ↦
        rw (new, insert_episode)
          (All-append (IsBudgeted max_retries) table (new_row ep ∷ []) h (λ alive. pos, tt))
    | inr (old, found) ↦ rw (found, insert_episode) h
  ]

-- Whatever arrives and however the worker ticks, an episode that is not dead has failed fewer times than the
-- limit, where the limit is not zero and the vault rewrites only texts.
pub on_all-IsBudgeted :
    (max_retries : ℕ) (w : World) (es : List Event) (st : State)
    → 0 < max_retries
    → RedactsTexts w
    → All (IsBudgeted max_retries) st.episodes
    → All (IsBudgeted max_retries) (on_all max_retries w st es).episodes
unfolding on
on_all-IsBudgeted max_retries w [] st pos texts h = h
on_all-IsBudgeted max_retries w (arrive ep ∷ es) st pos texts h =
    on_all-IsBudgeted max_retries w es (on max_retries w st (arrive ep)) pos texts
      (insert_episode-IsBudgeted max_retries w ep st.episodes pos h)
on_all-IsBudgeted max_retries w (tick now outage error batch ∷ es) st pos texts h =
    on_all-IsBudgeted max_retries w es (on max_retries w st (tick now outage error batch)) pos texts
      (drain-IsBudgeted max_retries now (attempt_with w now outage error) batch st
        (KeepsBudget-attempt_with max_retries now w outage error texts) h)
