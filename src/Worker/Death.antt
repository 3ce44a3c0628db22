-- ===== src/Worker/Death.antt =====
-- An episode that always fails is dead after as many attempts as the limit: services/worker.py.
use mlpal_memory.Prelude.{
  ℕ, zero, suc, ◌+◌, ◌≤◌, ◌<◌, String, ◌≡◌, refl, ap, ◌∙◌, true, false, some, inl, inr, List, [],
  ◌∷◌, ◌⊎◌, arith, find, leb, is_none, is_some, Bool-cases,
}
use mlpal_memory.Graph.{Store}
use mlpal_memory.Fold.{Episode}
use mlpal_memory.Worker.{
  State, Attempt, failed, has_id, is_pending, replace, record_failure, settle, process_one,
}

has_id-find :
    (id : String) (eps : List Episode) (ep : Episode)
    → find (has_id id) eps ≡ some ep
    → has_id id ep ≡ true
has_id-find id [] ep h = cc
has_id-find id (x ∷ eps) ep h = ground (arith, h, has_id-find id eps ep)

find-replace :
    (id : String) (new : Episode) (eps : List Episode) (ep : Episode)
    → has_id id new ≡ true
    → find (has_id id) eps ≡ some ep
    → find (has_id id) (replace id new eps) ≡ some new
find-replace id new [] ep p h = cc
find-replace id new (x ∷ eps) ep p h = elim (Bool-cases (has_id id x)) [
  | inl y ↦ rw (y, p) refl
  | inr n ↦ rw (n, n) (find-replace id new eps ep p (ground (arith, h, n)))
]

module _ (max_retries now : ℕ) (attempt : Episode → Store → Attempt) (id error : String) where
  abbrev pub retry : ℕ → State → State
  retry zero st = st
  retry (suc n) st = retry n (process_one max_retries now attempt id st).1

  -- The episode stands in the table, and is dead or has enough attempts before it.
  record IsDoomed (n : ℕ) (st : State) (ep : Episode) : Type 0 where
    found : find (has_id id) st.episodes ≡ some ep
    unprocessed : ep.processed ≡ false
    doomed :
        (is_some ep.dead_at ≡ true)
        ⊎ ((is_none ep.dead_at ≡ true)
            × (ep.error_count < max_retries)
            × (max_retries ≤ ep.error_count + n))

  IsDoomed-dead :
      (n : ℕ) (st : State) (ep : Episode)
      → IsDoomed (suc n) st ep
      → is_some ep.dead_at ≡ true
      → IsDoomed n (process_one max_retries now attempt id st).1 ep
  unfolding process_one
  IsDoomed-dead n st ep h dead = record {
    found = rw (h.found, process_one) ground (arith, h.found, dead);
    unprocessed = h.unprocessed;
    doomed = inl dead;
  }

  after_failure :
      (st : State) (ep : Episode)
      → find (has_id id) st.episodes ≡ some ep
      → is_pending ep ≡ true
      → attempt ep st.store ≡ failed error
      → (process_one max_retries now attempt id st).1.episodes
        ≡ replace id (record_failure max_retries now error ep) st.episodes
  unfolding process_one settle
  after_failure st ep found pending fails = rw (found, process_one, pending, fails) refl

  IsDoomed-alive :
      (n : ℕ) (st : State) (ep : Episode)
      → find (has_id id) st.episodes ≡ some ep
      → ep.processed ≡ false
      → is_none ep.dead_at ≡ true
      → ep.error_count < max_retries
      → max_retries ≤ ep.error_count + suc n
      → attempt ep st.store ≡ failed error
      → IsDoomed n
          (process_one max_retries now attempt id st).1
          (record_failure max_retries now error ep)
  unfolding record_failure
  IsDoomed-alive n st ep found unprocessed alive below enough fails = record {
    found =
        ap (find (has_id id)) (after_failure st ep found (ground (arith, unprocessed, alive)) fails)
        ∙ find-replace id (record_failure max_retries now error ep) st.episodes ep
            (ground (arith, has_id-find id st.episodes ep found)) found;
    unprocessed = ground (arith, unprocessed);
    doomed = elim (Bool-cases (leb max_retries (ep.error_count + 1))) [
      | inl y ↦ inl (ground (arith, y))
      | inr m ↦ inr (ground (arith, m, alive), ground (arith, m), ground (arith, m, enough))
    ];
  }

  dies :
      (n : ℕ) (st : State) (ep : Episode)
      → ((ep : Episode) (s : Store) → has_id id ep ≡ true → attempt ep s ≡ failed error)
      → IsDoomed n st ep
      → (dead : Episode) × (find (has_id id) (retry n st).episodes ≡ some dead)
        × (is_some dead.dead_at ≡ true)
  dies zero st ep fails h = elim h.doomed [
    | inl dead ↦ (ep, h.found, dead)
    | inr (alive, below, enough) ↦ absurd (omega (arith, below, enough))
  ]
  dies (suc n) st ep fails h = elim h.doomed [
    | inl dead ↦
        dies n (process_one max_retries now attempt id st).1 ep fails (IsDoomed-dead n st ep h dead)
    | inr (alive, below, enough) ↦
        dies n (process_one max_retries now attempt id st).1
          (record_failure max_retries now error ep) fails
          (IsDoomed-alive n st ep h.found h.unprocessed alive below enough
            (fails ep st.store (has_id-find id st.episodes ep h.found)))
  ]

-- A pending episode whose fold fails whenever it is tried is dead once it was tried as often as the limit
-- says, so it does not come back for ever.
pub retry_ends :
    (max_retries now : ℕ) (attempt : Episode → Store → Attempt) (id error : String) (st : State)
    (ep : Episode)
    → ((ep : Episode) (s : Store) → has_id id ep ≡ true → attempt ep s ≡ failed error)
    → find (has_id id) st.episodes ≡ some ep
    → is_pending ep ≡ true
    → ep.error_count < max_retries
    → (dead : Episode) × (find
          (has_id id)
          (retry max_retries now attempt id error max_retries st).episodes
        ≡ some dead)
      × (is_some dead.dead_at ≡ true)
retry_ends max_retries now attempt id error st ep fails found pending below =
    dies max_retries now attempt id error max_retries st ep fails (record {
      found = found;
      unprocessed = ground (arith, pending);
      doomed = inr (ground (arith, pending), below, omega arith);
    })
