-- ===== src/Worker.antt =====
-- services/worker.py and repositories/episodes.py: the worker that drains the table of episodes into the
-- graph. A tick runs under the advisory lock, so it is one step; the table's order is that of ingestion.
pub mod Budget
pub mod Cursor
pub mod Retries
pub mod Death
pub mod Progress
pub mod Expiry
use mlpal_memory.Prelude.{
  ℕ, suc, ◌+◌, String, Bool, true, false, ◌&&◌, ◌||◌, not, Option, none, some, List, [], ◌∷◌, ◌++◌,
  map, filter, find, take, any, ltb, leb, ◌==◌, str_eq, is_none, is_some, if◌then◌else◌,
}
use mlpal_memory.Graph.{Node, Edge, Store, Status}
use mlpal_memory.Graph.Edges.{is_open, close_at}
use mlpal_memory.Fold.{Episode}
use mlpal_memory.Fold.Process.{World, Report, process_episode}

-- The tables, and how often a fold was put off.
pub record State : Type 0 where
  pub episodes : List Episode
  pub store : Store
  pub deferred : ℕ

abbrev pub has_id : String → Episode → Bool
has_id id ep = str_eq ep.event_id id

-- `insert_episode`: an id that is there is not inserted again.
unfoldable pub insert_episode : Episode → List Episode → Bool × List Episode
insert_episode ep table = elim (find (has_id ep.event_id) table) [
  | some old ↦ (false, table)
  | none ↦ (true, table ++ ep ∷ [])
]

abbrev pub is_pending : Episode → Bool
is_pending ep = not ep.processed && is_none ep.dead_at

-- `ORDER BY error_count, ingested_at`: into a sorted list, behind the rows that are not later.
abbrev insert_by_errors : Episode → List Episode → List Episode
insert_by_errors ep [] = ep ∷ []
insert_by_errors ep (x ∷ xs) =
    let rest = insert_by_errors ep xs in
    if leb ep.error_count x.error_count then ep ∷ x ∷ xs else x ∷ rest

abbrev by_errors : List Episode → List Episode
by_errors [] = []
by_errors (ep ∷ eps) = insert_by_errors ep (by_errors eps)

unfoldable pub fetch_unprocessed_ids : ℕ → List Episode → List String
fetch_unprocessed_ids limit table =
    map (λ ep. ep.event_id) (take limit (by_errors (filter is_pending table)))

-- How a fold ends: it returns, a model is away, or it raises.
pub data Attempt : Type 0 where
  done : Episode → Store → Attempt
  model_unavailable : Attempt
  failed : String → Attempt

-- `process_episode`, where `outage` says for which episodes a model is away; the error's text is cut to 500.
abbrev pub attempt_with : World → ℕ → (Episode → Bool) → String → Episode → Store → Attempt
attempt_with w now outage error ep s =
    if outage ep then model_unavailable else elim (process_episode w now ep s) [
      | none ↦ failed error
      | some (report, ep', s') ↦ done ep' s'
    ]

abbrev pub replace : String → Episode → List Episode → List Episode
replace id new = map (λ ep. if has_id id ep then new else ep)

module _ (max_retries now : ℕ) where
  -- `_record_failure`, on the row as it was before the fold.
  unfoldable pub record_failure : String → Episode → Episode
  record_failure error ep =
      let failed_once : Episode = record ep {
        error = some error;
        error_count = ep.error_count + 1;
      } in
      if leb max_retries (ep.error_count + 1)
      then record failed_once { dead_at = some now }
      else failed_once

  -- What the fold's end does to the tables, and whether the exception goes on to the tick.
  unfoldable pub settle : String → Episode → Attempt → State → Bool × State
  settle id ep (done ep' s') st =
      (false, record st { episodes = replace id ep' st.episodes; store = s' })
  settle id ep model_unavailable st = (true, record st { deferred = st.deferred + 1 })
  settle id ep (failed error) st =
      (false, record st { episodes = replace id (record_failure error ep) st.episodes })

  module _ (attempt : Episode → Store → Attempt) where
    -- `_process_one`
    unfoldable pub process_one : String → State → Bool × State
    process_one id st = elim (find (has_id id) st.episodes) [
      | none ↦ (false, st)
      | some ep ↦ if is_pending ep then settle id ep (attempt ep st.store) st else (false, st)
    ]

    -- The loop over the batch stops when a model is away.
    unfoldable pub process_batch : List String → State → State
    process_batch [] st = st
    process_batch (id ∷ ids) st =
        let out = process_one id st in
        let rest = process_batch ids out.1 in if out.0 then out.1 else rest

    -- The fold's part of a tick.
    unfoldable pub drain : ℕ → State → State
    drain batch st = process_batch (fetch_unprocessed_ids batch st.episodes) st

-- `_sweep_expired_working`
abbrev pub is_stale : ℕ → Status → Option ℕ → Bool
is_stale now Status.working (some t) = ltb t now
is_stale now _ _ = false

unfoldable pub sweep_expired_working : ℕ → Store → Store
sweep_expired_working now s = record s {
  nodes = filter (λ n. not (is_stale now n.status n.expires_at)) s.nodes;
  edges = filter (λ e. not (is_stale now e.status e.expires_at)) s.edges;
}

-- `_close_expired_committed`: the instant at which a node is due, if it is.
abbrev pub settled_status : Status → Bool
settled_status Status.committed = true
settled_status Status.published = true
settled_status _ = false

unfoldable pub due_since : ℕ → Node → Option ℕ
due_since now n = elim n.expires_at [
  | none ↦ none
  | some t ↦ if settled_status n.status && ltb t now then some t else none
]

abbrev pub touches : ℕ → Edge → Bool
touches i e = e.src_id == i || e.dst_id == i

-- The UPDATE for one due node. It sets both ends of an open edge.
unfoldable pub close_of : ℕ → ℕ → ℕ → Edge → Edge
close_of i at now e =
    if touches i e && is_open e then record e { invalid_at = some at; expired_at = some now } else e

-- The loop over the due nodes, at one edge.
unfoldable pub close_edge : ℕ → List Node → Edge → Edge
close_edge now [] e = e
close_edge now (n ∷ ns) e = elim (due_since now n) [
  | none ↦ close_edge now ns e
  | some t ↦ close_edge now ns (close_of n.id t now e)
]

unfoldable pub expire_due : ℕ → Node → Node
expire_due now n = elim (due_since now n) [
  | none ↦ n
  | some t ↦ record n { status = Status.expired }
]

unfoldable pub close_expired_committed : ℕ → Store → Store
close_expired_committed now s = record s {
  nodes = map (expire_due now) s.nodes;
  edges = map (close_edge now s.nodes) s.edges;
}
