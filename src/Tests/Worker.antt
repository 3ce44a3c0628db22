-- ===== src/Tests/Worker.antt =====
-- The worker on concrete tables.
use mlpal_memory.Prelude.{◌≡◌, refl, true, false, some, List, [], ◌∷◌, arith, All, find, is_some}
use mlpal_memory.Temporal.{covers}
use mlpal_memory.Graph.{Node, Store}
use mlpal_memory.Fold.{Episode}
use mlpal_memory.Worker.{
  State, failed, attempt_with, has_id, insert_episode, fetch_unprocessed_ids, record_failure,
  settle, process_one, process_batch, drain, due_since, close_of, close_edge, expire_due,
  close_expired_committed, sweep_expired_working,
}
use mlpal_memory.Worker.Retries.{IsBudgeted, arrive, tick, on, on_all, on_all-IsBudgeted}
use mlpal_memory.Worker.Cursor.{IsBatch, fetch_unprocessed_ids-IsBatch}
use mlpal_memory.Worker.Death.{retry, retry_ends}
use mlpal_memory.Worker.Progress.{is_waiting, retry_settles}
use mlpal_memory.Worker.Expiry.{
  EndsWith, IsLiveAt, held_at, close_expired_committed-EndsWith, close_expired_committed-held_at,
}
use mlpal_memory.Graph.Nodes.{new_node}
use mlpal_memory.Tests.Fold.{episode_at, world, empty, first_cost, fresh_node}

program : Unit {0}
unfolding covers insert_episode fetch_unprocessed_ids record_failure settle process_one
    process_batch drain due_since close_of close_edge expire_due close_expired_committed
    sweep_expired_working on
program = tt

abbrev start : State
start = record { episodes = []; store = empty; deferred = 0 }

on_all-IsBudgeted_example :
    All
      (IsBudgeted 3)
      (on_all 3
        (world "10" [])
        start
        (arrive (episode_at 20 "committed") ∷ tick 50 (λ ep. false) "boom" 8 ∷ [])).episodes
on_all-IsBudgeted_example =
    on_all-IsBudgeted 3 (world "10" [])
      (arrive (episode_at 20 "committed") ∷ tick 50 (λ ep. false) "boom" 8 ∷ []) start (omega arith)
      (λ ep. (refl, refl)) tt

abbrev one_episode : State
one_episode = record start { episodes = episode_at 20 "committed" ∷ [] }

-- Three failures, and the episode is not fetched any more.
after_three :
    fetch_unprocessed_ids 8
      (retry 3 50 (λ ep s. failed "boom") "ev-1" "boom" 3 one_episode).episodes
    ≡ []
unfolding program
after_three = refl

retry_ends_example :
    (dead : Episode) × (find
        (has_id "ev-1")
        (retry 3 50 (λ ep s. failed "boom") "ev-1" "boom" 3 one_episode).episodes
      ≡ some dead)
    × (is_some dead.dead_at ≡ true)
retry_ends_example =
    retry_ends 3 50 (λ ep s. failed "boom") "ev-1" "boom" one_episode (episode_at 20 "committed")
      (λ ep s h. refl) refl refl (omega arith)

retry_settles_example :
    is_waiting "ev-1" (
      retry 3 50 (attempt_with (world "10" []) 50 (λ ep. false) "boom") "ev-1" "boom" 3 one_episode)
    ≡ false
retry_settles_example = retry_settles 3 50 2 (world "10" []) "boom" "ev-1" one_episode (omega arith)

abbrev expiring_node : Node → Node
expiring_node n = record n { expires_at = some 40 }

abbrev expire_first : List Node → List Node
expire_first [] = []
expire_first (n ∷ ns) = expiring_node n ∷ ns

-- The anchor of a value expires at 40.
abbrev expiring : Store
expiring = record first_cost { nodes = expire_first first_cost.nodes }

close_expired_committed-EndsWith_example :
    All (λ e. All (EndsWith 60 e) expiring.nodes) (close_expired_committed 60 expiring).edges
close_expired_committed-EndsWith_example = close_expired_committed-EndsWith 60 expiring

-- A node that expires at 40, and nothing else.
abbrev one_node : Store
one_node = record expiring { nodes = expiring_node fresh_node ∷ [] }

one_node-IsLiveAt : All (IsLiveAt 60 25) one_node.nodes
unfolding due_since new_node
one_node-IsLiveAt = (λ d h. ground (arith, h), tt)

past_stays : held_at 25 (close_expired_committed 60 one_node).edges ≡ held_at 25 one_node.edges
past_stays = close_expired_committed-held_at 60 25 one_node one_node-IsLiveAt

abbrev retried : Episode
retried = record (episode_at 10 "committed") { event_id = "ev-0"; error_count = 2 }

-- An episode that failed twice waits behind one that came later.
fresh_before_retry :
    fetch_unprocessed_ids 1 (retried ∷ episode_at 20 "committed" ∷ []) ≡ "ev-1" ∷ []
unfolding program
fresh_before_retry = refl

fetch_unprocessed_ids-IsBatch_example :
    IsBatch 1
      (retried ∷ episode_at 20 "committed" ∷ [])
      (fetch_unprocessed_ids 1 (retried ∷ episode_at 20 "committed" ∷ []))
fetch_unprocessed_ids-IsBatch_example =
    fetch_unprocessed_ids-IsBatch 1 (retried ∷ episode_at 20 "committed" ∷ [])
