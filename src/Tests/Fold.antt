-- ===== src/Tests/Fold.antt =====
-- The fold of concrete episodes.
use mlpal_memory.Prelude.{
  ℕ, String, ◌≡◌, refl, true, false, some, none, List, [], ◌∷◌, All, suc, length, Option, all,
  if◌then◌else◌,
}
use mlpal_memory.Json.{Json, get, put, merge}
use mlpal_memory.Scope.{Scope, ScopeRef, scope_clause}
use mlpal_memory.Temporal.{windows_overlap, covers}
use mlpal_memory.Policy.{
  ConsentRow, consent_chain, resolve_consent, resolve_extraction_policy, tighten, drop_reason,
  budget_for,
}
use mlpal_memory.Graph.{Node, Edge, Status, Store}
use mlpal_memory.Graph.Edges.{
  in_slot, refresh_edge, new_edge, supersede_row, visit, supersede, upsert_edge,
  invalidate_superseded, invalidate_edge,
}
use mlpal_memory.Graph.Nodes.{has_identity, new_node, refresh_node, upsert_node}
use mlpal_memory.Fold.{Episode, EntitySpec, EdgeSpec, Extraction, episode_scope, is_working}
use mlpal_memory.Fold.Stamp.{working_expiry, stamp_node, stamp_edge, stamp_all}
use mlpal_memory.Fold.Stamp.Lifecycle.{IsNew, stamp_all-lifecycle, stamp_all-expired}
use mlpal_memory.Fold.Values.{
  refresh_values, in_open_dsts, in_closed_dsts, supersede_value, restore_value,
}
use mlpal_memory.Fold.Judge.{
  judge_with, is_contradicted, close_older, judge_hit, judge_hits, judge_and_invalidate,
}
use mlpal_memory.Fold.Judge.Closes.{Closes, Closes-judge_and_invalidate}
use mlpal_memory.Fold.Entities.{
  Services, Fold, NodeMap, truthy_json, resolve_entity, entity_embedding, find_alias, know_as,
  named_node, expire_node, fold_entity, fold_entities,
}
use mlpal_memory.Fold.Entities.Known.{IsKnown, fold_entities-IsKnown}
use mlpal_memory.Fold.Relations.{
  expire_edge, settle_edge, write_edge, fold_edge, fold_edges, fold_watch, fold_invalidation,
  fold_invalidations,
}
use mlpal_memory.Fold.Relations.Writes.{
  ServesValues, settle_edge-ServesValues, Ends, Ends-fold_invalidations,
}
use mlpal_memory.Fold.Gate.{
  proceed, GateReason, Screens, rules_raise, policy_raises, lift_reason, admit, apply_policy,
  fold_gate,
}
use mlpal_memory.Fold.Gate.Proceeds.{IsClear, fold_gate-IsClear}
use mlpal_memory.Fold.Process.{
  World, Report, dropped, note_tier, note_dropped, extraction_tier, fold_extraction, fold_admitted,
  conclude, fold_in, process_episode,
}
use mlpal_memory.Fold.Process.Settles.{Settled, process_episode_settles, process_episode_opted_out}

unfoldable pub program : Unit {0}
unfolding scope_clause windows_overlap covers get put merge consent_chain resolve_consent
    resolve_extraction_policy tighten drop_reason budget_for in_slot refresh_edge new_edge
    supersede_row visit supersede upsert_edge invalidate_superseded invalidate_edge has_identity
    new_node refresh_node upsert_node episode_scope is_working working_expiry stamp_node stamp_edge
    refresh_values in_open_dsts in_closed_dsts supersede_value restore_value is_contradicted
    close_older judge_hit judge_hits judge_and_invalidate truthy_json resolve_entity
    entity_embedding find_alias know_as named_node expire_node fold_entity fold_entities expire_edge
    settle_edge judge_with write_edge fold_edge fold_edges fold_watch fold_invalidation
    fold_invalidations rules_raise policy_raises lift_reason admit apply_policy fold_gate
    extraction_tier fold_extraction fold_admitted conclude fold_in process_episode
program = tt

abbrev pub episode_at : ℕ → String → Episode
episode_at t lifecycle = record {
  event_id = "ev-1";
  occurred_at = t;
  org_id = some "acme";
  scope = some Scope.org;
  scope_id = some "acme";
  workspace = none;
  lifecycle = some lifecycle;
  actor = record { user_id = some "u1"; agent_id = none; team_id = none };
  source = "watch";
  action_type = "memory.claim";
  subject = [];
  payload = ("kind", Json.str "state") ∷ [];
  content = none;
  source_ref = none;
  processed = false;
  processed_at = none;
  tier = none;
  dropped_reason = none;
  error = none;
  error_count = 0;
  dead_at = none;
}

abbrev pub acme : ScopeRef
acme = record { scope = Scope.org; scope_id = some "acme" }

abbrev services : Services
services = record {
  embed_one = λ t. 1 ∷ [];
  embedder_name = "dev";
  embedder_dim = 1;
  anchor_text = λ e. e.name;
  normalize_fact = λ t. t;
  parse_iso = λ v. some 99;
  sorted = λ names. names;
  nearest = λ scope type v s. none;
  resolver_threshold = 860;
  working_ttl = 14;
  llm_enabled = true;
  contradicts = some (λ a b. true);
  similarity_threshold = 600;
  search_fact_edges = λ e s. record { id = 2; score = 900 } ∷ [];
  search_limit = 5;
}

abbrev metric : EntitySpec
metric = record { type = "Metric"; key = "state:cost"; name = "cost"; props = [] }

abbrev value_spec : String → EntitySpec
value_spec v = record { type = "MetricValue"; key = v; name = v; props = [] }

abbrev value_edge : String → EdgeSpec
value_edge v = record {
  type = "HAS_VALUE";
  src_type = "Metric";
  src_key = "state:cost";
  dst_type = "MetricValue";
  dst_key = v;
  fact = some v;
  functional = true;
  props = [];
}

abbrev costs : String → Extraction
costs v = record {
  entities = metric ∷ value_spec v ∷ [];
  edges = value_edge v ∷ [];
  invalidations = [];
}

abbrev screens : Screens
screens = record {
  admission_reason = λ ep salience budget. (none, Json.null);
  classify_pii = λ t. [];
  text_of = λ v. "";
}

abbrev pub world : String → List ConsentRow → World
world v consents = record {
  screens = screens;
  services = services;
  watch = record { absence_target = λ ep. none; presence_target = λ ep. none };
  redact = λ ep. ep;
  extract = λ ep. costs v;
  reason_text = λ r. "dropped";
  consents = consents;
  policies = [];
}

abbrev pub empty : Store
empty = record { nodes = []; edges = []; next_id = 1 }

abbrev store_of : Option (Report × Episode × Store) → Store
store_of none = empty
store_of (some (report, ep, s)) = s

abbrev statuses : List Node → List Status
statuses [] = []
statuses (n ∷ ns) = n.status ∷ statuses ns

-- Two values of one metric: the anchor, the value that was, the value that is.
abbrev pub first_cost : Store
first_cost = store_of (process_episode (world "10" []) 50 (episode_at 20 "committed") empty)

second_cost :
    statuses
      (store_of (process_episode (world "12" []) 60 (episode_at 30 "committed") first_cost)).nodes
    ≡ Status.committed ∷ Status.superseded ∷ Status.committed ∷ []
unfolding program
second_cost = refl

abbrev one_fold : Fold
one_fold = record { episode = episode_at 20 "committed"; scope = acme; now = 50 }

-- The tables and the map after the entities of one fold.
abbrev learned : NodeMap × Store
learned = elim (fold_entities services one_fold (costs "10").entities ([], empty)) [
  | none ↦ ([], empty)
  | some out ↦ out
]

learned_is :
    fold_entities services one_fold (costs "10").entities ([], empty) ≡ some (learned.0, learned.1)
unfolding program
learned_is = refl

every_entity_found : All (IsKnown learned.0) (costs "10").entities
every_entity_found =
    fold_entities-IsKnown services one_fold (costs "10").entities [] learned.0 empty learned.1
      learned_is

abbrev edge_of : List Edge → Edge
edge_of [] =
    new_edge (record { tenant = none; scope = acme; type = ""; src_id = 0 }) 0
      (record {
        fact = none;
        props = [];
        valid_at = none;
        source = none;
        fact_embedding = none;
        embedding_model = none;
        embedding_dim = none;
      })
      0 0
edge_of (e ∷ es) = e

settle_edge-ServesValues_example :
    (out : ℕ × Store) × (settle_edge services one_fold
        (value_edge "10")
        (edge_of first_cost.edges)
        first_cost
      ≡ some out)
    × ServesValues (edge_of first_cost.edges).src_id out.1
settle_edge-ServesValues_example =
    settle_edge-ServesValues services one_fold (value_edge "10") (edge_of first_cost.edges)
      first_cost refl refl

both_links_closed :
    Ends
      (record { edges = 0; judged = 0; ended = 0; store = first_cost })
      (fold_invalidations one_fold learned.0
        (value_edge "10" ∷ [])
        (record { edges = 0; judged = 0; ended = 0; store = first_cost }))
both_links_closed =
    Ends-fold_invalidations one_fold learned.0 (value_edge "10" ∷ [])
      (record { edges = 0; judged = 0; ended = 0; store = first_cost })

Closes-judge_and_invalidate_example : Closes first_cost (
    judge_and_invalidate
      (λ a b. true)
      (some "acme")
      acme
      600
      (λ s. record { id = 3; score = 700 } ∷ [])
      5
      60
      (edge_of first_cost.edges)
      first_cost)
Closes-judge_and_invalidate_example =
    Closes-judge_and_invalidate (λ a b. true) (some "acme") acme 600
      (λ s. record { id = 3; score = 700 } ∷ []) 5 60 (edge_of first_cost.edges) first_cost

-- Two open values of one anchor, and no judge: the pass raises.
abbrev two_values : Store
two_values = record first_cost {
  edges =
      edge_of first_cost.edges ∷ record (edge_of first_cost.edges) { id = 77; dst_id = 88 } ∷ [];
}

no_judge :
    judge_with
      (some "acme")
      acme
      600
      none
      (λ s. record { id = 77; score = 700 } ∷ [])
      5
      60
      (edge_of first_cost.edges)
      two_values
    ≡ none
unfolding program
no_judge = refl

abbrev pub fresh_node : Node
fresh_node =
    new_node (record { tenant = some "acme"; scope = acme; type = "Fact"; key = "f" })
      (record {
        name = "f";
        summary = none;
        props = [];
        embedding = none;
        embedding_model = none;
        embedding_dim = none;
        source = none;
      })
      10 1

fresh_node-IsNew : IsNew fresh_node
unfolding program
fresh_node-IsNew = record {
  derived_from = refl;
  status = refl;
  expires_at = refl;
  observed_count = refl;
}

abbrev two_sessions : List Episode
two_sessions = episode_at 30 "working" ∷ episode_at 40 "committed" ∷ []

stamp_all-lifecycle_example :
    ((stamp_all 14 fresh_node (episode_at 20 "working" ∷ two_sessions)).status ≡ (
      if all is_working (episode_at 20 "working" ∷ two_sessions)
      then Status.working
      else Status.committed))
    × ((stamp_all 14 fresh_node (episode_at 20 "working" ∷ two_sessions)).expires_at ≡ (
        if all is_working (episode_at 20 "working" ∷ two_sessions)
        then working_expiry 14 (episode_at 20 "working")
        else none))
    × ((stamp_all 14 fresh_node (episode_at 20 "working" ∷ two_sessions)).observed_count
        ≡ suc (length two_sessions))
stamp_all-lifecycle_example =
    stamp_all-lifecycle 14 (episode_at 20 "working") two_sessions fresh_node fresh_node-IsNew

gate_proceeds : (fold_gate screens [] [] acme (episode_at 20 "committed")).0 ≡ proceed
unfolding program
gate_proceeds = refl

admitted_episode :
    IsClear screens [] [] acme
      (episode_at 20 "committed")
      (fold_gate screens [] [] acme (episode_at 20 "committed")).1
admitted_episode = fold_gate-IsClear screens [] [] acme (episode_at 20 "committed") gate_proceeds

abbrev paused : ConsentRow
paused = record {
  owner = record { org_id = some "acme"; scope = Scope.org; scope_id = some "acme" };
  state = "pause";
}

episode-placed : episode_scope (episode_at 20 "committed") ≡ some acme
unfolding episode_scope
episode-placed = refl

process_episode_opted_out_example :
    (state : String) × (process_episode
        (world "10" (paused ∷ []))
        50
        (episode_at 20 "committed")
        first_cost
      ≡ some (
        dropped (GateReason.consent state),
        note_dropped
            (world "10" (paused ∷ []))
            50
            (GateReason.consent state)
            (note_tier (episode_at 20 "committed")),
        first_cost,
      ))
process_episode_opted_out_example =
    process_episode_opted_out (world "10" (paused ∷ [])) 50 (episode_at 20 "committed") first_cost
      acme "acme" [] paused [] refl episode-placed (λ h. cc) refl refl refl

abbrev outcome : Report × Episode × Store
outcome = elim (process_episode (world "10" []) 50 (episode_at 20 "committed") empty) [
  | none ↦ (dropped (GateReason.consent ""), episode_at 0 "", empty)
  | some out ↦ out
]

outcome_is : process_episode (world "10" []) 50 (episode_at 20 "committed") empty ≡ some outcome
unfolding program
outcome_is = refl

process_episode_settles_example :
    Settled (world "10" []) 50 (episode_at 20 "committed") empty outcome
process_episode_settles_example =
    process_episode_settles (world "10" []) 50 (episode_at 20 "committed") empty outcome outcome_is

abbrev expired_node : Node
expired_node = record fresh_node { derived_from = "ev-0" ∷ []; status = Status.expired }

expired_stays : (stamp_all 14 expired_node two_sessions).status ≡ Status.expired
expired_stays = stamp_all-expired 14 two_sessions expired_node refl refl
