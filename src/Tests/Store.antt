-- ===== src/Tests/Store.antt =====
-- The derived graph on concrete tables.
use mlpal_memory.Prelude.{
  ℕ, ◌+◌, ◌≡◌, ◌↔◌, ◌⊎◌, refl, true, false, none, some, List, [], ◌∷◌, arith, count, length, All,
  map, ◌≤◌,
}
use mlpal_memory.Scope.{Scope, ScopeRef, Owner, scope_clause}
use mlpal_memory.Scope.Isolation.{scope_clause-isolates}
use mlpal_memory.Temporal.{windows_overlap, covers}
use mlpal_memory.Temporal.Windows.{windows_overlap_iff}
use mlpal_memory.Graph.{Node, Store}
use mlpal_memory.Graph.Edges.{
  is_open, Slot, EdgeArgs, in_slot, refresh_edge, new_edge, supersede_row, visit, supersede,
  upsert_edge, invalidate_superseded, observe,
}
use mlpal_memory.Graph.Nodes.{
  Identity, NodeArgs, one, has_identity, find_node, new_node, refresh_node, upsert_node, is_target,
  target_ids, ends_with, end_entity,
}
use mlpal_memory.Graph.Nodes.Lookup.{find_node-upsert_node}
use mlpal_memory.Graph.Nodes.Ending.{IsOver, end_entity-keeps_history, end_entity-closes}
use mlpal_memory.Graph.Reads.{AsOfMode, as_of_clause, neighbors}
use mlpal_memory.Graph.Views.{but_ends, relation, rows_at}
use mlpal_memory.Graph.Reads.Walks.{IsReadable, neighbors_bounds}
use mlpal_memory.Graph.Register.{Sighting, current, observe_all, assign_all}
use mlpal_memory.Graph.Register.Settled.{IsSettled}
use mlpal_memory.Graph.Register.Assigns.{observe_all-refines}
use mlpal_memory.Graph.Register.History.{observe-keeps_history}
use mlpal_memory.Graph.Ledger.{Extends}
use mlpal_memory.Graph.Ledger.Observed.{observe-Extends}

abbrev acme : ScopeRef
acme = record { scope = Scope.org; scope_id = some "acme" }

abbrev has_value : Slot
has_value = record { tenant = some "acme"; scope = acme; type = "HAS_VALUE"; src_id = 1 }

abbrev at_time : ℕ → EdgeArgs
at_time t = record {
  fact = some "v";
  props = [];
  valid_at = some t;
  source = none;
  fact_embedding = none;
  embedding_model = none;
  embedding_dim = none;
}

abbrev empty : Store
empty = record { nodes = []; edges = []; next_id = 10 }

abbrev sighting : ℕ → ℕ → Sighting
sighting d t = record { dst_id = d; args = at_time t; now = 100 }

empty-IsSettled : IsSettled has_value empty
empty-IsSettled = record { one = omega arith; fresh = tt; distinct = tt }

program : Unit {0}
unfolding scope_clause in_slot windows_overlap covers refresh_edge new_edge supersede_row visit
    supersede upsert_edge invalidate_superseded observe as_of_clause has_identity new_node
    refresh_node upsert_node is_target ends_with end_entity
program = tt

-- A later value supersedes; an earlier one that comes late is bounded.
abbrev in_disorder : List Sighting
in_disorder = sighting 2 20 ∷ sighting 3 30 ∷ sighting 4 25 ∷ []

in_disorder-current : current has_value (observe_all has_value empty in_disorder) ≡ some (3, 30)
unfolding program
in_disorder-current = refl

observe_all-refines_example :
    IsSettled has_value (observe_all has_value empty in_disorder)
    × (current has_value (observe_all has_value empty in_disorder) ≡ assign_all none in_disorder)
observe_all-refines_example = observe_all-refines has_value in_disorder empty empty-IsSettled

-- Two facts that come late are bounded by the open one and not by each other: as of 27 both hold.
late_facts_overlap :
    map
      (λ e. e.dst_id)
      (rows_at relation 27 AsOfMode.valid
        (observe_all has_value empty (sighting 2 30 ∷ sighting 3 20 ∷ sighting 4 25 ∷ [])).edges)
    ≡ 3 ∷ 4 ∷ []
unfolding program
late_facts_overlap = refl

-- A value that is seen again keeps its begin, so a value dated in between replaces it.
seen_again_then_late :
    current has_value
      (observe_all has_value empty (sighting 2 10 ∷ sighting 2 30 ∷ sighting 3 20 ∷ []))
    ≡ some (3, 20)
unfolding program
seen_again_then_late = refl

abbrev one_value : Store
one_value = observe has_value 2 (at_time 20) 100 empty

one_value-IsSettled : IsSettled has_value one_value
one_value-IsSettled = (observe_all-refines has_value (sighting 2 20 ∷ []) empty empty-IsSettled).0

observe-keeps_history_example :
    rows_at relation 25 AsOfMode.valid (observe has_value 3 (at_time 30) 100 one_value).edges
    ≡ rows_at relation 25 AsOfMode.valid one_value.edges
observe-keeps_history_example =
    observe-keeps_history has_value one_value 3 (at_time 30) 100 25 AsOfMode.valid
      one_value-IsSettled (omega arith)

observe-Extends_example :
    Extends one_value.edges (observe has_value 3 (at_time 30) 100 one_value).edges
observe-Extends_example =
    observe-Extends has_value 3 (at_time 30) 100 one_value one_value-IsSettled.fresh
      one_value-IsSettled.distinct

abbrev acme_row : Owner
acme_row = record { org_id = some "acme"; scope = Scope.org; scope_id = some "acme" }

row_in_scope :
    (acme_row.scope ≡ acme.scope)
    × ((acme.scope ≡ Scope.global)
        ⊎ ((acme_row.org_id ≡ acme_row.org_id) × (acme_row.scope_id ≡ acme.scope_id)))
unfolding scope_clause
row_in_scope = scope_clause-isolates acme_row.org_id acme acme_row refl

windows_meet :
    (windows_overlap 5 (some 8) 7 none ≡ true)
    ↔ ((t : ℕ) × (covers 5 (some 8) t ≡ true) × (covers 7 none t ≡ true))
windows_meet = windows_overlap_iff 5 (some 8) 7 none (omega arith) tt

abbrev volume : Identity
volume = record { tenant = some "acme"; scope = acme; type = "Volume"; key = "vol-1" }

abbrev volume_args : NodeArgs
volume_args = record {
  name = "vol-1";
  summary = none;
  props = [];
  embedding = none;
  embedding_model = none;
  embedding_dim = none;
  source = some "watch";
}

find_node-upsert_node_example :
    (out : Node × Store) × (upsert_node volume volume_args 50 empty ≡ some out)
    × (find_node volume out.1.nodes ≡ one out.0)
find_node-upsert_node_example = find_node-upsert_node volume volume_args 50 empty (omega arith)

-- A volume with one edge that began at 5.
abbrev watched : Store
watched = record {
  nodes = new_node volume volume_args 50 1 ∷ [];
  edges = new_edge has_value 2 (at_time 5) 50 10 ∷ [];
  next_id = 11;
}

watched_ends : (end_entity (some "acme") "vol-1" (some 9) [] 60 watched).0 ≡ 1
unfolding program
watched_ends = refl

end_entity-keeps_history_example :
    rows_at but_ends 8 AsOfMode.valid
      (end_entity (some "acme") "vol-1" (some 9) [] 60 watched).1.edges
    ≡ rows_at but_ends 8 AsOfMode.valid watched.edges
unfolding new_edge
end_entity-keeps_history_example =
    end_entity-keeps_history (some "acme") "vol-1" (some 9) [] 60 8 AsOfMode.valid watched
      (omega arith) ((λ h. refl), tt)

end_entity-closes_example :
    All
      (IsOver (some "acme") (target_ids (some "acme") "vol-1" watched.nodes) [] 9)
      (end_entity (some "acme") "vol-1" (some 9) [] 60 watched).1.edges
    × (count is_open watched.edges
        ≡ (end_entity (some "acme") "vol-1" (some 9) [] 60 watched).0
          + count is_open (end_entity (some "acme") "vol-1" (some 9) [] 60 watched).1.edges)
end_entity-closes_example = end_entity-closes (some "acme") "vol-1" (some 9) [] 60 watched

neighbors_bounds_example :
    All
      (IsReadable (some "acme") (some (acme ∷ [])) none AsOfMode.valid false)
      (neighbors (some "acme") (some (acme ∷ [])) none AsOfMode.valid false 500 watched.edges 1 2)
    × (length (
          neighbors
            (some "acme")
            (some (acme ∷ []))
            none
            AsOfMode.valid
            false
            500
            watched.edges
            1
            2)
        ≤ 500)
neighbors_bounds_example =
    neighbors_bounds (some "acme") (some (acme ∷ [])) none AsOfMode.valid false 500 watched.edges 1
      2
