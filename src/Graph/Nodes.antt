-- ===== src/Graph/Nodes.antt =====
-- The writes of graph/drivers/postgres.py to the table of nodes, and the two that end and reopen an
-- entity. A clock reading is the argument `now`.
pub mod Lookup
pub mod Ending
use mlpal_memory.Prelude.{
  ℕ, ◌+◌, String, Bool, true, false, ◌&&◌, ◌||◌, not, Option, none, some, List, [], ◌∷◌, ◌++◌, map,
  ◌==◌, leb, str_eq, opt_eq, is_none, or_else, any, count, filter, update_first, if◌then◌else◌,
}
use mlpal_memory.Json.{Props, merge}
use mlpal_memory.Scope.{Scope, ScopeRef, scope_clause, classification_for}
use mlpal_memory.Graph.{Node, Edge, Store, Status, Embedding}
use mlpal_memory.Graph.Edges.{truthy, when_embedded, is_open}

-- What addresses a node: its tenant, scope, ontology class and natural key.
pub record Identity : Type 0 where
  pub tenant : Option String
  pub scope : ScopeRef
  pub type : String
  pub key : String

unfoldable pub has_identity : Identity → Node → Bool
has_identity i n =
    scope_clause i.tenant i.scope n.owner && str_eq n.type i.type && str_eq n.key i.key

-- The result of `scalar_one_or_none`; `multiple` is its exception.
pub data Found {ℓ} (A : Type ℓ) : Type ℓ where
  absent multiple : Found A
  one : A → Found A

abbrev pub scalar_one_or_none {ℓ} : {A : Type ℓ} → List A → Found A
scalar_one_or_none [] = absent
scalar_one_or_none (x ∷ []) = one x
scalar_one_or_none (x ∷ y ∷ xs) = multiple

abbrev pub find_node : Identity → List Node → Found Node
find_node i nodes = scalar_one_or_none (filter (has_identity i) nodes)

pub record NodeArgs : Type 0 where
  pub name : String
  pub summary : Option String
  pub props : Props
  pub embedding : Option Embedding
  pub embedding_model : Option String
  pub embedding_dim : Option ℕ
  pub source : Option String

abbrev pub set_embedding : NodeArgs → Node → Node
set_embedding a n = elim a.embedding [
  | none ↦ n
  | some v ↦ record n {
    embedding = some v;
    embedding_model = a.embedding_model;
    embedding_dim = a.embedding_dim;
  }
]

-- The first source that a node was learned from is kept.
unfoldable pub refresh_node : NodeArgs → Node → Node
refresh_node a n = set_embedding a (record n {
  name = if str_eq a.name "" then n.name else a.name;
  summary = if truthy a.summary then a.summary else n.summary;
  props = merge n.props a.props;
  source = if truthy a.source && is_none n.source then a.source else n.source;
})

abbrev owner_of : ScopeRef → Option String
owner_of r = elim r.scope [ Scope.user ↦ r.scope_id | _ ↦ none ]

unfoldable pub new_node : Identity → NodeArgs → ℕ → ℕ → Node
new_node i a now id = record {
  id = id;
  owner = record { org_id = i.tenant; scope = i.scope.scope; scope_id = i.scope.scope_id };
  type = i.type;
  key = i.key;
  name = a.name;
  summary = a.summary;
  classification = classification_for i.scope;
  owner_user_id = owner_of i.scope;
  source = a.source;
  derived_from = [];
  props = a.props;
  embedding = a.embedding;
  embedding_model = when_embedded a.embedding a.embedding_model;
  embedding_dim = when_embedded a.embedding a.embedding_dim;
  workspace = none;
  status = Status.committed;
  expires_at = none;
  observed_count = 1;
  created_at = now;
}

-- `upsert_node`; `none` is the exception of `find_node`.
unfoldable pub upsert_node : Identity → NodeArgs → ℕ → Store → Option (Node × Store)
upsert_node i a now s = elim (find_node i s.nodes) [
  | multiple ↦ none
  | one n ↦ some (
    refresh_node a n,
    record s { nodes = update_first (has_identity i) (refresh_node a) s.nodes },
  )
  | absent ↦
      let n = new_node i a now s.next_id in
      some (n, record s { nodes = s.nodes ++ n ∷ []; next_id = s.next_id + 1 })
]

abbrev pub member : ℕ → List ℕ → Bool
member i = any (λ j. i == j)

-- The nodes of the tenant that a watcher's key names. A value's own anchor is not an entity.
unfoldable pub is_target : Option String → String → Node → Bool
is_target tenant key n =
    opt_eq n.owner.org_id tenant
    && (str_eq n.key key || str_eq n.name key)
    && not (str_eq n.type "Metric" || str_eq n.type "MetricValue")

abbrev pub target_ids : Option String → String → List Node → List ℕ
target_ids tenant key nodes = map (λ n. n.id) (filter (is_target tenant key) nodes)

-- A live edge of the tenant on one of the nodes, that began by `at` and is not kept.
unfoldable pub ends_with : Option String → List ℕ → List ℕ → ℕ → Edge → Bool
ends_with tenant ids keep at e =
    opt_eq e.owner.org_id tenant
    && is_open e
    && (member e.src_id ids || member e.dst_id ids)
    && not (member e.id keep)
    && leb e.valid_at at

abbrev pub end_edge : ℕ → ℕ → Edge → Edge
end_edge at now e = record e { invalid_at = some at; expired_at = some now }

-- `end_entity`: the count of the edges closed, and the tables.
unfoldable pub end_entity : Option String → String → Option ℕ → List ℕ → ℕ → Store → ℕ × Store
end_entity tenant key at keep now s = elim (target_ids tenant key s.nodes) [
  | [] ↦ (0, s)
  | i ∷ is ↦
      let ids = i ∷ is in
      let at_utc = or_else at now in
      (
        count (ends_with tenant ids keep at_utc) s.edges,
        record s {
          nodes =
              map (λ n. if member n.id ids then record n { status = Status.ended } else n) s.nodes;
          edges =
              map (λ e. if ends_with tenant ids keep at_utc e then end_edge at_utc now e else e)
                s.edges;
        },
      )
]

abbrev pub is_ended : Status → Bool
is_ended Status.ended = true
is_ended _ = false

abbrev pub reopens : Option String → String → Node → Bool
reopens tenant key n =
    opt_eq n.owner.org_id tenant && (str_eq n.key key || str_eq n.name key) && is_ended n.status

-- `reopen_entity`: edges are not resurrected.
unfoldable pub reopen_entity : Option String → String → Store → ℕ × Store
reopen_entity tenant key s = (
  count (reopens tenant key) s.nodes,
  record s {
    nodes =
        map (λ n. if reopens tenant key n then record n { status = Status.committed } else n)
          s.nodes;
  },
)

-- `purge_scope`: the nodes and edges deleted, and the tables.
unfoldable pub purge_scope : Option String → ScopeRef → Store → ℕ × ℕ × Store
purge_scope tenant scope s = (
  count (λ n. scope_clause tenant scope n.owner) s.nodes,
  count (λ e. scope_clause tenant scope e.owner) s.edges,
  record s {
    nodes = filter (λ n. not (scope_clause tenant scope n.owner)) s.nodes;
    edges = filter (λ e. not (scope_clause tenant scope e.owner)) s.edges;
  },
)
