-- ===== src/Graph/Reads.antt =====
-- The reads of graph/drivers/postgres.py: which rows a search may serve, what holds as of an instant, and
-- the walks over edges. Rows come in the table's order, where a query leaves it open.
pub mod Walks
use mlpal_memory.Prelude.{
  ℕ, zero, suc, ◌+◌, ◌-◌, String, Bool, true, false, ◌&&◌, ◌||◌, not, Option, none, some, List, [],
  ◌∷◌, ◌++◌, map, ◌==◌, leb, ltb, str_eq, is_some, any, all, filter, length, take, if◌then◌else◌,
}
use mlpal_memory.Scope.{ScopeRef, Owner, scope_clause}
use mlpal_memory.Temporal.{covers, open_at}
use mlpal_memory.Graph.{Node, Edge, Status}
use mlpal_memory.Graph.Edges.{is_open}
use mlpal_memory.Graph.Nodes.{member}

-- `valid`: true in the world; `system`: believed.
pub data AsOfMode : Type 0 where
  valid system : AsOfMode

unfoldable pub as_of_clause : ℕ → AsOfMode → Edge → Bool
as_of_clause t valid e = covers e.valid_at e.invalid_at t
as_of_clause t system e = leb e.ingested_at t && open_at e.expired_at t

-- `or_(*[scope_clause(model, tenant, s) for s in scopes])`
abbrev pub in_scopes : Option String → List ScopeRef → Owner → Bool
in_scopes tenant scopes o = any (λ r. scope_clause tenant r o) scopes

abbrev pub is_history : Status → Bool
is_history Status.superseded = true
is_history Status.ended = true
is_history _ = false

abbrev pub in_option : Option String → List String → Bool
in_option none xs = false
in_option (some a) xs = any (λ x. str_eq a x) xs

-- The filters of `search_nodes` and `lexical_search_nodes`: scope, expiry as of the read's instant, in the
-- current view no history, and the optional type and sources.
unfoldable pub node_visible :
    Option String → List ScopeRef → Option String → List String → Option ℕ → ℕ → Node → Bool
node_visible tenant scopes type sources at now n =
    in_scopes tenant scopes n.owner
    && open_at n.expires_at (elim at [ none ↦ now | some t ↦ t ])
    && (is_some at || not (is_history n.status))
    && elim type [ none ↦ true | some t ↦ str_eq n.type t ]
    && elim sources [ [] ↦ true | x ∷ xs ↦ in_option n.source (x ∷ xs) ]

-- The rows that a search ranks; the ranking is by the index, which is not modelled.
unfoldable pub search_candidates :
    Option String
    → List ScopeRef
    → Option String
    → List String
    → Option ℕ
    → ℕ
    → List Node
    → List Node
unfolding node_visible
search_candidates tenant scopes type sources at now nodes =
    filter (node_visible tenant scopes type sources at now) nodes

-- What an edge query sees in time: as of an instant, the current view, or everything.
unfoldable pub in_time : Option ℕ → AsOfMode → Bool → Edge → Bool
in_time (some t) mode include_invalid e = as_of_clause t mode e
in_time none mode include_invalid e = include_invalid || is_open e

-- The filters of `search_fact_edges`.
unfoldable pub fact_edge_visible :
    Option String → List ScopeRef → Option ℕ → AsOfMode → Bool → Edge → Bool
unfolding in_time
fact_edge_visible tenant scopes as_of mode include_invalid e =
    in_scopes tenant scopes e.owner && is_some e.fact && in_time as_of mode include_invalid e

abbrev pub touches : List ℕ → Edge → Bool
touches ids e = member e.src_id ids || member e.dst_id ids

-- `nodes_with_valid_edges`: the ids that take part in an edge as of the instant. The result is a set.
unfoldable pub nodes_with_valid_edges : List ℕ → ℕ → AsOfMode → List Edge → List ℕ
unfolding as_of_clause
nodes_with_valid_edges ids t mode edges =
    filter (λ i. any (λ e. (e.src_id == i || e.dst_id == i) && as_of_clause t mode e) edges) ids

-- `collected[e.id] = e`
abbrev pub collect : List Edge → Edge → List Edge
collect cs e = if any (λ c. c.id == e.id) cs then cs else cs ++ e ∷ []

abbrev pub collect_all : List Edge → List Edge → List Edge
collect_all cs [] = cs
collect_all cs (e ∷ es) = collect_all (collect cs e) es

abbrev pub add_id : ℕ → List ℕ → List ℕ
add_id i is = if member i is then is else is ++ i ∷ []

-- The ends of the rows that were not met before.
abbrev pub next_frontier : List ℕ → List Edge → List ℕ → List ℕ
next_frontier met [] nxt = nxt
next_frontier met (e ∷ es) nxt = next_frontier met es (
    let nxt' = if member e.src_id met then nxt else add_id e.src_id nxt in
    if member e.dst_id met then nxt' else add_id e.dst_id nxt')

-- The scopes of a walk: `none` is the internal caller that sets no bound.
abbrev pub confined : Option String → Option (List ScopeRef) → Edge → Bool
confined tenant none e = true
confined tenant (some scopes) e = in_scopes tenant scopes e.owner

abbrev pub is_empty {ℓ} : {A : Type ℓ} → List A → Bool
is_empty [] = true
is_empty (x ∷ xs) = false

-- The rows of one round of `neighbors`, at most the room that is left.
unfoldable pub hop_rows :
    Option String
    → Option (List ScopeRef)
    → Option ℕ
    → AsOfMode
    → Bool
    → ℕ
    → List ℕ
    → List Edge
    → List Edge
hop_rows tenant scopes as_of mode include_invalid room frontier edges = take room (
    filter
      (λ e. touches frontier e && confined tenant scopes e && in_time as_of mode include_invalid e)
      edges)

-- The loop of `neighbors` on the rounds left: breadth first over the frontier, within the scopes.
unfoldable pub walk :
    Option String
    → Option (List ScopeRef)
    → Option ℕ
    → AsOfMode
    → Bool
    → ℕ
    → List Edge
    → ℕ
    → List ℕ
    → List ℕ
    → List Edge
    → List Edge
walk tenant scopes as_of mode include_invalid max_edges edges zero frontier seen collected =
    collected
walk tenant scopes as_of mode include_invalid max_edges edges (suc rounds) frontier seen collected =
    let rows =
      hop_rows tenant scopes as_of mode include_invalid (max_edges - length collected) frontier
        edges in
    let met = seen ++ frontier in
    let rest =
      walk tenant scopes as_of mode include_invalid max_edges edges rounds
        (next_frontier met rows []) met (collect_all collected rows) in
    if is_empty frontier || leb max_edges (length collected) then collected else rest

unfoldable pub neighbors :
    Option String
    → Option (List ScopeRef)
    → Option ℕ
    → AsOfMode
    → Bool
    → ℕ
    → List Edge
    → ℕ
    → ℕ
    → List Edge
neighbors tenant scopes as_of mode include_invalid max_edges edges node depth =
    walk tenant scopes as_of mode include_invalid max_edges edges (if leb depth 1 then 1 else depth)
      (node ∷ []) [] []
