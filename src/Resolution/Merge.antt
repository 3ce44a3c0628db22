-- ===== src/Resolution/Merge.antt =====
-- `merge_scored` of services/resolution.py: hits of one type and key across scopes become one, shown by the
-- copy of the narrowest scope. Hits per scope are counted by the scope's address.
pub mod Covers
use mlpal_memory.Prelude.{
  ℕ, suc, ◌+◌, String, Bool, true, false, ◌&&◌, ◌||◌, not, Option, none, some, List, [], ◌∷◌, ◌++◌,
  map, max, leb, ltb, ◌==◌, str_eq, length, sort_by, by_key, or_else, if◌then◌else◌,
}
use mlpal_memory.Scope.{Scope, ScopeRef, rank, ref_eq, global_ref}
use mlpal_memory.Graph.{Node}

pub record ScoredNode : Type 0 where
  pub node : Node
  pub score : ℕ

pub record MergedNode : Type 0 where
  pub node : Node
  pub score : ℕ
  pub also_known_at : List ScopeRef

pub record Shadowed : Type 0 where
  pub type : String
  pub key : String
  pub displayed_scope : ScopeRef
  pub shadowed_scopes : List ScopeRef

pub record ResolutionTrace : Type 0 where
  pub accessible : List ScopeRef
  pub requested_scope : Option Scope
  pub per_scope_hits : List (ScopeRef × ℕ)
  pub candidates : ℕ
  pub merged : ℕ
  pub shadowed : List Shadowed

-- `_node_scope_ref`
unfoldable pub node_scope_ref : Node → ScopeRef
node_scope_ref n = elim n.owner.scope [
  | Scope.global ↦ global_ref
  | s ↦ record { scope = s; scope_id = n.owner.scope_id }
]

abbrev pub node_rank : ScoredNode → ℕ
node_rank s = rank s.node.owner.scope

-- The hits of one type and key, in the order in which they came.
pub record Group : Type 0 where
  pub type : String
  pub key : String
  pub members : List ScoredNode

abbrev pub in_group : ScoredNode → Group → Bool
in_group s g = str_eq s.node.type g.type && str_eq s.node.key g.key

-- `groups.setdefault((type, key), []).append(s)`
unfoldable pub add_scored : ScoredNode → List Group → List Group
add_scored s [] = record { type = s.node.type; key = s.node.key; members = s ∷ [] } ∷ []
add_scored s (g ∷ gs) =
    let rest = add_scored s gs in
    if in_group s g then record g { members = g.members ++ s ∷ [] } ∷ gs else g ∷ rest

abbrev pub group_all : List ScoredNode → List Group → List Group
group_all [] groups = groups
group_all (s ∷ scored) groups = group_all scored (add_scored s groups)

abbrev count_hit : ScopeRef → List (ScopeRef × ℕ) → List (ScopeRef × ℕ)
count_hit r [] = (r, 1) ∷ []
count_hit r ((x, n) ∷ hits) =
    let rest = count_hit r hits in if ref_eq r x then (x, n + 1) ∷ hits else (x, n) ∷ rest

abbrev count_hits : List ScoredNode → List (ScopeRef × ℕ) → List (ScopeRef × ℕ)
count_hits [] hits = hits
count_hits (s ∷ scored) hits = count_hits scored (count_hit (node_scope_ref s.node) hits)

-- `max(m.score for m in members)`
abbrev pub max_score : List ScoredNode → ℕ
max_score [] = 0
max_score (s ∷ ss) = max s.score (max_score ss)

abbrev pub refs_of : List ScoredNode → List ScopeRef
refs_of ss = map (λ s. node_scope_ref s.node) ss

-- The winner is the first of the members sorted narrowest first. A group has a member.
abbrev pub merge_sorted : ℕ → List ScoredNode → List MergedNode
merge_sorted score [] = []
merge_sorted score (winner ∷ others) =
    record { node = winner.node; score = score; also_known_at = refs_of others } ∷ []

unfoldable pub merge_group : Group → List MergedNode
merge_group g = merge_sorted (max_score g.members) (sort_by (by_key node_rank) g.members)

abbrev pub merge_groups : List Group → List MergedNode
merge_groups [] = []
merge_groups (g ∷ gs) = merge_group g ++ merge_groups gs

-- The key `(score, rank, created_at)`, compared in that order.
abbrev pub ranks_before : MergedNode → MergedNode → Bool
ranks_before x y =
    if ltb y.score x.score
    then true
    else if ltb x.score y.score
    then false
    else if ltb (rank y.node.owner.scope) (rank x.node.owner.scope)
    then true
    else if ltb (rank x.node.owner.scope) (rank y.node.owner.scope)
    then false
    else leb y.node.created_at x.node.created_at

abbrev shadowed_of : MergedNode → List Shadowed
shadowed_of m = elim m.also_known_at [
  | [] ↦ []
  | r ∷ rs ↦
      record {
        type = m.node.type;
        key = m.node.key;
        displayed_scope = node_scope_ref m.node;
        shadowed_scopes = r ∷ rs;
      }
      ∷ []
]

abbrev all_shadowed : List MergedNode → List Shadowed
all_shadowed [] = []
all_shadowed (m ∷ ms) = shadowed_of m ++ all_shadowed ms

unfoldable pub merge_scored :
    List ScoredNode → List ScopeRef → Option Scope → List MergedNode × ResolutionTrace
merge_scored scored accessible requested_scope =
    let merged = merge_groups (group_all scored []) in
    (
      sort_by ranks_before merged,
      record {
        accessible = accessible;
        requested_scope = requested_scope;
        per_scope_hits = count_hits scored [];
        candidates = length scored;
        merged = length merged;
        shadowed = all_shadowed merged;
      },
    )
