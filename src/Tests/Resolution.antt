-- ===== src/Tests/Resolution.antt =====
-- The scopes of a caller and the merge of hits.
use mlpal_memory.Prelude.{ℕ, ◌≡◌, refl, true, some, none, List, [], ◌∷◌, All, any}
use mlpal_memory.Scope.{Scope, global_ref}
use mlpal_memory.Graph.Nodes.{new_node}
use mlpal_memory.Resolution.{RetrievalContext, collect_scopes, accessible_scopes, narrow_to}
use mlpal_memory.Resolution.Access.{IsAccess, accessible_scopes-IsAccess}
use mlpal_memory.Resolution.Merge.{
  ScoredNode, MergedNode, node_scope_ref, add_scored, merge_group, merge_scored,
}
use mlpal_memory.Resolution.Merge.Covers.{shows, merge_scored-shows}

program : Unit {0}
unfolding new_node collect_scopes accessible_scopes narrow_to node_scope_ref add_scored merge_group
    merge_scored
program = tt

abbrev caller : RetrievalContext
caller = record {
  tenant_id = some "acme";
  user_id = some "u1";
  team_ids = "t1" ∷ [];
  subjects = record { scope = Scope.repo; scope_id = some "r1" } ∷ [];
  include_global = true;
}

caller-reads :
    accessible_scopes caller
    ≡ record { scope = Scope.user; scope_id = some "u1" }
      ∷ record { scope = Scope.repo; scope_id = some "r1" }
      ∷ record { scope = Scope.team; scope_id = some "t1" }
      ∷ record { scope = Scope.org; scope_id = some "acme" }
      ∷ global_ref
      ∷ []
unfolding program
caller-reads = refl

accessible_scopes-IsAccess_example : IsAccess caller
accessible_scopes-IsAccess_example = accessible_scopes-IsAccess caller

abbrev copy_at : Scope → ℕ → ScoredNode
copy_at s score = record {
  node =
      new_node
        (record {
          tenant = some "acme";
          scope = record { scope = s; scope_id = some "i" };
          type = "Fact";
          key = "f";
        })
        (record {
          name = "f";
          summary = none;
          props = [];
          embedding = none;
          embedding_model = none;
          embedding_dim = none;
          source = none;
        })
        10 1;
  score = score;
}

abbrev hits : List ScoredNode
hits = copy_at Scope.org 900 ∷ copy_at Scope.user 700 ∷ []

abbrev scores : List MergedNode → List ℕ
scores [] = []
scores (m ∷ ms) = m.score ∷ scores ms

one_fact : scores (merge_scored hits [] none).0 ≡ 900 ∷ []
unfolding program
one_fact = refl

merge_scored-shows_example : All (λ s. any (shows s) (merge_scored hits [] none).0 ≡ true) hits
merge_scored-shows_example = merge_scored-shows hits [] none
