-- ===== src/Resolution.antt =====
-- services/resolution.py: the scopes that a caller may read, narrowest first, and the merge of hits across
-- them. A score is a natural number.
pub mod Access
pub mod Merge
use mlpal_memory.Prelude.{
  ℕ, String, Bool, true, false, ◌&&◌, not, Option, none, some, List, [], ◌∷◌, ◌++◌, map, filter,
  any, str_eq, sort_by, by_key, if◌then◌else◌,
}
use mlpal_memory.Scope.{Scope, ScopeRef, rank, scope_eq, ref_eq, global_ref}
use mlpal_memory.Graph.Edges.{truthy}

pub record RetrievalContext : Type 0 where
  pub tenant_id : Option String
  pub user_id : Option String
  pub team_ids : List String
  pub subjects : List ScopeRef
  pub include_global : Bool

abbrev pub has_ref : ScopeRef → List ScopeRef → Bool
has_ref r = any (λ x. ref_eq r x)

-- The scopes in the order in which they are collected.
unfoldable pub collect_scopes : RetrievalContext → List ScopeRef
collect_scopes ctx =
    (if truthy ctx.user_id then record { scope = Scope.user; scope_id = ctx.user_id } ∷ [] else [])
    ++ ctx.subjects
    ++ map (λ t. record { scope = Scope.team; scope_id = some t }) ctx.team_ids
    ++ (if truthy ctx.tenant_id
        then record { scope = Scope.org; scope_id = ctx.tenant_id } ∷ []
        else [])
    ++ (if ctx.include_global then global_ref ∷ [] else [])

-- `[s for s in scopes if not (s in seen or seen.add(s))]`
abbrev pub unique_refs : List ScopeRef → List ScopeRef → List ScopeRef
unique_refs seen [] = []
unique_refs seen (s ∷ scopes) =
    let known = unique_refs seen scopes in
    let new = unique_refs (s ∷ seen) scopes in if has_ref s seen then known else s ∷ new

abbrev pub ref_rank : ScopeRef → ℕ
ref_rank r = rank r.scope

unfoldable pub accessible_scopes : RetrievalContext → List ScopeRef
accessible_scopes ctx = sort_by (by_key ref_rank) (unique_refs [] (collect_scopes ctx))

unfoldable pub narrow_to : List ScopeRef → Option Scope → List ScopeRef
narrow_to scopes none = scopes
narrow_to scopes (some requested) = filter (λ s. scope_eq s.scope requested) scopes
