-- ===== src/Resolution/Access.antt =====
-- The scopes of a caller, of services/resolution.py: no more than was collected, once each, narrowest first.
use mlpal_memory.Prelude.{
  ◌≤◌, ◌≡◌, refl, ap, sym, ◌∙◌, true, ◌&&◌, Option, none, some, inl, inr, List, [], ◌∷◌, arith,
  count, min, opt_eq, eq_of_opt_eq, ◌==◌, Bool-cases, if◌then◌else◌, by_key, count-sort_by,
  count-filter-le, IsDescending, IsDescending-sort_by,
}
use mlpal_memory.Scope.{Scope, ScopeRef, rank, scope_eq, ref_eq}
use mlpal_memory.Resolution.{
  RetrievalContext, has_ref, collect_scopes, unique_refs, ref_rank, accessible_scopes, narrow_to,
}

ref_eq_same : (s x y : ScopeRef) → ref_eq s x ≡ true → ref_eq x y ≡ ref_eq s y
ref_eq_same s x y h =
    let ids : s.scope_id ≡ x.scope_id = eq_of_opt_eq s.scope_id x.scope_id (ground (arith, h)) in
    ap (λ i. (rank x.scope == rank y.scope) && opt_eq i y.scope_id) (sym ids) ∙ ground (arith, h)

has_ref_same :
    (s x : ScopeRef) (seen : List ScopeRef) → ref_eq s x ≡ true → has_ref x seen ≡ has_ref s seen
has_ref_same s x [] h = refl
has_ref_same s x (y ∷ seen) h = ground (arith, ref_eq_same s x y h, has_ref_same s x seen h)

-- How often a scope is there after the repeats are dropped.
count-unique_refs :
    (s : ScopeRef) (seen scopes : List ScopeRef)
    → count (ref_eq s) (unique_refs seen scopes)
      ≡ (if has_ref s seen then 0 else min 1 (count (ref_eq s) scopes))
count-unique_refs s seen [] = ground arith
count-unique_refs s seen (x ∷ scopes) = elim (Bool-cases (ref_eq s x)) [
  | inl same ↦ ground (
    arith,
    same,
    has_ref_same s x seen same,
    count-unique_refs s seen scopes,
    count-unique_refs s (x ∷ seen) scopes,
  )
  | inr other ↦
      ground (arith, other, count-unique_refs s seen scopes, count-unique_refs s (x ∷ seen) scopes)
]

accessible_once :
    (ctx : RetrievalContext) (s : ScopeRef)
    → count (ref_eq s) (accessible_scopes ctx) ≡ min 1 (count (ref_eq s) (collect_scopes ctx))
unfolding accessible_scopes
accessible_once ctx s =
    count-sort_by (by_key ref_rank) (ref_eq s) (unique_refs [] (collect_scopes ctx))
    ∙ count-unique_refs s [] (collect_scopes ctx)

narrowed :
    (scopes : List ScopeRef) (requested : Option Scope) (s : ScopeRef)
    → count (ref_eq s) (narrow_to scopes requested) ≤ count (ref_eq s) scopes
unfolding narrow_to
narrowed scopes none s = omega arith
narrowed scopes (some layer) s = count-filter-le (ref_eq s) (λ x. scope_eq x.scope layer) scopes

-- What a caller may read: the collected scopes, once each, with the narrowest first; and no more than that
-- when it asks for one layer.
pub record IsAccess (ctx : RetrievalContext) : Type 0 where
  pub once :
      (s : ScopeRef)
      → count (ref_eq s) (accessible_scopes ctx) ≡ min 1 (count (ref_eq s) (collect_scopes ctx))
  pub narrowest_first : IsDescending ref_rank (accessible_scopes ctx)
  pub within :
      (requested : Option Scope) (s : ScopeRef)
      → count (ref_eq s) (narrow_to (accessible_scopes ctx) requested)
        ≤ count (ref_eq s) (accessible_scopes ctx)

-- A caller may read exactly the scopes that its context collects, each once, the narrowest first; and asking
-- for one layer never widens them.
pub accessible_scopes-IsAccess : (ctx : RetrievalContext) → IsAccess ctx
unfolding accessible_scopes
accessible_scopes-IsAccess ctx = record {
  once = accessible_once ctx;
  narrowest_first = IsDescending-sort_by ref_rank (unique_refs [] (collect_scopes ctx));
  within = narrowed (accessible_scopes ctx);
}
