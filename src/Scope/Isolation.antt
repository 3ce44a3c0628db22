-- ===== src/Scope/Isolation.antt =====
-- What the scope predicate keeps apart: db/scoping.py.
use mlpal_memory.Prelude.{String, ◌≡◌, ◌⊎◌, true, Option, arith, eq_of_opt_eq}
use mlpal_memory.Scope.{Scope, ScopeRef, Owner, scope_clause}

-- A row that `scope_clause` selects is of the scope asked for; unless that scope is global, it is of
-- the caller's tenant and of the scope's id, so no read crosses a tenant.
pub scope_clause-isolates :
    (tenant : Option String) (r : ScopeRef) (o : Owner)
    → scope_clause tenant r o ≡ true
    → (o.scope ≡ r.scope)
      × ((r.scope ≡ Scope.global) ⊎ ((o.org_id ≡ tenant) × (o.scope_id ≡ r.scope_id)))
unfolding scope_clause
scope_clause-isolates tenant r o h =
    ground (arith, eq_of_opt_eq o.org_id tenant, eq_of_opt_eq o.scope_id r.scope_id)
