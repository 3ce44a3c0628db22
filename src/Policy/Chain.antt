-- ===== src/Policy/Chain.antt =====
-- Which rows govern a write: services/policy.py, `consent_chain`, `_load` and `resolve_consent`.
use mlpal_memory.Prelude.{
  String, ◌≡◌, Bool, true, some, List, [], ◌∷◌, ◌++◌, arith, eq_refl, is_some, filter,
}
use mlpal_memory.Scope.{Scope, ScopeRef}
use mlpal_memory.Policy.{
  ConsentRow, consent_chain, of_chain, blocks, first_blocking, resolve_consent,
}

first_blocking_of-row :
    (p : ConsentRow → Bool) (before : List ConsentRow) (r : ConsentRow) (after : List ConsentRow)
    → p r ≡ true
    → blocks r.state ≡ true
    → is_some (first_blocking (filter p (before ++ r ∷ after))) ≡ true
first_blocking_of-row p [] r after h b = ground arith
first_blocking_of-row p (x ∷ before) r after h b =
    ground (arith, first_blocking_of-row p before r after h b)

of_chain_org :
    (tenant : String) (target : ScopeRef)
    → (target.scope ≡ Scope.global → ⊥)
    → of_chain
        (some tenant)
        (consent_chain (some tenant) target)
        (record { org_id = some tenant; scope = Scope.org; scope_id = some tenant })
      ≡ true
unfolding consent_chain
of_chain_org tenant target h = ground (arith, eq_refl tenant)

of_chain_target :
    (tenant : String) (target : ScopeRef) (i : String)
    → (target.scope ≡ Scope.global → ⊥)
    → (target.scope ≡ Scope.org → ⊥)
    → target.scope_id ≡ some i
    → of_chain
        (some tenant)
        (consent_chain (some tenant) target)
        (record { org_id = some tenant; scope = target.scope; scope_id = some i })
      ≡ true
unfolding consent_chain
of_chain_target tenant target i h k e = ground (arith, eq_refl tenant, eq_refl i)

-- For a target that is not global, a row that says `off` or `pause` at the tenant's own org scope blocks
-- learning, whatever the other rows say.
pub resolve_consent_org :
    (tenant : String) (target : ScopeRef) (before : List ConsentRow) (r : ConsentRow)
    (after : List ConsentRow)
    → (target.scope ≡ Scope.global → ⊥)
    → r.owner ≡ record { org_id = some tenant; scope = Scope.org; scope_id = some tenant }
    → blocks r.state ≡ true
    → is_some (resolve_consent (some tenant) target (before ++ r ∷ after)) ≡ true
unfolding resolve_consent
resolve_consent_org tenant target before r after h o b =
    first_blocking_of-row (λ x. of_chain (some tenant) (consent_chain (some tenant) target) x.owner)
      before r after (rw o (of_chain_org tenant target h)) b
