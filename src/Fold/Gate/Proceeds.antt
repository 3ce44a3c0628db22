-- ===== src/Fold/Gate/Proceeds.antt =====
-- What holds of an episode that the gate of pipeline/gates.py lets through.
use mlpal_memory.Prelude.{
  String, ◌≡◌, refl, ap, ◌∙◌, true, none, some, inl, inr, List, ◌∷◌, ◌++◌, arith, Bool-cases,
  Option-cases,
}
use mlpal_memory.Scope.{Scope, ScopeRef}
use mlpal_memory.Policy.{
  ConsentRow, PolicyRow, ResolvedPolicy, blocks, drop_reason, resolve_consent,
  resolve_extraction_policy,
}
use mlpal_memory.Policy.Chain.{resolve_consent_org}
use mlpal_memory.Fold.{Episode}
use mlpal_memory.Fold.Gate.{
  proceed, drop, Screens, GateReason, episode_metadata, scalars, policy_raises, lift_reason, admit,
  apply_policy, fold_gate,
}

-- Nothing stands against the fold of the episode; `ep'` is the episode as the gate leaves it.
pub record IsClear (sc : Screens) (consents : List ConsentRow) (policies : List PolicyRow)
    (scope : ScopeRef) (ep ep' : Episode) : Type 0 where
  pub consented : resolve_consent ep.org_id scope consents ≡ none
  pub kept :
      drop_reason
        (resolve_extraction_policy ep.org_id scope policies)
        ep.source
        (scalars (episode_metadata ep))
      ≡ none
  pub impersonal : lift_reason sc scope ep' ≡ none
  pub same_id : ep'.event_id ≡ ep.event_id

-- What `admit` leaves.
clear-admit :
    (sc : Screens) (scope : ScopeRef) (p : ResolvedPolicy) (ep : Episode)
    → (admit sc scope p ep).0 ≡ proceed
    → (lift_reason sc scope (admit sc scope p ep).1 ≡ none)
      × ((admit sc scope p ep).1.event_id ≡ ep.event_id)
unfolding admit
clear-admit sc scope p ep h = (ground arith, ground arith)

clear-apply_policy :
    (sc : Screens) (scope : ScopeRef) (p : ResolvedPolicy) (ep : Episode)
    → (apply_policy sc scope p ep).0 ≡ proceed
    → (drop_reason p ep.source (scalars (episode_metadata ep)) ≡ none)
      × (lift_reason sc scope (apply_policy sc scope p ep).1 ≡ none)
      × ((apply_policy sc scope p ep).1.event_id ≡ ep.event_id)
unfolding apply_policy
clear-apply_policy sc scope p ep h = elim (Bool-cases (policy_raises p ep)) [
  | inl y ↦ absurd (ground (arith, h, y))
  | inr n ↦ elim (Option-cases (drop_reason p ep.source (scalars (episode_metadata ep)))) [
    | inr (r, dropped) ↦ absurd (ground (arith, h, n, dropped))
    | inl kept ↦
        let (impersonal, same) = clear-admit sc scope p ep (ground (arith, h, n, kept)) in
        (kept, ground (arith, n, kept, impersonal), ground (arith, n, kept, same))
  ]
]

-- The gate lets an episode through only if no scope of the chain opted out, the policy of the chain does not
-- drop it, and, where it is a claim for a scope that is not a person's, the patterns find no person in it.
pub fold_gate-IsClear :
    (sc : Screens) (consents : List ConsentRow) (policies : List PolicyRow) (scope : ScopeRef)
    (ep : Episode)
    → (fold_gate sc consents policies scope ep).0 ≡ proceed
    → IsClear sc consents policies scope ep (fold_gate sc consents policies scope ep).1
unfolding fold_gate
fold_gate-IsClear sc consents policies scope ep h =
    elim (Option-cases (resolve_consent ep.org_id scope consents)) [
      | inr (state, blocked) ↦ absurd (ground (arith, h, blocked))
      | inl consented ↦
          let p = resolve_extraction_policy ep.org_id scope policies in
          let (kept, impersonal, same) =
            clear-apply_policy sc scope p ep (ground (arith, h, consented)) in
          record {
            consented = consented;
            kept = kept;
            impersonal = ground (arith, consented, impersonal);
            same_id = ground (arith, consented, same);
          }
    ]

-- A tenant whose own row says off or pause learns nothing: every episode for a scope that is not the global
-- one is dropped for consent and left as it is, whatever the other rows and the policy say.
pub fold_gate-drops :
    (sc : Screens) (before : List ConsentRow) (r : ConsentRow) (after : List ConsentRow)
    (policies : List PolicyRow) (tenant : String) (scope : ScopeRef) (ep : Episode)
    → (scope.scope ≡ Scope.global → ⊥)
    → ep.org_id ≡ some tenant
    → r.owner ≡ record { org_id = some tenant; scope = Scope.org; scope_id = some tenant }
    → blocks r.state ≡ true
    → (state : String) × (fold_gate sc (before ++ r ∷ after) policies scope ep
        ≡ (drop (GateReason.consent state), ep))
unfolding fold_gate
fold_gate-drops sc before r after policies tenant scope ep shared org own blocking =
    elim (Option-cases (resolve_consent (some tenant) scope (before ++ r ∷ after))) [
      | inl passed ↦ absurd (
          ground
            (arith, passed, resolve_consent_org tenant scope before r after shared own blocking))
      | inr (state, blocked) ↦
          let stopped = ap (λ t. resolve_consent t scope (before ++ r ∷ after)) org ∙ blocked in
          (state, rw (stopped, fold_gate) refl)
    ]
