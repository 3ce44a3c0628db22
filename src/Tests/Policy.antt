-- ===== src/Tests/Policy.antt =====
-- Consent and policy on concrete rows.
use mlpal_memory.Prelude.{ℕ, ◌≤◌, ◌≡◌, refl, true, some, none, [], ◌∷◌, ◌++◌, arith, inl, is_some}
use mlpal_memory.Json.{get, put}
use mlpal_memory.Scope.{Scope, ScopeRef, Owner}
use mlpal_memory.Policy.{
  PolicyRow, ConsentRow, ResolvedPolicy, str, unconstrained, tighten, tighten_all, drop_reason,
  budget_for, resolve_consent, consent_chain,
}
use mlpal_memory.Policy.Tightening.{drops, drops-tighten_all, tighten_all-excludes}
use mlpal_memory.Policy.Budgets.{budget_for-tighten_all, budget_for-loosened}
use mlpal_memory.Policy.Chain.{resolve_consent_org}

program : Unit {0}
unfolding tighten drop_reason budget_for consent_chain resolve_consent get put
program = tt

abbrev org_owner : Owner
org_owner = record { org_id = some "acme"; scope = Scope.org; scope_id = some "acme" }

abbrev denies_slack : PolicyRow
denies_slack = record {
  owner = org_owner;
  deny_sources = "slack" ∷ [];
  allow_sources = [];
  metadata_deny = [];
  min_salience = some 300;
  source_budget_per_day = ("*", 10) ∷ [];
}

abbrev denies_drafts : PolicyRow
denies_drafts = record {
  owner = org_owner;
  deny_sources = [];
  allow_sources = "jira" ∷ "slack" ∷ [];
  metadata_deny = ("state", str "draft" ∷ []) ∷ [];
  min_salience = none;
  source_budget_per_day = ("jira", 50) ∷ [];
}

abbrev drafts : ResolvedPolicy
drafts = tighten unconstrained denies_drafts

drafts-drops : drops drafts "jira" (("state", str "draft") ∷ []) ≡ true
unfolding program
drafts-drops = refl

drops-tighten_all_example :
    drops (tighten_all drafts (denies_slack ∷ [])) "jira" (("state", str "draft") ∷ []) ≡ true
drops-tighten_all_example =
    drops-tighten_all drafts (denies_slack ∷ []) "jira" (("state", str "draft") ∷ []) drafts-drops

denied_source_drops :
    drops (tighten_all unconstrained ((denies_drafts ∷ []) ++ denies_slack ∷ [])) "slack" [] ≡ true
denied_source_drops =
    tighten_all-excludes unconstrained (denies_drafts ∷ []) denies_slack [] "slack" [] (inl refl)

drafts-budget : get "jira" drafts.source_budget_per_day ≡ some 50
unfolding program
drafts-budget = refl

named_budget_bounds :
    (k : ℕ) × (budget_for (tighten_all drafts (denies_slack ∷ [])) (some "jira") ≡ some k)
    × (k ≤ 50)
named_budget_bounds = budget_for-tighten_all "jira" 50 (denies_slack ∷ []) drafts drafts-budget

abbrev ten_a_day : ResolvedPolicy
ten_a_day = record unconstrained { source_budget_per_day = ("*", 10) ∷ [] }

narrow_row_loosens :
    (budget_for ten_a_day (some "jira") ≡ some 10)
    × (budget_for (tighten ten_a_day denies_drafts) (some "jira") ≡ some 50)
narrow_row_loosens =
    budget_for-loosened "jira" 10 50 ten_a_day denies_drafts refl refl refl (omega arith)

abbrev person : ScopeRef
person = record { scope = Scope.user; scope_id = some "u1" }

abbrev paused : ConsentRow
paused = record { owner = org_owner; state = "pause" }

abbrev granted_row : ConsentRow
granted_row = record {
  owner = record { org_id = some "acme"; scope = Scope.user; scope_id = some "u1" };
  state = "on";
}

paused_org :
    is_some (resolve_consent (some "acme") person ((granted_row ∷ []) ++ paused ∷ [])) ≡ true
paused_org = resolve_consent_org "acme" person (granted_row ∷ []) paused [] (λ p. cc) refl refl
