-- ===== src/Policy.antt =====
-- services/policy.py: consent and extraction policy down the scope chain. Sets are lists. A salience score
-- is a number of thousandths, as the score record rounds it. A metadata value is a scalar: Python raises
-- TypeError on a list or a dict in a set, and takes a Boolean for the number that it equals.
pub mod Tightening
pub mod Budgets
pub mod Chain
use mlpal_memory.Prelude.{
  ℕ, String, Bool, true, false, ◌&&◌, ◌||◌, not, Option, none, some, List, [], ◌∷◌, ◌++◌, ◌==◌,
  str_eq, is_some, opt_eq, or_else, any, filter, contains, min, max, if◌then◌else◌,
}
use mlpal_memory.Json.{Dict, get, put}
use mlpal_memory.Scope.{Scope, ScopeRef, Owner, scope_eq}

-- Ancestor scopes that govern a write at the target, broad to narrow.
unfoldable pub consent_chain : Option String → ScopeRef → List ScopeRef
consent_chain none target = target ∷ []
consent_chain (some tenant) target = elim target.scope [
  | Scope.global ↦ target ∷ []
  | Scope.org ↦ record { scope = Scope.org; scope_id = some tenant } ∷ []
  | _ ↦ record { scope = Scope.org; scope_id = some tenant } ∷ target ∷ []
]

pub data Scalar : Type 0 where
  null : Scalar
  num : ℕ → Scalar
  str : String → Scalar

abbrev pub scalar_eq : Scalar → Scalar → Bool
scalar_eq null null = true
scalar_eq (num a) (num b) = a == b
scalar_eq (str a) (str b) = str_eq a b
scalar_eq _ _ = false

abbrev pub holds_scalar : Scalar → List Scalar → Bool
holds_scalar v = any (λ d. scalar_eq v d)

-- The JSON of a row's `policy` column: an absent key is `none` or empty.
pub record PolicyRow : Type 0 where
  pub owner : Owner
  pub deny_sources : List String
  pub allow_sources : List String
  pub metadata_deny : Dict (List Scalar)
  pub min_salience : Option ℕ
  pub source_budget_per_day : Dict ℕ

pub record ConsentRow : Type 0 where
  pub owner : Owner
  pub state : String

pub record ResolvedPolicy : Type 0 where
  pub deny_sources : List String
  pub allow_sources : Option (List String)
  pub metadata_deny : Dict (List Scalar)
  pub min_salience : Option ℕ
  pub source_budget_per_day : Dict ℕ

abbrev pub unconstrained : ResolvedPolicy
unconstrained = record {
  deny_sources = [];
  allow_sources = none;
  metadata_deny = [];
  min_salience = none;
  source_budget_per_day = [];
}

-- A source's own budget, else the one for every source.
unfoldable pub budget_for : ResolvedPolicy → Option String → Option ℕ
budget_for p none = none
budget_for p (some source) = elim (get source p.source_budget_per_day) [
  | some n ↦ some n
  | none ↦ get "*" p.source_budget_per_day
]

-- The rules by which an item is excluded.
pub data DropRule : Type 0 where
  deny_source not_allowed_source metadata_deny : String → DropRule

-- `(metadata or {}).get(key)`
abbrev pub metadata_value : String → Dict Scalar → Scalar
metadata_value key m = or_else (get key m) null

abbrev pub metadata_rule : Dict Scalar → Dict (List Scalar) → Option DropRule
metadata_rule m [] = none
metadata_rule m ((key, denied) ∷ rules) =
    if holds_scalar (metadata_value key m) denied
    then some (DropRule.metadata_deny key)
    else metadata_rule m rules

abbrev pub allows : Option (List String) → String → Bool
allows none source = true
allows (some xs) source = contains source xs

unfoldable pub drop_reason : ResolvedPolicy → String → Dict Scalar → Option DropRule
drop_reason p source metadata =
    if contains source p.deny_sources
    then some (deny_source source)
    else if not (allows p.allow_sources source)
    then some (not_allowed_source source)
    else metadata_rule metadata p.metadata_deny

-- `(scope, scope_id) IN keys` for the chain's refs that have an id, and the tenant's rows.
abbrev pub of_chain : Option String → List ScopeRef → Owner → Bool
of_chain none chain o = false
of_chain (some tenant) chain o =
    opt_eq o.org_id (some tenant)
    && any (λ r. is_some r.scope_id && scope_eq o.scope r.scope && opt_eq o.scope_id r.scope_id)
        chain

-- The first blocking state among the rows, `off` or `pause`.
abbrev pub blocks : String → Bool
blocks state = str_eq state "off" || str_eq state "pause"

abbrev pub first_blocking : List ConsentRow → Option String
first_blocking [] = none
first_blocking (r ∷ rows) = if blocks r.state then some r.state else first_blocking rows

unfoldable pub resolve_consent : Option String → ScopeRef → List ConsentRow → Option String
resolve_consent tenant target table =
    first_blocking (filter (λ r. of_chain tenant (consent_chain tenant target) r.owner) table)

-- Each scope's allow-list narrows; an empty one is no constraint.
abbrev pub narrow_allow : Option (List String) → List String → Option (List String)
narrow_allow old [] = old
narrow_allow none (x ∷ xs) = some (x ∷ xs)
narrow_allow (some old) (x ∷ xs) = some (filter (λ s. contains s (x ∷ xs)) old)

-- `setdefault(key, set()).update(vals)`
abbrev pub deny_metadata : Dict (List Scalar) → Dict (List Scalar) → Dict (List Scalar)
deny_metadata old [] = old
deny_metadata old ((key, vals) ∷ new) =
    deny_metadata (put key (or_else (get key old) [] ++ vals) old) new

abbrev pub raise_salience : Option ℕ → Option ℕ → Option ℕ
raise_salience old none = old
raise_salience old (some ms) = some (max (or_else old 0) ms)

abbrev lower_budget : Option ℕ → ℕ → ℕ
lower_budget none n = n
lower_budget (some cur) n = min cur n

abbrev pub lower_budgets : Dict ℕ → Dict ℕ → Dict ℕ
lower_budgets old [] = old
lower_budgets old ((source, n) ∷ new) =
    lower_budgets (put source (lower_budget (get source old) n) old) new

-- The body of the loop over the rows.
unfoldable pub tighten : ResolvedPolicy → PolicyRow → ResolvedPolicy
tighten p r = record {
  deny_sources = p.deny_sources ++ r.deny_sources;
  allow_sources = narrow_allow p.allow_sources r.allow_sources;
  metadata_deny = deny_metadata p.metadata_deny r.metadata_deny;
  min_salience = raise_salience p.min_salience r.min_salience;
  source_budget_per_day = lower_budgets p.source_budget_per_day r.source_budget_per_day;
}

abbrev pub tighten_all : ResolvedPolicy → List PolicyRow → ResolvedPolicy
tighten_all p [] = p
tighten_all p (r ∷ rows) = tighten_all (tighten p r) rows

unfoldable pub resolve_extraction_policy :
    Option String → ScopeRef → List PolicyRow → ResolvedPolicy
resolve_extraction_policy tenant target table =
    tighten_all unconstrained
      (filter (λ r. of_chain tenant (consent_chain tenant target) r.owner) table)
