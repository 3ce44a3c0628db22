-- ===== src/Fold/Gate.antt =====
-- pipeline/gates.py: consent first, then the extraction policy, then admission by salience and budget, then
-- the rule that keeps persons out of shared scopes. The patterns of services/pii.py and the scores of
-- services/salience.py are parameters. A list or an object under a denied key raises TypeError in Python.
pub mod Proceeds
use mlpal_memory.Prelude.{
  ℕ, String, Bool, true, false, ◌&&◌, ◌||◌, not, Option, none, some, List, [], ◌∷◌, ◌==◌, contains,
  str_eq, is_some, or_else, if◌then◌else◌,
}
use mlpal_memory.Json.{Json, null, bool, num, str, arr, obj, Dict, Props, get, put, merge}
use mlpal_memory.Scope.{Scope, ScopeRef, scope_eq}
use mlpal_memory.Policy.{
  Scalar, ConsentRow, PolicyRow, ResolvedPolicy, DropRule, metadata_value, holds_scalar, allows,
  drop_reason, budget_for, resolve_consent, resolve_extraction_policy,
}
use mlpal_memory.Graph.Edges.{truthy}
use mlpal_memory.Fold.{Episode}

pub data GateReason : Type 0 where
  consent : String → GateReason
  policy : DropRule → GateReason
  admission : String → GateReason
  pii : String → List String → GateReason

-- What the gate says: fold, drop for a reason, or an exception.
pub data Verdict : Type 0 where
  proceed type_error : Verdict
  drop : GateReason → Verdict

-- `_episode_metadata`
abbrev pub episode_metadata : Episode → Props
episode_metadata ep = merge ep.subject ep.payload

abbrev scalar_of : Json → Option Scalar
scalar_of null = some Scalar.null
scalar_of (bool true) = some (Scalar.num 1)
scalar_of (bool false) = some (Scalar.num 0)
scalar_of (num n) = some (Scalar.num n)
scalar_of (str s) = some (Scalar.str s)
scalar_of (arr xs) = none
scalar_of (obj fs) = none

-- The hashable values, and whether the value under a key has no hash.
abbrev pub scalars : Props → Dict Scalar
scalars [] = []
scalars ((k, v) ∷ m) =
    let rest = scalars m in elim (scalar_of v) [ none ↦ rest | some x ↦ (k, x) ∷ rest ]

abbrev unhashable : Option Json → Bool
unhashable none = false
unhashable (some (arr xs)) = true
unhashable (some (obj fs)) = true
unhashable (some _) = false

-- The rules come to a key whose value has no hash before one of them drops the item.
unfoldable pub rules_raise : Props → Dict (List Scalar) → Bool
rules_raise m [] = false
rules_raise m ((key, denied) ∷ rules) =
    let rest = rules_raise m rules in
    if unhashable (get key m)
    then true
    else if holds_scalar (metadata_value key (scalars m)) denied
    then false
    else rest

unfoldable pub policy_raises : ResolvedPolicy → Episode → Bool
policy_raises p ep =
    not (contains ep.source p.deny_sources)
    && allows p.allow_sources ep.source
    && rules_raise (episode_metadata ep) p.metadata_deny

-- What the gate calls: `admission_reason` of services/salience.py and `classify_pii` of services/pii.py.
pub record Screens : Type 0 where
  pub admission_reason : Episode → Option ℕ → Option ℕ → Option String × Json
  pub classify_pii : Option String → List String
  pub text_of : Option Json → String

-- `resolved.source_budget_per_day` is not empty, or a least salience is set.
abbrev governed : ResolvedPolicy → Bool
governed p = is_some p.min_salience || elim p.source_budget_per_day [ [] ↦ false | _ ∷ _ ↦ true ]

abbrev pub needs_admission : ResolvedPolicy → Episode → Bool
needs_admission p ep = str_eq ep.action_type "document.ingested" && truthy ep.content && governed p

-- A claim in a scope other than a person's own names no person.
abbrev kinds_of : Screens → Episode → List String
kinds_of sc ep = elim (sc.classify_pii ep.content) [
  | [] ↦ sc.classify_pii (some (sc.text_of (get "value" ep.payload)))
  | k ∷ ks ↦ k ∷ ks
]

unfoldable pub lift_reason : Screens → ScopeRef → Episode → Option GateReason
lift_reason sc scope ep =
    if str_eq ep.action_type "memory.claim" && not (scope_eq scope.scope Scope.user)
    then elim (kinds_of sc ep) [ [] ↦ none | k ∷ ks ↦ some (pii k ks) ]
    else none

abbrev verdict_of : Option GateReason → Verdict
verdict_of none = proceed
verdict_of (some r) = drop r

-- After the policy: the salience record goes into the payload.
unfoldable pub admit : Screens → ScopeRef → ResolvedPolicy → Episode → Verdict × Episode
admit sc scope p ep =
    let (reason, rec) = sc.admission_reason ep p.min_salience (budget_for p (some ep.source)) in
    let ep' : Episode = record ep { payload = put "salience" rec ep.payload } in
    if needs_admission p ep
    then elim reason [
      | some r ↦ (drop (admission r), ep')
      | none ↦ (verdict_of (lift_reason sc scope ep'), ep')
    ]
    else (verdict_of (lift_reason sc scope ep), ep)

unfoldable pub apply_policy : Screens → ScopeRef → ResolvedPolicy → Episode → Verdict × Episode
apply_policy sc scope p ep =
    if policy_raises p ep
    then (type_error, ep)
    else elim (drop_reason p ep.source (scalars (episode_metadata ep))) [
      | some r ↦ (drop (policy r), ep)
      | none ↦ admit sc scope p ep
    ]

unfoldable pub fold_gate :
    Screens → List ConsentRow → List PolicyRow → ScopeRef → Episode → Verdict × Episode
fold_gate sc consents policies scope ep = elim (resolve_consent ep.org_id scope consents) [
  | some state ↦ (drop (consent state), ep)
  | none ↦ apply_policy sc scope (resolve_extraction_policy ep.org_id scope policies) ep
]
