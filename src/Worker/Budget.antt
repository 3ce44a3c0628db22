-- ===== src/Worker/Budget.antt =====
-- A fold leaves the retry budget of its episode alone: pipeline/updater.py, for services/worker.py.
use mlpal_memory.Prelude.{
  ℕ, ◌≡◌, refl, ◌∙◌, Option, none, some, inl, inr, List, arith, Option-cases,
}
use mlpal_memory.Graph.{Store}
use mlpal_memory.Scope.{ScopeRef}
use mlpal_memory.Policy.{ConsentRow, PolicyRow, ResolvedPolicy, resolve_extraction_policy}
use mlpal_memory.Fold.{Episode, episode_scope}
use mlpal_memory.Fold.Gate.{
  Verdict, proceed, type_error, drop, Screens, admit, apply_policy, fold_gate,
}
use mlpal_memory.Fold.Process.{
  World, Report, note_tier, fold_of, fold_extraction, fold_admitted, conclude, gated, fold_in,
  process_episode,
}

-- The count of failures and the mark of death are as they were.
abbrev pub SameBudget : Episode → Episode → Type 0
SameBudget ep ep' = (ep'.error_count ≡ ep.error_count) × (ep'.dead_at ≡ ep.dead_at)

SameBudget-admit :
    (sc : Screens) (scope : ScopeRef) (p : ResolvedPolicy) (ep : Episode)
    → SameBudget ep (admit sc scope p ep).1
unfolding admit
SameBudget-admit sc scope p ep = (ground arith, ground arith)

SameBudget-apply_policy :
    (sc : Screens) (scope : ScopeRef) (p : ResolvedPolicy) (ep : Episode)
    → SameBudget ep (apply_policy sc scope p ep).1
unfolding apply_policy
SameBudget-apply_policy sc scope p ep =
    let (count, dead) = SameBudget-admit sc scope p ep in
    (ground (arith, count), ground (arith, dead))

SameBudget-fold_gate :
    (sc : Screens) (consents : List ConsentRow) (policies : List PolicyRow) (scope : ScopeRef)
    (ep : Episode)
    → SameBudget ep (fold_gate sc consents policies scope ep).1
unfolding fold_gate
SameBudget-fold_gate sc consents policies scope ep =
    let (count, dead) =
      SameBudget-apply_policy sc scope (resolve_extraction_policy ep.org_id scope policies) ep in
    (ground (arith, count), ground (arith, dead))

-- The vault rewrites texts only.
abbrev pub RedactsTexts : World → Type 0
RedactsTexts w = (ep : Episode) → SameBudget ep (w.redact ep)

-- The result, if there is one, has the same budget.
abbrev pub SameBudgetOr : Episode → Option (Report × Episode × Store) → Type 0
SameBudgetOr ep none = Unit
SameBudgetOr ep (some out) = SameBudget ep out.1

SameBudget-fold_admitted :
    (w : World) (now : ℕ) (scope : ScopeRef) (ep : Episode) (s : Store)
    → RedactsTexts w
    → SameBudgetOr ep (fold_admitted w now scope ep s)
unfolding fold_admitted
SameBudget-fold_admitted w now scope ep s texts =
    elim (Option-cases
      (fold_extraction w (fold_of now scope (w.redact ep)) (w.extract (w.redact ep)) s)) [
        | inl raised ↦ rw (raised, fold_admitted) tt
        | inr (t, done) ↦ rw (done, fold_admitted) (texts ep)
      ]

SameBudget-conclude :
    (w : World) (now : ℕ) (scope : ScopeRef) (s : Store) (out : Verdict × Episode)
    → RedactsTexts w
    → SameBudgetOr out.1 (conclude w now scope s out)
unfolding conclude
SameBudget-conclude w now scope s (type_error, ep) texts = tt
SameBudget-conclude w now scope s (drop r, ep) texts = (refl, refl)
SameBudget-conclude w now scope s (proceed, ep) texts =
    SameBudget-fold_admitted w now scope ep s texts

SameBudget-trans :
    (a b : Episode) (out : Option (Report × Episode × Store))
    → SameBudget a b
    → SameBudgetOr b out
    → SameBudgetOr a out
SameBudget-trans a b none h k = tt
SameBudget-trans a b (some out) h k = (k.0 ∙ h.0, k.1 ∙ h.1)

SameBudget-fold_in :
    (w : World) (now : ℕ) (ep : Episode) (s : Store) (o : Option ScopeRef)
    → RedactsTexts w
    → SameBudgetOr ep (fold_in w now ep s o)
unfolding fold_in
SameBudget-fold_in w now ep s none texts = tt
SameBudget-fold_in w now ep s (some scope) texts =
    let out = gated w scope ep in
    SameBudget-trans ep out.1 (conclude w now scope s out)
      (SameBudget-fold_gate w.screens w.consents w.policies scope (note_tier ep))
      (SameBudget-conclude w now scope s out texts)

pub SameBudget-process_episode :
    (w : World) (now : ℕ) (ep : Episode) (s : Store)
    → RedactsTexts w
    → SameBudgetOr ep (process_episode w now ep s)
unfolding process_episode
SameBudget-process_episode w now ep s texts = SameBudget-fold_in w now ep s (episode_scope ep) texts
