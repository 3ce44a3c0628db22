-- ===== src/Fold/Process/Settles.antt =====
-- What a fold that returns leaves behind: pipeline/updater.py.
use mlpal_memory.Prelude.{
  ℕ, String, ◌≡◌, refl, ap, subst, ◌∙◌, true, Option, none, some, inl, inr, List, ◌∷◌, ◌++◌,
  Option-cases,
}
use mlpal_memory.Scope.{Scope, ScopeRef}
use mlpal_memory.Policy.{ConsentRow, blocks}
use mlpal_memory.Graph.{Store}
use mlpal_memory.Fold.{Episode, episode_scope}
use mlpal_memory.Fold.Gate.{Verdict, proceed, type_error, drop, GateReason, fold_gate}
use mlpal_memory.Fold.Gate.Proceeds.{IsClear, fold_gate-IsClear, fold_gate-drops}
use mlpal_memory.Fold.Relations.{Tally}
use mlpal_memory.Fold.Process.{
  World, Report, dropped, folded, note_tier, note_dropped, note_folded, fold_of, fold_extraction,
  fold_admitted, conclude, gated, fold_in, process_episode,
}

-- What a fold that returned says of the episode and of the tables it found. The gate dropped the episode: the
-- tables are as they were. Or it let the episode through as `ep'`: nothing stood against it, the tables are
-- those that the fold of the extraction leaves, and the count is that fold's.
pub data Settled (w : World) (now : ℕ) (ep : Episode) (s : Store)
    : Report × Episode × Store → Type 0 where
  by_gate :
      (scope : ScopeRef) (r : GateReason) (ep' : Episode)
      → episode_scope ep ≡ some scope
      → gated w scope ep ≡ (drop r, ep')
      → Settled w now ep s (dropped r, note_dropped w now r ep', s)
  by_fold :
      (scope : ScopeRef) (ep' : Episode) (t : Tally)
      → episode_scope ep ≡ some scope
      → IsClear w.screens w.consents w.policies scope (note_tier ep) ep'
      → fold_extraction w (fold_of now scope (w.redact ep')) (w.extract (w.redact ep')) s ≡ some t
      → Settled w now ep s (folded t, note_folded now (w.redact ep'), t.store)

abbrev SettledOr : World → ℕ → Episode → Store → Option (Report × Episode × Store) → Type 0
SettledOr w now ep s none = Unit
SettledOr w now ep s (some out) = Settled w now ep s out

settled_fold :
    (w : World) (now : ℕ) (ep ep' : Episode) (s : Store) (scope : ScopeRef)
    → episode_scope ep ≡ some scope
    → IsClear w.screens w.consents w.policies scope (note_tier ep) ep'
    → SettledOr w now ep s (fold_admitted w now scope ep' s)
unfolding fold_admitted
settled_fold w now ep ep' s scope own clear =
    elim (Option-cases
      (fold_extraction w (fold_of now scope (w.redact ep')) (w.extract (w.redact ep')) s)) [
        | inl raised ↦ rw (raised, fold_admitted) tt
        | inr (t, done) ↦ rw (done, fold_admitted) (by_fold scope ep' t own clear done)
      ]

settled_conclude :
    (w : World) (now : ℕ) (ep : Episode) (s : Store) (scope : ScopeRef) (out : Verdict × Episode)
    → episode_scope ep ≡ some scope
    → gated w scope ep ≡ out
    → (out.0 ≡ proceed → IsClear w.screens w.consents w.policies scope (note_tier ep) out.1)
    → SettledOr w now ep s (conclude w now scope s out)
unfolding conclude
settled_conclude w now ep s scope (type_error, ep') own verdict clear = tt
settled_conclude w now ep s scope (drop r, ep') own verdict clear = by_gate scope r ep' own verdict
settled_conclude w now ep s scope (proceed, ep') own verdict clear =
    settled_fold w now ep ep' s scope own (clear refl)

settled_in :
    (w : World) (now : ℕ) (ep : Episode) (s : Store) (o : Option ScopeRef)
    → episode_scope ep ≡ o
    → SettledOr w now ep s (fold_in w now ep s o)
unfolding fold_in
settled_in w now ep s none own = tt
settled_in w now ep s (some scope) own =
    settled_conclude w now ep s scope (gated w scope ep) own refl
      (fold_gate-IsClear w.screens w.consents w.policies scope (note_tier ep))

-- A fold that returns either dropped the episode by the verdict of the gate, marked it so, and left the tables
-- as they were; or consent, policy and the rule on persons stood open, the tables and the count are those
-- that the fold of its extraction gives, and the episode is marked as folded.
pub process_episode_settles :
    (w : World) (now : ℕ) (ep : Episode) (s : Store) (out : Report × Episode × Store)
    → process_episode w now ep s ≡ some out
    → Settled w now ep s out
unfolding process_episode
process_episode_settles w now ep s out done =
    subst (SettledOr w now ep s) done (settled_in w now ep s (episode_scope ep) refl)

-- A tenant whose own row says off or pause learns nothing: the fold of an episode with a scope that is not
-- the global one returns, leaves the graph as it was, and marks the episode processed.
pub process_episode_opted_out :
    (w : World) (now : ℕ) (ep : Episode) (s : Store) (scope : ScopeRef) (tenant : String)
    (before : List ConsentRow) (r : ConsentRow) (after : List ConsentRow)
    → w.consents ≡ before ++ r ∷ after
    → episode_scope ep ≡ some scope
    → (scope.scope ≡ Scope.global → ⊥)
    → ep.org_id ≡ some tenant
    → r.owner ≡ record { org_id = some tenant; scope = Scope.org; scope_id = some tenant }
    → blocks r.state ≡ true
    → (state : String) × (process_episode w now ep s
        ≡ some (
          dropped (GateReason.consent state),
          note_dropped w now (GateReason.consent state) (note_tier ep),
          s,
        ))
unfolding process_episode fold_in conclude
process_episode_opted_out w now ep s scope tenant before r after rows placed shared org own
      blocking =
    let (state, stopped) =
      fold_gate-drops w.screens before r after w.policies tenant scope (note_tier ep) shared org own
        blocking in
    (
      state,
      ap (fold_in w now ep s) placed
          ∙ ap (conclude w now scope s)
              (ap (λ c. fold_gate w.screens c w.policies scope (note_tier ep)) rows ∙ stopped),
    )
