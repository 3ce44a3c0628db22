-- ===== src/Fold/Process.antt =====
-- `Updater.process_episode` as a whole: the gate, then the entities, the edges, what a watch says, and the
-- explicit ends. What the extractors give together is a parameter, and so are the vault of
-- services/redaction.py and the store of documents of services/direct.py, which hold no row of the graph.
pub mod Settles
pub mod Counts
use mlpal_memory.Prelude.{
  ℕ, String, Bool, true, false, ◌&&◌, Option, none, some, List, [], ◌∷◌, contains, or_else,
  if◌then◌else◌,
}
use mlpal_memory.Scope.{ScopeRef}
use mlpal_memory.Policy.{ConsentRow, PolicyRow}
use mlpal_memory.Graph.{Store}
use mlpal_memory.Graph.Edges.{truthy}
use mlpal_memory.Fold.{Episode, Extraction, episode_scope}
use mlpal_memory.Fold.Gate.{Verdict, proceed, type_error, drop, GateReason, Screens, fold_gate}
use mlpal_memory.Fold.Entities.{Services, Fold, fold_entities, ◌>>=◌}
use mlpal_memory.Fold.Relations.{Tally, Watch, fold_edges, fold_watch, fold_invalidations}

-- The rows that the fold reads, and what stands outside.
pub record World : Type 0 where
  pub screens : Screens
  pub services : Services
  pub watch : Watch
  pub redact : Episode → Episode
  pub extract : Episode → Extraction
  pub reason_text : GateReason → String
  pub consents : List ConsentRow
  pub policies : List PolicyRow

abbrev content_bearing : List String
content_bearing =
    "chat.message" ∷ "agent.decided" ∷ "build.session.completed" ∷ "document.ingested" ∷ []

-- `extraction_tier` of pipeline/router.py
unfoldable pub extraction_tier : String → Bool → String
extraction_tier action_type has_content =
    if has_content && contains action_type content_bearing then "llm" else "deterministic"

-- The graph part of the fold, from the extraction on.
unfoldable pub fold_extraction : World → Fold → Extraction → Store → Option Tally
fold_extraction w f ex s = do
  (m, s') ← fold_entities w.services f ex.entities ([], s)
  t ← fold_edges w.services f m ex.edges (record { edges = 0; judged = 0; ended = 0; store = s' })
  some (fold_invalidations f m ex.invalidations (fold_watch w.watch f t))

-- What the fold reports.
pub data Report : Type 0 where
  dropped : GateReason → Report
  folded : Tally → Report

abbrev pub note_tier : Episode → Episode
note_tier ep = record ep { tier = some (extraction_tier ep.action_type (truthy ep.content)) }

abbrev pub note_dropped : World → ℕ → GateReason → Episode → Episode
note_dropped w now r ep = record ep {
  dropped_reason = some (w.reason_text r);
  processed = true;
  processed_at = some now;
}

abbrev pub note_folded : ℕ → Episode → Episode
note_folded now ep = record ep { processed = true; processed_at = some now; error = none }

abbrev pub fold_of : ℕ → ScopeRef → Episode → Fold
fold_of now scope ep = record { episode = ep; scope = scope; now = now }

unfoldable pub fold_admitted :
    World → ℕ → ScopeRef → Episode → Store → Option (Report × Episode × Store)
fold_admitted w now scope ep s = do
  t ← fold_extraction w (fold_of now scope (w.redact ep)) (w.extract (w.redact ep)) s
  some (folded t, note_folded now (w.redact ep), t.store)

-- What follows the gate; `none` is an exception, and the caller rolls the transaction back.
unfoldable pub conclude :
    World → ℕ → ScopeRef → Store → Verdict × Episode → Option (Report × Episode × Store)
conclude w now scope s (type_error, ep) = none
conclude w now scope s (drop r, ep) = some (dropped r, note_dropped w now r ep, s)
conclude w now scope s (proceed, ep) = fold_admitted w now scope ep s

-- The verdict of the gate on the episode with its tier.
abbrev pub gated : World → ScopeRef → Episode → Verdict × Episode
gated w scope ep = fold_gate w.screens w.consents w.policies scope (note_tier ep)

-- The fold of an episode of the scope, if the episode has one.
unfoldable pub fold_in :
    World → ℕ → Episode → Store → Option ScopeRef → Option (Report × Episode × Store)
fold_in w now ep s none = none
fold_in w now ep s (some scope) = conclude w now scope s (gated w scope ep)

unfoldable pub process_episode : World → ℕ → Episode → Store → Option (Report × Episode × Store)
process_episode w now ep s = fold_in w now ep s (episode_scope ep)
