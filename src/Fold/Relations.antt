-- ===== src/Fold/Relations.antt =====
-- The edges of `Updater.process_episode`: upsert, stamp, supersession or the judge, explicit ends, and the
-- entities that a state claim says are gone or back.
pub mod Writes
use mlpal_memory.Prelude.{
  ℕ, ◌+◌, String, Bool, true, false, Option, none, some, List, [], ◌∷◌, map, ◌==◌, str_eq,
  if◌then◌else◌,
}
use mlpal_memory.Graph.{Node, Edge, Store, Embedding}
use mlpal_memory.Graph.Edges.{Slot, EdgeArgs, upsert_edge, invalidate_superseded, invalidate_edge}
use mlpal_memory.Graph.Nodes.{end_entity, reopen_entity}
use mlpal_memory.Fold.{Episode, EdgeSpec}
use mlpal_memory.Fold.Stamp.{stamp_edge}
use mlpal_memory.Fold.Values.{refresh_values}
use mlpal_memory.Fold.Judge.{judge_with}
use mlpal_memory.Fold.Entities.{Services, Fold, is_claim, NodeMap, node_at, writer_expiry, ◌>>=◌}

-- The counts that the fold reports, and the tables.
pub record Tally : Type 0 where
  pub edges : ℕ
  pub judged : ℕ
  pub ended : ℕ
  pub store : Store

abbrev pub edge_slot : Fold → EdgeSpec → ℕ → Slot
edge_slot f e src = record {
  tenant = f.episode.org_id;
  scope = f.scope;
  type = e.type;
  src_id = src;
}

-- `await self.embedder.embed_one(normalized) if normalized else None`
abbrev pub fact_embedding : Services → EdgeSpec → Option Embedding
fact_embedding svc e = elim (svc.normalize_fact e.fact) [
  | none ↦ none
  | some t ↦ some (svc.embed_one t)
]

abbrev pub edge_args : Services → Fold → EdgeSpec → EdgeArgs
edge_args svc f e = record {
  fact = e.fact;
  props = e.props;
  valid_at = some f.episode.occurred_at;
  source = some f.episode.source;
  fact_embedding = fact_embedding svc e;
  embedding_model = some svc.embedder_name;
  embedding_dim = some svc.embedder_dim;
}

unfoldable pub expire_edge : Services → Fold → EdgeSpec → Edge → Option Edge
expire_edge svc f spec e =
    if is_claim f
    then elim (writer_expiry spec.props) [
      | none ↦ some e
      | some v ↦ do at ← svc.parse_iso v; some (record e { expires_at = some at })
    ]
    else some e

-- A row object is written back under its id.
abbrev pub set_edge : Edge → Store → Store
set_edge e s = record s { edges = map (λ x. if x.id == e.id then e else x) s.edges }

-- What follows the upsert: a functional relation supersedes, another one goes to the judge.
unfoldable pub settle_edge : Services → Fold → EdgeSpec → Edge → Store → Option (ℕ × Store)
settle_edge svc f spec e s =
    if spec.functional
    then if str_eq spec.type "HAS_VALUE"
      then some (
        0,
        refresh_values e.src_id (invalidate_superseded (edge_slot f spec e.src_id) e f.now s).1,
      )
      else some (0, (invalidate_superseded (edge_slot f spec e.src_id) e f.now s).1)
    else if svc.llm_enabled
    then judge_with f.episode.org_id f.scope svc.similarity_threshold svc.contradicts
        (svc.search_fact_edges e) svc.search_limit f.now e s
    else some (0, s)

-- The edge between two nodes, as it is when its settling begins.
unfoldable pub write_edge : Services → Fold → EdgeSpec → ℕ → ℕ → Store → Option (Edge × Store)
write_edge svc f spec src dst s =
    let (e, s') = upsert_edge (edge_slot f spec src) dst (edge_args svc f spec) f.now s in
    do
      e' ← expire_edge svc f spec (stamp_edge svc.working_ttl f.episode e)
      some (e', set_edge e' s')

abbrev pub note_edge : Tally → ℕ × Store → Tally
note_edge t out = record t { edges = t.edges + 1; judged = t.judged + out.0; store = out.1 }

unfoldable pub fold_edge : Services → Fold → NodeMap → EdgeSpec → Tally → Option Tally
fold_edge svc f m spec t = elim (node_at spec.src_type spec.src_key m) [
  | none ↦ some t
  | some src ↦ elim (node_at spec.dst_type spec.dst_key m) [
    | none ↦ some t
    | some dst ↦ do
      (e, s) ← write_edge svc f spec src dst t.store
      out ← settle_edge svc f spec e s
      some (note_edge t out)
  ]
]

unfoldable pub fold_edges : Services → Fold → NodeMap → List EdgeSpec → Tally → Option Tally
fold_edges svc f m [] t = some t
fold_edges svc f m (spec ∷ specs) t = do t' ← fold_edge svc f m spec t; fold_edges svc f m specs t'

abbrev pub note_ended : Tally → ℕ × Store → Tally
note_ended t out = record t { ended = t.ended + out.0; store = out.1 }

-- `absence_target` and `presence_target` of pipeline/claims.py say what the claim names.
pub record Watch : Type 0 where
  pub absence_target : Episode → Option String
  pub presence_target : Episode → Option String

unfoldable pub fold_watch : Watch → Fold → Tally → Tally
fold_watch w f t =
    if is_claim f
    then elim (w.absence_target f.episode) [
      | some target ↦
          note_ended t
            (end_entity f.episode.org_id target (some f.episode.occurred_at) [] f.now t.store)
      | none ↦ elim (w.presence_target f.episode) [
        | some back ↦ record t { store = (reopen_entity f.episode.org_id back t.store).1 }
        | none ↦ t
      ]
    ]
    else t

-- An explicit end of a relation between extracted nodes.
unfoldable pub fold_invalidation : Fold → NodeMap → EdgeSpec → Tally → Tally
fold_invalidation f m spec t = elim (node_at spec.src_type spec.src_key m) [
  | none ↦ t
  | some src ↦ elim (node_at spec.dst_type spec.dst_key m) [
    | none ↦ t
    | some dst ↦
        note_ended t
          (invalidate_edge (edge_slot f spec src) dst f.episode.occurred_at f.now t.store)
  ]
]

unfoldable pub fold_invalidations : Fold → NodeMap → List EdgeSpec → Tally → Tally
fold_invalidations f m [] t = t
fold_invalidations f m (spec ∷ specs) t =
    fold_invalidations f m specs (fold_invalidation f m spec t)
