-- ===== src/Fold/Relations/Writes.antt =====
-- What the edges of a fold, in pipeline/updater.py, do to the tables.
use mlpal_memory.Prelude.{
  ℕ, ◌+◌, ◌≡◌, refl, true, some, inl, inr, List, [], ◌∷◌, arith, All, not, str_eq, Option-cases,
}
use mlpal_memory.Graph.{Edge, Store}
use mlpal_memory.Graph.Edges.{invalidate_superseded, invalidate_edge}
use mlpal_memory.Fold.{EdgeSpec}
use mlpal_memory.Fold.Values.{
  superseded_status, in_open_dsts, is_value_of, refresh_values, refresh_values-served,
}
use mlpal_memory.Fold.Judge.Closes.{Closes, Closes-nothing, Closes-both, Closes-invalidate_edge}
use mlpal_memory.Fold.Entities.{Services, Fold, NodeMap, node_at}
use mlpal_memory.Fold.Relations.{
  Tally, edge_slot, settle_edge, fold_invalidation, fold_invalidations,
}

-- The nodes that are served as values of the anchor are those that an open value edge leads to.
abbrev pub ServesValues : ℕ → Store → Type 0
ServesValues src s =
    All
      (λ n.
        is_value_of src s.edges n.id ≡ true
        → superseded_status n.status ≡ not (in_open_dsts src s.edges n.id))
      s.nodes

ServesValues-refresh_values : (src : ℕ) (s : Store) → ServesValues src (refresh_values src s)
unfolding refresh_values
ServesValues-refresh_values src s = refresh_values-served src s

-- When a value of an anchor is folded, the settling of its edge does not raise, and a node that some value
-- edge of the anchor leads to is superseded exactly when no open value edge of it does, whatever was there
-- before.
pub settle_edge-ServesValues :
    (svc : Services) (f : Fold) (spec : EdgeSpec) (e : Edge) (s : Store)
    → spec.functional ≡ true
    → str_eq spec.type "HAS_VALUE" ≡ true
    → (out : ℕ × Store) × (settle_edge svc f spec e s ≡ some out) × ServesValues e.src_id out.1
unfolding settle_edge
settle_edge-ServesValues svc f spec e s functional value =
    let s' = (invalidate_superseded (edge_slot f spec e.src_id) e f.now s).1 in
    (
      (0, refresh_values e.src_id s'),
      rw (functional, value) refl,
      ServesValues-refresh_values e.src_id s',
    )

-- A tally that went on from another one by closing edges only, and counted them.
abbrev pub Ends : Tally → Tally → Type 0
Ends t t' = (n : ℕ) × (t'.ended ≡ t.ended + n) × Closes t.store (n, t'.store)

Ends-fold_invalidation :
    (f : Fold) (m : NodeMap) (spec : EdgeSpec) (t : Tally) → Ends t (fold_invalidation f m spec t)
unfolding fold_invalidation
Ends-fold_invalidation f m spec t = elim (Option-cases (node_at spec.src_type spec.src_key m)) [
  | inl absent ↦ rw (absent, fold_invalidation) (0, omega arith, Closes-nothing t.store)
  | inr (src, found) ↦ elim (Option-cases (node_at spec.dst_type spec.dst_key m)) [
    | inl absent ↦ rw (found, absent, fold_invalidation) (0, omega arith, Closes-nothing t.store)
    | inr (dst, there) ↦
        let out = invalidate_edge (edge_slot f spec src) dst f.episode.occurred_at f.now t.store in
        rw (found, there, fold_invalidation)
          (
            out.0,
            refl,
            Closes-invalidate_edge (edge_slot f spec src) dst f.episode.occurred_at f.now t.store,
          )
  ]
]

-- The explicit ends of an extraction close open edges and do nothing else, and the fold's report grows by
-- exactly as many as they close.
pub Ends-fold_invalidations :
    (f : Fold) (m : NodeMap) (specs : List EdgeSpec) (t : Tally)
    → Ends t (fold_invalidations f m specs t)
unfolding fold_invalidations
Ends-fold_invalidations f m [] t = (0, omega arith, Closes-nothing t.store)
Ends-fold_invalidations f m (spec ∷ specs) t =
    let t' = fold_invalidation f m spec t in
    let (n, counted, closes) = Ends-fold_invalidation f m spec t in
    let (k, counted', closes') = Ends-fold_invalidations f m specs t' in
    (
      n + k,
      omega (arith, counted, counted'),
      Closes-both t.store (n, t'.store) (k, (fold_invalidations f m specs t').store) closes closes',
    )
