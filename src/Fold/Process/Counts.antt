-- ===== src/Fold/Process/Counts.antt =====
-- The edges that a fold writes, of pipeline/updater.py, against those that were extracted.
use mlpal_memory.Prelude.{
  ℕ, suc, ◌+◌, String, ◌≡◌, refl, subst, ◌∙◌, true, Option, none, some, inl, inr, List, [], ◌∷◌,
  arith, All, length, is_some, str_eq, eq_iff, Bool-cases, Option-cases,
}
use mlpal_memory.Graph.{Store}
use mlpal_memory.Fold.{Episode, EntitySpec, EdgeSpec, Extraction}
use mlpal_memory.Fold.Entities.{Services, Fold, NodeMap, node_at, fold_entities}
use mlpal_memory.Fold.Entities.Known.{IsKnown, fold_entities-IsKnown}
use mlpal_memory.Fold.Relations.{
  Tally, Watch, write_edge, settle_edge, fold_edge, fold_edges, fold_watch, fold_invalidation,
  fold_invalidations,
}
use mlpal_memory.Fold.Extractor.{is_seen, extract}
use mlpal_memory.Fold.Extractor.Keeping.{JoinsSeen, IsGrounded}
use mlpal_memory.Fold.Extractor.Grounded.{extract-IsGrounded}
use mlpal_memory.Fold.Process.{World, fold_extraction}

known_of-seen :
    (type key : String) (m : NodeMap) (ents : List EntitySpec)
    → All (IsKnown m) ents
    → is_seen type key ents ≡ true
    → is_some (node_at type key m) ≡ true
known_of-seen type key m [] h seen = cc
known_of-seen type key m (ent ∷ ents) h seen = elim (Bool-cases (str_eq ent.type type)) [
  | inl t ↦ elim (Bool-cases (str_eq ent.key key)) [
    | inl k ↦
        subst (λ x. is_some (node_at x key m) ≡ true) ((eq_iff ent.type type).0 t)
          (subst (λ x. is_some (node_at ent.type x m) ≡ true) ((eq_iff ent.key key).0 k) h.0)
    | inr n ↦ known_of-seen type key m ents h.1 (ground (arith, seen, t, n))
  ]
  | inr n ↦ known_of-seen type key m ents h.1 (ground (arith, seen, n))
]

-- The fold raised, or it has written this many edges.
abbrev pub Counts : ℕ → Option Tally → Type 0
Counts n none = Unit
Counts n (some t) = t.edges ≡ n

Counts-fold_edge :
    (svc : Services) (f : Fold) (m : NodeMap) (spec : EdgeSpec) (t : Tally)
    → is_some (node_at spec.src_type spec.src_key m) ≡ true
    → is_some (node_at spec.dst_type spec.dst_key m) ≡ true
    → Counts (t.edges + 1) (fold_edge svc f m spec t)
unfolding fold_edge
Counts-fold_edge svc f m spec t hs hd = elim (Option-cases (node_at spec.src_type spec.src_key m)) [
  | inl absent ↦ absurd (ground (arith, hs, absent))
  | inr (src, found) ↦ elim (Option-cases (node_at spec.dst_type spec.dst_key m)) [
    | inl absent ↦ absurd (ground (arith, hd, absent))
    | inr (dst, there) ↦ elim (Option-cases (write_edge svc f spec src dst t.store)) [
      | inl raised ↦ rw (found, there, fold_edge, raised) tt
      | inr ((e, s), written) ↦ elim (Option-cases (settle_edge svc f spec e s)) [
        | inl raised ↦ rw (found, there, fold_edge, written, raised) tt
        | inr (out, settled) ↦ rw (found, there, fold_edge, written, settled) refl
      ]
    ]
  ]
]

total : (a b n : ℕ) → a ≡ b + 1 → a + n ≡ b + suc n
total a b n h = omega (arith, h)

Counts-fold_edges :
    (svc : Services) (f : Fold) (m : NodeMap) (ents : List EntitySpec) (specs : List EdgeSpec)
    (t : Tally)
    → All (IsKnown m) ents
    → All (JoinsSeen ents) specs
    → Counts (t.edges + length specs) (fold_edges svc f m specs t)
unfolding fold_edges
Counts-fold_edges svc f m ents [] t known joins = omega arith
Counts-fold_edges svc f m ents (spec ∷ specs) t known joins =
    elim (Option-cases (fold_edge svc f m spec t)) [
      | inl raised ↦ rw (raised, fold_edges) tt
      | inr (t', done) ↦
          let here = subst (Counts (t.edges + 1)) done (
            Counts-fold_edge svc f m spec t
              (known_of-seen spec.src_type spec.src_key m ents known joins.0.0)
              (known_of-seen spec.dst_type spec.dst_key m ents known joins.0.1)) in
          let rest = Counts-fold_edges svc f m ents specs t' known joins.1 in
          rw (done, fold_edges)
            (subst (λ n. Counts n (fold_edges svc f m specs t'))
              (total t'.edges t.edges (length specs) here) rest)
    ]

edges-fold_watch : (w : Watch) (f : Fold) (t : Tally) → (fold_watch w f t).edges ≡ t.edges
unfolding fold_watch
edges-fold_watch w f t = ground arith

edges-fold_invalidations :
    (f : Fold) (m : NodeMap) (specs : List EdgeSpec) (t : Tally)
    → (fold_invalidations f m specs t).edges ≡ t.edges
unfolding fold_invalidations fold_invalidation
edges-fold_invalidations f m [] t = refl
edges-fold_invalidations f m (spec ∷ specs) t =
    edges-fold_invalidations f m specs (fold_invalidation f m spec t) ∙ ground arith

pub Counts-fold_extraction :
    (w : World) (f : Fold) (ex : Extraction) (s : Store)
    → IsGrounded ex
    → Counts (length ex.edges) (fold_extraction w f ex s)
unfolding fold_extraction
Counts-fold_extraction w f ex s h =
    elim (Option-cases (fold_entities w.services f ex.entities ([], s))) [
      | inl raised ↦ rw (raised, fold_extraction) tt
      | inr ((m, s'), done) ↦
          let start : Tally = record { edges = 0; judged = 0; ended = 0; store = s' } in
          let known = fold_entities-IsKnown w.services f ex.entities [] m s s' done in
          elim (Option-cases (fold_edges w.services f m ex.edges start)) [
            | inl raised ↦ rw (done, fold_extraction, raised) tt
            | inr (t, written) ↦
                let counted =
                  subst (Counts (0 + length ex.edges)) written
                    (Counts-fold_edges w.services f m ex.entities ex.edges start known h.edges) in
                rw (done, fold_extraction, written)
                  (edges-fold_invalidations f m ex.invalidations (fold_watch w.watch f t)
                    ∙ edges-fold_watch w.watch f t
                    ∙ omega (arith, counted))
          ]
    ]

-- When the fold of what the rules extract does not raise, it writes as many edges as there are: none is
-- passed over for want of an end.
pub fold_extraction-extract :
    (w : World) (f : Fold) (slug : String → String) (ep : Episode) (s : Store) (t : Tally)
    → fold_extraction w f (extract slug ep) s ≡ some t
    → t.edges ≡ length (extract slug ep).edges
fold_extraction-extract w f slug ep s t done =
    subst (Counts (length (extract slug ep).edges)) done
      (Counts-fold_extraction w f (extract slug ep) s (extract-IsGrounded slug ep))
