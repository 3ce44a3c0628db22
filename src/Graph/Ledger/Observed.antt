-- ===== src/Graph/Ledger/Observed.antt =====
-- A sighting of a functional fact extends the ledger: nothing is deleted, no end is moved.
use mlpal_memory.Prelude.{
  ℕ, ◌<◌, ◌≡◌, ◌≢◌, ◌⊎◌, refl, ap, Bool, none, some, inl, inr, List, [], ◌∷◌, ◌++◌, arith, ◌==◌,
  true, find, update_first, All, Bool-cases, Option-cases,
}
use mlpal_memory.Graph.{Edge, Store}
use mlpal_memory.Graph.Edges.{
  Slot, matches_edge, close_at, EdgeArgs, refresh_edge, visit, supersede, write_back, upsert_edge,
  invalidate_superseded, observe,
}
use mlpal_memory.Graph.Edges.Rows.{ids, Distinct, refresh_edge_keeps}
use mlpal_memory.Graph.Ledger.{
  IsLater, IsLater-refl, IsLater-close_at, Extends, Extends-trans, Extends-append, Extends-refresh,
}
use mlpal_memory.Graph.Register.Settled.{
  All-ne-of_lt, find_ne, upsert_edge-found, upsert_edge-new, id-fresh_edge, invalid_at-fresh_edge,
}

-- Where the new edge's row stands, it is the row object itself.
abbrev pub Owns : Edge → List Edge → Type 0
Owns new [] = Unit
Owns new (e ∷ es) = (e.id ≡ new.id → e ≡ new) × Owns new es

module _ (q : Slot) (new : Edge) (now : ℕ) (op : new.invalid_at ≡ none) where
  -- A visit leaves both rows, closes the open old row, or closes the new edge.
  pub visit_cases :
      (e cur : Edge)
      → ((visit q new now e cur).row ≡ e) × ((visit q new now e cur).new ≡ cur)
        ⊎ (e.invalid_at ≡ none)
          × ((visit q new now e cur).row ≡ close_at new.valid_at now e)
          × ((visit q new now e cur).new ≡ cur)
        ⊎ ((visit q new now e cur).row ≡ e)
          × ((visit q new now e cur).new ≡ close_at e.valid_at now cur)
  unfolding visit
  visit_cases e cur = ground arith

  IsLater-visit :
      (e cur : Edge)
      → IsLater new cur
      → IsLater e (visit q new now e cur).row × IsLater new (visit q new now e cur).new
  IsLater-visit e cur l = elim (visit_cases e cur) [
    | inl (row, kept) ↦ rw (row, kept) (IsLater-refl e, l)
    | inr (inl (op', row, kept)) ↦
        rw (row, kept) (IsLater-close_at e e new.valid_at now op' (IsLater-refl e), l)
    | inr (inr (row, bound)) ↦
        rw (row, bound) (IsLater-refl e, IsLater-close_at new cur e.valid_at now op l)
  ]

  -- The pass closes open rows, and the new edge in its variable.
  IsLater-supersede :
      (cur : Edge) (es : List Edge) → IsLater new cur → IsLater new (supersede q new now cur es).new
  unfolding supersede
  IsLater-supersede cur [] l = l
  IsLater-supersede cur (e ∷ es) l =
      IsLater-supersede (visit q new now e cur).new es (IsLater-visit e cur l).1

  Extends-supersede :
      (cur last : Edge) (es : List Edge)
      → IsLater new cur
      → IsLater new last
      → Owns new es
      → Extends es (write_back last (supersede q new now cur es).rows)
  unfolding supersede
  Extends-supersede cur last [] l m o = tt
  Extends-supersede cur last (e ∷ es) l m o =
      elim (Bool-cases ((visit q new now e cur).row.id == last.id)) [
        | inl y ↦
            let seen = IsLater-visit e cur l in
            rw y (
              rw (o.0 (ground (arith, seen.0.id, m.id))) m,
              Extends-supersede (visit q new now e cur).new last es seen.1 m o.1,
            )
        | inr n ↦
            let seen = IsLater-visit e cur l in
            rw n (seen.0, Extends-supersede (visit q new now e cur).new last es seen.1 m o.1)
      ]

Owns-absent : (new : Edge) (es : List Edge) → All (λ i. i ≢ new.id) (ids es) → Owns new es
Owns-absent new [] h = tt
Owns-absent new (e ∷ es) h = ((λ p. absurd (h.0 p)), Owns-absent new es h.1)

Owns-append : (new : Edge) (es fs : List Edge) → Owns new es → Owns new fs → Owns new (es ++ fs)
Owns-append new [] fs h k = k
Owns-append new (e ∷ es) fs h k = (h.0, Owns-append new es fs h.1 k)

-- What the query finds satisfies it.
find_holds : (p : Edge → Bool) (o : Edge) (es : List Edge) → find p es ≡ some o → p o ≡ true
find_holds p o [] h = cc
find_holds p o (e ∷ es) h = elim (Bool-cases (p e)) [
  | inl y ↦ ground arith
  | inr n ↦ find_holds p o es (ground arith)
]

Owns-refresh :
    (p : Edge → Bool) (a : EdgeArgs) (q : Slot) (o : Edge) (es : List Edge)
    → find p es ≡ some o
    → Distinct (ids es)
    → Owns (refresh_edge a o) (update_first p (refresh_edge a) es)
Owns-refresh p a q o [] h d = tt
Owns-refresh p a q o (e ∷ es) h d = elim (Bool-cases (p e)) [
  | inl y ↦
      let same : e ≡ o = ground arith in
      let keeps = refresh_edge_keeps q a o in
      let id : (refresh_edge a o).id ≡ e.id = cc (keeps.1) in
      rw y ((λ _. ap (refresh_edge a) same), Owns-absent (refresh_edge a o) es (rw id d.0))
  | inr n ↦
      let keeps = refresh_edge_keeps q a o in
      let other = find_ne p e.id o es d.0 (ground arith) in
      rw n ((λ x. absurd (other (ground arith))), Owns-refresh p a q o es (ground arith) d.1)
]

module _ (q : Slot) (dst : ℕ) (a : EdgeArgs) (now : ℕ) where
  -- What `upsert_edge` gives: an open edge that owns its row, in a table that extends the old one.
  upsert_edge-Extends :
      (s : Store)
      → All (λ i. i < s.next_id) (ids s.edges)
      → Distinct (ids s.edges)
      → ((upsert_edge q dst a now s).0.invalid_at ≡ none)
        × Owns (upsert_edge q dst a now s).0 (upsert_edge q dst a now s).1.edges
        × Extends s.edges (upsert_edge q dst a now s).1.edges
  upsert_edge-Extends s f d = elim (Option-cases (find (matches_edge q dst) s.edges)) [
    | inl none' ↦ rw (upsert_edge-new q dst a now s none') (
      invalid_at-fresh_edge q dst a now s,
      Owns-append _ s.edges _
          (Owns-absent _ s.edges
            (rw (id-fresh_edge q dst a now s) (All-ne-of_lt s.next_id (ids s.edges) f)))
          ((λ _. refl), tt),
      Extends-append s.edges _,
    )
    | inr (o, found) ↦
        let keeps = refresh_edge_keeps q a o in
        rw (upsert_edge-found q dst a now s o found) (
          ground (arith, find_holds (matches_edge q dst) o s.edges found),
          Owns-refresh (matches_edge q dst) a q o s.edges found d,
          Extends-refresh (matches_edge q dst) a s.edges,
        )
  ]

-- A sighting of a functional fact keeps every row at its place, with its identity and its begin, and moves
-- no end that is set: the table is only extended.
pub observe-Extends :
    (q : Slot) (dst : ℕ) (a : EdgeArgs) (now : ℕ) (s : Store)
    → All (λ i. i < s.next_id) (ids s.edges)
    → Distinct (ids s.edges)
    → Extends s.edges (observe q dst a now s).edges
unfolding observe invalidate_superseded
observe-Extends q dst a now s f d =
    let (e, s') = upsert_edge q dst a now s in
    let (op, own, ext) = upsert_edge-Extends q dst a now s f d in
    Extends-trans s.edges s'.edges (invalidate_superseded q e now s').1.edges ext (
      Extends-supersede q e now op e _ s'.edges (IsLater-refl e)
        (IsLater-supersede q e now op e s'.edges (IsLater-refl e)) own)
