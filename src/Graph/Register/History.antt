-- ===== src/Graph/Register/History.antt =====
-- What reads as of an instant see of the edges before and after a sighting of a functional relation.
use mlpal_memory.Prelude.{
  ℕ, ◌≡◌, refl, ap, ◌∙◌, Bool, false, none, inl, inr, List, [], ◌∷◌, ◌++◌, arith, ◌==◌, or_else,
  length, update_first, Bool-cases,
}
use mathlib.Core.List.{append-nil}
use mlpal_memory.Temporal.{covers}
use mlpal_memory.Graph.{Edge, Store}
use mlpal_memory.Graph.Edges.{
  Slot, matches_edge, EdgeArgs, refresh_edge, close_at, visit, supersede, observe, new_edge,
}
use mlpal_memory.Graph.Edges.Rows.{open_rows, supersede_one}
use mlpal_memory.Graph.Register.Settled.{
  IsSettled, observe-found, fresh_edge, invalid_at-fresh_edge, fresh_absent, observe-first,
  observe-other, pass,
}
use mlpal_memory.Graph.Register.Assigns.{new_facts, rows-other}
use mlpal_memory.Graph.Ledger.Observed.{visit_cases}
use mlpal_memory.Graph.Reads.{AsOfMode, valid, system, as_of_clause}
use mlpal_memory.Graph.Views.{
  relation, rows_at, rows_at-append, rows_at_absent, rows_at_cons, IsBefore, Shows,
}

Shows-refl : (t : ℕ) (mode : AsOfMode) (e : Edge) → Shows relation t mode e e
Shows-refl t mode e = (refl, refl)

module _ (t : ℕ) (mode : AsOfMode) where
  Shows-refresh : (a : EdgeArgs) (e : Edge) → Shows relation t mode e (refresh_edge a e)
  unfolding refresh_edge as_of_clause
  Shows-refresh a e = go mode
    where
      go : (m : AsOfMode) → Shows relation t m e (refresh_edge a e)
      go valid = (ground arith, ground arith)
      go system = (ground arith, ground arith)

  rows_at-refresh :
      (p : Edge → Bool) (a : EdgeArgs) (es : List Edge)
      → rows_at relation t mode (update_first p (refresh_edge a) es) ≡ rows_at relation t mode es
  rows_at-refresh p a [] = refl
  rows_at-refresh p a (e ∷ es) = elim (Bool-cases (p e)) [
    | inl y ↦
        rw y (rows_at_cons relation t mode e (refresh_edge a e) es es (Shows-refresh a e) refl)
    | inr n ↦
        rw n (rows_at_cons relation t mode e e es _ (Shows-refl t mode e) (rows_at-refresh p a es))
  ]

  -- A row that begins after the instant, in the world and in the table, is not there.
  later_row :
      (at now : ℕ) (e : Edge)
      → IsBefore mode t at now
      → e.valid_at ≡ at
      → e.ingested_at ≡ now
      → as_of_clause t mode e ≡ false
  unfolding as_of_clause covers
  later_row at now e h v i = go mode h
    where
      go : (m : AsOfMode) → IsBefore m t at now → as_of_clause t m e ≡ false
      go valid k = ground (arith, k, v)
      go system k = ground (arith, k, i)

  module _ (q : Slot) (new : Edge) (now : ℕ) (op : new.invalid_at ≡ none)
      (before : IsBefore mode t new.valid_at now) where
    -- A row that the new edge closes, it closes after the instant.
    Shows-close_at :
        (e : Edge) → e.invalid_at ≡ none → Shows relation t mode e (close_at new.valid_at now e)
    unfolding as_of_clause covers
    Shows-close_at e h = go mode before
      where
        go :
            (m : AsOfMode)
            → IsBefore m t new.valid_at now
            → Shows relation t m e (close_at new.valid_at now e)
        go valid k = (ground (arith, k, h), refl)
        go system k = (ground (arith, k, h), refl)

    rows_at-supersede :
        (cur : Edge) (es : List Edge)
        → rows_at relation t mode (supersede q new now cur es).rows ≡ rows_at relation t mode es
    unfolding supersede
    rows_at-supersede cur [] = refl
    rows_at-supersede cur (e ∷ es) =
        let ih = rows_at-supersede (visit q new now e cur).new es in
        let shown : Shows relation t mode e (visit q new now e cur).row =
          elim (visit_cases q new now op e cur) [
            | inl (row, kept) ↦ rw row (Shows-refl t mode e)
            | inr (inl (open', row, kept)) ↦ rw row (Shows-close_at e open')
            | inr (inr (row, bound)) ↦ rw row (Shows-refl t mode e)
          ] in
        rows_at_cons relation t mode e (visit q new now e cur).row es _ shown ih

ingested_at-fresh_edge :
    (q : Slot) (dst : ℕ) (a : EdgeArgs) (now : ℕ) (s : Store)
    → (fresh_edge q dst a now s).ingested_at ≡ now
unfolding new_edge
ingested_at-fresh_edge q dst a now s = refl

-- A sighting changes no read as of an instant before its own time, or in the system mode before the clock's
-- reading: the whole table shows the relations that it showed, each with all its columns but the two ends
-- and the text, props and embedding, which the sighting of a relation that stands open refreshes in place.
pub observe-keeps_history :
    (q : Slot) (s : Store) (dst : ℕ) (a : EdgeArgs) (now t : ℕ) (mode : AsOfMode)
    → IsSettled q s
    → IsBefore mode t (or_else a.valid_at now) now
    → rows_at relation t mode (observe q dst a now s).edges ≡ rows_at relation t mode s.edges
observe-keeps_history q s dst a now t mode w before = go (open_rows q s.edges) refl
  where
    go :
        (rows : List Edge)
        → open_rows q s.edges ≡ rows
        → rows_at relation t mode (observe q dst a now s).edges ≡ rows_at relation t mode s.edges
    go [] h =
        let new = fresh_edge q dst a now s in
        let (slot, d, v) = new_facts q dst a now s w in
        let late =
          later_row t mode (or_else a.valid_at now) now new before v
            (ingested_at-fresh_edge q dst a now s) in
        ap (λ (x : Store). rows_at relation t mode x.edges) (observe-first q dst a now s w h)
        ∙ rows_at-append relation t mode s.edges (new ∷ [])
        ∙ ap (λ (es : List Edge). rows_at relation t mode s.edges ++ es)
            (rows_at_absent relation t mode new late)
        ∙ append-nil _
    go (o ∷ []) h = elim (Bool-cases (o.dst_id == dst)) [
      | inl y ↦
          rw (observe-found q dst a now s o w h (ground arith))
            (rows_at-refresh t mode (matches_edge q dst) a s.edges)
      | inr n ↦
          let new = fresh_edge q dst a now s in
          let (slot, d, v) = new_facts q dst a now s w in
          let op = invalid_at-fresh_edge q dst a now s in
          let (id, rows) = rows-other q dst a now s w o h (ground arith) in
          let (bound, closed) =
            supersede_one q new new o now s.edges h (fresh_absent q dst a now s w)
              (rw d (ground arith)) op in
          let p = pass q dst a now s in
          let late =
            later_row t mode (or_else a.valid_at now) now p.new before (ground (arith, bound, v))
              (ground (arith, bound, ingested_at-fresh_edge q dst a now s)) in
          ap (λ (x : Store). rows_at relation t mode x.edges)
            (observe-other q dst a now s o w h (ground arith) id)
          ∙ rows_at-append relation t mode p.rows (p.new ∷ [])
          ∙ ap (λ (es : List Edge). rows_at relation t mode p.rows ++ es)
              (rows_at_absent relation t mode p.new late)
          ∙ append-nil _
          ∙ rows_at-supersede t mode q new now op (rw v before) new s.edges
    ]
    go (o ∷ p ∷ rows) h = absurd (omega (arith, w.one, ap (length {A = Edge}) h))
