-- ===== src/Graph/Views.antt =====
-- What a read as of an instant sees of the table of edges: `_as_of_clause` of graph/drivers/postgres.py, in
-- both modes, row by row with the columns of the row.
use mlpal_memory.Prelude.{
  ℕ, ◌<◌, ◌≡◌, refl, ap, false, none, inl, inr, List, [], ◌∷◌, ◌++◌, map, filter, Bool-cases,
}
use mlpal_memory.Graph.{Edge}
use mlpal_memory.Graph.Reads.{AsOfMode, valid, system, as_of_clause}

-- A row but for its two ends, which later writes may set.
abbrev pub but_ends : Edge → Edge
but_ends e = record e { invalid_at = none; expired_at = none }

-- The row as a relation: but for its ends, and for the text, props and embedding that a sighting of the same
-- open relation refreshes.
abbrev pub relation : Edge → Edge
relation e = record (but_ends e) {
  fact = none;
  props = [];
  fact_embedding = none;
  embedding_model = none;
  embedding_dim = none;
}

-- The rows that hold at the instant, each as the view shows it, in the table's order.
abbrev pub rows_at : (Edge → Edge) → ℕ → AsOfMode → List Edge → List Edge
rows_at view t mode es = map view (filter (as_of_clause t mode) es)

-- The instant is before the one at which the write takes effect: in the world, or in what is believed.
abbrev pub IsBefore : AsOfMode → ℕ → ℕ → ℕ → Type 0
IsBefore valid t at now = t < at
IsBefore system t at now = t < now

-- The second row is there just where the first is, and shows the same.
abbrev pub Shows : (Edge → Edge) → ℕ → AsOfMode → Edge → Edge → Type 0
Shows view t mode e e' = (as_of_clause t mode e' ≡ as_of_clause t mode e) × (view e' ≡ view e)

module _ (view : Edge → Edge) (t : ℕ) (mode : AsOfMode) where
  pub rows_at-append :
      (xs ys : List Edge)
      → rows_at view t mode (xs ++ ys) ≡ rows_at view t mode xs ++ rows_at view t mode ys
  rows_at-append [] ys = refl
  rows_at-append (x ∷ xs) ys = elim (Bool-cases (as_of_clause t mode x)) [
    | inl y ↦ rw y (ap (◌∷◌ (view x)) (rows_at-append xs ys))
    | inr n ↦ rw n (rows_at-append xs ys)
  ]

  pub rows_at_absent :
      (e : Edge) → as_of_clause t mode e ≡ false → rows_at view t mode (e ∷ []) ≡ []
  rows_at_absent e h = rw h refl

  pub rows_at_cons :
      (e e' : Edge) (es es' : List Edge)
      → Shows view t mode e e'
      → rows_at view t mode es' ≡ rows_at view t mode es
      → rows_at view t mode (e' ∷ es') ≡ rows_at view t mode (e ∷ es)
  rows_at_cons e e' es es' h ih = elim (Bool-cases (as_of_clause t mode e)) [
    | inl y ↦ rw (h.0, y, h.1, ih) refl
    | inr n ↦ rw (h.0, n) ih
  ]
