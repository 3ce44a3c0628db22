-- ===== src/Graph/Nodes/Ending.antt =====
-- What ending an entity hides and what it keeps: `end_entity` of graph/drivers/postgres.py.
use mlpal_memory.Prelude.{
  ℕ, String, ◌≡◌, refl, true, false, ◌||◌, ◌+◌, ◌≤◌, inl, inr, opt_eq, All, Bool-cases, Option,
  none, List, [], ◌∷◌, map, arith, or_else, count, if◌then◌else◌,
}
use mlpal_memory.Temporal.{covers}
use mlpal_memory.Graph.{Edge, Store}
use mlpal_memory.Graph.Nodes.{member, ends_with, end_edge, target_ids, end_entity}
use mlpal_memory.Graph.Edges.{is_open}
use mlpal_memory.Graph.Reads.{AsOfMode, valid, system, as_of_clause}
use mlpal_memory.Graph.Views.{but_ends, rows_at, rows_at_cons, IsBefore, Shows}

-- An open relation is still believed.
abbrev pub IsBelieved : Edge → Type 0
IsBelieved e = is_open e ≡ true → e.expired_at ≡ none

module _ (tenant : Option String) (ids keep : List ℕ) (at now : ℕ) where
  abbrev ended : Edge → Edge
  ended e = if ends_with tenant ids keep at e then end_edge at now e else e

  Shows-ended :
      (t : ℕ) (mode : AsOfMode) (e : Edge)
      → IsBefore mode t at now
      → IsBelieved e
      → Shows but_ends t mode e (ended e)
  unfolding as_of_clause covers ends_with
  Shows-ended t valid e h b = (ground arith, ground arith)
  Shows-ended t system e h b = (ground arith, ground arith)

  rows_at-ended :
      (t : ℕ) (mode : AsOfMode) (es : List Edge)
      → IsBefore mode t at now
      → All IsBelieved es
      → rows_at but_ends t mode (map ended es) ≡ rows_at but_ends t mode es
  rows_at-ended t mode [] h b = refl
  rows_at-ended t mode (e ∷ es) h b =
      rows_at_cons but_ends t mode e (ended e) es (map ended es) (Shows-ended t mode e h b.0)
        (rows_at-ended t mode es h b.1)

-- A read of the edges as of an instant before the end, or in the system mode before the clock's reading,
-- gives the rows that it gave before the entity was ended, each with all its columns but the two ends, if
-- no open edge has been given up.
pub end_entity-keeps_history :
    (tenant : Option String) (key : String) (at : Option ℕ) (keep : List ℕ) (now t : ℕ)
    (mode : AsOfMode) (s : Store)
    → IsBefore mode t (or_else at now) now
    → All IsBelieved s.edges
    → rows_at but_ends t mode (end_entity tenant key at keep now s).1.edges
      ≡ rows_at but_ends t mode s.edges
unfolding end_entity
end_entity-keeps_history tenant key at keep now t mode s h b =
    go (target_ids tenant key s.nodes) refl
  where
    go :
        (ids : List ℕ)
        → target_ids tenant key s.nodes ≡ ids
        → rows_at but_ends t mode (end_entity tenant key at keep now s).1.edges
          ≡ rows_at but_ends t mode s.edges
    go [] e = rw (e, end_entity) refl
    go (i ∷ is) e =
        rw (e, end_entity)
          (rows_at-ended tenant (i ∷ is) keep (or_else at now) now t mode s.edges h b)

-- If the edge is of the tenant, touches one of the nodes, is not kept and began by the end, it is closed.
abbrev pub IsOver : Option String → List ℕ → List ℕ → ℕ → Edge → Type 0
IsOver tenant ids keep at e =
    opt_eq e.owner.org_id tenant ≡ true
    → (member e.src_id ids || member e.dst_id ids) ≡ true
    → member e.id keep ≡ false
    → e.valid_at ≤ at
    → is_open e ≡ false

module _ (tenant : Option String) (ids keep : List ℕ) (at now : ℕ) where
  IsOver-ended : (e : Edge) → IsOver tenant ids keep at (ended tenant ids keep at now e)
  unfolding ends_with
  IsOver-ended e own touched free began = elim (Bool-cases (is_open e)) [
    | inr shut ↦ ground (arith, shut)
    | inl live ↦ ground (arith, live, own, touched, free, began)
  ]

  All-IsOver :
      (es : List Edge) → All (IsOver tenant ids keep at) (map (ended tenant ids keep at now) es)
  All-IsOver [] = tt
  All-IsOver (e ∷ es) = (IsOver-ended e, All-IsOver es)

  open_ended :
      (e : Edge)
      → (if is_open e then 1 else 0)
        ≡ (if ends_with tenant ids keep at e then 1 else 0)
          + (if is_open (ended tenant ids keep at now e) then 1 else 0)
  unfolding ends_with
  open_ended e = ground arith

  counted :
      (es : List Edge)
      → count is_open es
        ≡ count (ends_with tenant ids keep at) es
          + count is_open (map (ended tenant ids keep at now) es)
  counted [] = refl
  counted (e ∷ es) = ground (arith, open_ended e, counted es)

IsOver-no_ids :
    (tenant : Option String) (keep : List ℕ) (at : ℕ) (es : List Edge)
    → All (IsOver tenant [] keep at) es
IsOver-no_ids tenant keep at [] = tt
IsOver-no_ids tenant keep at (e ∷ es) =
    (λ own touched free began. cc, IsOver-no_ids tenant keep at es)

-- Afterwards every edge of the tenant that touches one of the entity's nodes is closed, but for those that
-- are kept and those that begin after the end; the count returned is the number of the edges that it closed.
pub end_entity-closes :
    (tenant : Option String) (key : String) (at : Option ℕ) (keep : List ℕ) (now : ℕ) (s : Store)
    → All
        (IsOver tenant (target_ids tenant key s.nodes) keep (or_else at now))
        (end_entity tenant key at keep now s).1.edges
      × (count is_open s.edges
          ≡ (end_entity tenant key at keep now s).0
            + count is_open (end_entity tenant key at keep now s).1.edges)
unfolding end_entity
end_entity-closes tenant key at keep now s = go (target_ids tenant key s.nodes) refl
  where
    go :
        (ids : List ℕ)
        → target_ids tenant key s.nodes ≡ ids
        → All
            (IsOver tenant (target_ids tenant key s.nodes) keep (or_else at now))
            (end_entity tenant key at keep now s).1.edges
          × (count is_open s.edges
              ≡ (end_entity tenant key at keep now s).0
                + count is_open (end_entity tenant key at keep now s).1.edges)
    go [] e = rw (e, end_entity) (IsOver-no_ids tenant keep (or_else at now) s.edges, omega arith)
    go (i ∷ is) e =
        rw (e, end_entity)
          (
            All-IsOver tenant (i ∷ is) keep (or_else at now) now s.edges,
            counted tenant (i ∷ is) keep (or_else at now) now s.edges,
          )
