-- ===== src/Graph/Ledger.antt =====
-- The table of edges as a ledger: what the writes of graph/drivers/postgres.py leave as it was.
pub mod Observed
use mlpal_memory.Prelude.{
  ℕ, ◌<◌, ◌+◌, ◌≡◌, ◌≢◌, refl, sym, Bool, true, false, Option, none, some, inl, inr, List, [], ◌∷◌,
  ◌++◌, map, arith, ◌==◌, find, update_first, All, Bool-cases, if◌then◌else◌, is_none, ◌&&◌,
}
use mlpal_memory.Graph.{Edge, Store}
use mlpal_memory.Graph.Edges.{
  Slot, in_slot, is_open, is_rival, matches_edge, ends_here, EdgeArgs, refresh_edge, new_edge,
  close_at, visit, supersede, write_back, upsert_edge, invalidate_superseded, invalidate_edge,
  observe,
}
use mlpal_memory.Graph.Edges.Rows.{ids, Distinct}

-- A row that stands for the same relation, with the same begin; an end once set stays as it is.
pub record IsLater (e e' : Edge) : Type 0 where
  pub id : e'.id ≡ e.id
  pub owner : e'.owner ≡ e.owner
  pub type : e'.type ≡ e.type
  pub src_id : e'.src_id ≡ e.src_id
  pub dst_id : e'.dst_id ≡ e.dst_id
  pub valid_at : e'.valid_at ≡ e.valid_at
  pub ingested_at : e'.ingested_at ≡ e.ingested_at
  pub invalid_at : (t : ℕ) → e.invalid_at ≡ some t → e'.invalid_at ≡ some t
  pub expired_at : (t : ℕ) → e.expired_at ≡ some t → e'.expired_at ≡ some t

-- Every row of the first table is there in the second, at its place; new rows come behind.
abbrev pub Extends : List Edge → List Edge → Type 0
Extends [] fs = Unit
Extends (e ∷ es) [] = ⊥
Extends (e ∷ es) (f ∷ fs) = IsLater e f × Extends es fs

pub IsLater-refl : (e : Edge) → IsLater e e
IsLater-refl e = record {
  id = refl;
  owner = refl;
  type = refl;
  src_id = refl;
  dst_id = refl;
  valid_at = refl;
  ingested_at = refl;
  invalid_at = λ t h. h;
  expired_at = λ t h. h;
}

pub IsLater-refresh : (a : EdgeArgs) (e : Edge) → IsLater e (refresh_edge a e)
unfolding refresh_edge
IsLater-refresh a e = record {
  id = ground arith;
  owner = ground arith;
  type = ground arith;
  src_id = ground arith;
  dst_id = ground arith;
  valid_at = ground arith;
  ingested_at = ground arith;
  invalid_at = λ t h. ground arith;
  expired_at = λ t h. ground arith;
}

-- An open row may be closed.
pub IsLater-close_at :
    (e cur : Edge) (at now : ℕ)
    → e.invalid_at ≡ none
    → IsLater e cur
    → IsLater e (close_at at now cur)
IsLater-close_at e cur at now open' l = record {
  id = l.id;
  owner = l.owner;
  type = l.type;
  src_id = l.src_id;
  dst_id = l.dst_id;
  valid_at = l.valid_at;
  ingested_at = l.ingested_at;
  invalid_at = λ t h. cc;
  expired_at = λ t h. ground (arith, l.expired_at t h);
}

pub IsLater-trans : (a b c : Edge) → IsLater a b → IsLater b c → IsLater a c
IsLater-trans a b c l m = record {
  id = cc (l.id, m.id);
  owner = cc (l.owner, m.owner);
  type = cc (l.type, m.type);
  src_id = cc (l.src_id, m.src_id);
  dst_id = cc (l.dst_id, m.dst_id);
  valid_at = cc (l.valid_at, m.valid_at);
  ingested_at = cc (l.ingested_at, m.ingested_at);
  invalid_at = λ t h. m.invalid_at t (l.invalid_at t h);
  expired_at = λ t h. m.expired_at t (l.expired_at t h);
}

pub Extends-refl : (es : List Edge) → Extends es es
Extends-refl [] = tt
Extends-refl (e ∷ es) = (IsLater-refl e, Extends-refl es)

pub Extends-trans : (a b c : List Edge) → Extends a b → Extends b c → Extends a c
Extends-trans [] b c l m = tt
Extends-trans (x ∷ a) [] c l m = elim l [ ]
Extends-trans (x ∷ a) (y ∷ b) [] l m = elim m [ ]
Extends-trans (x ∷ a) (y ∷ b) (z ∷ c) l m =
    (IsLater-trans x y z l.0 m.0, Extends-trans a b c l.1 m.1)

pub Extends-append : (es fs : List Edge) → Extends es (es ++ fs)
Extends-append [] fs = tt
Extends-append (e ∷ es) fs = (IsLater-refl e, Extends-append es fs)

pub Extends-refresh :
    (p : Edge → Bool) (a : EdgeArgs) (es : List Edge)
    → Extends es (update_first p (refresh_edge a) es)
Extends-refresh p a [] = tt
Extends-refresh p a (e ∷ es) = elim (Bool-cases (p e)) [
  | inl y ↦ rw y (IsLater-refresh a e, Extends-refl es)
  | inr n ↦ rw n (IsLater-refl e, Extends-refresh p a es)
]

-- Ending a relation only closes open rows.
pub Extends-invalidate_edge :
    (q : Slot) (dst at now : ℕ) (s : Store)
    → Extends s.edges (invalidate_edge q dst at now s).1.edges
unfolding invalidate_edge
Extends-invalidate_edge q dst at now s = go s.edges
  where
    go :
        (es : List Edge)
        → Extends es (map (λ e. if ends_here q dst at e then close_at at now e else e) es)
    go [] = tt
    go (e ∷ es) = elim (Bool-cases (ends_here q dst at e)) [
      | inl y ↦ rw y (IsLater-close_at e e at now (ground arith) (IsLater-refl e), go es)
      | inr n ↦ rw n (IsLater-refl e, go es)
    ]
