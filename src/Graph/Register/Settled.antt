-- ===== src/Graph/Register/Settled.antt =====
-- The table refines the register: one open row to a slot, through every sighting in every order.
use mlpal_memory.Prelude.{
  ℕ, ◌+◌, ◌≤◌, ◌<◌, ◌≡◌, ◌≢◌, refl, ap, sym, Bool, true, ◌&&◌, none, some, inl, inr, List, [], ◌∷◌,
  ◌++◌, arith, ◌==◌, length, find, update_first, All, All-append, Bool-cases, if◌then◌else◌,
}
use mlpal_memory.Graph.{Edge, Store}
use mlpal_memory.Graph.Edges.{
  Slot, in_slot, is_open, matches_edge, EdgeArgs, refresh_edge, new_edge, supersede, write_back,
  Superseded, upsert_edge, invalidate_superseded, observe,
}
use mlpal_memory.Graph.Edges.Rows.{
  open_rows, ids, Distinct, refresh_edge_keeps, write_back_absent, supersede_none, ids-supersede,
  supersede_last, visit_self, visit_other,
}

-- A row that is found has one of the ids of the table.
pub find_ne :
    (p : Edge → Bool) (k : ℕ) (o : Edge) (es : List Edge)
    → All (λ i. i ≢ k) (ids es)
    → find p es ≡ some o
    → o.id ≢ k
find_ne p k o [] h f = cc
find_ne p k o (e ∷ es) h f = elim (Bool-cases (p e)) [
  | inl y ↦ ground arith
  | inr n ↦ find_ne p k o es h.1 (ground arith)
]

module _ (q : Slot) (dst : ℕ) where
  -- The query of `upsert_edge` in terms of the open rows.
  find-none : (es : List Edge) → open_rows q es ≡ [] → find (matches_edge q dst) es ≡ none
  find-none [] h = refl
  find-none (e ∷ es) h = ground (arith, find-none es)

  find-one :
      (o : Edge) (es : List Edge)
      → open_rows q es ≡ o ∷ []
      → find (matches_edge q dst) es ≡ (if o.dst_id == dst then some o else none)
  find-one o [] h = cc
  find-one o (e ∷ es) h = elim (Bool-cases (in_slot q e && is_open e)) [
    | inl y ↦ let left : open_rows q es ≡ [] = ground arith in ground (arith, find-none es left)
    | inr n ↦ ground (arith, find-one o es)
  ]

  module _ (a : EdgeArgs) where
    pub ids-refresh :
        (es : List Edge) → ids (update_first (matches_edge q dst) (refresh_edge a) es) ≡ ids es
    ids-refresh [] = refl
    ids-refresh (e ∷ es) =
        let (slot, id, d, v, i) = refresh_edge_keeps q a e in ground (arith, ids-refresh es)

    -- The refreshed row takes the place of the open one.
    pub open_rows-refresh :
        (o : Edge) (es : List Edge)
        → open_rows q es ≡ o ∷ []
        → o.dst_id ≡ dst
        → open_rows q (update_first (matches_edge q dst) (refresh_edge a) es)
          ≡ refresh_edge a o ∷ []
    open_rows-refresh o [] h d = cc
    open_rows-refresh o (e ∷ es) h d = elim (Bool-cases (in_slot q e && is_open e)) [
      | inl y ↦ let (slot, id, d', v, i) = refresh_edge_keeps q a e in ground arith
      | inr n ↦ ground (arith, open_rows-refresh o es)
    ]

    -- After the refresh the table holds the row object, so writing it back changes nothing.
    write_back-refresh :
        (o : Edge) (es : List Edge)
        → find (matches_edge q dst) es ≡ some o
        → Distinct (ids es)
        → write_back (refresh_edge a o) (update_first (matches_edge q dst) (refresh_edge a) es)
          ≡ update_first (matches_edge q dst) (refresh_edge a) es
    write_back-refresh o [] h d = cc
    write_back-refresh o (e ∷ es) h d = elim (Bool-cases (matches_edge q dst e)) [
      | inl y ↦
          let (slot, id, d', v, i) = refresh_edge_keeps q a e in
          let same : e ≡ o = ground arith in
          let rest = write_back_absent q (refresh_edge a e) es (rw id d.0) in ground arith
      | inr n ↦
          let (slot, id, d', v, i) = refresh_edge_keeps q a o in
          let other = find_ne (matches_edge q dst) e.id o es d.0 (ground arith) in
          ground (arith, write_back-refresh o es)
    ]

module _ (q : Slot) where
  -- The slot's one open row is the new edge's own.
  supersede_own :
      (new cur o : Edge) (now : ℕ) (es : List Edge)
      → open_rows q es ≡ o ∷ []
      → o.id ≡ new.id
      → supersede q new now cur es ≡ record { rows = es; new = cur; n = 0 }
  unfolding supersede
  supersede_own new cur o now [] h id = cc
  supersede_own new cur o now (e ∷ es) h id = elim (Bool-cases (in_slot q e && is_open e)) [
    | inl y ↦
        let left : open_rows q es ≡ [] = ground arith in
        let same : e ≡ o = ground arith in
        ground
          (arith, visit_self q new cur e now (ground arith), supersede_none q new cur now es left)
    | inr n ↦ ground (arith, visit_other q new cur e now n, supersede_own new cur o now es)
  ]

-- Ids are distinct and below the counter, and the slot has at most one open row.
pub record IsSettled (q : Slot) (s : Store) : Type 0 where
  pub one : length (open_rows q s.edges) ≤ 1
  pub fresh : All (λ i. i < s.next_id) (ids s.edges)
  pub distinct : Distinct (ids s.edges)

pub All-lt-suc : (n : ℕ) (is : List ℕ) → All (λ i. i < n) is → All (λ i. i < n + 1) is
All-lt-suc n [] h = tt
All-lt-suc n (i ∷ is) h = (omega arith, All-lt-suc n is h.1)

pub All-ne-of_lt : (n : ℕ) (is : List ℕ) → All (λ i. i < n) is → All (λ i. i ≢ n) is
All-ne-of_lt n [] h = tt
All-ne-of_lt n (i ∷ is) h = (omega arith, All-ne-of_lt n is h.1)

pub Distinct-snoc :
    (n : ℕ) (is : List ℕ) → All (λ i. i ≢ n) is → Distinct is → Distinct (is ++ n ∷ [])
Distinct-snoc n [] h d = (tt, tt)
Distinct-snoc n (i ∷ is) h d =
    (All-append (λ j. j ≢ i) is (n ∷ []) d.0 ((λ e. h.0 (sym e)), tt), Distinct-snoc n is h.1 d.1)

pub ids-append : (xs ys : List Edge) → ids (xs ++ ys) ≡ ids xs ++ ids ys
ids-append [] ys = refl
ids-append (x ∷ xs) ys = ap (◌∷◌ x.id) (ids-append xs ys)

-- The three things that one sighting can meet: the fact is open already, nothing is, another fact is.
module _ (q : Slot) (dst : ℕ) (a : EdgeArgs) (now : ℕ) (s : Store) where
  pub upsert_edge-found :
      (o : Edge)
      → find (matches_edge q dst) s.edges ≡ some o
      → upsert_edge q dst a now s ≡ (
        refresh_edge a o,
        record s { edges = update_first (matches_edge q dst) (refresh_edge a) s.edges },
      )
  unfolding upsert_edge
  upsert_edge-found o found = rw (found, upsert_edge)

  pub upsert_edge-new :
      find (matches_edge q dst) s.edges ≡ none
      → upsert_edge q dst a now s ≡ (
        new_edge q dst a now s.next_id,
        record s {
          edges = s.edges ++ new_edge q dst a now s.next_id ∷ [];
          next_id = s.next_id + 1;
        },
      )
  unfolding upsert_edge
  upsert_edge-new absent = rw (absent, upsert_edge)

  pub observe-found :
      (o : Edge)
      → IsSettled q s
      → open_rows q s.edges ≡ o ∷ []
      → o.dst_id ≡ dst
      → observe q dst a now s
        ≡ record s { edges = update_first (matches_edge q dst) (refresh_edge a) s.edges }
  unfolding observe invalidate_superseded
  observe-found o w h d =
      let found : find (matches_edge q dst) s.edges ≡ some o =
        ground (arith, find-one q dst o s.edges h) in
      let new = refresh_edge a o in
      let own = supersede_own q new new new now _ (open_rows-refresh q dst a o s.edges h d) refl in
      rw (upsert_edge-found o found, own, write_back-refresh q dst a o s.edges found w.distinct)
        refl

write_back-append :
    (new : Edge) (xs ys : List Edge)
    → write_back new (xs ++ ys) ≡ write_back new xs ++ write_back new ys
write_back-append new [] ys = refl
write_back-append new (x ∷ xs) ys = rw (write_back-append new xs ys)

write_back_last : (new : Edge) (e : Edge) → e.id ≡ new.id → write_back new (e ∷ []) ≡ new ∷ []
write_back_last new e h = ground arith

module _ (q : Slot) (dst : ℕ) (a : EdgeArgs) (now : ℕ) (s : Store) where
  abbrev pub fresh_edge : Edge
  fresh_edge = new_edge q dst a now s.next_id

  pub id-fresh_edge : fresh_edge.id ≡ s.next_id
  unfolding new_edge
  id-fresh_edge = refl

  pub invalid_at-fresh_edge : fresh_edge.invalid_at ≡ none
  unfolding new_edge
  invalid_at-fresh_edge = refl

  pub fresh_absent : IsSettled q s → All (λ i. i ≢ fresh_edge.id) (ids s.edges)
  fresh_absent w = rw id-fresh_edge (All-ne-of_lt s.next_id (ids s.edges) w.fresh)

  pub observe-first :
      IsSettled q s
      → open_rows q s.edges ≡ []
      → observe q dst a now s
        ≡ record s { edges = s.edges ++ fresh_edge ∷ []; next_id = s.next_id + 1 }
  unfolding observe invalidate_superseded
  observe-first w h =
      rw
        (
          upsert_edge-new q dst a now s (find-none q dst s.edges h),
          supersede_last,
          supersede_none q fresh_edge fresh_edge now s.edges h,
          write_back-append fresh_edge s.edges (fresh_edge ∷ []),
          write_back_absent q fresh_edge s.edges (fresh_absent w),
          write_back_last fresh_edge fresh_edge refl,
        )
        refl

  -- The pass over the table as it was; the new edge's row is at the end.
  abbrev pub pass : Superseded
  pass = supersede q fresh_edge now fresh_edge s.edges

  pub observe-other :
      (o : Edge)
      → IsSettled q s
      → open_rows q s.edges ≡ o ∷ []
      → o.dst_id ≢ dst
      → pass.new.id ≡ fresh_edge.id
      → observe q dst a now s
        ≡ record s { edges = pass.rows ++ pass.new ∷ []; next_id = s.next_id + 1 }
  unfolding observe invalidate_superseded
  observe-other o w h d id =
      rw
        (
          upsert_edge-new q dst a now s (ground (arith, find-one q dst o s.edges h)),
          supersede_last,
          write_back-append pass.new pass.rows (fresh_edge ∷ []),
          write_back_absent q pass.new pass.rows
              (rw (ids-supersede q fresh_edge now fresh_edge s.edges, id) (fresh_absent w)),
          write_back_last pass.new fresh_edge (sym id),
        )
        refl

  -- The new row is the slot's open row, or is bounded by the one that was there.
  pub open_rows_last :
      (new : Edge)
      → in_slot q new ≡ true
      → open_rows q (new ∷ []) ≡ (if is_open new then new ∷ [] else [])
  open_rows_last new h = ground arith
