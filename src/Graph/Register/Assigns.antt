-- ===== src/Graph/Register/Assigns.antt =====
-- The table refines the register, for one sighting and for every sequence of them.
use mlpal_memory.Prelude.{
  ℕ, ◌+◌, ◌≤◌, ◌<◌, ◌≡◌, ◌≢◌, refl, ap, ◌∙◌, true, inl, inr, List, [], ◌∷◌, ◌++◌, arith, ◌==◌, leb,
  or_else, length, All-append, Bool-cases, if◌then◌else◌,
}
use mlpal_memory.Graph.{Edge, Store}
use mlpal_memory.Graph.Edges.{Slot, in_slot, EdgeArgs, new_edge, close_at, observe}
use mlpal_memory.Graph.Edges.Rows.{
  open_rows, ids, refresh_edge_keeps, in_slot-new_edge, in_slot-close_at, open_rows-append,
  supersede_one, ids-supersede,
}
use mlpal_memory.Graph.Register.{current, assign, Sighting, observe_all, assign_all}
use mlpal_memory.Graph.Register.Settled.{
  IsSettled, All-lt-suc, All-ne-of_lt, Distinct-snoc, ids-append, ids-refresh, open_rows-refresh,
  observe-found, fresh_edge, id-fresh_edge, invalid_at-fresh_edge, fresh_absent, observe-first,
  observe-other, pass, open_rows_last,
}

-- A table of the same ids and one more, the counter's.
IsSettled-grow :
    (q : Slot) (s : Store) (e : Edge) (rows : List Edge)
    → IsSettled q s
    → ids rows ≡ ids s.edges
    → e.id ≡ s.next_id
    → length (open_rows q (rows ++ e ∷ [])) ≤ 1
    → IsSettled q (record s { edges = rows ++ e ∷ []; next_id = s.next_id + 1 })
IsSettled-grow q s e rows w same id one = record {
  one = one;
  fresh =
      rw (ids-append rows (e ∷ []), same, id)
        (All-append (λ i. i < s.next_id + 1) (ids s.edges) (s.next_id ∷ [])
          (All-lt-suc s.next_id (ids s.edges) w.fresh) (omega arith, tt));
  distinct =
      rw (ids-append rows (e ∷ []), same, id)
        (Distinct-snoc s.next_id (ids s.edges) (All-ne-of_lt s.next_id (ids s.edges) w.fresh)
          w.distinct);
}

-- What one sighting does: the slot stays settled, and shows the assigned register.
abbrev Assigned : Slot → Store → ℕ → EdgeArgs → ℕ → Type 0
Assigned q s dst a now =
    IsSettled q (observe q dst a now s)
    × (current q (observe q dst a now s) ≡ assign (current q s) dst (or_else a.valid_at now))

module _ (q : Slot) (dst : ℕ) (a : EdgeArgs) (now : ℕ) (s : Store) (w : IsSettled q s) where
  abbrev new : Edge
  new = fresh_edge q dst a now s

  pub new_facts :
      (in_slot q new ≡ true) × (new.dst_id ≡ dst) × (new.valid_at ≡ or_else a.valid_at now)
  unfolding new_edge
  new_facts = (in_slot-new_edge q dst a now s.next_id, refl, refl)

  assigns-first : open_rows q s.edges ≡ [] → Assigned q s dst a now
  unfolding assign
  assigns-first h =
      let (slot, d, v) = new_facts in
      let open' = invalid_at-fresh_edge q dst a now s in
      let rows : open_rows q (s.edges ++ new ∷ []) ≡ new ∷ [] =
        rw (open_rows-append q s.edges (new ∷ []), h)
          (ground (arith, open_rows_last q dst a now s new slot)) in
      rw (observe-first q dst a now s w h) (
        IsSettled-grow q s new s.edges w refl (id-fresh_edge q dst a now s) (rw rows (omega arith)),
        rw (rows, h, d, v) refl,
      )

  assigns-found :
      (o : Edge) → open_rows q s.edges ≡ o ∷ [] → o.dst_id ≡ dst → Assigned q s dst a now
  unfolding assign
  assigns-found o h e =
      let (slot, id, d, v, i) = refresh_edge_keeps q a o in
      let rows = open_rows-refresh q dst a o s.edges h e in
      rw (observe-found q dst a now s o w h e) (
        record {
          one = rw rows (omega arith);
          fresh = rw (ids-refresh q dst a s.edges) w.fresh;
          distinct = rw (ids-refresh q dst a s.edges) w.distinct;
        },
        rw (rows, h) (ground arith),
      )

  -- After the pass over another fact's open row: whose row is open, and the new row's id.
  pub rows-other :
      (o : Edge)
      → open_rows q s.edges ≡ o ∷ []
      → o.dst_id ≢ dst
      → ((pass q dst a now s).new.id ≡ new.id)
        × (open_rows q ((pass q dst a now s).rows ++ (pass q dst a now s).new ∷ [])
            ≡ (if leb o.valid_at new.valid_at then new ∷ [] else o ∷ []))
  rows-other o h ne =
      let (slot, d, v) = new_facts in
      let open' = invalid_at-fresh_edge q dst a now s in
      let (bound, closed) =
        supersede_one q new new o now s.edges h (fresh_absent q dst a now s w) (rw d ne) open' in
      elim (Bool-cases (leb o.valid_at new.valid_at)) [
        | inl y ↦ (
          ground arith,
          rw (open_rows-append q (pass q dst a now s).rows ((pass q dst a now s).new ∷ []))
              (ground (arith, open_rows_last q dst a now s new slot)),
        )
        | inr n ↦ (
          ground arith,
          rw (open_rows-append q (pass q dst a now s).rows ((pass q dst a now s).new ∷ [])) (
              ground (
                arith,
                in_slot-close_at q o.valid_at now new,
                open_rows_last q dst a now s (close_at o.valid_at now new),
              )),
        )
      ]

  assigns-other :
      (o : Edge) → open_rows q s.edges ≡ o ∷ [] → o.dst_id ≢ dst → Assigned q s dst a now
  unfolding assign
  assigns-other o h ne =
      let (slot, d, v) = new_facts in
      let (id, rows) = rows-other o h ne in
      let p = pass q dst a now s in
      rw (observe-other q dst a now s o w h ne id) (
        IsSettled-grow q s p.new p.rows w (ids-supersede q new now new s.edges)
            (id ∙ id-fresh_edge q dst a now s) (rw rows (ground arith)),
        rw (rows, h) (ground arith),
      )

-- From a slot with at most one open row, a sighting leaves at most one, and assigns to the register: the
-- same fact changes nothing, another one replaces it unless it is older in valid time, and then stays a
-- bounded row beside it.
pub observe-assigns :
    (q : Slot) (s : Store) (dst : ℕ) (a : EdgeArgs) (now : ℕ)
    → IsSettled q s
    → IsSettled q (observe q dst a now s)
      × (current q (observe q dst a now s) ≡ assign (current q s) dst (or_else a.valid_at now))
observe-assigns q s dst a now w = go (open_rows q s.edges) refl
  where
    go : (rows : List Edge) → open_rows q s.edges ≡ rows → Assigned q s dst a now
    go [] h = assigns-first q dst a now s w h
    go (o ∷ []) h = elim (Bool-cases (o.dst_id == dst)) [
      | inl y ↦ assigns-found q dst a now s w o h (ground arith)
      | inr n ↦ assigns-other q dst a now s w o h (ground arith)
    ]
    go (o ∷ p ∷ rows) h = absurd (omega (arith, w.one, ap (length {A = Edge}) h))

-- Whatever sightings come in whatever order, the slot keeps at most one open row, and the table shows what
-- the register holds after the same assignments.
pub observe_all-refines :
    (q : Slot) (os : List Sighting) (s : Store)
    → IsSettled q s
    → IsSettled q (observe_all q s os)
      × (current q (observe_all q s os) ≡ assign_all (current q s) os)
observe_all-refines q [] s w = (w, refl)
observe_all-refines q (o ∷ os) s w =
    let (settled, assigned) = observe-assigns q s o.dst_id o.args o.now w in
    rw (← assigned) (observe_all-refines q os (observe q o.dst_id o.args o.now s) settled)
