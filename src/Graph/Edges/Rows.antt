-- ===== src/Graph/Edges/Rows.antt =====
-- How the writes of Graph/Edges.antt move the rows of a slot: which stay in it, which stay open.
use mlpal_memory.Prelude.{
  ℕ, ◌≡◌, ◌≢◌, refl, true, false, ◌&&◌, none, inl, inr, List, [], ◌∷◌, ◌++◌, arith, eq_refl,
  opt_eq_refl, filter, All, Bool-cases, if◌then◌else◌, leb,
}
use mlpal_memory.Scope.{scope_clause}
use mlpal_memory.Temporal.{windows_overlap}
use mlpal_memory.Graph.{Edge}
use mlpal_memory.Graph.Edges.{
  Slot, in_slot, is_open, EdgeArgs, refresh_edge, new_edge, close_at, visit, supersede, write_back,
}

-- The open rows of a slot.
abbrev pub open_rows : Slot → List Edge → List Edge
open_rows q = filter (λ e. in_slot q e && is_open e)

abbrev pub ids : List Edge → List ℕ
ids [] = []
ids (e ∷ es) = e.id ∷ ids es

-- No two rows have one id.
abbrev pub Distinct : List ℕ → Type 0
Distinct [] = Unit
Distinct (i ∷ is) = All (λ j. j ≢ i) is × Distinct is

pub in_slot-new_edge :
    (q : Slot) (dst : ℕ) (a : EdgeArgs) (now id : ℕ) → in_slot q (new_edge q dst a now id) ≡ true
unfolding in_slot new_edge scope_clause
in_slot-new_edge q dst a now id =
    ground (arith, opt_eq_refl q.tenant, opt_eq_refl q.scope.scope_id, eq_refl q.type)

pub refresh_edge_keeps :
    (q : Slot) (a : EdgeArgs) (e : Edge)
    → (in_slot q (refresh_edge a e) ≡ in_slot q e)
      × ((refresh_edge a e).id ≡ e.id)
      × ((refresh_edge a e).dst_id ≡ e.dst_id)
      × ((refresh_edge a e).valid_at ≡ e.valid_at)
      × ((refresh_edge a e).invalid_at ≡ e.invalid_at)
unfolding in_slot refresh_edge
refresh_edge_keeps q a e = (ground arith, ground arith, ground arith, ground arith, ground arith)

pub in_slot-close_at :
    (q : Slot) (at now : ℕ) (e : Edge) → in_slot q (close_at at now e) ≡ in_slot q e
unfolding in_slot
in_slot-close_at q at now e = refl

module _ (q : Slot) where
  pub open_rows-append :
      (xs ys : List Edge) → open_rows q (xs ++ ys) ≡ open_rows q xs ++ open_rows q ys
  open_rows-append [] ys = refl
  open_rows-append (x ∷ xs) ys = ground (arith, open_rows-append xs ys)

  -- A write-back to rows of other ids changes nothing.
  pub write_back_absent :
      (new : Edge) (es : List Edge) → All (λ i. i ≢ new.id) (ids es) → write_back new es ≡ es
  write_back_absent new [] h = refl
  write_back_absent new (e ∷ es) h = ground (arith, write_back_absent new es h.1)

  -- A row that the query leaves out.
  pub visit_other :
      (new cur e : Edge) (now : ℕ)
      → (in_slot q e && is_open e) ≡ false
      → visit q new now e cur ≡ record { row = e; new = cur; n = 0 }
  unfolding visit
  visit_other new cur e now n = ground arith

  -- The new edge's own row.
  pub visit_self :
      (new cur e : Edge) (now : ℕ)
      → e.id ≡ new.id
      → visit q new now e cur ≡ record { row = e; new = cur; n = 0 }
  unfolding visit
  visit_self new cur e now n = ground arith

  -- An open row of another destination: the older of the two facts is bounded by the younger.
  visit_rival :
      (new cur o : Edge) (now : ℕ)
      → (in_slot q o && is_open o) ≡ true
      → o.id ≢ new.id
      → o.dst_id ≢ new.dst_id
      → new.invalid_at ≡ none
      → visit q new now o cur ≡ (
          if leb o.valid_at new.valid_at
          then record { row = close_at new.valid_at now o; new = cur; n = 1 }
          else record { row = o; new = close_at o.valid_at now cur; n = 1 })
  unfolding visit windows_overlap
  visit_rival new cur o now y id ne op = ground arith

  id-visit : (new cur e : Edge) (now : ℕ) → (visit q new now e cur).row.id ≡ e.id
  unfolding visit
  id-visit new cur e now = ground arith

  -- Without an open row in the slot the pass writes nothing.
  pub supersede_none :
      (new cur : Edge) (now : ℕ) (es : List Edge)
      → open_rows q es ≡ []
      → supersede q new now cur es ≡ record { rows = es; new = cur; n = 0 }
  unfolding supersede
  supersede_none new cur now [] h = refl
  supersede_none new cur now (e ∷ es) h = elim (Bool-cases (in_slot q e && is_open e)) [
    | inl y ↦ absurd (ground arith)
    | inr n ↦ ground (arith, visit_other new cur e now n, supersede_none new cur now es)
  ]

  -- With one open row of another id and destination, it is closed where the new fact is not older, and
  -- bounds the new edge where it is.
  pub supersede_one :
      (new cur o : Edge) (now : ℕ) (es : List Edge)
      → open_rows q es ≡ o ∷ []
      → All (λ i. i ≢ new.id) (ids es)
      → o.dst_id ≢ new.dst_id
      → new.invalid_at ≡ none
      → ((supersede q new now cur es).new
          ≡ (if leb o.valid_at new.valid_at then cur else close_at o.valid_at now cur))
        × (open_rows q (supersede q new now cur es).rows
            ≡ (if leb o.valid_at new.valid_at then [] else o ∷ []))
  unfolding supersede
  supersede_one new cur o now [] h d ne op = cc
  supersede_one new cur o now (e ∷ es) h d ne op = elim (Bool-cases (in_slot q e && is_open e)) [
    | inl y ↦
        let left : open_rows q es ≡ [] = ground arith in
        let same : e ≡ o = ground arith in
        let here = visit_rival new cur e now y d.0 (ground arith) op in
        let kept = supersede_none new cur now es left in
        let bound = supersede_none new (close_at e.valid_at now cur) now es left in
        (ground arith, ground (arith, in_slot-close_at q new.valid_at now e))
    | inr n ↦
        let ih = supersede_one new cur o now es (ground arith) d.1 ne op in
        let here = visit_other new cur e now n in (ground arith, ground arith)
  ]

  pub ids-supersede :
      (new : Edge) (now : ℕ) (cur : Edge) (es : List Edge)
      → ids (supersede q new now cur es).rows ≡ ids es
  unfolding supersede
  ids-supersede new now cur [] = refl
  ids-supersede new now cur (e ∷ es) =
      cc (id-visit new cur e now, ids-supersede new now (visit q new now e cur).new es)

  pub ids-write_back : (new : Edge) (es : List Edge) → ids (write_back new es) ≡ ids es
  ids-write_back new [] = refl
  ids-write_back new (e ∷ es) = ground (arith, ids-write_back new es)

  -- The new edge at the end of the table: its row is passed over, and then gets the loop's writes.
  pub supersede_last :
      (new cur : Edge) (now : ℕ) (es : List Edge)
      → supersede q new now cur (es ++ new ∷ [])
        ≡ (let out = supersede q new now cur es in record out { rows = out.rows ++ new ∷ [] })
  unfolding supersede
  supersede_last new cur now [] = rw (visit_self new cur new now refl) refl
  supersede_last new cur now (e ∷ es) =
      rw (supersede_last new (visit q new now e cur).new now es) refl
