-- ===== src/Units/Reaches.antt =====
-- The climb from a person's units reaches exactly those and the ones above: readable_units of services/units.py.
use mlpal_memory.Prelude.{
  ℕ, zero, suc, ◌+◌, ◌<◌, ◌≤◌, ◌≡◌, refl, sym, ap, subst, ◌↔◌, ◌⊎◌, inl, inr, true, false, ◌||◌,
  some, List, [], ◌∷◌, ◌++◌, ◌==◌, arith, length, count, All, All-append, All-map_hyp, Bool-cases,
  Option-cases, ==_iff, length-append,
}
use mlpal_memory.Units.{OrgUnit, has, get_unit}
use mlpal_memory.Units.Access.{add_new, add_all, parent_of, note_parent, climb_round, climb}
use mlpal_memory.Units.Descends.{Below, child, deeper, is_left, All-has, has_same}
use mlpal_memory.Units.Trees.{Below-trans}

pub has-append : (n : ℕ) (xs ys : List ℕ) → has n (xs ++ ys) ≡ (has n xs || has n ys)
has-append n [] ys = refl
has-append n (x ∷ xs) ys = ground (arith, has-append n xs ys)

pub has-add_new : (n m : ℕ) (xs : List ℕ) → has n (add_new xs m) ≡ (has n xs || (m == n))
unfolding add_new
has-add_new n m xs = elim (Bool-cases (has m xs)) [
  | inl y ↦ rw y (ground (arith, has_same m n xs))
  | inr f ↦ rw f (ground (arith, has-append n xs (m ∷ [])))
]

pub has-add_all : (n : ℕ) (xs ys : List ℕ) → has n (add_all xs ys) ≡ (has n xs || has n ys)
unfolding add_all
has-add_all n xs [] = ground arith
has-add_all n xs (y ∷ ys) = ground (arith, has-add_all n (add_new xs y) ys, has-add_new n y xs)

All-self : (ns : List ℕ) → All (λ n. has n ns ≡ true) ns
All-self [] = tt
All-self (n ∷ ns) =
    (ground (arith, ==_iff n n), All-map_hyp _ _ ns (λ m h. ground arith) (All-self ns))

-- The unit is one of those, or above one.
abbrev pub InLine : List OrgUnit → List ℕ → ℕ → Type 0
InLine us own n = (o : ℕ) × (has o own ≡ true) × ((n ≡ o) ⊎ Below us n o)

left_le :
    (us : List OrgUnit) (p : ℕ) (out : List ℕ)
    → count (is_left (out ++ p ∷ [])) us ≤ count (is_left out) us
left_le [] p out = omega arith
left_le (u ∷ us) p out = elim (Option-cases u.parent_id) [
  | inl root ↦ ground (arith, left_le us p out, root)
  | inr (q, parent) ↦ ground (arith, left_le us p out, parent, has-append q out (p ∷ []))
]

left_pays :
    (us : List OrgUnit) (n p : ℕ) (out : List ℕ)
    → parent_of us n ≡ some p
    → has p out ≡ false
    → count (is_left (out ++ p ∷ [])) us < count (is_left out) us
left_pays [] n p out parent new = ground arith
left_pays (u ∷ us) n p out parent new = elim (Bool-cases (u.id == n)) [
  | inl y ↦ ground (arith, left_le us p out, has-append p out (p ∷ []), ==_iff p p)
  | inr f ↦ elim (Option-cases u.parent_id) [
    | inl root ↦ ground (arith, left_pays us n p out, root)
    | inr (q, above) ↦ ground (arith, left_pays us n p out, above, has-append q out (p ∷ []))
  ]
]

module _ (us : List OrgUnit) where
  parent_same : (n m : ℕ) → (n == m) ≡ true → parent_of us n ≡ parent_of us m
  parent_same n m e = ap (parent_of us) ((==_iff n m).0 e)

  parent-Below : (n p : ℕ) → parent_of us n ≡ some p → Below us p n
  parent-Below n p parent = elim (Option-cases (get_unit us n)) [
    | inl absent ↦ ground arith
    | inr (u, found) ↦ child u found (ground arith)
  ]

  InLine-parent :
      (own : List ℕ) (n p : ℕ) → parent_of us n ≡ some p → InLine us own n → InLine us own p
  InLine-parent own n p parent (o, mine, inl e) =
      (o, mine, inr (subst (Below us p) e (parent-Below n p parent)))
  InLine-parent own n p parent (o, mine, inr b) =
      (o, mine, inr (Below-trans (parent-Below n p parent) b))

  -- The units in hand: the list and the next frontier.
  record Climbs (own fr : List ℕ) (s : List ℕ × List ℕ) : Type 0 where
    lines : All (InLine us own) s.0
    next : All (InLine us own) s.1
    frontier : All (InLine us own) fr
    mine : (n : ℕ) → has n own ≡ true → has n s.0 ≡ true
    closed :
        (n p : ℕ)
        → has n s.0 ≡ true
        → parent_of us n ≡ some p
        → (has p s.0 || (has n fr || has n s.1)) ≡ true

  Climbs-note_parent :
      (own fr : List ℕ) (n : ℕ) (s : List ℕ × List ℕ)
      → Climbs own (n ∷ fr) s
      → Climbs own fr (note_parent (parent_of us n) s)
  unfolding note_parent
  Climbs-note_parent own fr n s c = elim (Option-cases (parent_of us n)) [
    | inl root ↦ rw root (record {
      lines = c.lines;
      next = c.next;
      frontier = c.frontier.1;
      mine = c.mine;
      closed = λ m p h parent. ground (arith, c.closed m p h parent, parent_same n m);
    })
    | inr (p, parent) ↦ rw parent (elim (Bool-cases (has p s.0)) [
      | inl y ↦ rw y (record {
        lines = c.lines;
        next = c.next;
        frontier = c.frontier.1;
        mine = c.mine;
        closed = λ m q h above.
            ground (arith, c.closed m q h above, parent_same n m, has_same p q s.0, ==_iff p q);
      })
      | inr f ↦ rw f (record {
        lines = All-append _ s.0 (p ∷ []) c.lines (InLine-parent own n p parent c.frontier.0, tt);
        next = All-append _ s.1 (p ∷ []) c.next (InLine-parent own n p parent c.frontier.0, tt);
        frontier = c.frontier.1;
        mine = λ m h. ground (arith, c.mine m h, has-append m s.0 (p ∷ []));
        closed = λ m q h above. ground (
          arith,
          c.closed m q,
          parent_same n m,
          has-append q s.0 (p ∷ []),
          has-append m s.0 (p ∷ []),
          has-append m s.1 (p ∷ []),
          ==_iff p q,
        );
      })
    ])
  ]

  Climbs-round :
      (own fr : List ℕ) (s : List ℕ × List ℕ)
      → Climbs own fr s
      → Climbs own [] (climb_round us fr s)
  unfolding climb_round
  Climbs-round own [] s c = c
  Climbs-round own (n ∷ fr) s c =
      Climbs-round own fr (note_parent (parent_of us n) s) (Climbs-note_parent own fr n s c)

  note_parent_pays :
      (n : ℕ) (s : List ℕ × List ℕ)
      → length (note_parent (parent_of us n) s).1
          + count (is_left (note_parent (parent_of us n) s).0) us
        ≤ length s.1 + count (is_left s.0) us
  unfolding note_parent
  note_parent_pays n s = elim (Option-cases (parent_of us n)) [
    | inl root ↦ rw root (omega arith)
    | inr (p, parent) ↦ rw parent (elim (Bool-cases (has p s.0)) [
      | inl y ↦ rw y (omega arith)
      | inr f ↦ rw f (omega (arith, left_pays us n p s.0 parent f, length-append s.1 (p ∷ [])))
    ])
  ]

  round_pays :
      (fr : List ℕ) (s : List ℕ × List ℕ)
      → length (climb_round us fr s).1 + count (is_left (climb_round us fr s).0) us
        ≤ length s.1 + count (is_left s.0) us
  unfolding climb_round
  round_pays [] s = omega arith
  round_pays (n ∷ fr) s =
      omega (arith, note_parent_pays n s, round_pays fr (note_parent (parent_of us n) s))

  -- The next frontier becomes the frontier of the next round.
  Climbs-turn : (own : List ℕ) (s : List ℕ × List ℕ) → Climbs own [] s → Climbs own s.1 (s.0, [])
  Climbs-turn own s c = record {
    lines = c.lines;
    next = tt;
    frontier = c.next;
    mine = c.mine;
    closed = λ n p h parent. ground (arith, c.closed n p h parent);
  }

  Climbs-climb :
      (own : List ℕ) (fuel : ℕ) (fr ordered : List ℕ)
      → length fr + count (is_left ordered) us ≤ fuel
      → Climbs own fr (ordered, [])
      → Climbs own [] (climb us fuel fr ordered, [])
  unfolding climb
  Climbs-climb own zero [] ordered enough c = c
  Climbs-climb own zero (n ∷ fr) ordered enough c = absurd (omega arith)
  Climbs-climb own (suc fuel) [] ordered enough c = c
  Climbs-climb own (suc fuel) (n ∷ fr) ordered enough c =
      let s = climb_round us (n ∷ fr) (ordered, []) in
      Climbs-climb own fuel s.1 s.0 (omega (arith, round_pays (n ∷ fr) (ordered, [])))
        (Climbs-turn own s (Climbs-round own (n ∷ fr) (ordered, []) c))

  left_bound : (vs : List OrgUnit) (out : List ℕ) → count (is_left out) vs ≤ length vs
  left_bound [] out = omega arith
  left_bound (v ∷ vs) out = ground (arith, left_bound vs out)

  climbed : (own : List ℕ) → Climbs own [] (climb us (length own + length us) own own, [])
  climbed own =
      let mine = All-map_hyp _ (InLine us own) own (λ n h. (n, h, inl refl)) (All-self own) in
      Climbs-climb own (length own + length us) own own (omega (arith, left_bound us own)) (record {
        lines = mine;
        next = tt;
        frontier = mine;
        mine = λ n h. h;
        closed = λ n p h parent. ground arith;
      })

  -- A list with the parents of its units has all that are above them.
  above_closed :
      (own ns : List ℕ) (n o : ℕ)
      → Climbs own [] (ns, [])
      → has o ns ≡ true
      → Below us n o
      → has n ns ≡ true
  above_closed own ns n o c h (child u found parent) = ground (arith, c.closed o n h, found, parent)
  above_closed own ns n o c h (deeper {p} u found parent b) =
      above_closed own ns n p c (ground (arith, c.closed o p h, found, parent)) b

  pub climb_iff :
      (own : List ℕ) (n : ℕ)
      → (has n (climb us (length own + length us) own own) ≡ true) ↔ InLine us own n
  climb_iff own n = (
    λ h.
        All-has (InLine us own) n (climb us (length own + length us) own own) (climbed own).lines h,
    λ h. elim h.2 [
      | inl e ↦
          subst (λ m. has m (climb us (length own + length us) own own) ≡ true) (sym e)
            ((climbed own).mine h.0 h.1)
      | inr b ↦
          above_closed own (climb us (length own + length us) own own) n h.0 (climbed own)
            ((climbed own).mine h.0 h.1) b
    ],
  )
