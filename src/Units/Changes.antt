-- ===== src/Units/Changes.antt =====
-- The three changes of rows that services/units.py makes keep the tree well formed.
use mlpal_memory.Prelude.{
  ℕ, ◌≡◌, ◌≢◌, refl, sym, ◌∙◌, subst, ◌⊎◌, inl, inr, Bool, true, false, not, ◌&&◌, Option, none,
  some, List, [], ◌∷◌, ◌++◌, ◌==◌, arith, All, All-append, All-map_hyp, Bool-cases, Option-cases,
  ==_iff, any, eq_iff,
}
use mlpal_memory.Units.{OrgUnit, get_unit}
use mlpal_memory.Units.Writes.{parent_eq, is_named}
use mlpal_memory.Units.Descends.{Below, child, deeper, Keyed}
use mlpal_memory.Units.Trees.{
  Rooted, top, under, IsTree, get-append, set_unit, get-set_unit, drop_unit, get-drop_unit, id-get,
  Rooted-acyclic, Rooted-parent,
}

-- No row of the list has the name under the parent.
any-get :
    (us : List OrgUnit) (p : OrgUnit → Bool) (n : ℕ) (u : OrgUnit)
    → any p us ≡ false
    → get_unit us n ≡ some u
    → p u ≡ false
any-get [] p n u absent found = ground arith
any-get (v ∷ us) p n u absent found = elim (Bool-cases (v.id == n)) [
  | inl y ↦ ground arith
  | inr f ↦ any-get us p n u (ground arith) (ground arith)
]

parent_eq_sym : (a b : Option ℕ) → parent_eq a b ≡ parent_eq b a
parent_eq_sym none none = refl
parent_eq_sym none (some b) = refl
parent_eq_sym (some a) none = refl
parent_eq_sym (some a) (some b) = ground arith

is_named_sym : (u v : OrgUnit) → is_named u.parent_id u.name v ≡ is_named v.parent_id v.name u
is_named_sym u v =
    ground
      (arith, parent_eq_sym u.parent_id v.parent_id, eq_iff u.name v.name, eq_iff v.name u.name)

rival_absurd : {n m : ℕ} (b : Bool) → b ≡ false → b ≡ true → n ≡ m
rival_absurd b f t = ground arith

module _ (us : List OrgUnit) (w : OrgUnit) (fresh : get_unit us w.id ≡ none) where
  get-kept : (n : ℕ) (u : OrgUnit) → get_unit us n ≡ some u → get_unit (us ++ w ∷ []) n ≡ some u
  get-kept n u found = ground (arith, get-append us w n)

  get-new : get_unit (us ++ w ∷ []) w.id ≡ some w
  get-new = ground (arith, get-append us w w.id)

  Rooted-append : (n : ℕ) → Rooted us n → Rooted (us ++ w ∷ []) n
  Rooted-append n (top u found none_above) = top u (get-kept n u found) none_above
  Rooted-append n (under {p} u found above r) =
      under u (get-kept n u found) above (Rooted-append p r)

  -- The row is one of the list, or the new one.
  get-append_cases :
      (n : ℕ) (u : OrgUnit)
      → get_unit (us ++ w ∷ []) n ≡ some u
      → (get_unit us n ≡ some u) ⊎ ((w.id ≡ n) × (w ≡ u))
  get-append_cases n u found = elim (Option-cases (get_unit us n)) [
    | inl absent ↦ ground (arith, get-append us w n, ==_iff w.id n)
    | inr (v, here) ↦ ground (arith, get-append us w n)
  ]

  pub IsTree-append :
      IsTree us
      → (w.parent_id ≡ none)
        ⊎ ((p : ℕ) × (q : OrgUnit) × (w.parent_id ≡ some p) × (get_unit us p ≡ some q))
      → any (is_named w.parent_id w.name) us ≡ false
      → IsTree (us ++ w ∷ [])
  IsTree-append tree above free = record {
    keyed =
        All-append _ us (w ∷ []) (All-map_hyp _ _ us (λ u h. get-kept u.id u h) tree.keyed)
          (get-new, tt);
    rooted = λ n u found. elim (get-append_cases n u found) [
      | inl here ↦ Rooted-append n (tree.rooted n u here)
      | inr (e, same) ↦ subst (Rooted (us ++ w ∷ [])) e (elim above [
        | inl root ↦ top w get-new root
        | inr (p, q, parent, there) ↦
            under w get-new parent (Rooted-append p (tree.rooted p q there))
      ])
    ];
    named = λ n m u v hu hv same. elim (get-append_cases n u hu) [
      | inl here ↦ elim (get-append_cases m v hv) [
        | inl there ↦ tree.named n m u v here there same
        | inr (e, d) ↦
            rival_absurd _
              (is_named_sym u v
                ∙ subst (λ x. is_named x.parent_id x.name u ≡ false) d
                    (any-get us (is_named w.parent_id w.name) n u free here))
              same
      ]
      | inr (e, d) ↦ elim (get-append_cases m v hv) [
        | inl there ↦
            rival_absurd _
              (subst (λ x. is_named x.parent_id x.name v ≡ false) d
                (any-get us (is_named w.parent_id w.name) m v free there))
              same
        | inr (e', d') ↦ sym e ∙ e'
      ]
    ];
  }

-- Where a unit's parent goes: as before, to the top, or to a unit that is not below it.
pub data Leads (us : List OrgUnit) (x : ℕ) (parent before : Option ℕ) : Type 0 where
  stays : parent ≡ before → Leads us x parent before
  rises : parent ≡ none → Leads us x parent before
  moves :
      (p : ℕ) (q : OrgUnit)
      → parent ≡ some p
      → get_unit us p ≡ some q
      → p ≢ x
      → ¬ (Below us x p)
      → Leads us x parent before

module _ (us : List OrgUnit) (w v : OrgUnit) (found : get_unit us w.id ≡ some v) where
  get-set : get_unit (set_unit w us) w.id ≡ some w
  get-set = ground (arith, get-set_unit us w w.id, ==_iff w.id w.id)

  get-set_other : (n : ℕ) → n ≢ w.id → get_unit (set_unit w us) n ≡ get_unit us n
  get-set_other n other = elim (Option-cases (get_unit us n)) [
    | inl absent ↦ ground (arith, get-set_unit us w n, ==_iff n w.id)
    | inr (u, here) ↦ ground (arith, get-set_unit us w n, ==_iff n w.id)
  ]

  Keyed-set : IsTree us → Keyed (set_unit w us)
  Keyed-set tree = go us tree.keyed
    where
      go :
          (vs : List OrgUnit)
          → All (λ u. get_unit us u.id ≡ some u) vs
          → All (λ u. get_unit (set_unit w us) u.id ≡ some u) (set_unit w vs)
      go [] h = tt
      go (u ∷ vs) h = elim (Bool-cases (u.id == w.id)) [
        | inl y ↦ rw y (get-set, go vs h.1)
        | inr f ↦ rw f (get-set_other u.id (λ e. ground (arith, ==_iff u.id w.id)) ∙ h.0, go vs h.1)
      ]

  -- A unit that is not below the one that moves keeps its chain.
  Rooted-set_above :
      (n : ℕ) → Rooted us n → n ≢ w.id → ¬ (Below us w.id n) → Rooted (set_unit w us) n
  Rooted-set_above n (top u here none_above) other free =
      top u (get-set_other n other ∙ here) none_above
  Rooted-set_above n (under {p} u here above r) other free =
      under u (get-set_other n other ∙ here) above (
        Rooted-set_above p r (λ e. free (child u here (subst (λ x. u.parent_id ≡ some x) e above)))
          (λ b. free (deeper u here above b)))

  -- Whoever is above, a chain to the unit that moves goes on from there.
  Rooted-set : (n : ℕ) → Rooted us n → Rooted (set_unit w us) w.id → Rooted (set_unit w us) n
  Rooted-set n r base = elim (Bool-cases (n == w.id)) [
    | inl y ↦ subst (Rooted (set_unit w us)) (sym ((==_iff n w.id).0 y)) base
    | inr f ↦ go n r (λ e. ground (arith, ==_iff n w.id))
  ]
    where
      go : (n : ℕ) → Rooted us n → n ≢ w.id → Rooted (set_unit w us) n
      go n (top u here none_above) other = top u (get-set_other n other ∙ here) none_above
      go n (under {p} u here above r) other =
          under u (get-set_other n other ∙ here) above (elim (Bool-cases (p == w.id)) [
            | inl y ↦ subst (Rooted (set_unit w us)) (sym ((==_iff p w.id).0 y)) base
            | inr f ↦ go p r (λ e. ground (arith, ==_iff p w.id))
          ])

  get-set_cases :
      (n : ℕ) (u : OrgUnit)
      → get_unit (set_unit w us) n ≡ some u
      → ((n ≢ w.id) × (get_unit us n ≡ some u)) ⊎ ((n ≡ w.id) × (w ≡ u))
  get-set_cases n u here = elim (Bool-cases (n == w.id)) [
    | inl y ↦ inr ((==_iff n w.id).0 y, ground (arith, get-set, (==_iff n w.id).0 y))
    | inr f ↦
        let other : n ≢ w.id = λ e. ground (arith, ==_iff n w.id) in
        inl (other, sym (get-set_other n other) ∙ here)
  ]

  Rooted-set_moved : IsTree us → Leads us w.id w.parent_id v.parent_id → Rooted (set_unit w us) w.id
  Rooted-set_moved tree (rises root) = top w get-set root
  Rooted-set_moved tree (moves p q parent there other free) =
      under w get-set parent (Rooted-set_above p (tree.rooted p q there) other free)
  Rooted-set_moved tree (stays same) =
      let r = tree.rooted w.id v found in
      elim (Option-cases v.parent_id) [
        | inl root ↦ top w get-set (same ∙ root)
        | inr (p, parent) ↦ under w get-set (same ∙ parent) (
            Rooted-set_above p (Rooted-parent v found parent r)
              (λ e.
                Rooted-acyclic w.id r (child v found (subst (λ x. v.parent_id ≡ some x) e parent)))
              (λ b. Rooted-acyclic w.id r (deeper v found parent b)))
      ]

  pub IsTree-set_unit :
      IsTree us
      → Leads us w.id w.parent_id v.parent_id
      → any (λ u. not (u.id == w.id) && is_named w.parent_id w.name u) us ≡ false
      → IsTree (set_unit w us)
  IsTree-set_unit tree leads free =
      let clear : (n : ℕ) (u : OrgUnit)
          → n ≢ w.id
          → get_unit us n ≡ some u
          → is_named w.parent_id w.name u ≡ false =
        λ n u other here. ground (
          arith,
          any-get us (λ u. not (u.id == w.id) && is_named w.parent_id w.name u) n u free here,
          id-get us n u here,
          ==_iff u.id w.id,
        ) in
      record {
        keyed = Keyed-set tree;
        rooted = λ n u here. elim (get-set_cases n u here) [
          | inl (other, before) ↦
              Rooted-set n (tree.rooted n u before) (Rooted-set_moved tree leads)
          | inr (e, same) ↦ subst (Rooted (set_unit w us)) (sym e) (Rooted-set_moved tree leads)
        ];
        named = λ n m a b ha hb same. elim (get-set_cases n a ha) [
          | inl (other, here) ↦ elim (get-set_cases m b hb) [
            | inl (other', there) ↦ tree.named n m a b here there same
            | inr (e, d) ↦
                rival_absurd _
                  (is_named_sym a b
                    ∙ subst (λ x. is_named x.parent_id x.name a ≡ false) d (clear n a other here))
                  same
          ]
          | inr (e, d) ↦ elim (get-set_cases m b hb) [
            | inl (other', there) ↦
                rival_absurd _
                  (subst (λ x. is_named x.parent_id x.name b ≡ false) d (clear m b other' there))
                  same
            | inr (e', d') ↦ e ∙ sym e'
          ]
        ];
      }

module _ (us : List OrgUnit) (x : ℕ) where
  Keyed-drop :
      (vs : List OrgUnit)
      → All (λ u. get_unit us u.id ≡ some u) vs
      → All (λ u. get_unit (drop_unit x us) u.id ≡ some u) (drop_unit x vs)
  Keyed-drop [] h = tt
  Keyed-drop (u ∷ vs) h = elim (Bool-cases (u.id == x)) [
    | inl y ↦ rw y (Keyed-drop vs h.1)
    | inr f ↦ rw f (ground (arith, get-drop_unit us x u.id), Keyed-drop vs h.1)
  ]

  -- The row that goes has no child.
  pub IsTree-drop_unit :
      IsTree us → any (λ u. parent_eq u.parent_id (some x)) us ≡ false → IsTree (drop_unit x us)
  IsTree-drop_unit tree childless = record {
    keyed = Keyed-drop us tree.keyed;
    rooted = λ n u here.
        let (other, before) = get-drop n u here in Rooted-drop n other (tree.rooted n u before);
    named = λ n m a b ha hb same. tree.named n m a b (get-drop n a ha).1 (get-drop m b hb).1 same;
  }
    where
      Rooted-drop : (n : ℕ) → (n == x) ≡ false → Rooted us n → Rooted (drop_unit x us) n
      Rooted-drop n other (top u found above) = top u (ground (arith, get-drop_unit us x n)) above
      Rooted-drop n other (under {p} u found above r) =
          under u (ground (arith, get-drop_unit us x n)) above (
            Rooted-drop p
              (ground (arith, any-get us (λ u. parent_eq u.parent_id (some x)) n u childless found))
              r)

      get-drop :
          (n : ℕ) (u : OrgUnit)
          → get_unit (drop_unit x us) n ≡ some u
          → ((n == x) ≡ false) × (get_unit us n ≡ some u)
      get-drop n u here = elim (Bool-cases (n == x)) [
        | inl y ↦ ground (arith, get-drop_unit us x n)
        | inr f ↦ (f, ground (arith, get-drop_unit us x n))
      ]
