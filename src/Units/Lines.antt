-- ===== src/Units/Lines.antt =====
-- The walk up the tree finds exactly the units above: ancestors of services/units.py.
use mlpal_memory.Prelude.{
  ℕ, zero, suc, ◌<◌, ◌≤◌, ◌≡◌, refl, sym, subst, ◌↔◌, ◌⊎◌, inl, inr, Bool, true, false, not, some,
  List, [], ◌∷◌, ◌==◌, arith, length, count, All, All-map_hyp, Bool-cases, Option-cases, ==_iff,
}
use mlpal_memory.Units.{OrgUnit, has, get_unit, ascend, ancestors}
use mlpal_memory.Units.Descends.{Below, child, All-has, has_same}
use mlpal_memory.Units.Trees.{
  Rooted, top, under, Rooted-acyclic, Rooted-get, Below-trans, Below-parent, Below-top,
}

abbrev is_unseen : List ℕ → OrgUnit → Bool
is_unseen seen u = not (has u.id seen)

seen_le :
    (us : List OrgUnit) (p : ℕ) (seen : List ℕ)
    → count (is_unseen (p ∷ seen)) us ≤ count (is_unseen seen) us
seen_le [] p seen = omega arith
seen_le (u ∷ us) p seen = ground (arith, seen_le us p seen)

seen_pays :
    (us : List OrgUnit) (p : ℕ) (q : OrgUnit) (seen : List ℕ)
    → get_unit us p ≡ some q
    → has p seen ≡ false
    → count (is_unseen (p ∷ seen)) us < count (is_unseen seen) us
seen_pays [] p q seen found new = ground arith
seen_pays (u ∷ us) p q seen found new = elim (Bool-cases (u.id == p)) [
  | inl y ↦ ground (arith, seen_le us p seen, ==_iff u.id p, ==_iff p u.id, has_same u.id p seen)
  | inr f ↦ ground (arith, seen_pays us p q seen, found, ==_iff p u.id, ==_iff u.id p)
]

unseen_bound : (us : List OrgUnit) (seen : List ℕ) → count (is_unseen seen) us ≤ length us
unseen_bound [] seen = omega arith
unseen_bound (u ∷ us) seen = ground (arith, unseen_bound us seen)

module _ (us : List OrgUnit) where
  Above-ascend :
      (fuel : ℕ) (seen : List ℕ) (n : ℕ)
      → All (λ a. Below us a n) (ascend us fuel seen (get_unit us n))
  unfolding ascend
  Above-ascend zero seen n = tt
  Above-ascend (suc fuel) seen n = elim (Option-cases (get_unit us n)) [
    | inl absent ↦ rw absent tt
    | inr (u, found) ↦ rw found (elim (Option-cases u.parent_id) [
      | inl root ↦ rw root tt
      | inr (p, parent) ↦ rw parent (elim (Bool-cases (has p seen)) [
        | inl y ↦ rw y tt
        | inr f ↦ rw f (
          child u found parent,
          All-map_hyp _ _ _ (λ a b. Below-trans b (child u found parent))
              (Above-ascend fuel (p ∷ seen) p),
        )
      ])
    ])
  ]

  -- One step of the walk up.
  ascend_step :
      (fuel : ℕ) (seen : List ℕ) (n p : ℕ) (u : OrgUnit)
      → get_unit us n ≡ some u
      → u.parent_id ≡ some p
      → has p seen ≡ false
      → ascend us (suc fuel) seen (get_unit us n) ≡ p ∷ ascend us fuel (p ∷ seen) (get_unit us p)
  unfolding ascend
  ascend_step fuel seen n p u found parent new = rw found (rw parent (rw new refl))

  -- What was seen is the unit or below it, so a parent was not.
  Unmet : List ℕ → ℕ → Type 0
  Unmet seen n = (s : ℕ) → has s seen ≡ true → (s ≡ n) ⊎ Below us n s

  parent_is_new :
      (seen : List ℕ) (n p : ℕ) → Rooted us n → Below us p n → Unmet seen n → has p seen ≡ false
  unfolding Unmet
  parent_is_new seen n p r up met = elim (Bool-cases (has p seen)) [
    | inl y ↦ absurd (elim (met p y) [
      | inl e ↦ Rooted-acyclic n r (subst (λ m. Below us m n) e up)
      | inr d ↦ Rooted-acyclic n r (Below-trans d up)
    ])
    | inr f ↦ f
  ]

  Unmet-parent : (seen : List ℕ) (n p : ℕ) → Below us p n → Unmet seen n → Unmet (p ∷ seen) p
  unfolding Unmet
  Unmet-parent seen n p up met s h = elim (Bool-cases (p == s)) [
    | inl e ↦ inl (sym ((==_iff p s).0 e))
    | inr g ↦ inr (elim (met s (ground arith)) [
      | inl e ↦ subst (Below us p) (sym e) up
      | inr d ↦ Below-trans up d
    ])
  ]

  has-ascend :
      (fuel : ℕ) (seen : List ℕ) (n : ℕ)
      → Rooted us n
      → count (is_unseen seen) us < fuel
      → Unmet seen n
      → (a : ℕ) → Below us a n
      → has a (ascend us fuel seen (get_unit us n)) ≡ true
  has-ascend zero seen n r enough met a b = absurd (omega arith)
  has-ascend (suc fuel) seen n (top u found root) enough met a b = absurd (Below-top u found root b)
  has-ascend (suc fuel) seen n (under {p} u found parent r) enough unmet a b =
      let up = child u found parent in
      let new = parent_is_new seen n p (under u found parent r) up unmet in
      let (q, there) = Rooted-get p r in
      rw (ascend_step fuel seen n p u found parent new) (elim (Below-parent u found parent b) [
        | inl e ↦ ground (arith, ==_iff p a)
        | inr d ↦ ground (
          arith,
          has-ascend fuel (p ∷ seen) p r (omega (arith, seen_pays us p q seen there new))
              (Unmet-parent seen n p up unmet) a d,
        )
      ])

  -- In a well-formed tree the walk up from a unit gives exactly the units above it.
  pub ancestors_iff : (n a : ℕ) → Rooted us n → (has a (ancestors us n) ≡ true) ↔ Below us a n
  unfolding ancestors Unmet
  ancestors_iff n a r = (
    λ h.
        All-has (λ m. Below us m n) a (ancestors us n) (Above-ascend (suc (length us)) (n ∷ []) n)
          h,
    λ b.
        has-ascend (suc (length us)) (n ∷ []) n r (omega (arith, unseen_bound us (n ∷ [])))
          (λ s h. inl (ground (arith, ==_iff n s))) a b,
  )

  pub Above-ancestors : (n : ℕ) → All (λ a. Below us a n) (ancestors us n)
  unfolding ancestors
  Above-ancestors n = Above-ascend (suc (length us)) (n ∷ []) n
