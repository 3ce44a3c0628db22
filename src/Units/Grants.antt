-- ===== src/Units/Grants.antt =====
-- What a person may read and write through the tree: readable_units and writable_units of services/units.py.
use mlpal_memory.Prelude.{
  ℕ, ◌≡◌, refl, sym, ap, subst, ◌↔◌, ◌⊎◌, inl, inr, ◌∙◌, Bool, true, false, Option, some, List, [],
  ◌∷◌, ◌++◌, ◌+◌, ◌==◌, arith, length, All, All-map_hyp, All-append, All-filter, Bool-cases,
  Option-cases, ◌&&◌, not, ==_iff, leb, any-sort_by, sort_by, if◌then◌else◌, map, filter, or_else,
}
use mlpal_memory.Units.{
  PublishUp, OrgUnit, Role, UnitMember, has, has_unit, get_unit, descendants, ancestors,
}
use mlpal_memory.Units.Access.{
  is_admin, add_new, add_all, climb, own_units, reads_below, add_subtrees, readable_units, bars,
  add_writable, add_lines, is_admin_below, writable_units,
}
use mlpal_memory.Units.Descends.{Below, child, deeper, descendants_iff}
use mlpal_memory.Units.Trees.{IsTree, Rooted, Rooted-get, Rooted-parent}
use mlpal_memory.Units.Lines.{ancestors_iff, Above-ancestors}
use mlpal_memory.Units.Loads.{has_unit-get}
use mlpal_memory.Units.Reaches.{InLine, has-add_new, has-add_all, climb_iff}

-- Some row of the list has the property.
abbrev pub Exists {ℓ} : {A : Type ℓ} → (A → Type 0) → List A → Type 0
Exists P [] = ⊥
Exists P (x ∷ xs) = P x ⊎ Exists P xs

-- The unit is below one whose subtree the row lets the person read.
abbrev pub ReadsDown : List OrgUnit → ℕ → UnitMember → Type 0
ReadsDown us n m =
    (m.role ≡ Role.admin)
    × (u : OrgUnit) × (get_unit us m.unit_id ≡ some u)
    × (u.policy.read_descendants ≡ true)
    × Below us m.unit_id n

admin_role : (m : UnitMember) → is_admin m ≡ true → m.role ≡ Role.admin
admin_role m h = go m.role h
  where
    go : (r : Role) → (elim r [ Role.admin ↦ true | Role.member ↦ false ]) ≡ true → r ≡ Role.admin
    go Role.admin h = refl
    go Role.member h = ground arith

reads_below_iff :
    (us : List OrgUnit) (n : ℕ) (m : UnitMember)
    → ((reads_below us m ≡ true) × Below us m.unit_id n) ↔ ReadsDown us n m
reads_below_iff us n m = (
  λ h. elim (Option-cases (get_unit us m.unit_id)) [
    | inl absent ↦ ground (arith, h.0)
    | inr (u, found) ↦ (admin_role m (ground (arith, h.0)), u, found, ground (arith, h.0), h.1)
  ],
  λ (role, u, found, policy, b). (rw (role, found) policy, b),
)

subtree_iff :
    (us : List OrgUnit) (x n : ℕ) (ordered : List ℕ)
    → IsTree us
    → (has n (add_all ordered (sort_by leb (descendants us x))) ≡ true)
      ↔ ((has n ordered ≡ true) ⊎ Below us x n)
subtree_iff us x n ordered tree =
    let all = has-add_all n ordered (sort_by leb (descendants us x)) in
    let sorted = any-sort_by leb (λ m. m == n) (descendants us x) in
    let down = descendants_iff us x n tree.keyed in
    (
      λ h. elim (Bool-cases (has n ordered)) [
        | inl y ↦ inl y
        | inr f ↦ inr (down.0 (ground (arith, all, sorted)))
      ],
      λ h. elim h [ inl y ↦ ground (arith, all) | inr b ↦ ground (arith, all, sorted, down.1 b) ],
    )

add_subtrees_iff :
    (us : List OrgUnit) (n : ℕ) (ms : List UnitMember) (ordered : List ℕ)
    → IsTree us
    → (has n (add_subtrees us ms ordered) ≡ true)
      ↔ ((has n ordered ≡ true) ⊎ Exists (ReadsDown us n) ms)
unfolding add_subtrees
add_subtrees_iff us n [] ordered tree = (λ h. inl h, λ h. elim h [ inl y ↦ y | inr e ↦ absurd e ])
add_subtrees_iff us n (m ∷ ms) ordered tree = elim (Bool-cases (reads_below us m)) [
  | inl y ↦
      let rest =
        add_subtrees_iff us n ms (add_all ordered (sort_by leb (descendants us m.unit_id))) tree in
      let here = subtree_iff us m.unit_id n ordered tree in
      let row = reads_below_iff us n m in
      subst
        (λ b.
          (has n (
              add_subtrees us ms
                (if b then add_all ordered (sort_by leb (descendants us m.unit_id)) else ordered))
            ≡ true)
          ↔ ((has n ordered ≡ true) ⊎ Exists (ReadsDown us n) (m ∷ ms)))
        (sym y)
        (
          λ h. elim (rest.0 h) [
            | inl now ↦ elim (here.0 now) [ inl old ↦ inl old | inr b ↦ inr (inl (row.0 (y, b))) ]
            | inr later ↦ inr (inr later)
          ],
          λ h. rest.1 (elim h [
            | inl old ↦ inl (here.1 (inl old))
            | inr (inl d) ↦ inl (here.1 (inr (row.1 d).1))
            | inr (inr later) ↦ inr later
          ]),
        )
  | inr f ↦
      let rest = add_subtrees_iff us n ms ordered tree in
      let row = reads_below_iff us n m in
      subst
        (λ b.
          (has n (
              add_subtrees us ms
                (if b then add_all ordered (sort_by leb (descendants us m.unit_id)) else ordered))
            ≡ true)
          ↔ ((has n ordered ≡ true) ⊎ Exists (ReadsDown us n) (m ∷ ms)))
        (sym f)
        (
          λ h. elim (rest.0 h) [ inl old ↦ inl old | inr later ↦ inr (inr later) ],
          λ h. rest.1 (elim h [
            | inl old ↦ inl old
            | inr (inl d) ↦ ground (arith, (row.1 d).0, f)
            | inr (inr later) ↦ inr later
          ]),
        )
]

-- In a well-formed tree a person reads exactly their own units, the units above them, and the units
-- below those that they administer and whose policy opens the subtree.
pub readable_units_iff :
    (us : List OrgUnit) (ms : List UnitMember) (n : ℕ)
    → IsTree us
    → (has n (readable_units us ms) ≡ true)
      ↔ (InLine us (own_units us ms) n ⊎ Exists (ReadsDown us n) ms)
unfolding readable_units
readable_units_iff us ms n tree =
    let own = own_units us ms in
    let whole = add_subtrees_iff us n ms (climb us (length own + length us) own own) tree in
    let line = climb_iff us own n in
    (
      λ h. elim (whole.0 h) [ inl l ↦ inl (line.0 l) | inr d ↦ inr d ],
      λ h. whole.1 (elim h [ inl l ↦ inl (line.1 l) | inr d ↦ inr d ]),
    )

-- The policy of the unit lets every member publish there, or `below` is true.
abbrev pub Admits : List OrgUnit → Bool → ℕ → Type 0
Admits us below n =
    (u : OrgUnit) × (get_unit us n ≡ some u)
    × ((u.policy.publish_up ≡ PublishUp.members) ⊎ (below ≡ true))

bars_iff :
    (below : Bool) (u : OrgUnit)
    → (bars below u ≡ false) ↔ ((u.policy.publish_up ≡ PublishUp.members) ⊎ (below ≡ true))
bars_iff below u = go u.policy.publish_up below
  where
    go :
        (p : PublishUp) (b : Bool)
        → ((elim p [ PublishUp.admins ↦ true | PublishUp.members ↦ false ]) && not b ≡ false)
          ↔ ((p ≡ PublishUp.members) ⊎ (b ≡ true))
    go PublishUp.members b = (λ h. inl refl, λ h. refl)
    go PublishUp.admins true = (λ h. inr refl, λ h. refl)
    go PublishUp.admins false = (λ h. ground arith, λ h. ground arith)

-- The units that the list gains.
abbrev Gains : List ℕ → (ℕ → Type 0) → Option (List ℕ) → Type 0
Gains out P r =
    (out' : List ℕ) × (r ≡ some out') × ((n : ℕ) → (has n out' ≡ true) ↔ ((has n out ≡ true) ⊎ P n))

module _ (us : List OrgUnit) (below : Bool) where
  admit_iff :
      (out : List ℕ) (a : ℕ) (u : OrgUnit) (n : ℕ)
      → get_unit us a ≡ some u
      → (has n (if bars below u then out else add_new out a) ≡ true)
        ↔ ((has n out ≡ true) ⊎ ((a ≡ n) × Admits us below n))
  admit_iff out a u n found = elim (Bool-cases (bars below u)) [
    | inl y ↦ rw y (
      λ k. inl k,
      λ k. elim k [
        | inl old ↦ old
        | inr (e, (v, vfound, free)) ↦
            barred_absurd u v (get_unit us a) found
              (subst (λ m. get_unit us m ≡ some v) (sym e) vfound) y ((bars_iff below v).1 free)
      ],
    )
    | inr f ↦ rw f (
      λ k. elim (Bool-cases (has n out)) [
        | inl old ↦ inl old
        | inr new ↦
            let e = (==_iff a n).0 (ground (arith, has-add_new n a out)) in
            inr (e, subst (Admits us below) e (u, found, (bars_iff below u).0 f))
      ],
      λ k. elim k [
        | inl old ↦ ground (arith, has-add_new n a out)
        | inr (e, free) ↦ ground (arith, has-add_new n a out, (==_iff a n).1 e)
      ],
    )
  ]
    where
      barred_absurd :
          {b : Bool} (u v : OrgUnit) (o : Option OrgUnit)
          → o ≡ some u
          → o ≡ some v
          → bars below u ≡ true
          → bars below v ≡ false
          → b ≡ true
      barred_absurd u v o hu hv y f =
          let same : u ≡ v = ap (λ w. or_else w u) (sym hu ∙ hv) in
          let open_u : bars below u ≡ false = subst (λ w. bars below w ≡ false) (sym same) f in
          ground arith

  Gains-add_writable :
      (ancs out : List ℕ)
      → All (λ a. (u : OrgUnit) × (get_unit us a ≡ some u)) ancs
      → Gains out (λ n. (has n ancs ≡ true) × Admits us below n) (add_writable us below ancs out)
  unfolding add_writable
  Gains-add_writable [] out h =
      (out, refl, λ n. (λ k. inl k, λ k. elim k [ inl y ↦ y | inr e ↦ ground (arith, e.0) ]))
  Gains-add_writable (a ∷ ancs) out ((u, found), h) =
      let (out', made, same) =
        Gains-add_writable ancs (if bars below u then out else add_new out a) h in
      (
        out',
        rw (found, add_writable) made,
        λ n.
            let one = admit_iff out a u n found in
            (
              λ k. elim ((same n).0 k) [
                | inl now ↦ elim (one.0 now) [
                  | inl old ↦ inl old
                  | inr (e, free) ↦ inr (ground (arith, (==_iff a n).1 e), free)
                ]
                | inr (there, free) ↦ inr (ground arith, free)
              ],
              λ k. (same n).1 (elim k [
                | inl old ↦ inl (one.1 (inl old))
                | inr (there, free) ↦ elim (Bool-cases (a == n)) [
                  | inl e ↦ inl (one.1 (inr ((==_iff a n).0 e, free)))
                  | inr g ↦ inr (ground arith, free)
                ]
              ]),
            ),
      )

  -- Every unit above is in the tree.
  ancestors_found :
      (n : ℕ)
      → IsTree us
      → Rooted us n
      → All (λ a. (u : OrgUnit) × (get_unit us a ≡ some u)) (ancestors us n)
  ancestors_found n tree r =
      All-map_hyp (λ a. Below us a n) _ (ancestors us n) (λ a b. above_found a n r b)
        (Above-ancestors us n)
    where
      above_found :
          (a n : ℕ) → Rooted us n → Below us a n → (u : OrgUnit) × (get_unit us a ≡ some u)
      above_found a n r (child u found parent) = Rooted-get a (Rooted-parent u found parent r)
      above_found a n r (deeper {p} u found parent b) =
          above_found a p (Rooted-parent u found parent r) b

  -- Above a unit of the list, and open to publishing.
  abbrev pub Publishes : List ℕ → ℕ → Type 0
  Publishes own n = Exists (λ o. Below us n o) own × Admits us below n

  Gains-add_lines :
      (own out : List ℕ)
      → IsTree us
      → All (Rooted us) own
      → Gains out (Publishes own) (add_lines us below own out)
  unfolding add_lines
  Gains-add_lines [] out tree h =
      (out, refl, λ n. (λ k. inl k, λ k. elim k [ inl y ↦ y | inr e ↦ absurd e.0 ]))
  Gains-add_lines (o ∷ own) out tree (r, h) =
      let (mid, first, one) = Gains-add_writable (ancestors us o) out (ancestors_found o tree r) in
      let (out', made, same) = Gains-add_lines own mid tree h in
      (
        out',
        rw (first, add_lines) made,
        λ n.
            let line = ancestors_iff us o n r in
            (
              λ k. elim ((same n).0 k) [
                | inl now ↦ elim ((one n).0 now) [
                  | inl old ↦ inl old
                  | inr (there, free) ↦ inr (inl (line.0 there), free)
                ]
                | inr (later, free) ↦ inr (inr later, free)
              ],
              λ k. (same n).1 (elim k [
                | inl old ↦ inl ((one n).1 (inl old))
                | inr (inl b, free) ↦ inl ((one n).1 (inr (line.1 b, free)))
                | inr (inr later, free) ↦ inr (later, free)
              ]),
            ),
      )

All-add_all : (P : ℕ → Type 0) (xs ys : List ℕ) → All P xs → All P ys → All P (add_all xs ys)
unfolding add_all add_new
All-add_all P xs [] hx hy = hx
All-add_all P xs (y ∷ ys) hx hy = elim (Bool-cases (has y xs)) [
  | inl old ↦ rw old (All-add_all P xs ys hx hy.1)
  | inr new ↦ rw new (All-add_all P (xs ++ y ∷ []) ys (All-append P xs (y ∷ []) hx (hy.0, tt)) hy.1)
]

Rooted-own_units :
    (us : List OrgUnit) (ms : List UnitMember) → IsTree us → All (Rooted us) (own_units us ms)
unfolding own_units
Rooted-own_units us ms tree =
    let listed = map (λ m. m.unit_id) ms in
    All-add_all (Rooted us) [] (filter (has_unit us) listed) tt (
      All-map_hyp (λ n. has_unit us n ≡ true) (Rooted us) (filter (has_unit us) listed)
        (λ n h. let (u, found) = has_unit-get us n h in tree.rooted n u found)
        (All-filter (has_unit us) listed))

-- In a well-formed tree no unit above is missing, so the list is there; a person writes exactly to
-- their own units and to those units above them whose policy lets every member publish, or lets admins and
-- the person administers any unit of the tenant.
pub writable_units_iff :
    (us : List OrgUnit) (ms : List UnitMember)
    → IsTree us
    → (out : List ℕ) × (writable_units us ms ≡ some out)
      × ((n : ℕ)
          → (has n out ≡ true) ↔ (
              (has n (own_units us ms) ≡ true)
              ⊎ Publishes us (is_admin_below us ms) (own_units us ms) n))
unfolding writable_units
writable_units_iff us ms tree =
    Gains-add_lines us (is_admin_below us ms) (own_units us ms) (own_units us ms) tree
      (Rooted-own_units us ms tree)
