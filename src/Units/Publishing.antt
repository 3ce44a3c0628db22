-- ===== src/Units/Publishing.antt =====
-- Where a person publishes, as the comment of writable_units in services/units.py has it: the admin role counts
-- in the line of the unit. The code asks for it anywhere in the tenant, which is the same for a person who
-- holds it nowhere else.
use mlpal_memory.Prelude.{
  ℕ, ◌≡◌, sym, subst, ◌↔◌, ◌⊎◌, inl, inr, true, ◌&&◌, ◌==◌, some, List, [], ◌∷◌, arith, All,
  Bool-cases,
}
use mlpal_memory.Units.{PublishUp, OrgUnit, UnitMember, has, has_unit, get_unit}
use mlpal_memory.Units.Access.{is_admin, own_units, is_admin_below, writable_units}
use mlpal_memory.Units.Descends.{Below, child, deeper}
use mlpal_memory.Units.Trees.{IsTree}
use mlpal_memory.Units.Grants.{Exists, Admits, writable_units_iff}

-- The membership is an admin's, in the unit or below it.
abbrev pub IsAdminIn : List OrgUnit → ℕ → UnitMember → Type 0
IsAdminIn us n m = (is_admin m ≡ true) × (m.unit_id ≡ n ⊎ Below us n m.unit_id)

-- The policy of the unit lets the person publish there: every member, or an admin of the line.
abbrev pub MayPublish : List OrgUnit → List UnitMember → ℕ → Type 0
MayPublish us ms n =
    (u : OrgUnit) × (get_unit us n ≡ some u)
    × ((u.policy.publish_up ≡ PublishUp.members) ⊎ Exists (IsAdminIn us n) ms)

-- The person administers no unit of the tenant outside the line of the unit.
abbrev pub AdministersOnly : List OrgUnit → ℕ → List UnitMember → Type 0
AdministersOnly us n =
    All (λ m. (is_admin m && has_unit us m.unit_id) ≡ true → m.unit_id ≡ n ⊎ Below us n m.unit_id)

unit_there :
    (us : List OrgUnit) (n : ℕ) (u : OrgUnit) → get_unit us n ≡ some u → has_unit us n ≡ true
unit_there [] n u h = ground (arith, h)
unit_there (v ∷ us) n u h = elim (Bool-cases (v.id == n)) [
  | inl y ↦ ground (arith, y)
  | inr f ↦ ground (arith, f, unit_there us n u (ground (arith, h, f)))
]

inner_there : (us : List OrgUnit) (n m : ℕ) → Below us n m → has_unit us m ≡ true
inner_there us n m (child u found parent) = unit_there us m u found
inner_there us n m (deeper u found parent b) = unit_there us m u found

admin_in :
    (us : List OrgUnit) (n : ℕ) (ms : List UnitMember)
    → AdministersOnly us n ms
    → is_admin_below us ms ≡ true
    → Exists (IsAdminIn us n) ms
admin_in us n [] only h = ground arith
admin_in us n (m ∷ ms) only h = elim (Bool-cases (is_admin m && has_unit us m.unit_id)) [
  | inl y ↦ inl (ground (arith, y), only.0 y)
  | inr f ↦ inr (admin_in us n ms only.1 (ground (arith, h, f)))
]

admin_below :
    (us : List OrgUnit) (n : ℕ) (ms : List UnitMember)
    → has_unit us n ≡ true
    → Exists (IsAdminIn us n) ms
    → is_admin_below us ms ≡ true
admin_below us n [] there e = absurd e
admin_below us n (m ∷ ms) there (inl (admin, inl same)) =
    let own : has_unit us m.unit_id ≡ true = subst (λ k. has_unit us k ≡ true) (sym same) there in
    ground (arith, admin, own)
admin_below us n (m ∷ ms) there (inl (admin, inr b)) =
    ground (arith, admin, inner_there us n m.unit_id b)
admin_below us n (m ∷ ms) there (inr e) = ground (arith, admin_below us n ms there e)

policy_iff :
    (us : List OrgUnit) (ms : List UnitMember) (n : ℕ)
    → AdministersOnly us n ms
    → Admits us (is_admin_below us ms) n ↔ MayPublish us ms n
policy_iff us ms n only = (
  λ (u, found, free). (
    u,
    found,
    elim free [ inl open' ↦ inl open' | inr admin ↦ inr (admin_in us n ms only admin) ],
  ),
  λ (u, found, free). (
    u,
    found,
    elim free [
      | inl open' ↦ inl open'
      | inr admin ↦ inr (admin_below us n ms (unit_there us n u found) admin)
    ],
  ),
)

-- In a well-formed tree the list of the units that a person writes to is there. If the person administers no
-- unit of the tenant outside the line of a unit, the unit is in the list just where it is one of their own,
-- or is above one and its policy lets every member publish, or lets admins and the person holds the admin
-- role in the unit or below it.
pub writable_units_in_line :
    (us : List OrgUnit) (ms : List UnitMember) (n : ℕ)
    → IsTree us
    → AdministersOnly us n ms
    → (out : List ℕ) × (writable_units us ms ≡ some out)
      × ((has n out ≡ true) ↔ (
          (has n (own_units us ms) ≡ true)
          ⊎ (Exists (λ o. Below us n o) (own_units us ms) × MayPublish us ms n)))
writable_units_in_line us ms n tree only =
    let (out, made, same) = writable_units_iff us ms tree in
    let policy = policy_iff us ms n only in
    (
      out,
      made,
      (
        λ h. elim ((same n).0 h) [
          | inl own ↦ inl own
          | inr (above, free) ↦ inr (above, policy.0 free)
        ],
        λ h.
            (same n).1
              (elim h [ inl own ↦ inl own | inr (above, free) ↦ inr (above, policy.1 free) ]),
      ),
    )
