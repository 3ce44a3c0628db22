-- ===== src/Units/Writes.antt =====
-- The writes of services/units.py: each reads the tenant's tree and is refused or changes the tables.
use mlpal_memory.Prelude.{
  ℕ, suc, Bool, true, false, not, ◌&&◌, ◌||◌, Option, none, some, List, [], ◌∷◌, ◌++◌, String, map,
  ◌==◌, if◌then◌else◌, filter, find, any, str_eq, strip, is_empty, or_else, is_none,
}
use mlpal_memory.Json.{Props}
use mlpal_memory.Units.{
  UnitPolicy, OrgUnit, Role, member, admin, UnitMember, has, get_unit, has_unit, descendants,
}

-- The tables of units and of members, and the counter that new ids are drawn from.
pub record Tables : Type 0 where
  pub units : List OrgUnit
  pub members : List UnitMember
  pub next_id : ℕ

-- UnitError by its message, and the refusal of a policy.
pub data UnitError : Type 0 where
  needs_name no_parent name_taken not_found own_descendant has_children has_members : UnitError
  bad_role bad_policy : UnitError

pub data Result {ℓ} (A : Type ℓ) : Type ℓ where
  ok : A → Result A
  fail : UnitError → Result A

module _ {ℓ κ} {A : Type ℓ} {B : Type κ} where
  unfoldable pub and_then : Result A → (A → Result B) → Result B
  and_then (ok a) f = f a
  and_then (fail e) f = fail e

  -- `f` of a value that is there, where a missing one is an error.
  unfoldable pub need : UnitError → Option A → (A → Result B) → Result B
  need e none f = fail e
  need e (some a) f = f a

-- A guard that raises.
unfoldable pub refuse {ℓ} : {A : Type ℓ} → Bool → UnitError → Result A → Result A
refuse true e r = fail e
refuse false e r = r

unfoldable pub load_tree : String → List OrgUnit → List OrgUnit
load_tree org = filter (λ u. str_eq u.org_id org)

abbrev pub parent_eq : Option ℕ → Option ℕ → Bool
parent_eq none none = true
parent_eq (some a) (some b) = a == b
parent_eq none (some b) = false
parent_eq (some a) none = false

-- `parent_id is None or parent_id in by_id`
abbrev pub is_parent : List OrgUnit → Option ℕ → Bool
is_parent us none = true
is_parent us (some p) = has_unit us p

-- A unit of that name under that parent.
abbrev pub is_named : Option ℕ → String → OrgUnit → Bool
is_named parent name u = parent_eq u.parent_id parent && str_eq u.name name

-- `kind.strip() or "unit"`
abbrev pub clean_kind : String → String
clean_kind kind = let k = strip kind in if is_empty k then "unit" else k

-- The row of the unit, written back.
unfoldable pub set_row : String → OrgUnit → List OrgUnit → List OrgUnit
set_row org unit = map (λ u. if str_eq u.org_id org && u.id == unit.id then unit else u)

-- A record of the caller's arguments to update_unit; the outer `none` of a parent is `_UNSET`.
pub record UnitPatch : Type 0 where
  pub name : Option String
  pub kind : Option String
  pub parent_id : Option (Option ℕ)
  pub policy : Option Props

unfoldable pub move : List OrgUnit → Option (Option ℕ) → OrgUnit → Result OrgUnit
move us none unit = ok unit
move us (some none) unit = ok (record unit { parent_id = none })
move us (some (some p)) unit = refuse (not (has_unit us p)) no_parent (
    refuse (p == unit.id || has p (descendants us unit.id)) own_descendant
      (ok (record unit { parent_id = some p })))

unfoldable pub rename : Option String → OrgUnit → Result OrgUnit
rename none unit = ok unit
rename (some name) unit =
    refuse (is_empty (strip name)) needs_name (ok (record unit { name = strip name }))

unfoldable pub set_kind : Option String → OrgUnit → OrgUnit
set_kind none unit = unit
set_kind (some kind) unit = record unit { kind = clean_kind kind }

-- The validation of a policy is pydantic's, and `none` is its refusal.
module _ (validate : Props → Option UnitPolicy) where
  unfoldable pub create_unit :
      String → String → Option ℕ → String → Option Props → Tables → Result Tables
  create_unit org name parent kind policy t =
      let us = load_tree org t.units in
      refuse (is_empty (strip name)) needs_name (
        refuse (not (is_parent us parent)) no_parent (
          refuse (any (is_named parent (strip name)) us) name_taken (
            need bad_policy (validate (or_else policy [])) (λ pol. ok (record t {
              units =
                  t.units
                  ++ record {
                    id = t.next_id;
                    org_id = org;
                    parent_id = parent;
                    name = strip name;
                    kind = clean_kind kind;
                    policy = pol;
                  }
                    ∷ [];
              next_id = suc t.next_id;
            })))))

  unfoldable pub set_policy : Option Props → OrgUnit → Result OrgUnit
  set_policy none unit = ok unit
  set_policy (some policy) unit =
      need bad_policy (validate policy) (λ pol. ok (record unit { policy = pol }))

  -- The last check and the flush.
  unfoldable pub save_unit : String → List OrgUnit → Tables → OrgUnit → Result Tables
  save_unit org us t unit =
      refuse (any (λ u. not (u.id == unit.id) && is_named unit.parent_id unit.name u) us) name_taken
        (ok (record t { units = set_row org unit t.units }))

  unfoldable pub update_unit : String → ℕ → UnitPatch → Tables → Result Tables
  update_unit org unit_id patch t =
      let us = load_tree org t.units in
      need not_found (get_unit us unit_id) (λ unit.
        and_then (move us patch.parent_id unit) (λ moved.
          and_then (rename patch.name moved) (λ named.
            and_then (set_policy patch.policy (set_kind patch.kind named)) (save_unit org us t))))

unfoldable pub delete_unit : String → ℕ → Tables → Result Tables
delete_unit org unit_id t =
    let us = load_tree org t.units in
    refuse (not (has_unit us unit_id)) not_found (
      refuse (any (λ u. parent_eq u.parent_id (some unit_id)) us) has_children (
        refuse (any (λ m. m.unit_id == unit_id) t.members) has_members (
          ok (record t {
            units = filter (λ u. not (u.id == unit_id && str_eq u.org_id org)) t.units;
          }))))

-- `role in ROLES`
unfoldable pub role_of : String → Option Role
role_of role =
    if str_eq role "member" then some member else if str_eq role "admin" then some admin else none

abbrev pub is_member : ℕ → String → UnitMember → Bool
is_member unit_id user m = m.unit_id == unit_id && str_eq m.user_id user

-- The row of the member gets the role, or a row is added.
unfoldable pub write_role : String → ℕ → String → Role → List UnitMember → List UnitMember
write_role org unit_id user r ms =
    if is_none (find (is_member unit_id user) ms)
    then ms ++ record { unit_id = unit_id; org_id = org; user_id = user; role = r } ∷ []
    else map (λ m. if is_member unit_id user m then record m { role = r } else m) ms

unfoldable pub set_member : String → ℕ → String → String → Tables → Result Tables
set_member org unit_id user role t = need bad_role (role_of role) (λ r.
    refuse (not (has_unit (load_tree org t.units) unit_id)) not_found
      (ok (record t { members = write_role org unit_id user r t.members })))

abbrev pub is_member_of : String → ℕ → String → UnitMember → Bool
is_member_of org unit_id user m = str_eq m.org_id org && is_member unit_id user m

unfoldable pub remove_member : String → ℕ → String → Tables → Bool × Tables
remove_member org unit_id user t = (
  any (is_member_of org unit_id user) t.members,
  record t { members = filter (λ m. not (is_member_of org unit_id user m)) t.members },
)
