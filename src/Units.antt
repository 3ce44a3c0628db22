-- ===== src/Units.antt =====
-- The tree of an organisation's units: db/models/unit.py and the pure part of services/units.py.
pub mod Descends
pub mod Writes
pub mod Trees
pub mod Changes
pub mod Access
pub mod Lines
pub mod Reaches
pub mod Grants
pub mod Publishing
pub mod Loads
pub mod Safe
use mlpal_memory.Prelude.{
  ℕ, zero, suc, ◌+◌, Bool, true, false, not, ◌&&◌, Option, none, some, List, [], ◌∷◌, String, map,
  ◌==◌, if◌then◌else◌, length, filter, find, any, str_eq,
}

-- Who may publish to a unit from below.
pub data PublishUp : Type 0 where
  members admins : PublishUp

pub record UnitPolicy : Type 0 where
  pub read_descendants : Bool
  pub publish_up : PublishUp
  pub hops_may_write : Bool
  pub lift : Option String

-- A row of the table of units; `none` as the parent is directly under the organisation.
pub record OrgUnit : Type 0 where
  pub id : ℕ
  pub org_id : String
  pub parent_id : Option ℕ
  pub name : String
  pub kind : String
  pub policy : UnitPolicy

pub data Role : Type 0 where
  member admin : Role

pub record UnitMember : Type 0 where
  pub unit_id : ℕ
  pub org_id : String
  pub user_id : String
  pub role : Role

-- `n in ids`
abbrev pub has : ℕ → List ℕ → Bool
has n = any (λ m. m == n)

-- `by_id.get(unit_id)`
abbrev pub get_unit : List OrgUnit → ℕ → Option OrgUnit
get_unit us n = find (λ u. u.id == n) us

-- `unit_id in by_id`
abbrev pub has_unit : List OrgUnit → ℕ → Bool
has_unit us n = any (λ u. u.id == n) us

abbrev pub is_child : ℕ → OrgUnit → Bool
is_child n u = elim u.parent_id [ none ↦ false | some p ↦ p == n ]

-- `children.get(n, [])`, in the order of the rows.
unfoldable pub children : List OrgUnit → ℕ → List ℕ
children [] n = []
children (u ∷ us) n = let rest = children us n in if is_child n u then u.id ∷ rest else rest

-- `stack.extend(ids)`, where the top of the stack is the head of the list.
unfoldable pub push_all : List ℕ → List ℕ → List ℕ
push_all [] stack = stack
push_all (n ∷ ns) stack = push_all ns (n ∷ stack)

-- One round of the loop: the unit that was popped is skipped or noted, and its children pushed.
unfoldable pub visit : List OrgUnit → ℕ → List ℕ → List ℕ → List ℕ × List ℕ
visit us n stack out = if has n out then (stack, out) else (push_all (children us n) stack, n ∷ out)

unfoldable pub descend : List OrgUnit → ℕ → List ℕ → List ℕ → List ℕ
descend us zero stack out = out
descend us (suc fuel) [] out = out
descend us (suc fuel) (n ∷ stack) out =
    let next = visit us n stack out in descend us fuel next.0 next.1

unfoldable pub descendants : List OrgUnit → ℕ → List ℕ
descendants us n = descend us (length us + length us) (push_all (children us n) []) []

-- Parent, grandparent and so on, up to a unit that was seen.
unfoldable pub ascend : List OrgUnit → ℕ → List ℕ → Option OrgUnit → List ℕ
ascend us zero seen cur = []
ascend us (suc fuel) seen none = []
ascend us (suc fuel) seen (some u) = elim u.parent_id [
  | none ↦ []
  | some p ↦ if has p seen then [] else p ∷ ascend us fuel (p ∷ seen) (get_unit us p)
]

unfoldable pub ancestors : List OrgUnit → ℕ → List ℕ
ancestors us n = ascend us (suc (length us)) (n ∷ []) (get_unit us n)

-- How deep a unit lies: the number of units above it.
unfoldable pub depth : List OrgUnit → ℕ → ℕ
depth us n = length (ancestors us n)
