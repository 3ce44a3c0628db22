-- ===== src/Scope.antt =====
-- core/scope.py and db/scoping.py: the subject that a memory is owned by, and the predicate that
-- selects the rows of one tenant and one scope.
pub mod Isolation
use mlpal_memory.Prelude.{
  ℕ, String, Bool, true, false, ◌&&◌, ◌||◌, not, Option, none, some, List, [], ◌∷◌, ◌==◌, opt_eq,
  str_eq, any, if◌then◌else◌,
}

pub data Scope : Type 0 where
  global org team service repo agent user : Scope

-- `_RANK`: narrowness, 0 is the broadest.
abbrev pub rank : Scope → ℕ
rank global = 0
rank org = 1
rank team = 2
rank service = 3
rank repo = 4
rank agent = 5
rank user = 6

-- Members of an enum are equal when they are the same member.
abbrev pub scope_eq : Scope → Scope → Bool
scope_eq a b = rank a == rank b

-- A (scope, scope_id) address.
pub record ScopeRef : Type 0 where
  pub scope : Scope
  pub scope_id : Option String

-- `__post_init__`: `none` is the ValueError.
unfoldable pub scope_ref : Scope → Option String → Option ScopeRef
scope_ref global none = some (record { scope = global; scope_id = none })
scope_ref global (some i) = none
scope_ref s none = none
scope_ref s (some i) = if str_eq i "" then none else some (record { scope = s; scope_id = some i })

abbrev pub global_ref : ScopeRef
global_ref = record { scope = global; scope_id = none }

-- `==` of the frozen dataclass.
abbrev pub ref_eq : ScopeRef → ScopeRef → Bool
ref_eq a b = scope_eq a.scope b.scope && opt_eq a.scope_id b.scope_id

-- The three columns that every scoped table has.
pub record Owner : Type 0 where
  pub org_id : Option String
  pub scope : Scope
  pub scope_id : Option String

pub data Classification : Type 0 where
  public internal personal : Classification

unfoldable pub classification_for : ScopeRef → Classification
classification_for r = elim r.scope [ global ↦ public | user ↦ personal | _ ↦ internal ]

-- A row that `scope` owns within the tenant; global rows are of every tenant.
unfoldable pub scope_clause : Option String → ScopeRef → Owner → Bool
scope_clause tenant r o = elim r.scope [
  | global ↦ scope_eq o.scope global
  | _ ↦ opt_eq o.org_id tenant && scope_eq o.scope r.scope && opt_eq o.scope_id r.scope_id
]

-- `scope_id IN (...)`, false on NULL.
abbrev in_ids : Option String → List String → Bool
in_ids none ids = false
in_ids (some i) ids = any (λ t. str_eq i t) ids

-- `scope_id = user_id` for the caller's own rows.
unfoldable pub browse_clause : Option String → Option String → List String → Owner → Bool
browse_clause tenant user_id team_ids o =
    (opt_eq o.org_id tenant || scope_eq o.scope global)
    && (not (scope_eq o.scope user) || opt_eq o.scope_id user_id)
    && (not (scope_eq o.scope team) || in_ids o.scope_id team_ids)
