-- ===== src/Units/Trees.antt =====
-- What a well-formed tree of units is, and the three changes of its rows that keep it: services/units.py.
use mlpal_memory.Prelude.{
  ℕ, ◌≡◌, refl, subst, ◌⊎◌, inl, inr, true, not, Option, none, some, List, [], ◌∷◌, ◌++◌, map, ◌==◌,
  if◌then◌else◌, arith, filter, Bool-cases, ==_iff,
}
use mlpal_memory.Units.{OrgUnit, get_unit}
use mlpal_memory.Units.Writes.{is_named}
use mlpal_memory.Units.Descends.{Below, child, deeper, Keyed}

-- The chain of parents from the unit ends at the top.
pub data Rooted (us : List OrgUnit) : ℕ → Type 0 where
  top : {n : ℕ} (u : OrgUnit) → get_unit us n ≡ some u → u.parent_id ≡ none → Rooted us n
  under :
      {n p : ℕ} (u : OrgUnit)
      → get_unit us n ≡ some u
      → u.parent_id ≡ some p
      → Rooted us p
      → Rooted us n

-- Ids are unique, every chain of parents ends at the top, and siblings have different names.
pub record IsTree (us : List OrgUnit) : Type 0 where
  pub keyed : Keyed us
  pub rooted : (n : ℕ) (u : OrgUnit) → get_unit us n ≡ some u → Rooted us n
  pub named :
      (n m : ℕ) (u v : OrgUnit)
      → get_unit us n ≡ some u
      → get_unit us m ≡ some v
      → is_named u.parent_id u.name v ≡ true
      → n ≡ m

pub get-append :
    (us : List OrgUnit) (w : OrgUnit) (n : ℕ)
    → get_unit (us ++ w ∷ []) n
      ≡ (elim (get_unit us n) [ some u ↦ some u | none ↦ if w.id == n then some w else none ])
get-append [] w n = refl
get-append (u ∷ us) w n = ground (arith, get-append us w n)

-- A write to the row of one id.
abbrev pub set_unit : OrgUnit → List OrgUnit → List OrgUnit
set_unit w = map (λ u. if u.id == w.id then w else u)

pub get-set_unit :
    (us : List OrgUnit) (w : OrgUnit) (n : ℕ)
    → get_unit (set_unit w us) n
      ≡ (elim (get_unit us n) [ none ↦ none | some u ↦ if n == w.id then some w else some u ])
get-set_unit [] w n = refl
get-set_unit (u ∷ us) w n =
    ground
      (arith, get-set_unit us w n, ==_iff u.id w.id, ==_iff u.id n, ==_iff n w.id, ==_iff w.id n)

abbrev pub drop_unit : ℕ → List OrgUnit → List OrgUnit
drop_unit x = filter (λ u. not (u.id == x))

pub get-drop_unit :
    (us : List OrgUnit) (x n : ℕ)
    → get_unit (drop_unit x us) n ≡ (if n == x then none else get_unit us n)
get-drop_unit [] x n = ground arith
get-drop_unit (u ∷ us) x n =
    ground (arith, get-drop_unit us x n, ==_iff u.id x, ==_iff u.id n, ==_iff n x)

-- A row that is found has the id.
pub id-get : (us : List OrgUnit) (n : ℕ) (u : OrgUnit) → get_unit us n ≡ some u → u.id ≡ n
id-get [] n u found = ground arith
id-get (v ∷ us) n u found = elim (Bool-cases (v.id == n)) [
  | inl y ↦ ground (arith, (==_iff v.id n).0 y)
  | inr f ↦ id-get us n u (ground arith)
]

-- Below is transitive, and goes through the parent.
pub Below-trans : {us : List OrgUnit} {a b c : ℕ} → Below us a b → Below us b c → Below us a c
Below-trans h (child u found above) = deeper u found above h
Below-trans h (deeper u found above r) = deeper u found above (Below-trans h r)

parent_same :
    {p q : ℕ} (o : Option OrgUnit) (u v : OrgUnit)
    → o ≡ some u
    → o ≡ some v
    → u.parent_id ≡ some p
    → v.parent_id ≡ some q
    → q ≡ p
parent_same o u v hu hv pu pv = ground arith

pub Below-parent :
    {us : List OrgUnit} {x n p : ℕ} (u : OrgUnit)
    → get_unit us n ≡ some u
    → u.parent_id ≡ some p
    → Below us x n
    → (x ≡ p) ⊎ Below us x p
Below-parent {us} {n} u found above (child v here there) =
    inl (parent_same (get_unit us n) u v found here above there)
Below-parent {us} {x} {n} u found above (deeper v here there r) =
    inr (subst (Below us x) (parent_same (get_unit us n) u v found here above there) r)

pub Below-top :
    {us : List OrgUnit} {x n : ℕ} (u : OrgUnit)
    → get_unit us n ≡ some u
    → u.parent_id ≡ none
    → ¬ (Below us x n)
Below-top u found above (child v here there) = ground arith
Below-top u found above (deeper v here there r) = ground arith

-- A chain that ends at the top meets no unit twice.
pub Rooted-acyclic : {us : List OrgUnit} (n : ℕ) → Rooted us n → ¬ (Below us n n)
Rooted-acyclic n (top u found above) = Below-top u found above
Rooted-acyclic {us} n (under {p} u found above r) = λ cycle.
    elim (Below-parent u found above cycle) [
      | inl e ↦ Rooted-acyclic p r (subst (λ m. Below us m m) e cycle)
      | inr b ↦ Rooted-acyclic p r (Below-trans (child u found above) b)
    ]

pub Rooted-get :
    {us : List OrgUnit} (n : ℕ) → Rooted us n → (u : OrgUnit) × (get_unit us n ≡ some u)
Rooted-get n (top u found above) = (u, found)
Rooted-get n (under u found above r) = (u, found)

pub Rooted-parent :
    {us : List OrgUnit} {n p : ℕ} (u : OrgUnit)
    → get_unit us n ≡ some u
    → u.parent_id ≡ some p
    → Rooted us n
    → Rooted us p
Rooted-parent u found above (top v here there) = ground arith
Rooted-parent {us} {n} u found above (under v here there r) =
    subst (Rooted us) (parent_same (get_unit us n) u v found here above there) r
