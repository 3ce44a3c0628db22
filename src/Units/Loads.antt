-- ===== src/Units/Loads.antt =====
-- The rows of one tenant under the changes of the whole table: load_tree of services/units.py.
use mlpal_memory.Prelude.{
  ℕ, ◌<◌, ◌≡◌, refl, ◌∙◌, inl, inr, true, false, not, ◌&&◌, none, some, List, [], ◌∷◌, ◌++◌, String,
  ◌==◌, if◌then◌else◌, str_eq, eq_iff, eq_refl, arith, All, filter, Bool-cases, ==_iff,
}
use mlpal_memory.Units.{OrgUnit, get_unit, has_unit}
use mlpal_memory.Units.Writes.{load_tree, set_row}
use mlpal_memory.Units.Trees.{set_unit, drop_unit}

pub load-append :
    (o : String) (us : List OrgUnit) (w : OrgUnit)
    → load_tree o (us ++ w ∷ [])
      ≡ (if str_eq w.org_id o then load_tree o us ++ w ∷ [] else load_tree o us)
unfolding load_tree
load-append o [] w = refl
load-append o (u ∷ us) w = ground (arith, load-append o us w)

pub load-set_row :
    (org : String) (w : OrgUnit) (us : List OrgUnit)
    → w.org_id ≡ org
    → load_tree org (set_row org w us) ≡ set_unit w (load_tree org us)
unfolding load_tree set_row
load-set_row org w [] home = refl
load-set_row org w (u ∷ us) home =
    ground (arith, load-set_row org w us home, eq_iff u.org_id org, eq_iff w.org_id org)

pub load-set_row_other :
    (o org : String) (w : OrgUnit) (us : List OrgUnit)
    → w.org_id ≡ org
    → str_eq org o ≡ false
    → load_tree o (set_row org w us) ≡ load_tree o us
unfolding load_tree set_row
load-set_row_other o org w [] home other = refl
load-set_row_other o org w (u ∷ us) home other = ground (
  arith,
  load-set_row_other o org w us home other,
  eq_iff u.org_id org,
  eq_iff w.org_id org,
  eq_iff org o,
  eq_iff w.org_id o,
  eq_iff u.org_id o,
)

abbrev pub without : String → ℕ → List OrgUnit → List OrgUnit
without org x = filter (λ u. not (u.id == x && str_eq u.org_id org))

pub load-without :
    (o org : String) (x : ℕ) (us : List OrgUnit)
    → load_tree o (without org x us)
      ≡ (if str_eq org o then drop_unit x (load_tree o us) else load_tree o us)
unfolding load_tree
load-without o org x [] = ground arith
load-without o org x (u ∷ us) =
    ground (arith, load-without o org x us, eq_iff u.org_id org, eq_iff org o, eq_iff u.org_id o)

pub has_unit-get :
    (us : List OrgUnit) (p : ℕ) → has_unit us p ≡ true → (q : OrgUnit) × (get_unit us p ≡ some q)
has_unit-get [] p h = ground arith
has_unit-get (u ∷ us) p h = elim (Bool-cases (u.id == p)) [
  | inl y ↦ (u, ground arith)
  | inr f ↦ let (q, here) = has_unit-get us p (ground arith) in (q, ground arith)
]

pub org-load :
    (org : String) (us : List OrgUnit) (n : ℕ) (v : OrgUnit)
    → get_unit (load_tree org us) n ≡ some v
    → v.org_id ≡ org
unfolding load_tree
org-load org [] n v found = ground arith
org-load org (u ∷ us) n v found = ground (arith, org-load org us n v, eq_iff u.org_id org)

pub drawn_set_row :
    (k : ℕ) (org : String) (w : OrgUnit) (us : List OrgUnit)
    → All (λ u. u.id < k) us
    → All (λ u. u.id < k) (set_row org w us)
unfolding set_row
drawn_set_row k org w [] h = tt
drawn_set_row k org w (u ∷ us) h =
    (ground (arith, h.0, ==_iff u.id w.id), drawn_set_row k org w us h.1)

pub drawn_without :
    (k : ℕ) (org : String) (x : ℕ) (us : List OrgUnit)
    → All (λ u. u.id < k) us
    → All (λ u. u.id < k) (without org x us)
drawn_without k org x [] h = tt
drawn_without k org x (u ∷ us) h = elim (Bool-cases (u.id == x && str_eq u.org_id org)) [
  | inl y ↦ rw y (drawn_without k org x us h.1)
  | inr f ↦ rw f (h.0, drawn_without k org x us h.1)
]

pub drawn_fresh :
    (k : ℕ) (org : String) (us : List OrgUnit)
    → All (λ u. u.id < k) us
    → get_unit (load_tree org us) k ≡ none
unfolding load_tree
drawn_fresh k org [] h = refl
drawn_fresh k org (u ∷ us) h = ground (arith, h.0, drawn_fresh k org us h.1, ==_iff u.id k)

pub load-without_own :
    (org : String) (x : ℕ) (us : List OrgUnit)
    → load_tree org (without org x us) ≡ drop_unit x (load_tree org us)
load-without_own org x us = load-without org org x us ∙ rw (eq_refl org) refl
