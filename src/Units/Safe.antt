-- ===== src/Units/Safe.antt =====
-- Whatever is asked of services/units.py, every tenant's units stay a well-formed tree.
use mlpal_memory.Prelude.{
  ℕ, suc, ◌<◌, ◌≡◌, refl, sym, ◌∙◌, subst, ◌↔◌, ◌⊎◌, inl, inr, Bool, true, false, not, ◌||◌, Option,
  none, some, List, [], ◌∷◌, ◌++◌, String, ◌==◌, str_eq, eq_iff, arith, All, All-append,
  All-map_hyp, Bool-cases, ==_iff, any, or_else, strip, is_empty,
}
use mlpal_memory.Json.{Props}
use mlpal_memory.Units.{OrgUnit, UnitPolicy, get_unit, has_unit, has, descendants}
use mlpal_memory.Units.Writes.{
  Tables, UnitError, no_parent, own_descendant, Result, ok, fail, and_then, need, refuse, load_tree,
  is_parent, is_named, set_row, UnitPatch, move, rename, set_kind, create_unit, set_policy,
  save_unit, update_unit, delete_unit, set_member, remove_member, clean_kind, role_of,
}
use mlpal_memory.Units.Loads.{
  load-append, load-set_row, load-set_row_other, without, load-without, load-without_own,
  has_unit-get, org-load, drawn_set_row, drawn_without, drawn_fresh,
}
use mlpal_memory.Units.Descends.{Below, descendants_iff}
use mlpal_memory.Units.Trees.{IsTree, id-get}
use mlpal_memory.Units.Changes.{
  Leads, stays, rises, moves, IsTree-append, IsTree-set_unit, IsTree-drop_unit,
}

-- A request, and what the session makes of it: a refused one is rolled back.
pub data UnitWrite : Type 0 where
  create : String → Option ℕ → String → Option Props → UnitWrite
  update : ℕ → UnitPatch → UnitWrite
  delete : ℕ → UnitWrite
  place : ℕ → String → String → UnitWrite
  remove : ℕ → String → UnitWrite

abbrev commit : Tables → Result Tables → Tables
commit t (ok t') = t'
commit t (fail e) = t

unfoldable pub run_write : (Props → Option UnitPolicy) → Tables → String → UnitWrite → Tables
run_write validate t org (create name parent kind policy) =
    commit t (create_unit validate org name parent kind policy t)
run_write validate t org (update unit_id patch) =
    commit t (update_unit validate org unit_id patch t)
run_write validate t org (delete unit_id) = commit t (delete_unit org unit_id t)
run_write validate t org (place unit_id user role) = commit t (set_member org unit_id user role t)
run_write validate t org (remove unit_id user) = (remove_member org unit_id user t).1

unfoldable pub run_writes :
    (Props → Option UnitPolicy) → Tables → List (String × UnitWrite) → Tables
run_writes validate t [] = t
run_writes validate t ((org, w) ∷ ws) = run_writes validate (run_write validate t org w) ws

-- The ids in use were drawn from the counter, and each tenant's units are a tree.
pub record IsSound (t : Tables) : Type 0 where
  pub drawn : All (λ u. u.id < t.next_id) t.units
  pub trees : (org : String) → IsTree (load_tree org t.units)

-- What a result gives, if it is not an error.
abbrev Holds {ℓ} : {A : Type ℓ} → (A → Type 0) → Result A → Type 0
Holds P (ok a) = P a
Holds P (fail e) = Unit

Holds-and_then {ℓ κ} :
    {A : Type ℓ} {B : Type κ} (P : A → Type 0) (Q : B → Type 0) (r : Result A) (f : A → Result B)
    → Holds P r
    → ((a : A) → P a → Holds Q (f a))
    → Holds Q (and_then r f)
unfolding and_then
Holds-and_then P Q (ok a) f h k = k a h
Holds-and_then P Q (fail e) f h k = tt

Holds-need {ℓ κ} :
    {A : Type ℓ} {B : Type κ} (Q : B → Type 0) (e : UnitError) (o : Option A) (f : A → Result B)
    → ((a : A) → o ≡ some a → Holds Q (f a))
    → Holds Q (need e o f)
unfolding need
Holds-need Q e none f k = tt
Holds-need Q e (some a) f k = k a refl

Holds-refuse {ℓ} :
    {A : Type ℓ} (Q : A → Type 0) (b : Bool) (e : UnitError) (r : Result A)
    → (b ≡ false → Holds Q r)
    → Holds Q (refuse b e r)
unfolding refuse
Holds-refuse Q true e r k = tt
Holds-refuse Q false e r k = k refl

-- The unit keeps its id and its tenant, and its parent is one that the tree allows.
abbrev Moved : List OrgUnit → OrgUnit → OrgUnit → Type 0
Moved us v w = (w.id ≡ v.id) × (w.org_id ≡ v.org_id) × Leads us w.id w.parent_id v.parent_id

Moved-move :
    (us : List OrgUnit) (v : OrgUnit) (parent : Option (Option ℕ))
    → IsTree us
    → Holds (Moved us v) (move us parent v)
unfolding move
Moved-move us v none tree = (refl, refl, stays refl)
Moved-move us v (some none) tree = (refl, refl, rises refl)
Moved-move us v (some (some p)) tree =
    Holds-refuse (Moved us v) (not (has_unit us p)) no_parent _ (λ there.
      Holds-refuse (Moved us v) (p == v.id || has p (descendants us v.id)) own_descendant _ (λ free.
        let (q, here) = has_unit-get us p (ground arith) in
        (
          refl,
          refl,
          moves p q refl here (λ e. ground (arith, ==_iff p v.id))
              (λ b. ground (arith, (descendants_iff us v.id p tree.keyed).1 b)),
        )))

Moved-rename :
    (us : List OrgUnit) (v w : OrgUnit) (name : Option String)
    → Moved us v w
    → Holds (Moved us v) (rename name w)
unfolding rename
Moved-rename us v w none h = h
Moved-rename us v w (some name) h =
    Holds-refuse (Moved us v) (is_empty (strip name)) _ _ (λ free. h)

Moved-set_kind :
    (us : List OrgUnit) (v w : OrgUnit) (kind : Option String)
    → Moved us v w
    → Moved us v (set_kind kind w)
unfolding set_kind
Moved-set_kind us v w none h = h
Moved-set_kind us v w (some kind) h = h

module _ (validate : Props → Option UnitPolicy) where
  Moved-set_policy :
      (us : List OrgUnit) (v w : OrgUnit) (policy : Option Props)
      → Moved us v w
      → Holds (Moved us v) (set_policy validate policy w)
  unfolding set_policy
  Moved-set_policy us v w none h = h
  Moved-set_policy us v w (some policy) h =
      Holds-need (Moved us v) _ (validate policy) _ (λ pol good. h)

is_parent-get :
    (us : List OrgUnit) (parent : Option ℕ)
    → not (is_parent us parent) ≡ false
    → (parent ≡ none) ⊎ ((p : ℕ) × (q : OrgUnit) × (parent ≡ some p) × (get_unit us p ≡ some q))
is_parent-get us none placed = inl refl
is_parent-get us (some p) placed =
    let (q, here) = has_unit-get us p (ground arith) in inr (p, q, refl, here)

module _ (validate : Props → Option UnitPolicy) (t : Tables) (sound : IsSound t)
    (org : String) where
  -- The trees of the other tenants are as they were.
  IsSound-rows :
      (us : List OrgUnit)
      → All (λ u. u.id < t.next_id) us
      → IsTree (load_tree org us)
      → ((o : String) → str_eq org o ≡ false → load_tree o us ≡ load_tree o t.units)
      → IsSound (record t { units = us })
  IsSound-rows us drawn tree others = record {
    drawn = drawn;
    trees = λ o. elim (Bool-cases (str_eq org o)) [
      | inl y ↦ subst (λ x. IsTree (load_tree x us)) ((eq_iff org o).0 y) tree
      | inr f ↦ subst IsTree (sym (others o f)) (sound.trees o)
    ];
  }

  IsSound-save_unit :
      (v w : OrgUnit)
      → get_unit (load_tree org t.units) v.id ≡ some v
      → Moved (load_tree org t.units) v w
      → Holds IsSound (save_unit validate org (load_tree org t.units) t w)
  unfolding save_unit
  IsSound-save_unit v w found (same, home, leads) =
      let here : w.org_id ≡ org = home ∙ org-load org t.units v.id v found in
      Holds-refuse IsSound _ _ _ (λ free.
        IsSound-rows (set_row org w t.units) (drawn_set_row t.next_id org w t.units sound.drawn)
          (subst IsTree (sym (load-set_row org w t.units here)) (
            IsTree-set_unit (load_tree org t.units) w v
              (subst (λ n. get_unit (load_tree org t.units) n ≡ some v) (sym same) found)
              (sound.trees org) leads free))
          (λ o other. load-set_row_other o org w t.units here other))

  IsSound-update_unit :
      (unit_id : ℕ) (patch : UnitPatch) → Holds IsSound (update_unit validate org unit_id patch t)
  unfolding update_unit
  IsSound-update_unit unit_id patch =
      let us = load_tree org t.units in
      Holds-need IsSound _ (get_unit us unit_id) _ (λ v found.
        Holds-and_then (Moved us v) IsSound _ _ (Moved-move us v patch.parent_id (sound.trees org))
          (λ a ha.
            Holds-and_then (Moved us v) IsSound _ _ (Moved-rename us v a patch.name ha) (λ b hb.
              Holds-and_then (Moved us v) IsSound _ _
                (Moved-set_policy validate us v (set_kind patch.kind b) patch.policy
                  (Moved-set_kind us v b patch.kind hb))
                (λ w hw.
                  IsSound-save_unit v w
                    (subst (λ n. get_unit us n ≡ some v) (sym (id-get us unit_id v found)) found)
                    hw))))

  IsSound-delete_unit : (unit_id : ℕ) → Holds IsSound (delete_unit org unit_id t)
  unfolding delete_unit
  IsSound-delete_unit unit_id = Holds-refuse IsSound _ _ _ (λ there.
      Holds-refuse IsSound _ _ _ (λ childless. Holds-refuse IsSound _ _ _ (λ empty.
        IsSound-rows (without org unit_id t.units)
          (drawn_without t.next_id org unit_id t.units sound.drawn)
          (subst IsTree (sym (load-without_own org unit_id t.units))
            (IsTree-drop_unit (load_tree org t.units) unit_id (sound.trees org) childless))
          (λ o other. load-without o org unit_id t.units ∙ rw other refl))))

  IsSound-add :
      (w : OrgUnit)
      → w.id ≡ t.next_id
      → w.org_id ≡ org
      → (w.parent_id ≡ none)
        ⊎ ((p : ℕ) × (q : OrgUnit) × (w.parent_id ≡ some p)
            × (get_unit (load_tree org t.units) p ≡ some q))
      → any (is_named w.parent_id w.name) (load_tree org t.units) ≡ false
      → IsSound (record t { units = t.units ++ w ∷ []; next_id = suc t.next_id })
  IsSound-add w new home above free = record {
    drawn =
        All-append _ t.units (w ∷ []) (All-map_hyp _ _ t.units (λ u h. omega arith) sound.drawn)
          (omega arith, tt);
    trees = λ o. elim (Bool-cases (str_eq w.org_id o)) [
      | inl y ↦ subst IsTree (sym (load-append o t.units w ∙ rw y refl)) (
          subst (λ x. IsTree (load_tree x t.units ++ w ∷ [])) (sym home ∙ (eq_iff w.org_id o).0 y)
            (IsTree-append (load_tree org t.units) w
              (subst (λ n. get_unit (load_tree org t.units) n ≡ none) (sym new)
                (drawn_fresh t.next_id org t.units sound.drawn))
              (sound.trees org) above free))
      | inr f ↦ subst IsTree (sym (load-append o t.units w ∙ rw f refl)) (sound.trees o)
    ];
  }

  IsSound-create_unit :
      (name : String) (parent : Option ℕ) (kind : String) (policy : Option Props)
      → Holds IsSound (create_unit validate org name parent kind policy t)
  unfolding create_unit
  IsSound-create_unit name parent kind policy = Holds-refuse IsSound _ _ _ (λ named.
      Holds-refuse IsSound _ _ _ (λ placed. Holds-refuse IsSound _ _ _ (λ free.
        Holds-need IsSound _ (validate (or_else policy [])) _ (λ pol good.
          IsSound-add
            record {
              id = t.next_id;
              org_id = org;
              parent_id = parent;
              name = strip name;
              kind = clean_kind kind;
              policy = pol;
            }
            refl refl (is_parent-get (load_tree org t.units) parent placed) free))))

  IsSound-set_member :
      (unit_id : ℕ) (user role : String) → Holds IsSound (set_member org unit_id user role t)
  unfolding set_member
  IsSound-set_member unit_id user role = Holds-need IsSound _ (role_of role) _ (λ r known.
      Holds-refuse IsSound _ _ _ (λ there. record { drawn = sound.drawn; trees = sound.trees }))

IsSound-commit :
    (t : Tables) (r : Result Tables) → IsSound t → Holds IsSound r → IsSound (commit t r)
IsSound-commit t (ok t') h k = k
IsSound-commit t (fail e) h k = h

IsSound-run_write :
    (validate : Props → Option UnitPolicy) (t : Tables) (org : String) (w : UnitWrite)
    → IsSound t
    → IsSound (run_write validate t org w)
unfolding run_write remove_member
IsSound-run_write validate t org (create name parent kind policy) h =
    IsSound-commit t _ h (IsSound-create_unit validate t h org name parent kind policy)
IsSound-run_write validate t org (update unit_id patch) h =
    IsSound-commit t _ h (IsSound-update_unit validate t h org unit_id patch)
IsSound-run_write validate t org (delete unit_id) h =
    IsSound-commit t _ h (IsSound-delete_unit validate t h org unit_id)
IsSound-run_write validate t org (place unit_id user role) h =
    IsSound-commit t _ h (IsSound-set_member validate t h org unit_id user role)
IsSound-run_write validate t org (remove unit_id user) h = record {
  drawn = h.drawn;
  trees = h.trees;
}

-- Whatever requests arrive from whichever tenants, the ids stay unique, every chain of parents ends at
-- the top, and siblings have different names, in the units of each tenant.
pub IsSound-run_writes :
    (validate : Props → Option UnitPolicy) (t : Tables) (ws : List (String × UnitWrite))
    → IsSound t
    → IsSound (run_writes validate t ws)
unfolding run_writes
IsSound-run_writes validate t [] h = h
IsSound-run_writes validate t ((org, w) ∷ ws) h =
    IsSound-run_writes validate (run_write validate t org w) ws
      (IsSound-run_write validate t org w h)

refuse_iff {ℓ} :
    {A : Type ℓ} (b : Bool) (e : UnitError) (a : A) → (refuse b e (ok a) ≡ fail e) ↔ (b ≡ true)
unfolding refuse
refuse_iff true e a = (λ h. refl, λ h. refl)
refuse_iff false e a = (λ h. ground arith, λ h. ground arith)

-- A move to a unit that exists is refused exactly when that unit is the one that moves or is below it.
pub move-refuses :
    (us : List OrgUnit) (unit : OrgUnit) (p : ℕ)
    → IsTree us
    → has_unit us p ≡ true
    → (move us (some (some p)) unit ≡ fail own_descendant) ↔ ((p ≡ unit.id) ⊎ Below us unit.id p)
unfolding move refuse
move-refuses us unit p tree there =
    let below = descendants_iff us unit.id p tree.keyed in
    let refused =
      refuse_iff (p == unit.id || has p (descendants us unit.id)) own_descendant
        (record unit { parent_id = some p }) in
    rw there (
      λ h. elim (Bool-cases (p == unit.id)) [
        | inl y ↦ inl ((==_iff p unit.id).0 y)
        | inr f ↦ inr (below.0 (ground (arith, refused.0 h)))
      ],
      λ h.
          refused.1 (elim h [
            | inl e ↦ ground (arith, ==_iff p unit.id)
            | inr b ↦ ground (arith, below.1 b)
          ]),
    )
