-- ===== src/Policy/Tightening.antt =====
-- A policy row only tightens: services/policy.py, `drop_reason` under `resolve_extraction_policy`.
use mlpal_memory.Prelude.{
  String, ◌≡◌, ◌≢◌, ◌⊎◌, refl, Bool, true, false, ◌||◌, Option, none, some, inl, inr, List, [], ◌∷◌,
  ◌++◌, arith, eq_iff, str_eq, is_some, or_else, filter, contains, Bool-cases,
}
use mlpal_memory.Json.{Dict, get, put}
use mlpal_memory.Policy.{
  Scalar, holds_scalar, PolicyRow, ResolvedPolicy, metadata_value, metadata_rule, allows,
  drop_reason, narrow_allow, deny_metadata, tighten, tighten_all,
}

contains-append :
    (a : String) (xs ys : List String) → contains a (xs ++ ys) ≡ (contains a xs || contains a ys)
contains-append a [] ys = refl
contains-append a (x ∷ xs) ys = ground (arith, contains-append a xs ys)

holds_scalar-append :
    (v : Scalar) (xs ys : List Scalar)
    → holds_scalar v (xs ++ ys) ≡ (holds_scalar v xs || holds_scalar v ys)
holds_scalar-append v [] ys = refl
holds_scalar-append v (x ∷ xs) ys = ground (arith, holds_scalar-append v xs ys)

contains-filter :
    (a : String) (p : String → Bool) (xs : List String)
    → contains a (filter p xs) ≡ true
    → (contains a xs ≡ true) × (p a ≡ true)
contains-filter a p [] h = cc
contains-filter a p (x ∷ xs) h = elim (Bool-cases (p x)) [
  | inl y ↦ elim (Bool-cases (str_eq a x)) [
    | inl same ↦ let e : a ≡ x = (eq_iff a x).0 same in (ground arith, rw e y)
    | inr other ↦ let ih = contains-filter a p xs (ground arith) in (ground arith, ih.1)
  ]
  | inr n ↦ let ih = contains-filter a p xs (ground arith) in (ground arith, ih.1)
]

allows-narrow_allow :
    (old : Option (List String)) (new : List String) (source : String)
    → allows (narrow_allow old new) source ≡ true
    → allows old source ≡ true
allows-narrow_allow old [] source h = h
allows-narrow_allow none (x ∷ xs) source h = refl
allows-narrow_allow (some old) (x ∷ xs) source h =
    (contains-filter source (λ s. contains s (x ∷ xs)) old h).0

-- A list that leaves the source out leaves nothing of it.
allows-left_out :
    (old : Option (List String)) (new : List String) (source : String)
    → new ≢ []
    → contains source new ≡ false
    → allows (narrow_allow old new) source ≡ false
allows-left_out old [] source ne h = absurd (ne refl)
allows-left_out none (x ∷ xs) source ne h = h
allows-left_out (some old) (x ∷ xs) source ne h =
    elim (Bool-cases (contains source (filter (λ s. contains s (x ∷ xs)) old))) [
      | inl y ↦ absurd (ground (arith, contains-filter source (λ s. contains s (x ∷ xs)) old y))
      | inr n ↦ n
    ]

-- Adding denied values to a key keeps every item denied that was.
metadata_rule-put :
    (m : Dict Scalar) (key : String) (vals : List Scalar) (rules : Dict (List Scalar))
    → is_some (metadata_rule m rules) ≡ true
    → is_some (metadata_rule m (put key (or_else (get key rules) [] ++ vals) rules)) ≡ true
unfolding put get
metadata_rule-put m key vals [] h = ground arith
metadata_rule-put m key vals ((j, denied) ∷ rules) h = ground (
  arith,
  holds_scalar-append (metadata_value j m) denied vals,
  metadata_rule-put m key vals rules,
)

metadata_rule-deny_metadata :
    (m : Dict Scalar) (old new : Dict (List Scalar))
    → is_some (metadata_rule m old) ≡ true
    → is_some (metadata_rule m (deny_metadata old new)) ≡ true
metadata_rule-deny_metadata m old [] h = h
metadata_rule-deny_metadata m old ((key, vals) ∷ new) h =
    metadata_rule-deny_metadata m (put key (or_else (get key old) [] ++ vals) old) new
      (metadata_rule-put m key vals old h)

-- The item is excluded.
abbrev pub drops : ResolvedPolicy → String → Dict Scalar → Bool
drops p source metadata = is_some (drop_reason p source metadata)

drops-tighten :
    (p : ResolvedPolicy) (r : PolicyRow) (source : String) (metadata : Dict Scalar)
    → drops p source metadata ≡ true
    → drops (tighten p r) source metadata ≡ true
unfolding drop_reason tighten
drops-tighten p r source metadata h = ground (
  arith,
  contains-append source p.deny_sources r.deny_sources,
  allows-narrow_allow p.allow_sources r.allow_sources source,
  metadata_rule-deny_metadata metadata p.metadata_deny r.metadata_deny,
)

-- Rows that follow only tighten: an item that the policy of some rows excludes, the policy of these and
-- any further rows excludes too.
pub drops-tighten_all :
    (p : ResolvedPolicy) (rows : List PolicyRow) (source : String) (metadata : Dict Scalar)
    → drops p source metadata ≡ true
    → drops (tighten_all p rows) source metadata ≡ true
drops-tighten_all p [] source metadata h = h
drops-tighten_all p (r ∷ rows) source metadata h =
    drops-tighten_all (tighten p r) rows source metadata (drops-tighten p r source metadata h)

-- The row denies the source, or has an allow-list that leaves it out.
abbrev pub RowExcludes : PolicyRow → String → Type 0
RowExcludes r source =
    (contains source r.deny_sources ≡ true)
    ⊎ (r.allow_sources ≢ []) × (contains source r.allow_sources ≡ false)

drops_of-row :
    (p : ResolvedPolicy) (r : PolicyRow) (source : String) (metadata : Dict Scalar)
    → RowExcludes r source
    → drops (tighten p r) source metadata ≡ true
unfolding drop_reason tighten
drops_of-row p r source metadata (inl denied) =
    ground (arith, contains-append source p.deny_sources r.deny_sources)
drops_of-row p r source metadata (inr (some_list, left_out)) =
    ground (arith, allows-left_out p.allow_sources r.allow_sources source some_list left_out)

-- A source that some row denies, or that some row's allow-list leaves out, is excluded by the policy of all
-- the rows, wherever in the chain the row stands.
pub tighten_all-excludes :
    (p : ResolvedPolicy) (before : List PolicyRow) (r : PolicyRow) (after : List PolicyRow)
    (source : String) (metadata : Dict Scalar)
    → RowExcludes r source
    → drops (tighten_all p (before ++ r ∷ after)) source metadata ≡ true
tighten_all-excludes p [] r after source metadata h =
    drops-tighten_all (tighten p r) after source metadata (drops_of-row p r source metadata h)
tighten_all-excludes p (b ∷ before) r after source metadata h =
    tighten_all-excludes (tighten p b) before r after source metadata h
