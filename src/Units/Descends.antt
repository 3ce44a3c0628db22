-- ===== src/Units/Descends.antt =====
-- The walk down the tree finds exactly the units below: descendants of services/units.py.
use mlpal_memory.Prelude.{
  ℕ, zero, suc, ◌+◌, ◌≤◌, ◌≡◌, refl, ◌↔◌, inl, inr, Bool, true, false, ◌||◌, none, some, List, [],
  ◌∷◌, ◌==◌, if◌then◌else◌, arith, length, count, All, All-map_hyp, Bool-cases, Option-cases,
  ==_iff, subst, ap, sym,
}
use mlpal_memory.Units.{
  OrgUnit, has, get_unit, is_child, children, push_all, visit, descend, descendants,
}

-- `n` is above the unit `m`: its parent, or above its parent.
pub data Below (us : List OrgUnit) (n : ℕ) : ℕ → Type 0 where
  child : {m : ℕ} (u : OrgUnit) → get_unit us m ≡ some u → u.parent_id ≡ some n → Below us n m
  deeper :
      {m p : ℕ} (u : OrgUnit)
      → get_unit us m ≡ some u
      → u.parent_id ≡ some p
      → Below us n p
      → Below us n m

-- The rows are those of a table with unique ids.
abbrev pub Keyed : List OrgUnit → Type 0
Keyed us = All (λ u. get_unit us u.id ≡ some u) us

has-push_all : (c : ℕ) (ns stack : List ℕ) → has c (push_all ns stack) ≡ (has c ns || has c stack)
unfolding push_all
has-push_all c [] stack = refl
has-push_all c (n ∷ ns) stack = ground (arith, has-push_all c ns (n ∷ stack))

length-push_all : (ns stack : List ℕ) → length (push_all ns stack) ≡ length ns + length stack
unfolding push_all
length-push_all [] stack = omega arith
length-push_all (n ∷ ns) stack = omega (arith, length-push_all ns (n ∷ stack))

All-push_all :
    (P : ℕ → Type 0) (ns stack : List ℕ) → All P ns → All P stack → All P (push_all ns stack)
unfolding push_all
All-push_all P [] stack hn hs = hs
All-push_all P (n ∷ ns) stack hn hs = All-push_all P ns (n ∷ stack) hn.1 (hn.0, hs)

-- How many units have a parent that was not noted.
abbrev pub is_left : List ℕ → OrgUnit → Bool
is_left out u = elim u.parent_id [
  | none ↦ false
  | some p ↦ elim (has p out) [ true ↦ false | false ↦ true ]
]

left_step :
    (u : OrgUnit) (n : ℕ) (out : List ℕ)
    → has n out ≡ false
    → (if is_child n u then 1 else 0) + (if is_left (n ∷ out) u then 1 else 0)
      ≡ (if is_left out u then 1 else 0)
left_step u n out new = ground arith

left_visit :
    (us : List OrgUnit) (n : ℕ) (out : List ℕ)
    → has n out ≡ false
    → length (children us n) + count (is_left (n ∷ out)) us ≡ count (is_left out) us
unfolding children
left_visit [] n out new = refl
left_visit (u ∷ us) n out new = ground (arith, left_step u n out new, left_visit us n out new)

-- What a child is, whoever lists it.
abbrev IsChild : List OrgUnit → ℕ → ℕ → Type 0
IsChild us n c = (u : OrgUnit) × (get_unit us c ≡ some u) × (u.parent_id ≡ some n)

is_child-parent : (n : ℕ) (u : OrgUnit) → is_child n u ≡ true → u.parent_id ≡ some n
is_child-parent n u h = elim (Option-cases u.parent_id) [
  | inl top ↦ ground (arith, top)
  | inr (p, under) ↦ ground (arith, under, ==_iff p n)
]

IsChild-children :
    (all us : List OrgUnit) (n : ℕ)
    → All (λ u. get_unit all u.id ≡ some u) us
    → All (IsChild all n) (children us n)
unfolding children
IsChild-children all [] n keyed = tt
IsChild-children all (u ∷ us) n keyed = elim (Bool-cases (is_child n u)) [
  | inl y ↦ rw y ((u, keyed.0, is_child-parent n u y), IsChild-children all us n keyed.1)
  | inr f ↦ rw f (IsChild-children all us n keyed.1)
]

has-children :
    (us : List OrgUnit) (c n : ℕ) (u : OrgUnit)
    → get_unit us c ≡ some u
    → u.parent_id ≡ some n
    → has c (children us n) ≡ true
unfolding children
has-children [] c n u found under = ground arith
has-children (v ∷ us) c n u found under = ground (arith, has-children us c n u)

pub All-has : (P : ℕ → Type 0) (n : ℕ) (ns : List ℕ) → All P ns → has n ns ≡ true → P n
All-has P n [] h m = ground arith
All-has P n (x ∷ ns) h m = elim (Bool-cases (x == n)) [
  | inl y ↦ subst P ((==_iff x n).0 y) h.0
  | inr f ↦ All-has P n ns h.1 (ground arith)
]

module _ (us : List OrgUnit) (x : ℕ) (keyed : Keyed us) where
  Below-visit :
      (n : ℕ) (stack out : List ℕ)
      → Below us x n
      → All (Below us x) stack
      → All (Below us x) out
      → All (Below us x) (visit us n stack out).0 × All (Below us x) (visit us n stack out).1
  unfolding visit
  Below-visit n stack out hn hs ho = elim (Bool-cases (has n out)) [
    | inl y ↦ rw y (hs, ho)
    | inr f ↦ rw f (
      All-push_all (Below us x) (children us n) stack
          (All-map_hyp (IsChild us n) (Below us x) (children us n) (λ c h. deeper h.0 h.1 h.2 hn)
            (IsChild-children us us n keyed))
          hs,
      (hn, ho),
    )
  ]

  Below-descend :
      (fuel : ℕ) (stack out : List ℕ)
      → All (Below us x) stack
      → All (Below us x) out
      → All (Below us x) (descend us fuel stack out)
  unfolding descend
  Below-descend zero stack out hs ho = ho
  Below-descend (suc fuel) [] out hs ho = ho
  Below-descend (suc fuel) (n ∷ stack) out hs ho =
      let next = Below-visit n stack out hs.0 hs.1 ho in
      Below-descend fuel (visit us n stack out).0 (visit us n stack out).1 next.0 next.1

  Below-descendants : All (Below us x) (descendants us x)
  unfolding descendants
  Below-descendants =
      Below-descend (length us + length us) (push_all (children us x) []) []
        (All-push_all (Below us x) (children us x) []
          (All-map_hyp (IsChild us x) (Below us x) (children us x) (λ c h. child h.0 h.1 h.2)
            (IsChild-children us us x keyed))
          tt)
        tt

-- Every child of a noted unit, and of the unit the walk began at, is noted or waits.
record Covers (us : List OrgUnit) (x : ℕ) (stack out : List ℕ) : Type 0 where
  start : (c : ℕ) → has c (children us x) ≡ true → (has c out || has c stack) ≡ true
  noted :
      (n c : ℕ)
      → has n out ≡ true
      → has c (children us n) ≡ true
      → (has c out || has c stack) ≡ true

pub has_same : (n c : ℕ) (ns : List ℕ) → (n == c) ≡ true → has n ns ≡ has c ns
has_same n c ns e = ap (λ m. has m ns) ((==_iff n c).0 e)

module _ (us : List OrgUnit) (x : ℕ) where
  children_same : (m n c : ℕ) → (n == m) ≡ true → has c (children us m) ≡ has c (children us n)
  children_same m n c e = ap (λ k. has c (children us k)) (sym ((==_iff n m).0 e))

  Covers-visit :
      (n : ℕ) (stack out : List ℕ)
      → Covers us x (n ∷ stack) out
      → Covers us x (visit us n stack out).0 (visit us n stack out).1
  unfolding visit
  Covers-visit n stack out cov = elim (Bool-cases (has n out)) [
    | inl y ↦ rw y (record {
      start = λ c h. ground (arith, cov.start c h, has_same n c out);
      noted = λ m c hm h. ground (arith, cov.noted m c hm h, has_same n c out);
    })
    | inr f ↦ rw f (record {
      start = λ c h. ground (arith, cov.start c h, has-push_all c (children us n) stack);
      noted = λ m c hm h.
          ground (arith, cov.noted m c, has-push_all c (children us n) stack, children_same m n c);
    })
  ]

  -- The rounds that are left: those on the stack, and the units that a visit may still push.
  visit_pays :
      (n : ℕ) (stack out : List ℕ)
      → length (visit us n stack out).0 + count (is_left (visit us n stack out).1) us
        ≤ length stack + count (is_left out) us
  unfolding visit
  visit_pays n stack out = elim (Bool-cases (has n out)) [
    | inl y ↦ rw y (omega arith)
    | inr f ↦ rw f (omega (arith, length-push_all (children us n) stack, left_visit us n out f))
  ]

  Covers-descend :
      (fuel : ℕ) (stack out : List ℕ)
      → length stack + count (is_left out) us ≤ fuel
      → Covers us x stack out
      → Covers us x [] (descend us fuel stack out)
  unfolding descend
  Covers-descend zero [] out enough cov = cov
  Covers-descend zero (n ∷ stack) out enough cov = absurd (omega arith)
  Covers-descend (suc fuel) [] out enough cov = cov
  Covers-descend (suc fuel) (n ∷ stack) out enough cov =
      Covers-descend fuel (visit us n stack out).0 (visit us n stack out).1
        (omega (arith, visit_pays n stack out)) (Covers-visit n stack out cov)

  Below-has : (out : List ℕ) → Covers us x [] out → (c : ℕ) → Below us x c → has c out ≡ true
  Below-has out cov c (child u found under) =
      ground (arith, cov.start c (has-children us c x u found under))
  Below-has out cov c (deeper {p} u found under above) =
      ground (arith, cov.noted p c (Below-has out cov p above) (has-children us c p u found under))

  left_bound : (vs : List OrgUnit) (out : List ℕ) → count (is_left out) vs ≤ length vs
  left_bound [] out = omega arith
  left_bound (v ∷ vs) out = ground (arith, left_bound vs out)

  children_bound : (vs : List OrgUnit) → length (children vs x) ≤ length vs
  unfolding children
  children_bound [] = omega arith
  children_bound (v ∷ vs) = ground (arith, children_bound vs)

  Covers-descendants : Covers us x [] (descendants us x)
  unfolding descendants
  Covers-descendants =
      Covers-descend (length us + length us) (push_all (children us x) []) []
        (omega (arith, length-push_all (children us x) [], children_bound us, left_bound us []))
        (record {
          start = λ c h. ground (arith, has-push_all c (children us x) []);
          noted = λ n c hn h. ground arith;
        })

-- In a table with unique ids the walk down from a unit gives exactly the units below it.
pub descendants_iff :
    (us : List OrgUnit) (x c : ℕ) → Keyed us → (has c (descendants us x) ≡ true) ↔ Below us x c
descendants_iff us x c keyed = (
  λ h. All-has (Below us x) c (descendants us x) (Below-descendants us x keyed) h,
  λ b. Below-has us x (descendants us x) (Covers-descendants us x) c b,
)
