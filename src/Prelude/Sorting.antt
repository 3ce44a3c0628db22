-- ===== src/Prelude/Sorting.antt =====
-- `list.sort(key=…, reverse=True)`: the largest key first, equal keys in their order.
use Prim.Native.Nat.{ℕ, ◌+◌, ◌≤◌}
use mathlib.Core.Path.{◌≡◌, refl}
use mathlib.Core.Logic.{inl, inr}
use mathlib.Core.Bool.{Bool, ◌||◌}
use mathlib.Core.List.{List, [], ◌∷◌}
use native.Mathlib.Omega.{arith}
use mlpal_memory.Prelude.Tests.{leb, if◌then◌else◌, Bool-cases}
use mlpal_memory.Prelude.Lists.{count, any, All, All-map_hyp}

module _ {ℓ} {A : Type ℓ} (before : A → A → Bool) where
  -- Into a sorted list, before the items that do not come first.
  abbrev pub insert_by : A → List A → List A
  insert_by x [] = x ∷ []
  insert_by x (y ∷ ys) = let rest = insert_by x ys in if before x y then x ∷ y ∷ ys else y ∷ rest

  abbrev pub sort_by : List A → List A
  sort_by [] = []
  sort_by (x ∷ xs) = insert_by x (sort_by xs)

  pub count-insert_by :
      (p : A → Bool) (x : A) (ys : List A)
      → count p (insert_by x ys) ≡ (if p x then 1 else 0) + count p ys
  count-insert_by p x [] = ground arith
  count-insert_by p x (y ∷ ys) = ground (arith, count-insert_by p x ys)

  pub count-sort_by : (p : A → Bool) (xs : List A) → count p (sort_by xs) ≡ count p xs
  count-sort_by p [] = refl
  count-sort_by p (x ∷ xs) = ground (arith, count-insert_by p x (sort_by xs), count-sort_by p xs)

  pub any-insert_by :
      (p : A → Bool) (x : A) (ys : List A) → any p (insert_by x ys) ≡ (p x || any p ys)
  any-insert_by p x [] = refl
  any-insert_by p x (y ∷ ys) = ground (arith, any-insert_by p x ys)

  pub any-sort_by : (p : A → Bool) (xs : List A) → any p (sort_by xs) ≡ any p xs
  any-sort_by p [] = refl
  any-sort_by p (x ∷ xs) = ground (arith, any-insert_by p x (sort_by xs), any-sort_by p xs)

  pub All-insert_by {κ} :
      (P : A → Type κ) (x : A) (ys : List A) → P x → All P ys → All P (insert_by x ys)
  All-insert_by P x [] p h = (p, tt)
  All-insert_by P x (y ∷ ys) p h = elim (Bool-cases (before x y)) [
    | inl b ↦ rw b (p, h)
    | inr n ↦ rw n (h.0, All-insert_by P x ys p h.1)
  ]

  pub All-sort_by {κ} : (P : A → Type κ) (xs : List A) → All P xs → All P (sort_by xs)
  All-sort_by P [] h = tt
  All-sort_by P (x ∷ xs) h = All-insert_by P x (sort_by xs) h.0 (All-sort_by P xs h.1)

module _ {ℓ} {A : Type ℓ} (key : A → ℕ) where
  abbrev pub by_key : A → A → Bool
  by_key x y = leb (key y) (key x)

  abbrev pub IsDescending : List A → Type 0
  IsDescending [] = Unit
  IsDescending (x ∷ xs) = All (λ y. key y ≤ key x) xs × IsDescending xs

  IsDescending-insert_by :
      (x : A) (ys : List A) → IsDescending ys → IsDescending (insert_by by_key x ys)
  IsDescending-insert_by x [] h = (tt, tt)
  IsDescending-insert_by x (y ∷ ys) h = elim (Bool-cases (leb (key y) (key x))) [
    | inl b ↦ rw b (
      (
        ground (arith, b),
        All-map_hyp (λ z. key z ≤ key y) (λ z. key z ≤ key x) ys (λ z p. ground (arith, b, p)) h.0,
      ),
      h,
    )
    | inr n ↦ rw n (
      All-insert_by by_key (λ z. key z ≤ key y) x ys (ground (arith, n)) h.0,
      IsDescending-insert_by x ys h.1,
    )
  ]

  pub IsDescending-sort_by : (xs : List A) → IsDescending (sort_by by_key xs)
  IsDescending-sort_by [] = tt
  IsDescending-sort_by (x ∷ xs) =
      IsDescending-insert_by x (sort_by by_key xs) (IsDescending-sort_by xs)
