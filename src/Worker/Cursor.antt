-- ===== src/Worker/Cursor.antt =====
-- The worker's cursor, `fetch_unprocessed_ids` of repositories/episodes.py: fresh work before retries.
use mlpal_memory.Prelude.{
  ℕ, zero, suc, ◌+◌, ◌≤◌, String, ◌≡◌, refl, ◌∙◌, Bool, inl, inr, List, [], ◌∷◌, arith, map, filter,
  take, count, length, length-take-le, All, All-map_hyp, leb, Bool-cases, if◌then◌else◌,
}
use mlpal_memory.Fold.{Episode}
use mlpal_memory.Worker.{is_pending, insert_by_errors, by_errors, fetch_unprocessed_ids}

-- No episode of the second list has fewer failures than the first episode.
abbrev pub NoFresher : Episode → List Episode → Type 0
NoFresher ep rest = All (λ r. ep.error_count ≤ r.error_count) rest

abbrev IsSorted : List Episode → Type 0
IsSorted [] = Unit
IsSorted (x ∷ xs) = NoFresher x xs × IsSorted xs

NoFresher-insert_by_errors :
    (y x : Episode) (xs : List Episode)
    → y.error_count ≤ x.error_count
    → NoFresher y xs
    → NoFresher y (insert_by_errors x xs)
NoFresher-insert_by_errors y x [] le h = (le, tt)
NoFresher-insert_by_errors y x (z ∷ xs) le h = elim (Bool-cases (leb x.error_count z.error_count)) [
  | inl b ↦ rw b (le, h)
  | inr n ↦ rw n (h.0, NoFresher-insert_by_errors y x xs le h.1)
]

IsSorted-insert_by_errors :
    (x : Episode) (xs : List Episode) → IsSorted xs → IsSorted (insert_by_errors x xs)
IsSorted-insert_by_errors x [] h = (tt, tt)
IsSorted-insert_by_errors x (y ∷ xs) h = elim (Bool-cases (leb x.error_count y.error_count)) [
  | inl b ↦
      let le : x.error_count ≤ y.error_count = ground (arith, b) in
      rw b (
        (
          le,
          All-map_hyp (λ r. y.error_count ≤ r.error_count) (λ r. x.error_count ≤ r.error_count) xs
              (λ r p. omega (arith, le, p)) h.0,
        ),
        h,
      )
  | inr n ↦ rw n (
    NoFresher-insert_by_errors y x xs (ground (arith, n)) h.0,
    IsSorted-insert_by_errors x xs h.1,
  )
]

IsSorted-by_errors : (xs : List Episode) → IsSorted (by_errors xs)
IsSorted-by_errors [] = tt
IsSorted-by_errors (x ∷ xs) = IsSorted-insert_by_errors x (by_errors xs) (IsSorted-by_errors xs)

count-insert_by_errors :
    (p : Episode → Bool) (x : Episode) (xs : List Episode)
    → count p (insert_by_errors x xs) ≡ (if p x then 1 else 0) + count p xs
count-insert_by_errors p x [] = ground arith
count-insert_by_errors p x (y ∷ xs) = elim (Bool-cases (leb x.error_count y.error_count)) [
  | inl b ↦ rw b (ground arith)
  | inr n ↦ rw n (ground (arith, count-insert_by_errors p x xs))
]

count-by_errors : (p : Episode → Bool) (xs : List Episode) → count p (by_errors xs) ≡ count p xs
count-by_errors p [] = refl
count-by_errors p (x ∷ xs) =
    count-insert_by_errors p x (by_errors xs) ∙ ground (arith, count-by_errors p xs)

-- `xs[n:]`
abbrev drop : ℕ → List Episode → List Episode
drop zero xs = xs
drop (suc n) [] = []
drop (suc n) (x ∷ xs) = drop n xs

take-drop :
    (n : ℕ) (xs : List Episode) (p : Episode → Bool)
    → count p (take n xs) + count p (drop n xs) ≡ count p xs
take-drop zero xs p = omega arith
take-drop (suc n) [] p = omega arith
take-drop (suc n) (x ∷ xs) p = ground (arith, take-drop n xs p)

NoFresher-drop :
    (x : Episode) (n : ℕ) (xs : List Episode) → NoFresher x xs → NoFresher x (drop n xs)
NoFresher-drop x zero xs h = h
NoFresher-drop x (suc n) [] h = tt
NoFresher-drop x (suc n) (y ∷ xs) h = NoFresher-drop x n xs h.1

NoFresher-take :
    (n : ℕ) (xs : List Episode) → IsSorted xs → All (λ ep. NoFresher ep (drop n xs)) (take n xs)
NoFresher-take zero xs h = tt
NoFresher-take (suc n) [] h = tt
NoFresher-take (suc n) (x ∷ xs) h = (NoFresher-drop x n xs h.0, NoFresher-take n xs h.1)

-- The ids are those of a batch; what is pending is the batch and the rest, each episode as often as it was.
pub record IsBatch (limit : ℕ) (table : List Episode) (ids : List String) : Type 0 where
  pub batch : List Episode
  pub rest : List Episode
  pub ids_of : ids ≡ map (λ ep. ep.event_id) batch
  pub bounded : length batch ≤ limit
  pub shared :
      (p : Episode → Bool) → count p batch + count p rest ≡ count p (filter is_pending table)
  pub fresh_first : All (λ ep. NoFresher ep rest) batch

-- The cursor gives at most as many episodes as asked for, only pending ones, and none that it passes over
-- has failed fewer times than one it gives: retries wait behind fresh work.
pub fetch_unprocessed_ids-IsBatch :
    (limit : ℕ) (table : List Episode) → IsBatch limit table (fetch_unprocessed_ids limit table)
unfolding fetch_unprocessed_ids
fetch_unprocessed_ids-IsBatch limit table =
    let sorted = by_errors (filter is_pending table) in
    record {
      batch = take limit sorted;
      rest = drop limit sorted;
      ids_of = refl;
      bounded = length-take-le limit sorted;
      shared = λ p. take-drop limit sorted p ∙ count-by_errors p (filter is_pending table);
      fresh_first = NoFresher-take limit sorted (IsSorted-by_errors (filter is_pending table));
    }
