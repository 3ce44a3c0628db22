-- ===== src/Policy/Budgets.antt =====
-- Daily budgets along the scope chain: services/policy.py, `source_budget_per_day` and `budget_for`.
use mlpal_memory.Prelude.{
  ℕ, ◌≤◌, ◌<◌, String, ◌≡◌, refl, false, some, inl, inr, List, [], ◌∷◌, arith, eq_iff, eq_refl,
  str_eq, Bool-cases, min,
}
use mlpal_memory.Json.{Dict, get, put, get-put}
use mlpal_memory.Policy.{
  PolicyRow, ResolvedPolicy, budget_for, lower_budget, lower_budgets, tighten, tighten_all,
}

-- The source's own budget is there and at most `n`.
abbrev pub AtMost : String → ℕ → Dict ℕ → Type 0
AtMost source n d = (k : ℕ) × (get source d ≡ some k) × (k ≤ n)

AtMost-put :
    (source j : String) (n m : ℕ) (d : Dict ℕ)
    → AtMost source n d
    → AtMost source n (put j (lower_budget (get j d) m) d)
AtMost-put source j n m d (k, own, le) = elim (Bool-cases (str_eq j source)) [
  | inl y ↦
      let same : j ≡ source = (eq_iff j source).0 y in
      (min k m, rw (get-put, y, same, own) refl, omega arith)
  | inr x ↦ (k, rw (get-put, x) own, le)
]

AtMost-lower_budgets :
    (source : String) (n : ℕ) (old new : Dict ℕ)
    → AtMost source n old
    → AtMost source n (lower_budgets old new)
AtMost-lower_budgets source n old [] h = h
AtMost-lower_budgets source n old ((j, m) ∷ new) h =
    AtMost-lower_budgets source n (put j (lower_budget (get j old) m) old) new
      (AtMost-put source j n m old h)

AtMost-tighten_all :
    (source : String) (n : ℕ) (rows : List PolicyRow) (p : ResolvedPolicy)
    → AtMost source n p.source_budget_per_day
    → AtMost source n (tighten_all p rows).source_budget_per_day
unfolding tighten
AtMost-tighten_all source n [] p h = h
AtMost-tighten_all source n (r ∷ rows) p h =
    AtMost-tighten_all source n rows (tighten p r)
      (AtMost-lower_budgets source n p.source_budget_per_day r.source_budget_per_day h)

-- A budget that a row sets for a source by name is a bound for every row that follows: the budget in force
-- is there and is never larger.
pub budget_for-tighten_all :
    (source : String) (n : ℕ) (rows : List PolicyRow) (p : ResolvedPolicy)
    → get source p.source_budget_per_day ≡ some n
    → (k : ℕ) × (budget_for (tighten_all p rows) (some source) ≡ some k) × (k ≤ n)
unfolding budget_for
budget_for-tighten_all source n rows p own =
    let (k, found, le) = AtMost-tighten_all source n rows p (n, own, omega arith) in
    (k, ground (arith, found), le)

-- A budget for every source is none: a row that follows may name a source and give it a larger one.
pub budget_for-loosened :
    (source : String) (n m : ℕ) (p : ResolvedPolicy) (r : PolicyRow)
    → p.source_budget_per_day ≡ ("*", n) ∷ []
    → r.source_budget_per_day ≡ (source, m) ∷ []
    → str_eq "*" source ≡ false
    → n < m
    → (budget_for p (some source) ≡ some n) × (budget_for (tighten p r) (some source) ≡ some m)
unfolding budget_for tighten get put
budget_for-loosened source n m p r broad narrow other lt =
    (ground arith, ground (arith, eq_refl source))
