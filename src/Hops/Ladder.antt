-- ===== src/Hops/Ladder.antt =====
-- The ladder of eval suites: run_ladder of pipeline/hop_eval.py. A scorer is run outside, and its
-- runs are a parameter; so are the mean of the scores and the margin, which are floats.
use mlpal_memory.Prelude.{
  ℕ, zero, suc, ◌+◌, ◌*◌, Bool, true, false, not, ◌&&◌, ◌||◌, Option, none, some, List, [], ◌∷◌,
  ◌++◌, String, ◌==◌, if◌then◌else◌, leb, opt_eq, find, or_else, sort_by,
}
use mlpal_memory.Hops.{Suite, Hop, Disposition, accepted, rejected, scored, is_nil}

-- Probes, then goldens, then the frontier, then the rest.
abbrev pub ladder_rank : Suite → ℕ
ladder_rank s =
    if opt_eq s.role (some "probe")
    then 0
    else if opt_eq s.role (some "golden")
    then 1
    else if opt_eq s.role (some "frontier")
    then 2
    else 3

unfoldable pub ladder_order : List Suite → List Suite
ladder_order = sort_by (λ a b. leb (ladder_rank a) (ladder_rank b))

-- GATES_BY_ROLE
abbrev pub gates_by_role : Option String → Bool
gates_by_role role = opt_eq role (some "golden") || opt_eq role (some "probe")

abbrev pub gates_of : Suite → Bool
gates_of s = or_else s.gates (gates_by_role s.role)

-- One run of a scorer: whether it exits with 0, and the last number it prints.
module _ (Score : Type 0) where
  pub record Run : Type 0 where
    pub passed : Bool
    pub printed : Option Score

  pub record SuiteResult : Type 0 where
    pub name : String
    pub gates : Bool
    pub passes : ℕ
    pub scores : List Score
    pub passed : Option Bool
    pub skipped : Bool

module _ {Score : Type 0} (runner : Suite → ℕ → Run Score) where
  -- The first runs of the scorer that exit with 0.
  unfoldable pub passes_in : Suite → ℕ → ℕ
  passes_in s zero = 0
  passes_in s (suc k) = passes_in s k + (if (runner s k).passed then 1 else 0)

  abbrev pub add_score : Option Score → List Score → List Score
  add_score none xs = xs
  add_score (some x) xs = xs ++ x ∷ []

  unfoldable pub scores_in : Suite → ℕ → List Score
  scores_in s zero = []
  scores_in s (suc k) = add_score (runner s k).printed (scores_in s k)

  -- `pass_rate >= pass_bar`; without runs the rate is 0.
  unfoldable pub meets_bar : Suite → Bool
  meets_bar s =
      if s.runs == 0 then s.pass_bar == 0 else leb (s.pass_bar * s.runs) (passes_in s s.runs * 1000)

  abbrev pub skip : Suite → SuiteResult Score
  skip s = record {
    name = s.name;
    gates = gates_of s;
    passes = 0;
    scores = [];
    passed = none;
    skipped = true;
  }

  unfoldable pub run_suite : Suite → SuiteResult Score
  run_suite s = record {
    name = s.name;
    gates = gates_of s;
    passes = passes_in s s.runs;
    scores = scores_in s s.runs;
    passed = if gates_of s then some (meets_bar s) else none;
    skipped = false;
  }

  -- A suite after a failed gate is skipped, and so is one that does not gate and has no tasks.
  abbrev pub is_skipped : Bool → Suite → Bool
  is_skipped stopped s = stopped || (not s.tasks_exist && not (gates_of s))

  -- Whether the ladder is stopped after the suite.
  abbrev pub stops : Bool → Suite → Bool
  stops stopped s = stopped || (gates_of s && not (meets_bar s))

  unfoldable pub walk_suites : Bool → List Suite → Bool × List (SuiteResult Score)
  walk_suites stopped [] = (stopped, [])
  walk_suites stopped (s ∷ ss) =
      let rest = walk_suites (stops stopped s) ss in
      (rest.0, (if is_skipped stopped s then skip s else run_suite s) ∷ rest.1)

unfoldable pub dispose : Bool → Option Bool → Disposition
dispose true margin = rejected
dispose false none = scored
dispose false (some true) = accepted
dispose false (some false) = rejected

module _ {Score : Type 0} (runner : Suite → ℕ → Run Score)
    (meets_margin : List Score → Option Bool) where
  abbrev pub margin_of : Bool → SuiteResult Score → Option Bool
  margin_of has_baseline r =
      if r.skipped || not has_baseline || is_nil r.scores then none else meets_margin r.scores

  -- `frontier.get("meets_margin")`
  unfoldable pub frontier : Hop → Bool → List (SuiteResult Score) → Option Bool
  frontier hop has_baseline results =
      elim (find (λ r. opt_eq (some r.name) hop.frontier_metric) results) [
        | none ↦ none
        | some r ↦ margin_of has_baseline r
      ]

  unfoldable pub run_ladder : Hop → Bool → Disposition
  run_ladder hop has_baseline =
      let out = walk_suites runner false (ladder_order hop.evals) in
      dispose out.0 (frontier hop has_baseline out.1)
