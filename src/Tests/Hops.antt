-- ===== src/Tests/Hops.antt =====
-- Promotions and due turns of HOPs.
use mlpal_memory.Prelude.{
  ℕ, ◌+◌, ◌*◌, ◌≤◌, ◌≡◌, ◌↔◌, ◌⊎◌, refl, Bool, true, false, some, none, Option, String, List, [],
  ◌∷◌, any, contains, str_eq, if◌then◌else◌, ◌==◌,
}
use mlpal_memory.Hops.{
  Suite, Hop, is_read_only, tool_name, is_apply_capable, auto, human, refused, decide_promotion,
  accepted, CadencePolicy, day, decide_due,
}
use mlpal_memory.Hops.Ladder.{
  ladder_order, Run, passes_in, scores_in, meets_bar, run_suite, walk_suites, dispose, frontier,
  run_ladder,
}
use mlpal_memory.Hops.Promoted.{IsVetted, decide_promotion-IsVetted, decide_due_iff}

program : Unit {0}
unfolding is_read_only tool_name is_apply_capable decide_promotion decide_due ladder_order passes_in
    scores_in meets_bar run_suite walk_suites dispose frontier run_ladder
program = tt

abbrev suite : String → String → ℕ → Suite
suite name role bar = record {
  name = name;
  role = some role;
  gates = none;
  runs = 2;
  pass_bar = bar;
  tasks_exist = true;
  scorer = name;
}

abbrev hop : List String → List String → Hop
hop tools allow = record {
  include_tools = tools;
  allow = allow;
  promote = some "auto";
  golden_suite = some "golden";
  frontier_metric = some "speed";
  evals =
      suite "speed" "frontier" 0 ∷ suite "golden" "golden" 500 ∷ suite "smoke" "probe" 1000 ∷ [];
}

-- The golden suite passes its first run only, and the frontier prints 7.
abbrev runner : Suite → ℕ → Run ℕ
runner s k = record {
  passed = if str_eq s.name "golden" then k == 0 else true;
  printed = if str_eq s.name "speed" then some 7 else none;
}

abbrev margin : List ℕ → Option Bool
margin xs = some true

reader_promotes :
    decide_promotion
      (hop ("Read" ∷ " Grep(src)" ∷ []) [])
      (run_ladder runner margin (hop ("Read" ∷ " Grep(src)" ∷ []) []) true)
    ≡ auto
unfolding program
reader_promotes = refl

writer_waits : decide_promotion (hop ("Read" ∷ []) ("Bash(git*)" ∷ [])) accepted ≡ human
unfolding program
writer_waits = refl

stranger_waits : decide_promotion (hop ("Read" ∷ "mcp_tool" ∷ []) []) accepted ≡ human
unfolding program
stranger_waits = refl

no_baseline :
    decide_promotion (hop ("Read" ∷ []) []) (run_ladder runner margin (hop ("Read" ∷ []) []) false)
    ≡ refused
unfolding program
no_baseline = refl

decide_promotion-IsVetted_example : IsVetted runner (hop ("Read" ∷ " Grep(src)" ∷ []) [])
decide_promotion-IsVetted_example =
    decide_promotion-IsVetted runner margin (hop ("Read" ∷ " Grep(src)" ∷ []) []) true
      reader_promotes

abbrev weekly : CadencePolicy
weekly = record { min_runs_since_last = 30; max_age_days = 7; triggers = "on-incident" ∷ [] }

decide_due_iff_example :
    ((decide_due weekly 3 (some 0) 700000 ("on-api-change" ∷ [])).due ≡ true) ↔ (
      (30 ≤ 3)
      ⊎ ((t : ℕ) × (◌≡◌ {A = Option ℕ} (some 0) (some t)) × (t + 7 * day ≤ 700000))
      ⊎ (any (λ e. contains e ("on-incident" ∷ [])) ("on-api-change" ∷ []) ≡ true))
decide_due_iff_example = decide_due_iff weekly 3 (some 0) 700000 ("on-api-change" ∷ [])
