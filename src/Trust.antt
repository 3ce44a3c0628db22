-- ===== src/Trust.antt =====
-- pipeline/trust.py: the tier that a memory earns from the runs that used it. A set of runs or of nodes is a
-- list without repeats, and a node's id is a text.
pub mod Consequences
use mlpal_memory.Prelude.{
  ℕ, ◌+◌, String, Bool, true, false, ◌&&◌, ◌||◌, Option, none, some, List, [], ◌∷◌, ◌++◌, leb, ◌==◌,
  contains, or_else, str_eq, if◌then◌else◌,
}
use mlpal_memory.Json.{Dict, get, put}

abbrev pub pass_results : List String
pass_results = "success" ∷ []

abbrev pub fail_results : List String
fail_results = "error" ∷ "max_turns" ∷ "cancelled" ∷ []

pub record Consequence : Type 0 where
  pub passes : ℕ
  pub fails : ℕ
  pub runs : List String

abbrev pub no_consequence : Consequence
no_consequence = record { passes = 0; fails = 0; runs = [] }

-- `runs.add(run_id)`
abbrev pub add_run : String → List String → List String
add_run run_id runs = if contains run_id runs then runs else runs ++ run_id ∷ []

-- The body of the inner loop.
unfoldable pub note_run : String → String → Consequence → Consequence
note_run run_id verdict c =
    let seen : Consequence = record c { runs = add_run run_id c.runs } in
    if contains verdict pass_results
    then record seen { passes = c.passes + 1 }
    else if contains verdict fail_results
    then record seen { fails = c.fails + 1 }
    else seen

unfoldable pub note_nodes : String → String → List String → Dict Consequence → Dict Consequence
note_nodes run_id verdict [] out = out
note_nodes run_id verdict (nid ∷ node_ids) out =
    note_nodes run_id verdict node_ids
      (put nid (note_run run_id verdict (or_else (get nid out) no_consequence)) out)

-- Runs without a verdict are ignored.
abbrev pub note_served : Dict String → String → List String → Dict Consequence → Dict Consequence
note_served verdicts run_id node_ids out = elim (get run_id verdicts) [
  | none ↦ out
  | some v ↦ note_nodes run_id v node_ids out
]

abbrev pub join_from : Dict String → Dict (List String) → Dict Consequence → Dict Consequence
join_from verdicts [] out = out
join_from verdicts ((run_id, node_ids) ∷ served) out =
    join_from verdicts served (note_served verdicts run_id node_ids out)

unfoldable pub join_consequences : Dict (List String) → Dict String → Dict Consequence
join_consequences served verdicts = join_from verdicts served []

pub data Tier : Type 0 where
  probation corroborated endorsed : Tier

abbrev is_false : Option Bool → Bool
is_false (some false) = true
is_false _ = false

unfoldable pub tier_for : Option Bool → ℕ → Option Consequence → Bool → Tier
tier_for grounded observed_count consequence is_endorsed =
    let c = or_else consequence no_consequence in
    if is_endorsed
    then endorsed
    else if is_false grounded
    then probation
    else if leb 2 observed_count && c.fails == 0
    then corroborated
    else if leb 3 c.passes && c.fails == 0
    then corroborated
    else probation
