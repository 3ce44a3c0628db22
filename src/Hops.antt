-- ===== src/Hops.antt =====
-- When a HOP may promote itself and when a tuning turn is due: pipeline/hop_promote.py and
-- pipeline/hop_cadence.py. The artifact is YAML, and an absent or empty list is empty here.
pub mod Ladder
pub mod Promoted
use Prim.Native.Char.{Char, code}
use mlpal_memory.Prelude.{
  ℕ, suc, ◌+◌, ◌-◌, ◌*◌, Bool, true, false, not, ◌&&◌, ◌||◌, Option, none, some, List, [], ◌∷◌,
  ◌++◌, String, ◌==◌, if◌then◌else◌, leb, ltb, str_eq, opt_eq, is_empty, lstrip, find, any,
  contains, filter, map, or_else,
}

-- A suite of the artifact's evals. The bar is in thousandths; `tasks_exist` is the look at the
-- directory of its tasks.
pub record Suite : Type 0 where
  pub name : String
  pub role : Option String
  pub gates : Option Bool
  pub runs : ℕ
  pub pass_bar : ℕ
  pub tasks_exist : Bool
  pub scorer : String

pub record Hop : Type 0 where
  pub include_tools : List String
  pub allow : List String
  pub evals : List Suite
  pub promote : Option String
  pub golden_suite : Option String
  pub frontier_metric : Option String

-- BUILTIN_READ_ONLY; `none` is a tool registered at run time.
unfoldable pub is_read_only : String → Option Bool
is_read_only name =
    if contains name ("BashOutput" ∷ "ExitPlanMode" ∷ "Glob" ∷ "Grep" ∷ "List" ∷ "Read" ∷ [])
    then some true
    else if contains name ("memory_answer" ∷ "memory_search" ∷ "memory_get" ∷ [])
    then some true
    else if contains name ("Bash" ∷ "Edit" ∷ "Kill" ∷ "WebFetch" ∷ "Write" ∷ [])
    then some false
    else none

abbrev pub is_letter : Char → Bool
is_letter c = let n = code c in (leb 65 n && leb n 90) || (leb 97 n && leb n 122) || (n == 95)

abbrev pub is_name_char : Char → Bool
is_name_char c = let n = code c in is_letter c || (leb 48 n && leb n 57) || (n == 45)

-- The longest prefix of characters of a name.
abbrev pub name_prefix : String → String
name_prefix String.[] = String.[]
name_prefix (String.◌∷◌ c s) = if is_name_char c then String.◌∷◌ c (name_prefix s) else String.[]

abbrev pub name_at : String → Option String
name_at String.[] = none
name_at (String.◌∷◌ c s) = if is_letter c then some (String.◌∷◌ c (name_prefix s)) else none

-- `Bash(git*)` gives `Bash`; a rule without a name is given back.
unfoldable pub tool_name : String → String
tool_name rule = or_else (name_at (lstrip rule)) rule

-- `ro is None or ro is False`
abbrev pub may_mutate : String → Bool
may_mutate name = elim (is_read_only name) [ none ↦ true | some ro ↦ not ro ]

abbrev pub is_nil {ℓ} : {A : Type ℓ} → List A → Bool
is_nil [] = true
is_nil (x ∷ xs) = false

-- No tool is listed, which means all, or a listed one may change something.
unfoldable pub is_apply_capable : Hop → Bool
is_apply_capable hop =
    is_nil hop.include_tools
    || any (λ r. str_eq (tool_name r) "*") hop.allow
    || any (λ r. may_mutate (tool_name r)) (hop.include_tools ++ hop.allow)

pub data Disposition : Type 0 where
  accepted rejected scored : Disposition

pub data Mode : Type 0 where
  auto human refused : Mode

-- The first suite that bears the golden suite's name.
abbrev pub golden_of : Hop → Option Suite
golden_of hop = find (λ s. opt_eq (some s.name) hop.golden_suite) hop.evals

abbrev pub golden_gates : Hop → Bool
golden_gates hop = elim (golden_of hop) [ none ↦ false | some s ↦ or_else s.gates true ]

unfoldable pub decide_promotion : Hop → Disposition → Mode
decide_promotion hop accepted =
    if str_eq (or_else hop.promote "human") "auto"
    then (if not (golden_gates hop) then human else if is_apply_capable hop then human else auto)
    else human
decide_promotion hop rejected = refused
decide_promotion hop scored = refused

-- `allowed` of the decision.
abbrev pub is_allowed : Mode → Bool
is_allowed auto = true
is_allowed human = true
is_allowed refused = false

pub record CadencePolicy : Type 0 where
  pub min_runs_since_last : ℕ
  pub max_age_days : ℕ
  pub triggers : List String

-- A reason why a turn is due.
pub data Reason : Type 0 where
  run_floor : ℕ → Reason
  max_age : ℕ → Reason
  trigger : String → Reason

pub record CadenceVerdict : Type 0 where
  pub due : Bool
  pub reasons : List Reason
  pub runs_since_last : ℕ

-- Seconds in a day.
abbrev pub day : ℕ
day = 86400

abbrev pub run_reasons : CadencePolicy → ℕ → List Reason
run_reasons p runs = if leb p.min_runs_since_last runs then run_floor runs ∷ [] else []

abbrev pub age_reasons : CadencePolicy → ℕ → Option ℕ → List Reason
age_reasons p now none = []
age_reasons p now (some last) =
    if leb (last + p.max_age_days * day) now then max_age (now - last) ∷ [] else []

abbrev pub event_reasons : CadencePolicy → List String → List Reason
event_reasons p events = map trigger (filter (λ e. contains e p.triggers) events)

unfoldable pub decide_due : CadencePolicy → ℕ → Option ℕ → ℕ → List String → CadenceVerdict
decide_due p runs last_turn_at now events =
    let reasons =
      run_reasons p runs ++ (age_reasons p now last_turn_at ++ event_reasons p events) in
    record { due = not (is_nil reasons); reasons = reasons; runs_since_last = runs }
