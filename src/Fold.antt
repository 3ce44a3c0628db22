-- ===== src/Fold.antt =====
-- The incremental fold of pipeline/updater.py: an episode, what is extracted from it, and the scope that
-- owns it. db/models/episode.py, and the specs of pipeline/extractor.py.
pub mod Stamp
pub mod Values
pub mod Judge
pub mod Entities
pub mod Relations
pub mod Process
pub mod Extractor
pub mod Gate
use mlpal_memory.Prelude.{
  ℕ, String, Bool, true, false, Option, none, some, List, [], or_else, str_eq, if◌then◌else◌,
}
use mlpal_memory.Json.{Props}
use mlpal_memory.Scope.{Scope, ScopeRef, global_ref}

-- `actor`, as far as the fold reads it.
pub record Actor : Type 0 where
  pub user_id : Option String
  pub agent_id : Option String
  pub team_id : Option String

-- One captured interaction. A scope that the enum does not have raises before the fold.
pub record Episode : Type 0 where
  pub event_id : String
  pub occurred_at : ℕ
  pub org_id : Option String
  pub scope : Option Scope
  pub scope_id : Option String
  pub workspace : Option String
  pub lifecycle : Option String
  pub actor : Actor
  pub source : String
  pub action_type : String
  pub subject : Props
  pub payload : Props
  pub content : Option String
  pub source_ref : Option String
  pub processed : Bool
  pub processed_at : Option ℕ
  pub tier : Option String
  pub dropped_reason : Option String
  pub error : Option String
  pub error_count : ℕ
  pub dead_at : Option ℕ

-- `a or b`
abbrev or_filled : Option String → Option String → Option String
or_filled none b = b
or_filled (some a) b = if str_eq a "" then b else some a

-- `ScopeRef(scope, scope_id)` for a scope that is not the global one: without an id it raises.
abbrev scope_ref : Scope → Option String → Option ScopeRef
scope_ref s none = none
scope_ref s (some i) = if str_eq i "" then none else some (record { scope = s; scope_id = some i })

-- `_episode_scope`: the org is the default scope, and the tenant the default id; `none` is the ValueError.
unfoldable pub episode_scope : Episode → Option ScopeRef
episode_scope ep = elim (or_else ep.scope Scope.org) [
  | Scope.global ↦ some global_ref
  | s ↦ scope_ref s (or_filled ep.scope_id ep.org_id)
]

-- `(episode.lifecycle or "committed") == "working"`
unfoldable pub is_working : Episode → Bool
is_working ep = str_eq (or_else ep.lifecycle "committed") "working"

pub record EntitySpec : Type 0 where
  pub type : String
  pub key : String
  pub name : String
  pub props : Props

pub record EdgeSpec : Type 0 where
  pub type : String
  pub src_type : String
  pub src_key : String
  pub dst_type : String
  pub dst_key : String
  pub fact : Option String
  pub functional : Bool
  pub props : Props

pub record Extraction : Type 0 where
  pub entities : List EntitySpec
  pub edges : List EdgeSpec
  pub invalidations : List EdgeSpec
