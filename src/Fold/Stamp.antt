-- ===== src/Fold/Stamp.antt =====
-- `_stamp` of `Updater.process_episode`: provenance, the count of observations, and the lifecycle of a
-- memory, working or committed. The property `last_observed_at` keeps the instant as a number.
pub mod Lifecycle
use mlpal_memory.Prelude.{
  ℕ, ◌+◌, ◌*◌, String, Bool, true, false, Option, none, some, List, [], ◌∷◌, ◌++◌, contains, ◌==◌,
  is_none, not, ◌&&◌, if◌then◌else◌,
}
use mlpal_memory.Json.{Json, put}
use mlpal_memory.Graph.{Node, Edge, Status}
use mlpal_memory.Fold.{Episode, is_working}

abbrev pub is_nil {ℓ} : {A : Type ℓ} → List A → Bool
is_nil [] = true
is_nil (x ∷ xs) = false

abbrev pub add_ref : String → List String → List String
add_ref event refs = if contains event refs then refs else refs ++ event ∷ []

abbrev pub or_some : Option String → Option String → Option String
or_some none d = d
or_some (some a) d = some a

abbrev pub working_status : Status → Bool
working_status Status.working = true
working_status _ = false

-- `occurred_at + timedelta(days=working_ttl_days)`, the ttl in the instant's unit.
unfoldable pub working_expiry : ℕ → Episode → Option ℕ
working_expiry ttl ep = if is_working ep then some (ep.occurred_at + ttl) else none

-- `(observed_count or 1) + 1`
abbrev pub bump : ℕ → ℕ
bump n = (if n == 0 then 1 else n) + 1

unfoldable pub stamp_node : ℕ → Episode → Node → Node
stamp_node ttl ep n =
    let seen : Node = record n {
      derived_from = add_ref ep.event_id n.derived_from;
      workspace = or_some n.workspace ep.workspace;
      props = put "last_observed_at" (Json.num ep.occurred_at) n.props;
    } in
    if is_nil n.derived_from
    then if is_working ep
      then record seen { status = Status.working; expires_at = working_expiry ttl ep }
      else seen
    else if not (is_working ep) && working_status n.status
    then record seen {
      observed_count = bump n.observed_count;
      status = Status.committed;
      expires_at = none;
    }
    else record seen { observed_count = bump n.observed_count }

-- An edge has no `observed_count`.
unfoldable pub stamp_edge : ℕ → Episode → Edge → Edge
stamp_edge ttl ep e =
    let seen : Edge = record e {
      derived_from = add_ref ep.event_id e.derived_from;
      workspace = or_some e.workspace ep.workspace;
    } in
    if is_nil e.derived_from
    then if is_working ep
      then record seen { status = Status.working; expires_at = working_expiry ttl ep }
      else seen
    else if not (is_working ep) && working_status e.status
    then record seen { status = Status.committed; expires_at = none }
    else seen

abbrev pub stamp_all : ℕ → Node → List Episode → Node
stamp_all ttl n [] = n
stamp_all ttl n (ep ∷ eps) = stamp_all ttl (stamp_node ttl ep n) eps
