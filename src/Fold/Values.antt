-- ===== src/Fold/Values.antt =====
-- Hygiene of the current view in `Updater.process_episode`: a value node whose HAS_VALUE edges are all
-- closed is superseded, and one that is observed again is served again.
use mlpal_memory.Prelude.{
  ℕ, ◌==◌, ◌≡◌, Bool, true, false, ◌&&◌, ◌||◌, not, List, [], ◌∷◌, arith, map, any, All, is_none,
  str_eq, if◌then◌else◌,
}
use mlpal_memory.Graph.{Node, Edge, Status, Store}

abbrev pub superseded_status : Status → Bool
superseded_status Status.superseded = true
superseded_status _ = false

abbrev is_value_edge : ℕ → Edge → Bool
is_value_edge src e = e.src_id == src && str_eq e.type "HAS_VALUE"

-- `_N.id.in_(open_dsts)`
unfoldable pub in_open_dsts : ℕ → List Edge → ℕ → Bool
in_open_dsts src es i = any (λ e. is_value_edge src e && is_none e.invalid_at && e.dst_id == i) es

-- `_N.id.in_(closed_dsts)`
unfoldable pub in_closed_dsts : ℕ → List Edge → ℕ → Bool
in_closed_dsts src es i =
    any (λ e. is_value_edge src e && not (is_none e.invalid_at) && e.dst_id == i) es

-- The first UPDATE.
unfoldable pub supersede_value : ℕ → List Edge → Node → Node
supersede_value src es n =
    if in_closed_dsts src es n.id
      && not (in_open_dsts src es n.id)
      && not (superseded_status n.status)
    then record n { status = Status.superseded }
    else n

-- The second UPDATE.
unfoldable pub restore_value : ℕ → List Edge → Node → Node
restore_value src es n =
    if in_open_dsts src es n.id && superseded_status n.status
    then record n { status = Status.committed }
    else n

unfoldable pub refresh_values : ℕ → Store → Store
refresh_values src s = record s {
  nodes = map (restore_value src s.edges) (map (supersede_value src s.edges) s.nodes);
}

-- The node is the object of a value edge of the anchor, open or closed.
abbrev pub is_value_of : ℕ → List Edge → ℕ → Bool
is_value_of src es i = any (λ e. e.src_id == src && str_eq e.type "HAS_VALUE" && e.dst_id == i) es

open_or_closed :
    (src : ℕ) (es : List Edge) (i : ℕ)
    → is_value_of src es i ≡ true
    → (in_open_dsts src es i || in_closed_dsts src es i) ≡ true
unfolding in_open_dsts in_closed_dsts
open_or_closed src [] i h = h
open_or_closed src (e ∷ es) i h = ground (arith, open_or_closed src es i)

refreshed :
    (src : ℕ) (es : List Edge) (n : Node)
    → is_value_of src es (restore_value src es (supersede_value src es n)).id ≡ true
    → superseded_status (restore_value src es (supersede_value src es n)).status
      ≡ not (in_open_dsts src es (restore_value src es (supersede_value src es n)).id)
unfolding supersede_value restore_value
refreshed src es n = ground (arith, open_or_closed src es n.id)

-- After the hygiene, a node that any value edge of the anchor leads to is superseded exactly when no open
-- one does, whatever its status was.
pub refresh_values-served :
    (src : ℕ) (s : Store)
    → All
        (λ n.
          is_value_of src s.edges n.id ≡ true
          → superseded_status n.status ≡ not (in_open_dsts src s.edges n.id))
        (refresh_values src s).nodes
unfolding refresh_values
refresh_values-served src s = go s.nodes
  where
    go :
        (ns : List Node)
        → All
            (λ n.
              is_value_of src s.edges n.id ≡ true
              → superseded_status n.status ≡ not (in_open_dsts src s.edges n.id))
            (map (restore_value src s.edges) (map (supersede_value src s.edges) ns))
    go [] = tt
    go (n ∷ ns) = (refreshed src s.edges n, go ns)
