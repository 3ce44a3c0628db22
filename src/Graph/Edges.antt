-- ===== src/Graph/Edges.antt =====
-- The writes of graph/drivers/postgres.py to the table of edges. A query that takes rows and a loop
-- that writes to them are one pass over the table, in the table's order; a clock reading is the
-- argument `now`. A text that is empty counts as absent where the program tests it for truth.
pub mod Rows
use mlpal_memory.Prelude.{
  ℕ, ◌+◌, String, Bool, true, false, ◌&&◌, not, Option, none, some, List, [], ◌∷◌, ◌++◌, map, ◌==◌,
  leb, str_eq, is_none, or_else, find, count, update_first, if◌then◌else◌,
}
use mlpal_memory.Json.{Props, merge}
use mlpal_memory.Scope.{ScopeRef, scope_clause, classification_for}
use mlpal_memory.Temporal.{windows_overlap}
use mlpal_memory.Graph.{Edge, Store, Status, Embedding}

-- The rows of one tenant, scope, relation type and source node.
pub record Slot : Type 0 where
  pub tenant : Option String
  pub scope : ScopeRef
  pub type : String
  pub src_id : ℕ

unfoldable pub in_slot : Slot → Edge → Bool
in_slot q e = scope_clause q.tenant q.scope e.owner && str_eq e.type q.type && e.src_id == q.src_id

abbrev pub is_open : Edge → Bool
is_open e = is_none e.invalid_at

-- The open rows with the given destination too.
abbrev pub matches_edge : Slot → ℕ → Edge → Bool
matches_edge q dst e = in_slot q e && e.dst_id == dst && is_open e

-- The keyword arguments of `upsert_edge` that fill columns; `model` and `dim` name the embedder.
pub record EdgeArgs : Type 0 where
  pub fact : Option String
  pub props : Props
  pub valid_at : Option ℕ
  pub source : Option String
  pub fact_embedding : Option Embedding
  pub embedding_model : Option String
  pub embedding_dim : Option ℕ

-- `if fact:`
abbrev pub truthy : Option String → Bool
truthy none = false
truthy (some t) = not (str_eq t "")

abbrev pub set_embedding : EdgeArgs → Edge → Edge
set_embedding a e = elim a.fact_embedding [
  | none ↦ e
  | some v ↦ record e {
    fact_embedding = some v;
    embedding_model = a.embedding_model;
    embedding_dim = a.embedding_dim;
  }
]

-- A row that is there already takes the new fact, props and embedding; its window stays. (Merging
-- empty props changes nothing, so the test `if props:` needs no branch.)
unfoldable pub refresh_edge : EdgeArgs → Edge → Edge
refresh_edge a e =
    set_embedding a
      (record e { fact = if truthy a.fact then a.fact else e.fact; props = merge e.props a.props })

abbrev pub when_embedded {ℓ} : {A : Type ℓ} → Option Embedding → Option A → Option A
when_embedded none x = none
when_embedded (some v) x = x

unfoldable pub new_edge : Slot → ℕ → EdgeArgs → ℕ → ℕ → Edge
new_edge q dst a now id = record {
  id = id;
  owner = record { org_id = q.tenant; scope = q.scope.scope; scope_id = q.scope.scope_id };
  type = q.type;
  src_id = q.src_id;
  dst_id = dst;
  fact = a.fact;
  classification = classification_for q.scope;
  source = a.source;
  derived_from = [];
  fact_embedding = a.fact_embedding;
  embedding_model = when_embedded a.fact_embedding a.embedding_model;
  embedding_dim = when_embedded a.fact_embedding a.embedding_dim;
  props = a.props;
  valid_at = or_else a.valid_at now;
  invalid_at = none;
  ingested_at = now;
  expired_at = none;
  workspace = none;
  status = Status.committed;
  expires_at = none;
}

-- `upsert_edge`: the row that stands for the fact, and the table.
unfoldable pub upsert_edge : Slot → ℕ → EdgeArgs → ℕ → Store → Edge × Store
upsert_edge q dst a now s = elim (find (matches_edge q dst) s.edges) [
  | some e ↦ (
    refresh_edge a e,
    record s { edges = update_first (matches_edge q dst) (refresh_edge a) s.edges },
  )
  | none ↦
      let e = new_edge q dst a now s.next_id in
      (e, record s { edges = s.edges ++ e ∷ []; next_id = s.next_id + 1 })
]

-- The rows that `invalidate_superseded` looks at: `Edge.id != new_edge.id` among the open ones.
abbrev pub is_rival : Slot → Edge → Edge → Bool
is_rival q new e = in_slot q e && not (e.id == new.id) && is_open e

-- What the loop does at one row: the row, the new edge, and how many edges were bounded.
pub record Visit : Type 0 where
  pub row : Edge
  pub new : Edge
  pub n : ℕ

-- The same of the whole table.
pub record Superseded : Type 0 where
  pub rows : List Edge
  pub new : Edge
  pub n : ℕ

-- A window's end is set to `at`, the belief's end to `now` unless it is set.
abbrev pub close_at : ℕ → ℕ → Edge → Edge
close_at at now e = record e { invalid_at = some at; expired_at = some (or_else e.expired_at now) }

-- The body of the loop on one rival; `new` has the window as it was before the loop, `cur` the
-- writes made so far.
unfoldable pub supersede_row : Edge → ℕ → Edge → Edge → Visit
supersede_row new now old cur =
    if old.dst_id == new.dst_id
    then record { row = old; new = cur; n = 0 }
    else if not (windows_overlap old.valid_at old.invalid_at new.valid_at new.invalid_at)
    then record { row = old; new = cur; n = 0 }
    else if leb old.valid_at new.valid_at
    then record { row = close_at new.valid_at now old; new = cur; n = 1 }
    else record { row = old; new = close_at old.valid_at now cur; n = 1 }

-- The rows that the query leaves out are passed over.
unfoldable pub visit : Slot → Edge → ℕ → Edge → Edge → Visit
unfolding supersede_row
visit q new now e cur =
    if is_rival q new e then supersede_row new now e cur else record { row = e; new = cur; n = 0 }

unfoldable pub supersede : Slot → Edge → ℕ → Edge → List Edge → Superseded
supersede q new now cur [] = record { rows = []; new = cur; n = 0 }
supersede q new now cur (e ∷ es) =
    let here = visit q new now e cur in
    let rest = supersede q new now here.new es in
    record { rows = here.row ∷ rest.rows; new = rest.new; n = here.n + rest.n }

-- The row object of `new_edge` is in the table too: its writes land there.
abbrev pub write_back : Edge → List Edge → List Edge
write_back new = map (λ e. if e.id == new.id then new else e)

unfoldable pub invalidate_superseded : Slot → Edge → ℕ → Store → ℕ × Store
invalidate_superseded q new now s =
    let out = supersede q new now new s.edges in
    (out.n, record s { edges = write_back out.new out.rows })

-- `invalidate_edge`: ends the open relation at `at`, unless it began later.
abbrev pub ends_here : Slot → ℕ → ℕ → Edge → Bool
ends_here q dst at e = matches_edge q dst e && leb e.valid_at at

unfoldable pub invalidate_edge : Slot → ℕ → ℕ → ℕ → Store → ℕ × Store
invalidate_edge q dst at now s = (
  count (ends_here q dst at) s.edges,
  record s { edges = map (λ e. if ends_here q dst at e then close_at at now e else e) s.edges },
)

-- A functional edge as the fold writes it: upsert, then invalidate what it supersedes.
unfoldable pub observe : Slot → ℕ → EdgeArgs → ℕ → Store → Store
observe q dst a now s =
    let (e, s') = upsert_edge q dst a now s in (invalidate_superseded q e now s').1
