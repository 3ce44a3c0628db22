-- ===== src/Graph/Register.antt =====
-- A functional relation (HAS_STATUS, HAS_VALUE) as a register: `observe` of Graph/Edges.antt, which is
-- `upsert_edge` and `invalidate_superseded` of graph/drivers/postgres.py as pipeline/updater.py calls
-- them, against a register that holds one fact and the time since which it holds.
pub mod Settled
pub mod Assigns
pub mod History
use mlpal_memory.Prelude.{ℕ, Option, none, some, List, [], ◌∷◌, ◌==◌, leb, or_else, if◌then◌else◌}
use mlpal_memory.Graph.{Edge, Store}
use mlpal_memory.Graph.Edges.{Slot, EdgeArgs, observe}
use mlpal_memory.Graph.Edges.Rows.{open_rows}

-- A destination and the instant since which it is the current one.
abbrev pub Register : Type 0
Register = Option (ℕ × ℕ)

abbrev pub first_fact : List Edge → Register
first_fact [] = none
first_fact (e ∷ es) = some (e.dst_id, e.valid_at)

-- What the table shows of the slot: its first open row.
abbrev pub current : Slot → Store → Register
current q s = first_fact (open_rows q s.edges)

-- The same destination changes nothing; another one replaces the fact unless it is older.
pub assign : Register → ℕ → ℕ → Register
assign none dst t = some (dst, t)
assign (some (d, since)) dst t =
    if d == dst then some (d, since) else if leb since t then some (dst, t) else some (d, since)

-- One sighting of a fact: its destination, the columns, and the clock.
pub record Sighting : Type 0 where
  pub dst_id : ℕ
  pub args : EdgeArgs
  pub now : ℕ

abbrev pub time_of : Sighting → ℕ
time_of o = or_else o.args.valid_at o.now

abbrev pub observe_all : Slot → Store → List Sighting → Store
observe_all q s [] = s
observe_all q s (o ∷ os) = observe_all q (observe q o.dst_id o.args o.now s) os

abbrev pub assign_all : Register → List Sighting → Register
assign_all r [] = r
assign_all r (o ∷ os) = assign_all (assign r o.dst_id (time_of o)) os
