-- ===== src/Temporal.antt =====
-- core/temporal.py: half-open validity windows [valid_at, invalid_at), `none` for an open end. An
-- instant is a number of time units; `_utc` and `_as_utc` only give a naive datetime the zone UTC.
pub mod Windows
use mlpal_memory.Prelude.{ℕ, Bool, true, false, ◌&&◌, Option, none, some, leb, ltb, if◌then◌else◌}

-- `end is not None and end <= t`
abbrev pub ended_by : Option ℕ → ℕ → Bool
ended_by none t = false
ended_by (some e) t = leb e t

-- `end is None or end > t`, the shape of the SQL clauses on `invalid_at` and `expires_at`.
abbrev pub open_at : Option ℕ → ℕ → Bool
open_at none t = true
open_at (some e) t = ltb t e

unfoldable pub windows_overlap : ℕ → Option ℕ → ℕ → Option ℕ → Bool
windows_overlap a_valid a_invalid b_valid b_invalid =
    if ended_by a_invalid b_valid then false else if ended_by b_invalid a_valid then false else true

-- The instant lies in the window: the `valid` mode of `_as_of_clause`.
unfoldable pub covers : ℕ → Option ℕ → ℕ → Bool
covers valid_at invalid_at t = leb valid_at t && open_at invalid_at t
