-- ===== src/Temporal/Windows.antt =====
-- `windows_overlap` of core/temporal.py against the instants of its two windows.
use mlpal_memory.Prelude.{ℕ, ◌<◌, max, ◌≡◌, ◌↔◌, true, Option, none, some, arith}
use mlpal_memory.Temporal.{windows_overlap, covers}

-- A window that holds an instant.
abbrev pub Nonempty : ℕ → Option ℕ → Type 0
Nonempty v none = Unit
Nonempty v (some e) = v < e

covers_both :
    (a : ℕ) (ai : Option ℕ) (b : ℕ) (bi : Option ℕ)
    → Nonempty a ai
    → Nonempty b bi
    → windows_overlap a ai b bi ≡ true
    → (covers a ai (max a b) ≡ true) × (covers b bi (max a b) ≡ true)
unfolding windows_overlap covers
covers_both a none b none ha hb h = ground arith
covers_both a none b (some y) ha hb h = ground arith
covers_both a (some x) b none ha hb h = ground arith
covers_both a (some x) b (some y) ha hb h = ground arith

overlap_of_common :
    (a : ℕ) (ai : Option ℕ) (b : ℕ) (bi : Option ℕ) (t : ℕ)
    → covers a ai t ≡ true
    → covers b bi t ≡ true
    → windows_overlap a ai b bi ≡ true
unfolding windows_overlap covers
overlap_of_common a ai b bi t p q = ground arith

-- Two nonempty half-open windows overlap exactly when some instant lies in both; touching windows do
-- not overlap.
pub windows_overlap_iff :
    (a : ℕ) (ai : Option ℕ) (b : ℕ) (bi : Option ℕ)
    → Nonempty a ai
    → Nonempty b bi
    → (windows_overlap a ai b bi ≡ true)
      ↔ ((t : ℕ) × (covers a ai t ≡ true) × (covers b bi t ≡ true))
windows_overlap_iff a ai b bi ha hb = (
  λ h. let both = covers_both a ai b bi ha hb h in (max a b, both.0, both.1),
  λ w. overlap_of_common a ai b bi w.0 w.1 w.2,
)

pub windows_overlap_comm :
    (a : ℕ) (ai : Option ℕ) (b : ℕ) (bi : Option ℕ)
    → windows_overlap a ai b bi ≡ windows_overlap b bi a ai
unfolding windows_overlap
windows_overlap_comm a ai b bi = ground arith
