-- ===== src/Graph/Reads/Walks.antt =====
-- What a walk over edges may return: `neighbors` of graph/drivers/postgres.py.
use mlpal_memory.Prelude.{
  ℕ, zero, suc, ◌+◌, ◌-◌, ◌≤◌, String, ◌≡◌, Bool, true, ◌&&◌, ◌||◌, Option, inl, inr, List, [], ◌∷◌,
  ◌++◌, arith, ◌==◌, leb, any, length, length-append, All, All-append, All-filter, All-take,
  All-map_hyp, length-take-le, Bool-cases, if◌then◌else◌,
}
use mlpal_memory.Scope.{ScopeRef}
use mlpal_memory.Graph.{Edge}
use mlpal_memory.Graph.Reads.{
  AsOfMode, in_time, touches, collect, collect_all, next_frontier, confined, is_empty, hop_rows,
  walk, neighbors,
}

All-collect {κ} :
    (P : Edge → Type κ) (cs : List Edge) (e : Edge) → All P cs → P e → All P (collect cs e)
All-collect P cs e h p = elim (Bool-cases (any (λ c. c.id == e.id) cs)) [
  | inl y ↦ rw y h
  | inr n ↦ rw n (All-append P cs (e ∷ []) h (p, tt))
]

All-collect_all {κ} :
    (P : Edge → Type κ) (cs es : List Edge) → All P cs → All P es → All P (collect_all cs es)
All-collect_all P cs [] h k = h
All-collect_all P cs (e ∷ es) h k =
    All-collect_all P (collect cs e) es (All-collect P cs e h k.0) k.1

length-collect-le : (cs : List Edge) (e : Edge) → length (collect cs e) ≤ length cs + 1
length-collect-le cs e = ground (arith, length-append cs (e ∷ []))

length-collect_all-le : (cs es : List Edge) → length (collect_all cs es) ≤ length cs + length es
length-collect_all-le cs [] = omega arith
length-collect_all-le cs (e ∷ es) =
    omega (arith, length-collect_all-le (collect cs e) es, length-collect-le cs e)

module _ (tenant : Option String) (scopes : Option (List ScopeRef)) (as_of : Option ℕ)
    (mode : AsOfMode) (include_invalid : Bool) where
  -- An edge that a walk may return: of the caller's scopes, and seen at the read's time.
  abbrev pub IsReadable : Edge → Type 0
  IsReadable e = (confined tenant scopes e ≡ true) × (in_time as_of mode include_invalid e ≡ true)

  hop_rows-IsReadable :
      (room : ℕ) (frontier : List ℕ) (edges : List Edge)
      → All IsReadable (hop_rows tenant scopes as_of mode include_invalid room frontier edges)
  unfolding hop_rows
  hop_rows-IsReadable room frontier edges = All-take IsReadable room _ (
      All-map_hyp _ IsReadable _ (λ e h. (ground arith, ground arith))
        (All-filter
          (λ e.
            touches frontier e && confined tenant scopes e && in_time as_of mode include_invalid e)
          edges))

  length-hop_rows-le :
      (room : ℕ) (frontier : List ℕ) (edges : List Edge)
      → length (hop_rows tenant scopes as_of mode include_invalid room frontier edges) ≤ room
  unfolding hop_rows
  length-hop_rows-le room frontier edges = length-take-le room _

  module _ (max_edges : ℕ) (edges : List Edge) where
    walk_bounds :
        (rounds : ℕ) (frontier seen : List ℕ) (collected : List Edge)
        → All IsReadable collected
        → length collected ≤ max_edges
        → All IsReadable (
            walk tenant scopes as_of mode include_invalid max_edges edges rounds frontier seen
              collected)
          × (length (
                walk tenant scopes as_of mode include_invalid max_edges edges rounds frontier seen
                  collected)
              ≤ max_edges)
    unfolding walk
    walk_bounds zero frontier seen collected h b = (h, b)
    walk_bounds (suc rounds) frontier seen collected h b =
        let room = max_edges - length collected in
        let rows = hop_rows tenant scopes as_of mode include_invalid room frontier edges in
        let few = length-hop_rows-le room frontier edges in
        let rest =
          walk_bounds rounds (next_frontier (seen ++ frontier) rows []) (seen ++ frontier)
            (collect_all collected rows)
            (All-collect_all IsReadable collected rows h (hop_rows-IsReadable room frontier edges))
            (omega (arith, length-collect_all-le collected rows)) in
        elim (Bool-cases (is_empty frontier || leb max_edges (length collected))) [
          | inl y ↦ rw y (h, b)
          | inr n ↦ rw n rest
        ]

-- Whatever the depth, a walk returns at most `max_edges` edges, and each of them lies within the scopes
-- that the caller gave and is seen at the time of the read.
pub neighbors_bounds :
    (tenant : Option String) (scopes : Option (List ScopeRef)) (as_of : Option ℕ) (mode : AsOfMode)
    (include_invalid : Bool) (max_edges : ℕ) (edges : List Edge) (node depth : ℕ)
    → All
        (IsReadable tenant scopes as_of mode include_invalid)
        (neighbors tenant scopes as_of mode include_invalid max_edges edges node depth)
      × (length (neighbors tenant scopes as_of mode include_invalid max_edges edges node depth)
          ≤ max_edges)
unfolding neighbors
neighbors_bounds tenant scopes as_of mode include_invalid max_edges edges node depth =
    walk_bounds tenant scopes as_of mode include_invalid max_edges edges
      (if leb depth 1 then 1 else depth) (node ∷ []) [] [] tt (omega arith)
