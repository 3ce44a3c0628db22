-- ===== src/Graph/Nodes/Lookup.antt =====
-- One node to an identity: `find_node` and `upsert_node` of graph/drivers/postgres.py.
use mlpal_memory.Prelude.{
  ℕ, ◌+◌, ◌≤◌, ◌≡◌, refl, ap, true, some, inl, inr, List, [], ◌∷◌, ◌++◌, arith, eq_refl,
  opt_eq_refl, length, filter, update_first, Bool-cases,
}
use mlpal_memory.Scope.{scope_clause}
use mlpal_memory.Graph.{Node, Store}
use mlpal_memory.Graph.Nodes.{
  Identity, has_identity, one, find_node, NodeArgs, refresh_node, new_node, upsert_node,
}

has_identity-new_node :
    (i : Identity) (a : NodeArgs) (now id : ℕ) → has_identity i (new_node i a now id) ≡ true
unfolding has_identity new_node scope_clause
has_identity-new_node i a now id =
    ground
      (arith, opt_eq_refl i.tenant, opt_eq_refl i.scope.scope_id, eq_refl i.type, eq_refl i.key)

has_identity-refresh_node :
    (i j : Identity) (a : NodeArgs) (n : Node)
    → has_identity j (refresh_node a n) ≡ has_identity j n
unfolding has_identity refresh_node
has_identity-refresh_node i j a n = ground arith

-- The rows of the identity after a new row, and after a refresh of the one that is there.
rows_new :
    (i : Identity) (n : Node) (ns : List Node)
    → has_identity i n ≡ true
    → filter (has_identity i) ns ≡ []
    → filter (has_identity i) (ns ++ n ∷ []) ≡ n ∷ []
rows_new i n [] h e = ground arith
rows_new i n (m ∷ ns) h e = ground (arith, rows_new i n ns h)

rows_refreshed :
    (i : Identity) (a : NodeArgs) (n : Node) (ns : List Node)
    → filter (has_identity i) ns ≡ n ∷ []
    → filter (has_identity i) (update_first (has_identity i) (refresh_node a) ns)
      ≡ refresh_node a n ∷ []
rows_refreshed i a n [] h = cc
rows_refreshed i a n (m ∷ ns) h = elim (Bool-cases (has_identity i m)) [
  | inl y ↦ ground (arith, has_identity-refresh_node i i a m)
  | inr x ↦ ground (arith, rows_refreshed i a n ns)
]

-- Where at most one node has the identity, `upsert_node` does not raise; afterwards exactly one has it, and
-- `find_node` gives the node that was returned.
pub find_node-upsert_node :
    (i : Identity) (a : NodeArgs) (now : ℕ) (s : Store)
    → length (filter (has_identity i) s.nodes) ≤ 1
    → (out : Node × Store) × (upsert_node i a now s ≡ some out)
      × (find_node i out.1.nodes ≡ one out.0)
unfolding upsert_node
find_node-upsert_node i a now s h = go (filter (has_identity i) s.nodes) refl
  where
    go :
        (rows : List Node)
        → filter (has_identity i) s.nodes ≡ rows
        → (out : Node × Store) × (upsert_node i a now s ≡ some out)
          × (find_node i out.1.nodes ≡ one out.0)
    go [] e = (
      (
        new_node i a now s.next_id,
        record s { nodes = s.nodes ++ new_node i a now s.next_id ∷ []; next_id = s.next_id + 1 },
      ),
      rw (e, upsert_node),
      rw
          (rows_new i (new_node i a now s.next_id) s.nodes (has_identity-new_node i a now s.next_id)
            e)
          refl,
    )
    go (n ∷ []) e = (
      (
        refresh_node a n,
        record s { nodes = update_first (has_identity i) (refresh_node a) s.nodes },
      ),
      rw (e, upsert_node),
      rw (rows_refreshed i a n s.nodes e) refl,
    )
    go (n ∷ m ∷ rows) e = absurd (omega (arith, h, ap (length {A = Node}) e))
