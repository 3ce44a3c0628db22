-- ===== src/Fold/Judge.antt =====
-- pipeline/contradiction.py, `judge_and_invalidate`: an edge that the judge says contradicts the new one
-- closes, or closes it. The judge is a parameter, and so is the ranking of the search. A row object is read
-- from the table by its id, so a later candidate sees what an earlier one closed.
pub mod Closes
use mlpal_memory.Prelude.{
  ℕ, ◌+◌, ◌==◌, String, Bool, true, false, ◌&&◌, not, Option, none, some, List, [], ◌∷◌, leb, any,
  str_eq, or_else, find, take, is_none, if◌then◌else◌,
}
use mlpal_memory.Scope.{ScopeRef}
use mlpal_memory.Temporal.{windows_overlap}
use mlpal_memory.Graph.{Edge, Store}
use mlpal_memory.Graph.Edges.{Slot, truthy, invalidate_edge}

-- A hit of `search_fact_edges`: the id of the row and its score.
pub record Hit : Type 0 where
  pub id : ℕ
  pub score : ℕ

module _ (contradicts : String → String → Bool) (tenant : Option String) (scope : ScopeRef)
    (similarity_threshold : ℕ) where
  -- The guards of the loop, in their order.
  unfoldable pub is_contradicted : Edge → ℕ → Edge → Bool
  is_contradicted cand score new =
      not (cand.id == new.id)
      && leb similarity_threshold score
      && cand.src_id == new.src_id
      && str_eq cand.type new.type
      && not (cand.dst_id == new.dst_id)
      && windows_overlap cand.valid_at cand.invalid_at new.valid_at new.invalid_at
      && contradicts (or_else cand.fact "") (or_else new.fact "")

  abbrev pub slot_of : Edge → Slot
  slot_of e = record { tenant = tenant; scope = scope; type = e.type; src_id = e.src_id }

  -- The older edge closes when the newer begins.
  unfoldable pub close_older : Edge → Edge → ℕ → Store → ℕ × Store
  close_older cand new now s =
      if leb cand.valid_at new.valid_at
      then invalidate_edge (slot_of cand) cand.dst_id new.valid_at now s
      else invalidate_edge (slot_of new) new.dst_id cand.valid_at now s

  abbrev pub row : ℕ → Store → Option Edge
  row i s = find (λ e. e.id == i) s.edges

  -- The body of the loop.
  unfoldable pub judge_hit : ℕ → ℕ → Hit → Store → ℕ × Store
  judge_hit new_id now hit s = elim (row hit.id s) [
    | none ↦ (0, s)
    | some cand ↦ elim (row new_id s) [
      | none ↦ (0, s)
      | some new ↦ if is_contradicted cand hit.score new then close_older cand new now s else (0, s)
    ]
  ]

  unfoldable pub judge_hits : ℕ → ℕ → List Hit → Store → ℕ × Store
  judge_hits new_id now [] s = (0, s)
  judge_hits new_id now (hit ∷ hits) s =
      let (n, s') = judge_hit new_id now hit s in
      let (m, s'') = judge_hits new_id now hits s' in (n + m, s'')

  -- `search_fact_edges` gives at most `limit` hits.
  unfoldable pub judge_and_invalidate : (Store → List Hit) → ℕ → ℕ → Edge → Store → ℕ × Store
  judge_and_invalidate search limit now new s =
      if not (truthy new.fact)
      then (0, s)
      else if is_none new.fact_embedding
      then (0, s)
      else judge_hits new.id now (take limit (search s)) s

-- A judge is made only where the extractor's mode has one. Without it the call on the first candidate that
-- passes the other guards raises, which is `none`; nothing was closed before.
module _ (tenant : Option String) (scope : ScopeRef) (similarity_threshold : ℕ) where
  abbrev meets_judge : ℕ → Store → Hit → Bool
  meets_judge new_id s hit = elim (find (λ e. e.id == hit.id) s.edges) [
    | none ↦ false
    | some cand ↦ elim (find (λ e. e.id == new_id) s.edges) [
      | none ↦ false
      | some new ↦
          is_contradicted (λ a b. true) tenant scope similarity_threshold cand hit.score new
    ]
  ]

  abbrev asks_judge : (Store → List Hit) → ℕ → Edge → Store → Bool
  asks_judge search limit new s =
      truthy new.fact
      && not (is_none new.fact_embedding)
      && any (meets_judge new.id s) (take limit (search s))

  unfoldable pub judge_with :
      Option (String → String → Bool)
      → (Store → List Hit)
      → ℕ
      → ℕ
      → Edge
      → Store
      → Option (ℕ × Store)
  judge_with none search limit now new s =
      if asks_judge search limit new s then none else some (0, s)
  judge_with (some contradicts) search limit now new s =
      some
        (judge_and_invalidate contradicts tenant scope similarity_threshold search limit now new s)
