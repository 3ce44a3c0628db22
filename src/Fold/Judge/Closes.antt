-- ===== src/Fold/Judge/Closes.antt =====
-- What the contradiction judge of pipeline/contradiction.py may do to the table of edges.
use mlpal_memory.Prelude.{
  ℕ, ◌+◌, ◌≤◌, ◌==◌, String, ◌≡◌, refl, ◌∙◌, Bool, true, Option, some, inl, inr, List, [], ◌∷◌,
  arith, leb, map, count, All, take, is_none, find, Bool-cases, Option-cases, if◌then◌else◌,
}
use mlpal_memory.Scope.{ScopeRef}
use mlpal_memory.Graph.{Edge, Store}
use mlpal_memory.Graph.Edges.{Slot, is_open, ends_here, close_at, truthy, invalidate_edge}
use mlpal_memory.Graph.Ledger.{Extends, Extends-refl, Extends-trans, Extends-invalidate_edge}
use mlpal_memory.Fold.Judge.{
  Hit, is_contradicted, slot_of, close_older, judge_hit, judge_hits, judge_and_invalidate,
}

-- A closed window does not end before it begins.
abbrev pub IsWindow : Edge → Type 0
IsWindow e = (t : ℕ) → e.invalid_at ≡ some t → e.valid_at ≤ t

-- A step that only closes edges, counts them, and leaves windows well formed.
pub record Closes (s : Store) (out : ℕ × Store) : Type 0 where
  pub extends : Extends s.edges out.1.edges
  pub counted : count is_open s.edges ≡ out.0 + count is_open out.1.edges
  pub windows : All IsWindow s.edges → All IsWindow out.1.edges
  pub nodes : out.1.nodes ≡ s.nodes

pub Closes-nothing : (s : Store) → Closes s (0, s)
Closes-nothing s = record {
  extends = Extends-refl s.edges;
  counted = omega arith;
  windows = λ h. h;
  nodes = refl;
}

end_row : Slot → ℕ → ℕ → ℕ → Edge → Edge
end_row q dst at now e = if ends_here q dst at e then close_at at now e else e

IsWindow-close_at :
    (q : Slot) (dst at now : ℕ) (e : Edge)
    → ends_here q dst at e ≡ true
    → IsWindow (close_at at now e)
IsWindow-close_at q dst at now e h t p = ground arith

pub Closes-invalidate_edge :
    (q : Slot) (dst at now : ℕ) (s : Store) → Closes s (invalidate_edge q dst at now s)
unfolding invalidate_edge
Closes-invalidate_edge q dst at now s = record {
  extends = Extends-invalidate_edge q dst at now s;
  counted = counted s.edges;
  windows = windows s.edges;
  nodes = refl;
}
  where
    counted :
        (es : List Edge)
        → count is_open es
          ≡ count (ends_here q dst at) es
            + count is_open (map (λ e. if ends_here q dst at e then close_at at now e else e) es)
    counted [] = refl
    counted (e ∷ es) = ground (arith, counted es)

    windows :
        (es : List Edge)
        → All IsWindow es
        → All IsWindow (map (λ e. if ends_here q dst at e then close_at at now e else e) es)
    windows [] h = tt
    windows (e ∷ es) h = elim (Bool-cases (ends_here q dst at e)) [
      | inl y ↦ rw y (IsWindow-close_at q dst at now e y, windows es h.1)
      | inr n ↦ rw n (h.0, windows es h.1)
    ]

pub Closes-both :
    (s : Store) (a b : ℕ × Store) → Closes s a → Closes a.1 b → Closes s (a.0 + b.0, b.1)
Closes-both s a b h k = record {
  extends = Extends-trans s.edges a.1.edges b.1.edges h.extends k.extends;
  counted = omega (arith, h.counted, k.counted);
  windows = λ w. k.windows (h.windows w);
  nodes = k.nodes ∙ h.nodes;
}

module _ (contradicts : String → String → Bool) (tenant : Option String) (scope : ScopeRef)
    (threshold : ℕ) where
  Closes-close_older :
      (cand new : Edge) (now : ℕ) (s : Store)
      → Closes s (close_older contradicts tenant scope threshold cand new now s)
  unfolding close_older
  Closes-close_older cand new now s = elim (Bool-cases (leb cand.valid_at new.valid_at)) [
    | inl y ↦ rw y (
        Closes-invalidate_edge (slot_of contradicts tenant scope threshold cand) cand.dst_id
          new.valid_at now s)
    | inr n ↦ rw n (
        Closes-invalidate_edge (slot_of contradicts tenant scope threshold new) new.dst_id
          cand.valid_at now s)
  ]

  Closes-judge_hit :
      (new_id now : ℕ) (hit : Hit) (s : Store)
      → Closes s (judge_hit contradicts tenant scope threshold new_id now hit s)
  unfolding judge_hit
  Closes-judge_hit new_id now hit s = elim (Option-cases (find (λ e. e.id == hit.id) s.edges)) [
    | inl absent ↦ rw (absent, judge_hit) (Closes-nothing s)
    | inr (cand, found) ↦ elim (Option-cases (find (λ e. e.id == new_id) s.edges)) [
      | inl absent ↦ rw (found, absent, judge_hit) (Closes-nothing s)
      | inr (new, there) ↦
          elim (Bool-cases
            (is_contradicted contradicts tenant scope threshold cand hit.score new)) [
              | inl y ↦ rw (found, there, y, judge_hit) (Closes-close_older cand new now s)
              | inr n ↦ rw (found, there, n, judge_hit) (Closes-nothing s)
            ]
    ]
  ]

  Closes-judge_hits :
      (new_id now : ℕ) (hits : List Hit) (s : Store)
      → Closes s (judge_hits contradicts tenant scope threshold new_id now hits s)
  unfolding judge_hits
  Closes-judge_hits new_id now [] s = Closes-nothing s
  Closes-judge_hits new_id now (hit ∷ hits) s =
      let a = judge_hit contradicts tenant scope threshold new_id now hit s in
      Closes-both s a (judge_hits contradicts tenant scope threshold new_id now hits a.1)
        (Closes-judge_hit new_id now hit s) (Closes-judge_hits new_id now hits a.1)

-- Whatever the judge and the search say, the contradiction pass only closes open edges: it keeps every row,
-- reports exactly as many as it closed, leaves closed windows well formed, and touches no node.
pub Closes-judge_and_invalidate :
    (contradicts : String → String → Bool) (tenant : Option String) (scope : ScopeRef)
    (threshold : ℕ) (search : Store → List Hit) (limit now : ℕ) (new : Edge) (s : Store)
    → Closes s (judge_and_invalidate contradicts tenant scope threshold search limit now new s)
unfolding judge_and_invalidate
Closes-judge_and_invalidate contradicts tenant scope threshold search limit now new s =
    elim (Bool-cases (truthy new.fact)) [
      | inr n ↦ rw n (Closes-nothing s)
      | inl y ↦ elim (Bool-cases (is_none new.fact_embedding)) [
        | inl absent ↦ rw (y, absent) (Closes-nothing s)
        | inr there ↦
            rw (y, there)
              (Closes-judge_hits contradicts tenant scope threshold new.id now
                (take limit (search s)) s)
      ]
    ]
