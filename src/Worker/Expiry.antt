-- ===== src/Worker/Expiry.antt =====
-- What the closing of expired memories leaves: `_close_expired_committed` of services/worker.py.
use mlpal_memory.Prelude.{
  ℕ, ◌<◌, ◌≡◌, refl, ap, subst, ◌∙◌, sym, Bool, true, false, none, some, inl, inr, List, [], ◌∷◌,
  arith, All, map, is_some, Bool-cases, Option-cases,
}
use mlpal_memory.Temporal.{covers}
use mlpal_memory.Graph.{Node, Edge, Store}
use mlpal_memory.Graph.Edges.{is_open}
use mlpal_memory.Worker.{due_since, touches, close_of, close_edge, close_expired_committed}

-- The node is not due, or it expired after the instant.
abbrev pub IsLiveAt : ℕ → ℕ → Node → Type 0
IsLiveAt now t n = (d : ℕ) → due_since now n ≡ some d → t < d

covers-close_of :
    (i at now t : ℕ) (e : Edge)
    → t < at
    → covers (close_of i at now e).valid_at (close_of i at now e).invalid_at t
      ≡ covers e.valid_at e.invalid_at t
unfolding close_of covers
covers-close_of i at now t e h = ground arith

covers-close_edge :
    (now t : ℕ) (ns : List Node) (e : Edge)
    → All (IsLiveAt now t) ns
    → covers (close_edge now ns e).valid_at (close_edge now ns e).invalid_at t
      ≡ covers e.valid_at e.invalid_at t
unfolding close_edge
covers-close_edge now t [] e h = refl
covers-close_edge now t (n ∷ ns) e h = elim (Option-cases (due_since now n)) [
  | inl live ↦ rw (live, close_edge) (covers-close_edge now t ns e h.1)
  | inr (d, due) ↦
      rw (due, close_edge)
        (covers-close_edge now t ns (close_of n.id d now e) h.1
          ∙ covers-close_of n.id d now t e (h.0 d due))
]

-- Once closed, an edge is left as it is.
closed_stays : (now : ℕ) (ns : List Node) (e : Edge) → is_open e ≡ false → close_edge now ns e ≡ e
unfolding close_edge close_of
closed_stays now [] e h = refl
closed_stays now (n ∷ ns) e h = elim (Option-cases (due_since now n)) [
  | inl live ↦ rw (live, close_edge) (closed_stays now ns e h)
  | inr (d, due) ↦ elim (Bool-cases (touches n.id e)) [
    | inl y ↦ rw (due, close_edge, y, h) (closed_stays now ns e h)
    | inr m ↦ rw (due, close_edge, m) (closed_stays now ns e h)
  ]
]

touches-close_of : (i j at now : ℕ) (e : Edge) → touches j (close_of i at now e) ≡ touches j e
unfolding close_of
touches-close_of i j at now e = ground arith

touches-close_edge :
    (now j : ℕ) (ns : List Node) (e : Edge) → touches j (close_edge now ns e) ≡ touches j e
unfolding close_edge
touches-close_edge now j [] e = refl
touches-close_edge now j (n ∷ ns) e = elim (Option-cases (due_since now n)) [
  | inl live ↦ rw (live, close_edge) (touches-close_edge now j ns e)
  | inr (d, due) ↦
      rw (due, close_edge)
        (touches-close_edge now j ns (close_of n.id d now e) ∙ touches-close_of n.id j d now e)
]

open-close_of :
    (i at now : ℕ) (e : Edge) → touches i e ≡ true → is_open (close_of i at now e) ≡ false
unfolding close_of
open-close_of i at now e h = ground arith

-- If the node is due, the edge is none that touches it and is open.
abbrev pub EndsWith : ℕ → Edge → Node → Type 0
EndsWith now e n = is_some (due_since now n) ≡ true → touches n.id e ≡ true → is_open e ≡ false

ends_head :
    (now : ℕ) (n : Node) (ns : List Node) (e : Edge) → EndsWith now (close_edge now (n ∷ ns) e) n
unfolding close_edge
ends_head now n ns e due touched = elim (Option-cases (due_since now n)) [
  | inl live ↦ absurd (ground (arith, due, live))
  | inr (d, since) ↦
      let shut =
        open-close_of n.id d now e (sym (touches-close_edge now n.id (n ∷ ns) e) ∙ touched) in
      rw (since, close_edge) (ap is_open (closed_stays now ns (close_of n.id d now e) shut) ∙ shut)
]

step_live :
    (now : ℕ) (n : Node) (ns : List Node) (e : Edge)
    → due_since now n ≡ none
    → close_edge now ns e ≡ close_edge now (n ∷ ns) e
unfolding close_edge
step_live now n ns e live = rw (live, close_edge) refl

step_due :
    (now d : ℕ) (n : Node) (ns : List Node) (e : Edge)
    → due_since now n ≡ some d
    → close_edge now ns (close_of n.id d now e) ≡ close_edge now (n ∷ ns) e
unfolding close_edge
step_due now d n ns e since = rw (since, close_edge) refl

EndsWith-close_edge :
    (now : ℕ) (ns : List Node) (e : Edge) → All (EndsWith now (close_edge now ns e)) ns
EndsWith-close_edge now [] e = tt
EndsWith-close_edge now (n ∷ ns) e = (
  ends_head now n ns e,
  elim (Option-cases (due_since now n)) [
    | inl live ↦
        subst (λ x. All (EndsWith now x) ns) (step_live now n ns e live)
          (EndsWith-close_edge now ns e)
    | inr (d, since) ↦
        subst (λ x. All (EndsWith now x) ns) (step_due now d n ns e since)
          (EndsWith-close_edge now ns (close_of n.id d now e))
  ],
)

-- After the pass no open edge touches a node that was due.
pub close_expired_committed-EndsWith :
    (now : ℕ) (s : Store)
    → All (λ e. All (EndsWith now e) s.nodes) (close_expired_committed now s).edges
unfolding close_expired_committed
close_expired_committed-EndsWith now s = go s.edges
  where
    go :
        (es : List Edge) → All (λ e. All (EndsWith now e) s.nodes) (map (close_edge now s.nodes) es)
    go [] = tt
    go (e ∷ es) = (EndsWith-close_edge now s.nodes e, go es)

-- Which edges hold at an instant.
abbrev pub held_at : ℕ → List Edge → List Bool
held_at t es = map (λ e. covers e.valid_at e.invalid_at t) es

-- The pass leaves an as-of read as it was at every instant before the expiry of the nodes that are due.
pub close_expired_committed-held_at :
    (now t : ℕ) (s : Store)
    → All (IsLiveAt now t) s.nodes
    → held_at t (close_expired_committed now s).edges ≡ held_at t s.edges
unfolding close_expired_committed
close_expired_committed-held_at now t s h = go s.edges
  where
    go : (es : List Edge) → held_at t (map (close_edge now s.nodes) es) ≡ held_at t es
    go [] = refl
    go (e ∷ es) = rw (covers-close_edge now t s.nodes e h, go es) refl
