-- ===== src/Resolution/Merge/Covers.antt =====
-- What the merge of services/resolution.py shows of each hit.
use mlpal_memory.Prelude.{
  ℕ, ◌≡◌, refl, ap, sym, subst, ◌∙◌, Bool, true, ◌&&◌, ◌||◌, inl, inr, List, [], ◌∷◌, ◌++◌, arith,
  max, leb, any, All, eq_refl, eq_iff, str_eq, All-append, All-map_hyp, Bool-cases, any-sort_by,
  insert_by, sort_by, by_key, All-sort_by, Option,
}
use mlpal_memory.Scope.{Scope, ScopeRef, rank}
use mlpal_memory.Resolution.Merge.{
  ScoredNode, MergedNode, Group, node_rank, in_group, add_scored, group_all, max_score, merge_group,
  merge_groups, ranks_before, merge_scored,
}

abbrev max_rank : List ScoredNode → ℕ
max_rank [] = 0
max_rank (s ∷ ss) = max (node_rank s) (max_rank ss)

-- The hit is one of the group's, as far as score and rank can tell.
abbrev is_within : ScoredNode → Group → Bool
is_within s g =
    in_group s g && leb s.score (max_score g.members) && leb (node_rank s) (max_rank g.members)

max_score-append :
    (ss : List ScoredNode) (s : ScoredNode) → max_score (ss ++ s ∷ []) ≡ max (max_score ss) s.score
max_score-append [] s = ground arith
max_score-append (x ∷ ss) s = ground (arith, max_score-append ss s)

max_rank-append :
    (ss : List ScoredNode) (s : ScoredNode)
    → max_rank (ss ++ s ∷ []) ≡ max (max_rank ss) (node_rank s)
max_rank-append [] s = omega arith
max_rank-append (x ∷ ss) s = omega (arith, max_rank-append ss s)

is_within-grown :
    (s x : ScoredNode) (g : Group)
    → is_within s g ≡ true
    → is_within s (record g { members = g.members ++ x ∷ [] }) ≡ true
is_within-grown s x g h =
    ground (arith, h, max_score-append g.members x, max_rank-append g.members x)

is_within-added :
    (s : ScoredNode) (g : Group)
    → in_group s g ≡ true
    → is_within s (record g { members = g.members ++ s ∷ [] }) ≡ true
is_within-added s g h = ground (arith, h, max_score-append g.members s, max_rank-append g.members s)

-- What was within some group stays so, and the hit that is added is.
any_within-add_scored :
    (s x : ScoredNode) (gs : List Group)
    → any (is_within s) gs ≡ true
    → any (is_within s) (add_scored x gs) ≡ true
unfolding add_scored
any_within-add_scored s x [] h = cc
any_within-add_scored s x (g ∷ gs) h = elim (Bool-cases (in_group x g)) [
  | inr n ↦ rw n (ground (arith, h, any_within-add_scored s x gs))
  | inl y ↦ rw y (ground (arith, h, is_within-grown s x g))
]

any_within-added : (s : ScoredNode) (gs : List Group) → any (is_within s) (add_scored s gs) ≡ true
unfolding add_scored
any_within-added s [] = ground (arith, eq_refl s.node.type, eq_refl s.node.key)
any_within-added s (g ∷ gs) = elim (Bool-cases (in_group s g)) [
  | inr n ↦ rw n (ground (arith, any_within-added s gs))
  | inl y ↦ rw y (ground (arith, is_within-added s g y))
]

any_within-group_all :
    (s : ScoredNode) (scored : List ScoredNode) (gs : List Group)
    → any (is_within s) gs ≡ true
    → any (is_within s) (group_all scored gs) ≡ true
any_within-group_all s [] gs h = h
any_within-group_all s (x ∷ scored) gs h =
    any_within-group_all s scored (add_scored x gs) (any_within-add_scored s x gs h)

All-is_within :
    (scored : List ScoredNode) (gs : List Group)
    → All (λ s. any (is_within s) (group_all scored gs) ≡ true) scored
All-is_within [] gs = tt
All-is_within (s ∷ scored) gs = (
  any_within-group_all s scored (add_scored s gs) (any_within-added s gs),
  All-is_within scored (add_scored s gs),
)

-- A group has members, and they are of its type and key.
record IsGroup (g : Group) : Type 0 where
  filled : g.members ≡ [] → ⊥
  alike : All (λ m. in_group m g ≡ true) g.members

not_nil : (ss : List ScoredNode) (s : ScoredNode) → (ss ++ s ∷ [] ≡ []) → ⊥
not_nil [] s h = cc
not_nil (x ∷ ss) s h = cc

IsGroup-add_scored :
    (s : ScoredNode) (gs : List Group) → All IsGroup gs → All IsGroup (add_scored s gs)
unfolding add_scored
IsGroup-add_scored s [] h = (
  record {
    filled = λ p. cc;
    alike = (ground (arith, eq_refl s.node.type, eq_refl s.node.key), tt);
  },
  tt,
)
IsGroup-add_scored s (g ∷ gs) h = elim (Bool-cases (in_group s g)) [
  | inr n ↦ rw n (h.0, IsGroup-add_scored s gs h.1)
  | inl y ↦ rw y (
    record {
      filled = not_nil g.members s;
      alike = All-append (λ m. in_group m g ≡ true) g.members (s ∷ []) h.0.alike (y, tt);
    },
    h.1,
  )
]

IsGroup-group_all :
    (scored : List ScoredNode) (gs : List Group)
    → All IsGroup gs
    → All IsGroup (group_all scored gs)
IsGroup-group_all [] gs h = h
IsGroup-group_all (s ∷ scored) gs h =
    IsGroup-group_all scored (add_scored s gs) (IsGroup-add_scored s gs h)

-- The first of the sorted members has the narrowest scope.
record Winner (ss : List ScoredNode) : Type 0 where
  winner : ScoredNode
  others : List ScoredNode
  sorted : sort_by (by_key node_rank) ss ≡ winner ∷ others
  narrowest : node_rank winner ≡ max_rank ss

Winner-insert_by : (x : ScoredNode) (ss : List ScoredNode) → Winner ss → Winner (x ∷ ss)
Winner-insert_by x ss w = elim (Bool-cases (leb (node_rank w.winner) (node_rank x))) [
  | inl y ↦ record {
    winner = x;
    others = w.winner ∷ w.others;
    sorted = ap (insert_by (by_key node_rank) x) w.sorted ∙ rw y refl;
    narrowest = ground (arith, y, w.narrowest);
  }
  | inr n ↦ record {
    winner = w.winner;
    others = insert_by (by_key node_rank) x w.others;
    sorted = ap (insert_by (by_key node_rank) x) w.sorted ∙ rw n refl;
    narrowest = ground (arith, n, w.narrowest);
  }
]

Winner-members : (x : ScoredNode) (ss : List ScoredNode) → Winner (x ∷ ss)
Winner-members x [] = record { winner = x; others = []; sorted = refl; narrowest = omega arith }
Winner-members x (y ∷ ss) = Winner-insert_by x (y ∷ ss) (Winner-members y ss)

-- The merged node stands for the hit: same type and key, no lower score, no broader scope.
abbrev pub shows : ScoredNode → MergedNode → Bool
shows s m =
    str_eq m.node.type s.node.type
    && str_eq m.node.key s.node.key
    && leb s.score m.score
    && leb (node_rank s) (rank m.node.owner.scope)

same_group :
    (s w : ScoredNode) (g : Group)
    → in_group s g ≡ true
    → in_group w g ≡ true
    → (str_eq w.node.type s.node.type && str_eq w.node.key s.node.key) ≡ true
same_group s w g p q =
    let type : w.node.type ≡ s.node.type =
      (eq_iff w.node.type g.type).0 (ground (arith, q))
      ∙ sym ((eq_iff s.node.type g.type).0 (ground (arith, p))) in
    let key : w.node.key ≡ s.node.key =
      (eq_iff w.node.key g.key).0 (ground (arith, q))
      ∙ sym ((eq_iff s.node.key g.key).0 (ground (arith, p))) in
    rw (type, key, eq_refl s.node.type, eq_refl s.node.key) refl

shows-Winner :
    (s : ScoredNode) (g : Group) (w : Winner g.members)
    → is_within s g ≡ true
    → All (λ m. in_group m g ≡ true) g.members
    → any (shows s) (merge_group g) ≡ true
unfolding merge_group
shows-Winner s g w within alike =
    let members : All (λ m. in_group m g ≡ true) (w.winner ∷ w.others) =
      subst (All (λ m. in_group m g ≡ true)) w.sorted
        (All-sort_by (by_key node_rank) (λ m. in_group m g ≡ true) g.members alike) in
    let same = same_group s w.winner g (ground (arith, within)) members.0 in
    rw (w.sorted, merge_group) (ground (arith, within, same, w.narrowest))

shows_group :
    (s : ScoredNode) (g : Group)
    → IsGroup g
    → is_within s g ≡ true
    → any (shows s) (merge_group g) ≡ true
shows_group s g h within = shows-Winner s g (winner g.members h.filled) within h.alike
  where
    winner : (ss : List ScoredNode) → (ss ≡ [] → ⊥) → Winner ss
    winner [] filled = absurd (filled refl)
    winner (x ∷ ss) filled = Winner-members x ss

any-append :
    (p : MergedNode → Bool) (xs ys : List MergedNode) → any p (xs ++ ys) ≡ (any p xs || any p ys)
any-append p [] ys = refl
any-append p (x ∷ xs) ys = ground (arith, any-append p xs ys)

shows_groups :
    (s : ScoredNode) (gs : List Group)
    → All IsGroup gs
    → any (is_within s) gs ≡ true
    → any (shows s) (merge_groups gs) ≡ true
shows_groups s [] h within = cc
shows_groups s (g ∷ gs) h within = elim (Bool-cases (is_within s g)) [
  | inl y ↦
      any-append (shows s) (merge_group g) (merge_groups gs) ∙ ground (arith, shows_group s g h.0 y)
  | inr n ↦
      any-append (shows s) (merge_group g) (merge_groups gs)
      ∙ ground (arith, shows_groups s gs h.1 (ground (arith, within, n)))
]

-- Nothing that was found is lost: each hit has a merged node of its type and key, with no lower score and
-- from no broader scope.
pub merge_scored-shows :
    (scored : List ScoredNode) (accessible : List ScopeRef) (requested : Option Scope)
    → All (λ s. any (shows s) (merge_scored scored accessible requested).0 ≡ true) scored
unfolding merge_scored
merge_scored-shows scored accessible requested =
    let groups = group_all scored [] in
    All-map_hyp (λ s. any (is_within s) groups ≡ true)
      (λ s. any (shows s) (sort_by ranks_before (merge_groups groups)) ≡ true) scored
      (λ s within.
        any-sort_by ranks_before (shows s) (merge_groups groups)
        ∙ shows_groups s groups (IsGroup-group_all scored [] tt) within)
      (All-is_within scored [])
