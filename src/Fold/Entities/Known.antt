-- ===== src/Fold/Entities/Known.antt =====
-- What the fold of the entities leaves in the map that the edges look their ends up in.
use mlpal_memory.Prelude.{
  ℕ, String, ◌≡◌, refl, subst, true, Option, none, some, inl, inr, List, [], ◌∷◌, arith, All,
  is_some, eq_refl, Option-cases,
}
use mlpal_memory.Graph.{Store}
use mlpal_memory.Fold.{EntitySpec}
use mlpal_memory.Fold.Stamp.{stamp_node}
use mlpal_memory.Fold.Entities.{
  Services, Fold, NodeMap, node_at, named_node, expire_node, fold_entity, fold_entities,
}

-- The type and key of the entity have a node.
abbrev pub IsKnown : NodeMap → EntitySpec → Type 0
IsKnown m ent = is_some (node_at ent.type ent.key m) ≡ true

-- The second map knows what the first does.
abbrev KnowsMore : NodeMap → NodeMap → Type 0
KnowsMore m m' =
    (type key : String) → is_some (node_at type key m) ≡ true → is_some (node_at type key m') ≡ true

knows_entry : (t k : String) (i : ℕ) (m : NodeMap) → KnowsMore m (((t, k), i) ∷ m)
knows_entry t k i m type key h = ground arith

IsKnown-entry :
    (ent : EntitySpec) (i : ℕ) (m : NodeMap) → IsKnown (((ent.type, ent.key), i) ∷ m) ent
IsKnown-entry ent i m = rw (eq_refl ent.type, eq_refl ent.key) refl

-- What one step gives: the entity is known, and so is all that was.
abbrev Learns : EntitySpec → NodeMap → Option (NodeMap × Store) → Type 0
Learns ent m none = Unit
Learns ent m (some out) = IsKnown out.0 ent × KnowsMore m out.0

Learns-fold_entity :
    (svc : Services) (f : Fold) (ent : EntitySpec) (m : NodeMap) (s : Store)
    → Learns ent m (fold_entity svc f ent (m, s))
unfolding fold_entity
Learns-fold_entity svc f ent m s = elim (Option-cases (named_node svc f ent s)) [
  | inl raised ↦ rw (raised, fold_entity) tt
  | inr ((n, s'), found) ↦
      elim (Option-cases (expire_node svc f ent (stamp_node svc.working_ttl f.episode n))) [
        | inl raised ↦ rw (found, fold_entity, raised) tt
        | inr (n', given) ↦
            rw (found, fold_entity, given)
              (IsKnown-entry ent n'.id m, knows_entry ent.type ent.key n'.id m)
      ]
]

abbrev LearnsAll : List EntitySpec → NodeMap → Option (NodeMap × Store) → Type 0
LearnsAll ents m none = Unit
LearnsAll ents m (some out) = All (IsKnown out.0) ents × KnowsMore m out.0

LearnsAll-cons :
    (ent : EntitySpec) (ents : List EntitySpec) (m m' : NodeMap) (out : Option (NodeMap × Store))
    → IsKnown m' ent
    → KnowsMore m m'
    → LearnsAll ents m' out
    → LearnsAll (ent ∷ ents) m out
LearnsAll-cons ent ents m m' none known more rest = tt
LearnsAll-cons ent ents m m' (some out) known more (all_known, more') =
    ((more' ent.type ent.key known, all_known), λ type key h. more' type key (more type key h))

LearnsAll-fold_entities :
    (svc : Services) (f : Fold) (ents : List EntitySpec) (m : NodeMap) (s : Store)
    → LearnsAll ents m (fold_entities svc f ents (m, s))
unfolding fold_entities
LearnsAll-fold_entities svc f [] m s = (tt, λ type key h. h)
LearnsAll-fold_entities svc f (ent ∷ ents) m s =
    elim (Option-cases (fold_entity svc f ent (m, s))) [
      | inl raised ↦ rw (raised, fold_entities) tt
      | inr ((m', s'), found) ↦
          let (known, more) = subst (Learns ent m) found (Learns-fold_entity svc f ent m s) in
          rw (found, fold_entities)
            (LearnsAll-cons ent ents m m' (fold_entities svc f ents (m', s')) known more
              (LearnsAll-fold_entities svc f ents m' s'))
    ]

-- When the fold of the entities does not raise, every entity of the extraction has a node in the map, and
-- so has what was there before: no edge between extracted entities is passed over.
pub fold_entities-IsKnown :
    (svc : Services) (f : Fold) (ents : List EntitySpec) (m m' : NodeMap) (s s' : Store)
    → fold_entities svc f ents (m, s) ≡ some (m', s')
    → All (IsKnown m') ents
fold_entities-IsKnown svc f ents m m' s s' done =
    (subst (LearnsAll ents m) done (LearnsAll-fold_entities svc f ents m s)).0
