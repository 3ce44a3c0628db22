-- ===== src/Fold/Extractor/Keeping.antt =====
-- The steps of the rules of pipeline/extractor.py: none takes an entity away, and a link between entities that
-- are there keeps every end an entity.
use mlpal_memory.Prelude.{
  String, ◌≡◌, refl, true, false, ◌||◌, Option, none, some, inl, inr, List, [], ◌∷◌, ◌++◌, arith,
  All, All-append, All-map_hyp, str_eq, eq_refl, Bool-cases,
}
use mlpal_memory.Fold.{EntitySpec, EdgeSpec, Extraction}
use mlpal_memory.Fold.Extractor.{is_seen, add_entity, link}

-- Both ends of the relation are entities of the list.
abbrev pub JoinsSeen : List EntitySpec → EdgeSpec → Type 0
JoinsSeen ents e =
    (is_seen e.src_type e.src_key ents ≡ true) × (is_seen e.dst_type e.dst_key ents ≡ true)

pub record IsGrounded (out : Extraction) : Type 0 where
  pub edges : All (JoinsSeen out.entities) out.edges
  pub invalidations : All (JoinsSeen out.entities) out.invalidations

-- A key that is there and not empty has its entity.
abbrev pub Has : String → Option String → List EntitySpec → Type 0
Has type none ents = Unit
Has type (some key) ents = str_eq key "" ≡ false → is_seen type key ents ≡ true

pub is_seen-append :
    (type key : String) (xs ys : List EntitySpec)
    → is_seen type key (xs ++ ys) ≡ (is_seen type key xs || is_seen type key ys)
is_seen-append type key [] ys = refl
is_seen-append type key (x ∷ xs) ys = ground (arith, is_seen-append type key xs ys)

-- Entities are only added.
is_seen-add_entity :
    (type key t : String) (k : Option String) (name : String) (props : _) (out : Extraction)
    → is_seen type key out.entities ≡ true
    → is_seen type key (add_entity t k name props out).entities ≡ true
unfolding add_entity
is_seen-add_entity type key t none name props out h = h
is_seen-add_entity type key t (some k) name props out h = ground (
  arith,
  is_seen-append type key out.entities
      (record { type = t; key = k; name = name; props = props } ∷ []),
)

pub Has-added :
    (t : String) (k : Option String) (name : String) (props : _) (out : Extraction)
    → Has t k (add_entity t k name props out).entities
unfolding add_entity
Has-added t none name props out = tt
Has-added t (some k) name props out = λ filled. elim (Bool-cases (is_seen t k out.entities)) [
  | inl y ↦ rw (filled, y) y
  | inr n ↦
      rw (filled, n)
        (ground (
          arith,
          is_seen-append t k out.entities
              (record { type = t; key = k; name = name; props = props } ∷ []),
          eq_refl t,
          eq_refl k,
        ))
]

-- A step that keeps what is grounded grounded, and every entity.
pub record Keeps (out out' : Extraction) : Type 0 where
  pub grounded : IsGrounded out → IsGrounded out'
  pub seen :
      (type key : String)
      → is_seen type key out.entities ≡ true
      → is_seen type key out'.entities ≡ true

pub Keeps-refl : (out : Extraction) → Keeps out out
Keeps-refl out = record { grounded = λ h. h; seen = λ type key h. h }

pub Keeps-trans : (a b c : Extraction) → Keeps a b → Keeps b c → Keeps a c
Keeps-trans a b c h k = record {
  grounded = λ g. k.grounded (h.grounded g);
  seen = λ type key p. k.seen type key (h.seen type key p);
}

pub Has-Keeps :
    (type : String) (k : Option String) (out out' : Extraction)
    → Keeps out out'
    → Has type k out.entities
    → Has type k out'.entities
Has-Keeps type none out out' h p = tt
Has-Keeps type (some k) out out' h p = λ filled. h.seen type k (p filled)

edges-add_entity :
    (t : String) (k : Option String) (name : String) (props : _) (out : Extraction)
    → ((add_entity t k name props out).edges ≡ out.edges)
      × ((add_entity t k name props out).invalidations ≡ out.invalidations)
unfolding add_entity
edges-add_entity t none name props out = (refl, refl)
edges-add_entity t (some k) name props out = (ground arith, ground arith)

JoinsSeen-add_entity :
    (t : String) (k : Option String) (name : String) (props : _) (out : Extraction)
    (es : List EdgeSpec)
    → All (JoinsSeen out.entities) es
    → All (JoinsSeen (add_entity t k name props out).entities) es
JoinsSeen-add_entity t k name props out es h =
    All-map_hyp (JoinsSeen out.entities) (JoinsSeen (add_entity t k name props out).entities) es
      (λ e p. (
        is_seen-add_entity e.src_type e.src_key t k name props out p.0,
        is_seen-add_entity e.dst_type e.dst_key t k name props out p.1,
      ))
      h

pub Keeps-add_entity :
    (t : String) (k : Option String) (name : String) (props : _) (out : Extraction)
    → Keeps out (add_entity t k name props out)
Keeps-add_entity t k name props out =
    let (edges, invalidations) = edges-add_entity t k name props out in
    record {
      grounded = λ g. record {
        edges = rw edges (JoinsSeen-add_entity t k name props out out.edges g.edges);
        invalidations =
            rw invalidations
              (JoinsSeen-add_entity t k name props out out.invalidations g.invalidations);
      };
      seen = λ type key h. is_seen-add_entity type key t k name props out h;
    }

entities-link :
    (type st : String) (sk : Option String) (dt : String) (dk : Option String)
    (fact : Option String) (out : Extraction)
    → ((link type st sk dt dk fact out).entities ≡ out.entities)
      × ((link type st sk dt dk fact out).invalidations ≡ out.invalidations)
unfolding link
entities-link type st none dt dk fact out = (refl, refl)
entities-link type st (some sk) dt none fact out = (refl, refl)
entities-link type st (some sk) dt (some dk) fact out = (ground arith, ground arith)

joined-link :
    (type st : String) (sk : Option String) (dt : String) (dk : Option String)
    (fact : Option String) (out : Extraction)
    → Has st sk out.entities
    → Has dt dk out.entities
    → All (JoinsSeen out.entities) out.edges
    → All (JoinsSeen out.entities) (link type st sk dt dk fact out).edges
unfolding link
joined-link type st none dt dk fact out hs hd h = h
joined-link type st (some sk) dt none fact out hs hd h = h
joined-link type st (some sk) dt (some dk) fact out hs hd h = elim (Bool-cases (str_eq sk "")) [
  | inl y ↦ rw y h
  | inr n ↦ elim (Bool-cases (str_eq dk "")) [
    | inl y ↦ rw (n, y) h
    | inr m ↦ rw (n, m) (All-append (JoinsSeen out.entities) out.edges _ h ((hs n, hd m), tt))
  ]
]

pub Keeps-link :
    (type st : String) (sk : Option String) (dt : String) (dk : Option String)
    (fact : Option String) (out : Extraction)
    → Has st sk out.entities
    → Has dt dk out.entities
    → Keeps out (link type st sk dt dk fact out)
Keeps-link type st sk dt dk fact out hs hd =
    let (entities, invalidations) = entities-link type st sk dt dk fact out in
    record {
      grounded = λ g. record {
        edges = rw entities (joined-link type st sk dt dk fact out hs hd g.edges);
        invalidations = rw (entities, invalidations) g.invalidations;
      };
      seen = λ t k h. rw entities h;
    }
