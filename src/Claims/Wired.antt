-- ===== src/Claims/Wired.antt =====
-- What extract_claim of pipeline/claims.py makes is wired: no edge without its ends.
use mlpal_memory.Prelude.{
  String, ◌≡◌, true, false, ◌||◌, Option, none, some, inl, inr, List, [], ◌∷◌, ◌++◌, ◌<>◌, map,
  arith, ltb, All, All-append, All-map_hyp, eq_refl, Bool-cases, is_empty, count_words,
}
use mlpal_memory.Prelude.Texts.{strip}
use mlpal_memory.Json.{Props, get}
use mlpal_memory.Fold.{Episode, EntitySpec, EdgeSpec, Extraction}
use mlpal_memory.Fold.Extractor.{is_seen}
use mlpal_memory.Fold.Extractor.Keeping.{IsGrounded, JoinsSeen, is_seen-append}
use mlpal_memory.Claims.{
  Readers, Kind, Hint, hint_entity, hint_edge, link_entities, keyed, learned, extract_keyed,
  extract_learned, extract_kind, extract_as, claim_kind, extract_claim, anchor_key, claim_key,
  claim_value, text, entity_hints,
}

seen_left :
    (t k : String) (xs ys : List EntitySpec) → is_seen t k xs ≡ true → is_seen t k (xs ++ ys) ≡ true
seen_left t k xs ys h = ground (arith, is_seen-append t k xs ys)

seen_right :
    (t k : String) (xs ys : List EntitySpec) → is_seen t k ys ≡ true → is_seen t k (xs ++ ys) ≡ true
seen_right t k xs ys h = ground (arith, is_seen-append t k xs ys)

pub joined_left :
    (xs ys : List EntitySpec) (es : List EdgeSpec)
    → All (JoinsSeen xs) es
    → All (JoinsSeen (xs ++ ys)) es
joined_left xs ys es h =
    All-map_hyp (JoinsSeen xs) (JoinsSeen (xs ++ ys)) es
      (λ e p. (seen_left e.src_type e.src_key xs ys p.0, seen_left e.dst_type e.dst_key xs ys p.1))
      h

seen_hints : (hs : List Hint) → All (λ x. is_seen x.type x.key (map hint_entity hs) ≡ true) hs
seen_hints [] = tt
seen_hints (x ∷ hs) = (
  ground (arith, eq_refl x.type, eq_refl x.key),
  All-map_hyp (λ y. is_seen y.type y.key (map hint_entity hs) ≡ true)
      (λ y. is_seen y.type y.key (map hint_entity (x ∷ hs)) ≡ true) hs (λ y m. ground arith)
      (seen_hints hs),
)

pub joined_right :
    (xs ys : List EntitySpec) (es : List EdgeSpec)
    → All (JoinsSeen ys) es
    → All (JoinsSeen (xs ++ ys)) es
joined_right xs ys es h =
    All-map_hyp (JoinsSeen ys) (JoinsSeen (xs ++ ys)) es
      (λ e p.
        (seen_right e.src_type e.src_key xs ys p.0, seen_right e.dst_type e.dst_key xs ys p.1))
      h

-- Each hint's edge reaches the entity of the hint.
hints_joined :
    (t k about : String) (ents : List EntitySpec) (hs : List Hint)
    → is_seen t k ents ≡ true
    → All (λ x. is_seen x.type x.key ents ≡ true) hs
    → All (JoinsSeen ents) (map (hint_edge t k about) hs)
hints_joined t k about ents [] h hs = tt
hints_joined t k about ents (x ∷ xs) h hs = ((h, hs.0), hints_joined t k about ents xs h hs.1)

IsGrounded-link_entities :
    (hs : List Hint) (t k about : String) (out : Extraction)
    → is_seen t k out.entities ≡ true
    → IsGrounded out
    → IsGrounded (link_entities hs t k about out)
unfolding link_entities
IsGrounded-link_entities hs t k about out h g = record {
  edges =
      All-append _ out.edges _ (joined_left out.entities (map hint_entity hs) out.edges g.edges) (
        hints_joined t k about (out.entities ++ map hint_entity hs) hs
          (seen_left t k out.entities (map hint_entity hs) h)
          (All-map_hyp _ _ hs (λ x m. seen_right x.type x.key out.entities (map hint_entity hs) m)
            (seen_hints hs)));
  invalidations = joined_left out.entities (map hint_entity hs) out.invalidations g.invalidations;
}

module _ (r : Readers) where
  IsGrounded-keyed :
      (kind : Kind) (topic key value : String) (p : Props)
      → IsGrounded (keyed r kind topic key value p)
  unfolding keyed
  IsGrounded-keyed kind topic key value p =
      let a = anchor_key kind topic key in
      IsGrounded-link_entities (entity_hints r p) "MetricValue" (a <> ("=" <> value)) _ _
        (ground (arith, eq_refl (a <> ("=" <> value))))
        (record {
          edges = ((ground (arith, eq_refl a), ground (arith, eq_refl (a <> ("=" <> value)))), tt);
          invalidations = tt;
        })

  IsGrounded-learned :
      (actor statement : String) (p : Props) → IsGrounded (learned r actor statement p)
  unfolding learned
  IsGrounded-learned actor statement p =
      IsGrounded-link_entities (entity_hints r p) "Fact" _ _ _
        (ground (arith, eq_refl (r.slug statement)))
        (record {
          edges = ((ground (arith, eq_refl actor), ground (arith, eq_refl (r.slug statement))), tt);
          invalidations = tt;
        })

  IsGrounded-extract_keyed : (kind : Kind) (ep : Episode) → IsGrounded (extract_keyed r kind ep)
  unfolding extract_keyed
  IsGrounded-extract_keyed kind ep =
      elim (Bool-cases (is_empty (claim_key r ep) || is_empty (claim_value r ep))) [
        | inl y ↦ rw y (record { edges = tt; invalidations = tt })
        | inr n ↦ rw n (IsGrounded-keyed kind _ _ _ _)
      ]

  IsGrounded-extract_learned : (ep : Episode) → IsGrounded (extract_learned r ep)
  unfolding extract_learned
  IsGrounded-extract_learned ep =
      elim (Bool-cases (ltb (count_words false (strip (text r (get "value" ep.payload)))) 3)) [
        | inl y ↦ rw y (record { edges = tt; invalidations = tt })
        | inr n ↦ rw n (IsGrounded-learned _ _ _)
      ]

  IsGrounded-extract_kind : (kind : Kind) (ep : Episode) → IsGrounded (extract_kind r kind ep)
  unfolding extract_kind
  IsGrounded-extract_kind Kind.state ep = IsGrounded-extract_keyed Kind.state ep
  IsGrounded-extract_kind Kind.preference ep = IsGrounded-extract_keyed Kind.preference ep
  IsGrounded-extract_kind Kind.dated ep = IsGrounded-extract_keyed Kind.dated ep
  IsGrounded-extract_kind Kind.learning ep = IsGrounded-extract_learned ep
  IsGrounded-extract_kind Kind.deviation ep = record { edges = tt; invalidations = tt }

  IsGrounded-extract_as : (o : Option Kind) (ep : Episode) → IsGrounded (extract_as r o ep)
  IsGrounded-extract_as none ep = record { edges = tt; invalidations = tt }
  IsGrounded-extract_as (some k) ep = IsGrounded-extract_kind k ep

  -- Whatever the payload holds, both ends of every edge that a claim makes are entities that it makes too.
  pub extract_claim-IsGrounded : (ep : Episode) → IsGrounded (extract_claim r ep)
  unfolding extract_claim
  extract_claim-IsGrounded ep = IsGrounded-extract_as (claim_kind r ep) ep
