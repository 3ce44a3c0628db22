-- ===== src/Claims/Slots.antt =====
-- Which claims share the slot of a functional relation: the anchors of the functional edges of extract_claim in
-- pipeline/claims.py.
use mlpal_memory.Prelude.{
  String, ◌≡◌, refl, sym, ◌∙◌, ◌↔◌, true, false, ◌||◌, Option, none, some, inl, inr, List, [], ◌∷◌,
  map, arith, ltb, All, All-map_hyp, or_else, Bool-cases, is_empty, count_words,
}
use mlpal_memory.Prelude.Texts.{strip}
use mlpal_memory.Json.{Props, get}
use mlpal_memory.Fold.{Episode, EdgeSpec}
use mlpal_memory.Claims.{
  Readers, Kind, Hint, hint_edge, link_entities, prefix_of, anchor_key, keyed, learned,
  extract_keyed, extract_learned, extract_kind, extract_as, claim_kind, extract_claim, claim_key,
  claim_value, claim_topic, text, entity_hints,
}
use mlpal_memory.Claims.Anchors.{has_no_colon, anchor_key-injective}

-- The edge leaves the anchor, as its value.
abbrev IsValueOf : String → EdgeSpec → Type 0
IsValueOf a e = (e.type ≡ "HAS_VALUE") × (e.src_type ≡ "Metric") × (e.src_key ≡ a)

-- The edges that hold one value are values of the anchor.
abbrev Slots : String → List EdgeSpec → Type 0
Slots a = All (λ e. e.functional ≡ true → IsValueOf a e)

Slots-hints : (a t k about : String) (hs : List Hint) → Slots a (map (hint_edge t k about) hs)
Slots-hints a t k about [] = tt
Slots-hints a t k about (x ∷ hs) = ((λ f. ground arith), Slots-hints a t k about hs)

module _ (r : Readers) where
  Slots-keyed :
      (kind : Kind) (topic key value : String) (p : Props)
      → Slots (anchor_key kind topic key) (keyed r kind topic key value p).edges
  unfolding keyed link_entities
  Slots-keyed kind topic key value p =
      ((λ f. (refl, refl, refl)), Slots-hints (anchor_key kind topic key) _ _ _ (entity_hints r p))

  Slots-learned :
      (a actor statement : String) (p : Props) → Slots a (learned r actor statement p).edges
  unfolding learned link_entities
  Slots-learned a actor statement p = ((λ f. ground arith), Slots-hints a _ _ _ (entity_hints r p))

  Slots-extract_keyed :
      (kind : Kind) (ep : Episode)
      → Slots (anchor_key kind (claim_topic r ep) (claim_key r ep)) (extract_keyed r kind ep).edges
  unfolding extract_keyed
  Slots-extract_keyed kind ep =
      elim (Bool-cases (is_empty (claim_key r ep) || is_empty (claim_value r ep))) [
        | inl y ↦ rw y tt
        | inr n ↦
            rw n
              (Slots-keyed kind (claim_topic r ep) (claim_key r ep) (claim_value r ep) ep.payload)
      ]

  Slots-extract_learned : (a : String) (ep : Episode) → Slots a (extract_learned r ep).edges
  unfolding extract_learned
  Slots-extract_learned a ep =
      elim (Bool-cases (ltb (count_words false (strip (text r (get "value" ep.payload)))) 3)) [
        | inl y ↦ rw y tt
        | inr n ↦ rw n (Slots-learned a _ _ _)
      ]

  Slots-extract_kind :
      (kind : Kind) (ep : Episode)
      → Slots (anchor_key kind (claim_topic r ep) (claim_key r ep)) (extract_kind r kind ep).edges
  unfolding extract_kind
  Slots-extract_kind Kind.state ep = Slots-extract_keyed Kind.state ep
  Slots-extract_kind Kind.preference ep = Slots-extract_keyed Kind.preference ep
  Slots-extract_kind Kind.dated ep = Slots-extract_keyed Kind.dated ep
  Slots-extract_kind Kind.learning ep = Slots-extract_learned _ ep
  Slots-extract_kind Kind.deviation ep = tt

  abbrev pub anchor_kind : Episode → Kind
  anchor_kind ep = or_else (claim_kind r ep) Kind.state

  Slots-kind :
      (o : Option Kind) (ep : Episode)
      → Slots
          (anchor_key (or_else o Kind.state) (claim_topic r ep) (claim_key r ep))
          (extract_as r o ep).edges
  Slots-kind none ep = tt
  Slots-kind (some k) ep = Slots-extract_kind k ep

  Slots-extract_claim :
      (ep : Episode)
      → Slots
          (anchor_key (anchor_kind ep) (claim_topic r ep) (claim_key r ep))
          (extract_claim r ep).edges
  unfolding extract_claim
  Slots-extract_claim ep = Slots-kind (claim_kind r ep) ep

  -- The same family of kinds, the same topic once `{me}` is resolved, and the same key.
  abbrev pub HasAddressOf : Episode → Episode → Type 0
  HasAddressOf ep ep' =
      (prefix_of (anchor_kind ep) ≡ prefix_of (anchor_kind ep'))
      × (claim_topic r ep ≡ claim_topic r ep')
      × (claim_key r ep ≡ claim_key r ep')

  anchor_iff :
      (ep ep' : Episode)
      → has_no_colon (claim_topic r ep) ≡ true
      → has_no_colon (claim_topic r ep') ≡ true
      → (anchor_key (anchor_kind ep) (claim_topic r ep) (claim_key r ep)
          ≡ anchor_key (anchor_kind ep') (claim_topic r ep') (claim_key r ep'))
        ↔ HasAddressOf ep ep'
  unfolding anchor_key
  anchor_iff ep ep' h h' = (
    anchor_key-injective (anchor_kind ep) (anchor_kind ep') _ _ _ _ h h',
    λ (same : HasAddressOf ep ep'). let (p, q, s) = same in rw (p, q, s) refl,
  )

  -- The sources of the two edges are one node of the ontology, type and key, and their relations one.
  abbrev pub HasSlotOf : EdgeSpec → EdgeSpec → Type 0
  HasSlotOf e d = (e.type ≡ d.type) × (e.src_type ≡ d.src_type) × (e.src_key ≡ d.src_key)

  -- Two edges of claims that hold one value have one relation and one source just where the claims have one
  -- family of kinds, one topic and one key, if their topics have no colon.
  pub extract_claim-shares_slot :
      (ep ep' : Episode)
      → has_no_colon (claim_topic r ep) ≡ true
      → has_no_colon (claim_topic r ep') ≡ true
      → All
          (λ e.
            e.functional ≡ true
            → All
                (λ d. d.functional ≡ true → HasSlotOf e d ↔ HasAddressOf ep ep')
                (extract_claim r ep').edges)
          (extract_claim r ep).edges
  extract_claim-shares_slot ep ep' h h' =
      All-map_hyp _ _ (extract_claim r ep).edges
        (λ e slot one.
          All-map_hyp _ _ (extract_claim r ep').edges
            (λ d slot' one'.
              let (t, k, a) = slot one in
              let (t', k', a') = slot' one' in
              let same = anchor_iff ep ep' h h' in
              (
                λ (x : HasSlotOf e d). let (p, q, s) = x in same.0 (sym a ∙ s ∙ a'),
                λ (x : HasAddressOf ep ep'). (t ∙ sym t', k ∙ sym k', a ∙ same.1 x ∙ sym a'),
              ))
            (Slots-extract_claim ep'))
        (Slots-extract_claim ep)
