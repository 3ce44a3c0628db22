-- ===== src/Packets/Servable.antt =====
-- What may stand in a packet: build_packet of services/packets.py.
use mlpal_memory.Prelude.{
  ℕ, suc, ◌≤◌, ◌≡◌, refl, sym, subst, ◌⊎◌, inl, inr, Bool, true, false, not, ◌&&◌, Option, none,
  some, List, [], ◌∷◌, ◌==◌, leb, ltb, is_some, filter, take, length, arith, All, All-filter,
  All-take, All-map_hyp, sort_by, length-take-le, Bool-cases, ==_iff, any,
}
use mlpal_memory.Packets.{
  Hit, Passage, from_failed_run, is_past, is_value, needed, max_facts, Request, Packet, remove_hit,
  ranks_above, ranked_hits, passage_limit, choose_passages, leading_value, lead_with, build_packet,
}

-- The read is one of the past, or the hit is not superseded, retracted or expired.
abbrev pub IsCurrent : Request → Hit → Type 0
IsCurrent r h = (is_some r.as_of ≡ true) ⊎ (is_past h ≡ false)

-- A value leads the facts, if one was chosen.
abbrev pub Leads : Option Hit → List Hit → Type 0
Leads none facts = Unit
Leads (some h) facts = (is_value h ≡ true) × (rest : List Hit) × (facts ≡ h ∷ rest)

-- What a packet holds: at most so many, nothing superseded, retracted or expired in a read of the present,
-- nothing of a failed attempt as a fact,
-- and for agents no passage of a failed run.
pub record IsServable (r : Request) (limit : ℕ) (p : Packet) : Type 0 where
  pub facts_current : All (IsCurrent r) p.facts
  pub facts_verified : All (λ h. h.from_failed_attempt ≡ false) p.facts
  pub unverified_current : All (IsCurrent r) p.unverified
  pub unverified_marked : All (λ h. h.from_failed_attempt ≡ true) p.unverified
  pub passages_fit : All (λ x. (r.agent_mode ≡ false) ⊎ (from_failed_run x ≡ false)) p.passages
  pub few_facts : length p.facts ≤ max_facts
  pub few_unverified : length p.unverified ≤ max_facts
  pub few_passages : length p.passages ≤ limit
  pub leads : Leads p.value_lead p.facts

all_of {ℓ κ} : {A : Type ℓ} (P : A → Type κ) (xs : List A) → ((x : A) → P x) → All P xs
all_of P [] f = tt
all_of P (x ∷ xs) f = (f x, all_of P xs f)

not-true : (b : Bool) → not b ≡ true → b ≡ false
not-true b h = ground arith

All-filter_of {ℓ κ} :
    {A : Type ℓ} (P : A → Type κ) (p : A → Bool) (xs : List A) → All P xs → All P (filter p xs)
All-filter_of P p [] h = tt
All-filter_of P p (x ∷ xs) h = elim (Bool-cases (p x)) [
  | inl y ↦ rw y (h.0, All-filter_of P p xs h.1)
  | inr n ↦ rw n (All-filter_of P p xs h.1)
]

All-remove_hit {κ} : (P : Hit → Type κ) (n : ℕ) (hs : List Hit) → All P hs → All P (remove_hit n hs)
All-remove_hit P n [] h = tt
All-remove_hit P n (x ∷ hs) h = elim (Bool-cases (x.id == n)) [
  | inl y ↦ rw y h.1
  | inr f ↦ rw f (h.0, All-remove_hit P n hs h.1)
]

length-remove_hit :
    (n : ℕ) (hs : List Hit)
    → any (λ x. x.id == n) hs ≡ true
    → suc (length (remove_hit n hs)) ≡ length hs
length-remove_hit n [] h = ground arith
length-remove_hit n (x ∷ hs) h = ground (arith, length-remove_hit n hs)

-- What holds of the value that leads, if one does.
abbrev OnLead : (Hit → Type 0) → Option Hit → Type 0
OnLead P none = Unit
OnLead P (some h) = P h

module _ (decayed : Hit → ℕ) (recent : Passage → ℕ) (overlap : Hit → ℕ) where
  OnLead-leading_value :
      (P : Hit → Type 0) (best : Option Hit) (most : ℕ) (hs : List Hit)
      → OnLead P best
      → All (λ h. is_value h ≡ true → P h) hs
      → OnLead P (leading_value decayed recent overlap best most hs)
  unfolding leading_value
  OnLead-leading_value P best most [] hb h = hb
  OnLead-leading_value P best most (x ∷ hs) hb h =
      elim (Bool-cases (is_value x && leb (needed x) (overlap x) && ltb most (overlap x))) [
        | inl y ↦ rw y (OnLead-leading_value P (some x) (overlap x) hs (h.0 (ground arith)) h.1)
        | inr n ↦ rw n (OnLead-leading_value P best most hs hb h.1)
      ]

  All-lead_with :
      (P : Hit → Type 0) (lead : Option Hit) (facts : List Hit)
      → OnLead P lead
      → All P facts
      → All P (lead_with decayed recent overlap lead facts)
  unfolding lead_with
  All-lead_with P none facts hl h = h
  All-lead_with P (some x) facts hl h = (hl, All-remove_hit P x.id facts h)

  length-lead_with :
      (lead : Option Hit) (facts : List Hit)
      → OnLead (λ h. any (λ x. x.id == h.id) facts ≡ true) lead
      → length (lead_with decayed recent overlap lead facts) ≡ length facts
  unfolding lead_with
  length-lead_with none facts h = refl
  length-lead_with (some x) facts h = length-remove_hit x.id facts h

  Leads-lead_with :
      (lead : Option Hit) (facts : List Hit)
      → OnLead (λ h. is_value h ≡ true) lead
      → Leads lead (lead_with decayed recent overlap lead facts)
  unfolding lead_with
  Leads-lead_with none facts h = tt
  Leads-lead_with (some x) facts h = (h, remove_hit x.id facts, refl)

  self_in : (hs : List Hit) → All (λ h. any (λ x. x.id == h.id) hs ≡ true) hs
  self_in [] = tt
  self_in (x ∷ hs) = (
    ground (arith, (==_iff x.id x.id).1 refl),
    All-map_hyp _ _ hs (λ h m. ground arith) (self_in hs),
  )

  IsCurrent-ranked_hits :
      (r : Request) (hits : List Hit)
      → All (IsCurrent r) (ranked_hits decayed recent overlap r hits)
  unfolding ranked_hits
  IsCurrent-ranked_hits r hits = elim (Bool-cases (is_some r.as_of)) [
    | inl y ↦ all_of (IsCurrent r) _ (λ h. inl y)
    | inr n ↦ rw n (
        All-map_hyp _ _ _ (λ h p. inr (not-true (is_past h) p))
          (All-filter (λ h. not (is_past h)) (sort_by (ranks_above decayed recent overlap r) hits)))
  ]

  fits_agents :
      (r : Request) (ps : List Passage)
      → All
          (λ x. (r.agent_mode ≡ false) ⊎ (from_failed_run x ≡ false))
          (choose_passages decayed recent overlap r ps)
  unfolding choose_passages
  fits_agents r ps =
      All-take _ (passage_limit decayed recent overlap r) _ (elim (Bool-cases r.agent_mode) [
        | inl y ↦ rw y (
            All-map_hyp _ _ _ (λ p h. inr (not-true (from_failed_run p) h))
              (All-filter (λ p. not (from_failed_run p)) _))
        | inr n ↦ all_of _ _ (λ p. inl n)
      ])

  -- Whatever was retrieved, a packet of a read of the present serves no hit that is superseded, retracted or
  -- expired, and every packet serves no fact of a failed attempt, to an agent no passage of a failed run, and
  -- at most so many of each; a value that leads is its first fact.
  pub build_packet-IsServable :
      (r : Request) (hits : List Hit) (ps : List Passage)
      → IsServable r
          (passage_limit decayed recent overlap r)
          (build_packet decayed recent overlap r hits ps)
  unfolding build_packet choose_passages
  build_packet-IsServable r hits ps =
      let ranked = ranked_hits decayed recent overlap r hits in
      let current = IsCurrent-ranked_hits r hits in
      let verified = take max_facts (filter (λ h. not h.from_failed_attempt) ranked) in
      let lead = leading_value decayed recent overlap none 0 verified in
      let on_lead = λ (P : Hit → Type 0) (h : All P verified).
        OnLead-leading_value P none 0 verified tt (All-map_hyp P _ verified (λ x p v. p) h) in
      let kept =
        All-take (IsCurrent r) max_facts _
          (All-filter_of (IsCurrent r) (λ h. not h.from_failed_attempt) ranked current) in
      let clean =
        All-take (λ h. h.from_failed_attempt ≡ false) max_facts _
          (All-map_hyp _ _ _ (λ h p. not-true h.from_failed_attempt p)
            (All-filter (λ h. not h.from_failed_attempt) ranked)) in
      record {
        facts_current = All-lead_with (IsCurrent r) lead verified (on_lead (IsCurrent r) kept) kept;
        facts_verified =
            All-lead_with (λ h. h.from_failed_attempt ≡ false) lead verified
              (on_lead (λ h. h.from_failed_attempt ≡ false) clean) clean;
        unverified_current =
            All-take (IsCurrent r) max_facts _
              (All-filter_of (IsCurrent r) (λ h. h.from_failed_attempt) ranked current);
        unverified_marked =
            All-take (λ h. h.from_failed_attempt ≡ true) max_facts _
              (All-filter (λ h. h.from_failed_attempt) ranked);
        passages_fit = fits_agents r ps;
        few_facts =
            subst (λ n. n ≤ max_facts)
              (sym (
                length-lead_with lead verified
                  (on_lead (λ h. any (λ x. x.id == h.id) verified ≡ true) (self_in verified))))
              (length-take-le max_facts (filter (λ h. not h.from_failed_attempt) ranked));
        few_unverified = length-take-le max_facts (filter (λ h. h.from_failed_attempt) ranked);
        few_passages = length-take-le (passage_limit decayed recent overlap r) _;
        leads = Leads-lead_with lead verified (
            OnLead-leading_value (λ h. is_value h ≡ true) none 0 verified tt
              (all_of (λ h. is_value h ≡ true → is_value h ≡ true) verified (λ h v. v)));
      }
