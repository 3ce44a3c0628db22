-- ===== src/Packets.antt =====
-- What a packet serves: the choice of facts and passages of build_packet in services/packets.py. Scores
-- are natural numbers; what the floats of the decay make of them is a parameter, and so is the count of
-- the words that a query and an anchor share, which regular expressions find.
pub mod Servable
use mlpal_memory.Prelude.{
  starts_with, ends_with, ℕ, ◌+◌, ◌*◌, Bool, true, false, not, ◌&&◌, ◌||◌, Option, none, some, List,
  [], ◌∷◌, ◌++◌, String, ◌==◌, if◌then◌else◌, leb, ltb, str_eq, is_some, or_else, contains, filter,
  take, sort_by, map, length,
}

-- A merged node, by what the packet reads of it.
pub record Hit : Type 0 where
  pub id : ℕ
  pub name : String
  pub key : String
  pub type : String
  pub status : String
  pub observed_count : Option ℕ
  pub has_kind : Bool
  pub from_failed_attempt : Bool
  pub contested : Bool
  pub score : ℕ

pub record Passage : Type 0 where
  pub chunk_id : ℕ
  pub source : Option String
  pub score : ℕ

abbrev pub max_facts : ℕ
max_facts = 8

abbrev pub max_passages : ℕ
max_passages = 5

unfoldable pub from_failed_run : Passage → Bool
from_failed_run p = elim p.source [ none ↦ false | some s ↦ ends_with "_failed" s ]

-- The statuses that the packet leaves out of the present; `ended` is not one of them.
abbrev pub is_past : Hit → Bool
is_past h = contains h.status ("superseded" ∷ "retracted" ∷ "expired" ∷ [])

-- `node.observed_count or 1`
abbrev pub count_of : Hit → ℕ
count_of h = elim h.observed_count [ none ↦ 1 | some n ↦ if n == 0 then 1 else n ]

abbrev pub is_value : Hit → Bool
is_value h = str_eq h.type "MetricValue"

-- How many shared words an anchor needs: one if it is keyed.
abbrev pub needed : Hit → ℕ
needed h = if starts_with "state:" h.key || starts_with "pref:" h.key then 1 else 2

-- What the packet is asked for.
pub record Request : Type 0 where
  pub as_of : Option ℕ
  pub agent_mode : Bool
  pub max_passages : Option ℕ

pub record Packet : Type 0 where
  pub facts : List Hit
  pub unverified : List Hit
  pub passages : List Passage
  pub contested : List Hit
  pub value_lead : Option Hit
  pub gaps : List String
  pub top_fact_id : Option ℕ
  pub served_chunk_ids : List ℕ
  pub served_node_ids : List ℕ

-- `facts.remove(lead)`
abbrev pub remove_hit : ℕ → List Hit → List Hit
remove_hit n [] = []
remove_hit n (h ∷ hs) = if h.id == n then hs else h ∷ remove_hit n hs

abbrev pub first_id : List Hit → Option ℕ
first_id [] = none
first_id (h ∷ hs) = some h.id

-- What memory does not know.
abbrev pub gaps_of : List Hit → List Passage → List String
gaps_of [] [] = "No stored knowledge matched — answer from first principles and say so." ∷ []
gaps_of [] (p ∷ ps) =
    "No structured facts — only verbatim passages; treat as unvetted context." ∷ []
gaps_of (f ∷ facts) ps = []

module _ (decayed : Hit → ℕ) (recent : Passage → ℕ) (overlap : Hit → ℕ) where
  -- Reads of the past skip the decay, and so do facts without a kind.
  abbrev pub fact_score : Request → Hit → ℕ
  fact_score r h = if is_some r.as_of || not h.has_kind then h.score else decayed h

  -- The higher score first, then the higher count; equal ranks keep their order.
  abbrev pub ranks_above : Request → Hit → Hit → Bool
  ranks_above r a b =
      ltb (fact_score r b) (fact_score r a)
      || ((fact_score r a == fact_score r b) && leb (count_of b) (count_of a))

  unfoldable pub ranked_hits : Request → List Hit → List Hit
  ranked_hits r hits =
      let sorted = sort_by (ranks_above r) hits in
      if is_some r.as_of then sorted else filter (λ h. not (is_past h)) sorted

  -- A passage of a failed run weighs six tenths.
  abbrev pub passage_score : Request → Passage → ℕ
  passage_score r p =
      (if is_some r.as_of then p.score else recent p) * (if from_failed_run p then 6 else 10)

  -- `max_passages or MAX_PASSAGES`
  abbrev pub passage_limit : Request → ℕ
  passage_limit r = elim r.max_passages [
    | none ↦ max_passages
    | some n ↦ if n == 0 then max_passages else n
  ]

  unfoldable pub choose_passages : Request → List Passage → List Passage
  choose_passages r ps =
      let sorted = sort_by (λ a b. leb (passage_score r b) (passage_score r a)) ps in
      take (passage_limit r)
        (if r.agent_mode then filter (λ p. not (from_failed_run p)) sorted else sorted)

  -- The value with the most shared words, the first of those.
  unfoldable pub leading_value : Option Hit → ℕ → List Hit → Option Hit
  leading_value best most [] = best
  leading_value best most (h ∷ hs) =
      let better = is_value h && leb (needed h) (overlap h) && ltb most (overlap h) in
      leading_value (if better then some h else best) (if better then overlap h else most) hs

  -- The value that answers the query leads.
  unfoldable pub lead_with : Option Hit → List Hit → List Hit
  lead_with none facts = facts
  lead_with (some h) facts = h ∷ remove_hit h.id facts

  unfoldable pub build_packet : Request → List Hit → List Passage → Packet
  build_packet r hits ps =
      let ranked = ranked_hits r hits in
      let unverified = take max_facts (filter (λ h. h.from_failed_attempt) ranked) in
      let verified = take max_facts (filter (λ h. not h.from_failed_attempt) ranked) in
      let passages = choose_passages r ps in
      let lead = leading_value none 0 verified in
      let facts = lead_with lead verified in
      record {
        facts = facts;
        unverified = unverified;
        passages = passages;
        contested = filter (λ h. h.contested) verified;
        value_lead = lead;
        gaps = gaps_of facts passages;
        top_fact_id = first_id facts;
        served_chunk_ids = map (λ p. p.chunk_id) passages;
        served_node_ids = map (λ h. h.id) (facts ++ unverified);
      }
