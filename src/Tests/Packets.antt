-- ===== src/Tests/Packets.antt =====
-- Packets: what is served of three facts and two passages, now and as of an instant.
use mlpal_memory.Prelude.{ℕ, ◌≡◌, refl, Bool, true, false, none, some, String, List, [], ◌∷◌}
use mlpal_memory.Packets.{
  Hit, Passage, Request, Packet, from_failed_run, passage_limit, ranked_hits, choose_passages,
  leading_value, lead_with, build_packet,
}
use mlpal_memory.Packets.Servable.{IsServable, build_packet-IsServable}

program : Unit {0}
unfolding from_failed_run ranked_hits choose_passages leading_value lead_with build_packet
program = tt

abbrev hit : ℕ → String → String → Bool → ℕ → Hit
hit n type status failed score = record {
  id = n;
  name = "disk status=ok";
  key = "state:disk";
  type = type;
  status = status;
  observed_count = none;
  has_kind = false;
  from_failed_attempt = failed;
  contested = false;
  score = score;
}

abbrev hits : List Hit
hits =
    hit 1 "MetricValue" "superseded" false 9
    ∷ hit 2 "Insight" "committed" false 5
    ∷ hit 3 "Insight" "committed" true 8
    ∷ hit 4 "MetricValue" "committed" false 3
    ∷ []

abbrev passages : List Passage
passages =
    record { chunk_id = 7; source = some "run_failed"; score = 9 }
    ∷ record { chunk_id = 8; source = some "doc"; score = 6 }
    ∷ []

abbrev asked : Request
asked = record { as_of = none; agent_mode = true; max_passages = none }

abbrev decayed : Hit → ℕ
decayed h = h.score

abbrev recent : Passage → ℕ
recent p = p.score

abbrev overlap : Hit → ℕ
overlap h = 1

abbrev served : Request → Packet
served r = build_packet decayed recent overlap r hits passages

-- The value leads, the superseded one is left out, and so is the passage of the failed run.
served_now : (served asked).served_node_ids ≡ 4 ∷ 2 ∷ 3 ∷ []
unfolding program
served_now = refl

chunks_now : (served asked).served_chunk_ids ≡ 8 ∷ []
unfolding program
chunks_now = refl

-- As of an instant the value of then leads.
served_then :
    (served (record { as_of = some 2; agent_mode = false; max_passages = some 1 })).served_node_ids
    ≡ 1 ∷ 2 ∷ 4 ∷ 3 ∷ []
unfolding program
served_then = refl

build_packet-IsServable_example :
    IsServable asked (passage_limit decayed recent overlap asked) (served asked)
build_packet-IsServable_example = build_packet-IsServable decayed recent overlap asked hits passages
