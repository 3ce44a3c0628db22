-- ===== src/Tests/Claims.antt =====
-- Claims: a state, a preference under the same topic and key, and a watch that ends.
use mlpal_memory.Prelude.{
  ℕ, ◌≡◌, refl, String, some, none, Option, List, [], ◌∷◌, true, ◌↔◌, All, length,
}
use mlpal_memory.Prelude.Texts.{strip, lower, take_text, replace}
use mlpal_memory.Json.{str, arr, cons, nil, obj, field, end, get}
use mlpal_memory.Graph.{Edge}
use mlpal_memory.Fold.{Episode, EdgeSpec}
use mlpal_memory.Claims.{
  Readers, kind_of, anchor_key, text, valid_until, evidence_of, claim_provenance, entity_hints,
  link_entities, keyed, learned, extract_keyed, extract_learned, extract_kind, claim_kind,
  extract_claim, extract_structured, absence_target, presence_target, Kind,
}
use mlpal_memory.Claims.Slots.{HasAddressOf, HasSlotOf, extract_claim-shares_slot}
use mlpal_memory.Fold.Extractor.{
  add_entity, link, status, keys_of, add_all, canonical, expose_tools, end_membership, observe_fact,
  rule_of, apply_rule, extract,
}
use mlpal_memory.Fold.Entities.{Fold}
use mlpal_memory.Fold.Relations.{Tally}
use mlpal_memory.Fold.Process.{fold_extraction}
use mlpal_memory.Claims.Folded.{fold_extraction-extract_structured}
use mlpal_memory.Tests.Fold.{episode_at, world, empty, acme, program as fold_program}

program : Unit {0}
unfolding strip lower take_text replace get kind_of anchor_key text valid_until evidence_of
    claim_provenance entity_hints link_entities keyed learned extract_keyed extract_learned
    extract_kind claim_kind extract_claim extract_structured absence_target presence_target
    add_entity link status keys_of add_all canonical expose_tools end_membership observe_fact
    rule_of apply_rule extract
program = tt

abbrev readers : Readers
readers = record { shown = λ v. "?"; dumps = λ v. "{}"; iso_date = λ t. some t; slug = λ t. t }

abbrev claim : String → String → String → Episode
claim kind topic value = record (episode_at 20 "committed") {
  action_type = "memory.claim";
  payload =
      ("kind", str kind)
      ∷ ("topic", str topic)
      ∷ ("key", str "disk")
      ∷ ("value", str value)
      ∷ (
        "entities",
        arr (cons (obj (field "type" (str "Volume") (field "key" (str "v1") end))) nil),
      )
      ∷ [];
}

abbrev sources : List EdgeSpec → List String
sources [] = []
sources (e ∷ es) = e.src_key ∷ sources es

state_edges :
    sources (extract_claim readers (claim "state" "infra/{me}" "full")).edges
    ≡ "state:infra/u1:disk" ∷ "state:infra/u1:disk=full" ∷ []
unfolding program
state_edges = refl

preference_edges :
    sources (extract_claim readers (claim "preference" "infra" "full")).edges
    ≡ "pref:infra:disk" ∷ "pref:infra:disk=full" ∷ []
unfolding program
preference_edges = refl

short_learning : (extract_claim readers (claim "learning" "infra" "too  short")).entities ≡ []
unfolding program
short_learning = refl

ended_watch :
    absence_target readers (claim "state" "infra/state/watch/disk" "Gone, since noon") ≡ some "disk"
unfolding program
ended_watch = refl

seen_watch :
    presence_target readers (claim "state" "infra/state/watch/disk" "Ready again") ≡ some "disk"
unfolding program
seen_watch = refl

not_watched : presence_target readers (claim "state" "infra/disk" "Ready again") ≡ none
unfolding program
not_watched = refl

-- A colon in the topic lets two addresses share an anchor.
shared_anchor : anchor_key Kind.state "a:b" "c" ≡ anchor_key Kind.state "a" "b:c"
unfolding program
shared_anchor = refl

abbrev first : Episode
first = claim "state" "infra" "full"

abbrev second : Episode
second = claim "preference" "infra" "empty"

extract_claim-shares_slot_example :
    All
      (λ e.
        e.functional ≡ true
        → All
            (λ d. d.functional ≡ true → HasSlotOf readers e d ↔ HasAddressOf readers first second)
            (extract_claim readers second).edges)
      (extract_claim readers first).edges
unfolding program
extract_claim-shares_slot_example = extract_claim-shares_slot readers first second refl refl

abbrev at_org : Fold
at_org = record { episode = first; scope = acme; now = 50 }

abbrev tally_of : Option Tally → Tally
tally_of none = record { edges = 0; judged = 0; ended = 0; store = empty }
tally_of (some t) = t

abbrev written : Tally
written = tally_of (fold_extraction (world "10" []) at_org (extract_structured readers first) empty)

written_is :
    fold_extraction (world "10" []) at_org (extract_structured readers first) empty ≡ some written
unfolding program fold_program
written_is = refl

-- The user's membership, the value and the mention.
three_edges : written.edges ≡ 3
unfolding program fold_program
three_edges = refl

fold_extraction-extract_structured_example :
    written.edges ≡ length (extract_structured readers first).edges
fold_extraction-extract_structured_example =
    fold_extraction-extract_structured (world "10" []) at_org readers first empty written written_is

-- The same address an hour on: the value that stood is closed there, and its mentions stay.
abbrev later : Episode
later = record (claim "state" "infra" "empty") { occurred_at = 30 }

abbrev folded_again : Tally
folded_again = tally_of (
    fold_extraction (world "10" []) (record { episode = later; scope = acme; now = 60 })
      (extract_structured readers later) written.store)

abbrev ends : List Edge → List (String × Option ℕ)
ends [] = []
ends (e ∷ es) = (e.type, e.invalid_at) ∷ ends es

superseded_value :
    ends folded_again.store.edges
    ≡ ("MEMBER_OF", none)
      ∷ ("HAS_VALUE", some 30)
      ∷ ("MENTIONS", none)
      ∷ ("HAS_VALUE", none)
      ∷ ("MENTIONS", none)
      ∷ []
unfolding program fold_program
superseded_value = refl

-- Records of one topic and key take the same anchor, so the later one closes the earlier one's value.
abbrev entry : String → ℕ → Episode
entry value t = record (claim "record" "spend" value) { occurred_at = t }

abbrev entries : Tally → Episode → Tally
entries t ep = tally_of (
    fold_extraction (world "10" []) (record { episode = ep; scope = acme; now = 60 })
      (extract_structured readers ep) t.store)

superseded_record :
    ends (entries (entries (tally_of none) (entry "ten" 20)) (entry "twelve" 30)).store.edges
    ≡ ("MEMBER_OF", none)
      ∷ ("HAS_VALUE", some 30)
      ∷ ("MENTIONS", none)
      ∷ ("HAS_VALUE", none)
      ∷ ("MENTIONS", none)
      ∷ []
unfolding program fold_program
superseded_record = refl
