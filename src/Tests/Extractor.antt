-- ===== src/Tests/Extractor.antt =====
-- The rules on concrete events.
use mlpal_memory.Prelude.{◌≡◌, refl, String, some, none, Option, List, [], ◌∷◌, length}
use mlpal_memory.Json.{Json, Props, get}
use mlpal_memory.Fold.{Episode, EdgeSpec}
use mlpal_memory.Fold.Extractor.{
  add_entity, link, status, keys_of, add_all, canonical, expose_tools, end_membership, observe_fact,
  rule_of, apply_rule, extract,
}
use mlpal_memory.Fold.Extractor.Keeping.{IsGrounded}
use mlpal_memory.Fold.Extractor.Grounded.{extract-IsGrounded}
use mlpal_memory.Fold.Entities.{Fold}
use mlpal_memory.Fold.Relations.{Tally}
use mlpal_memory.Fold.Process.{fold_extraction}
use mlpal_memory.Fold.Process.Counts.{fold_extraction-extract}
use mlpal_memory.Tests.Fold.{episode_at, world, empty, acme, program as fold_program}

program : Unit {0}
unfolding get add_entity link status keys_of add_all canonical expose_tools end_membership
    observe_fact rule_of apply_rule extract
program = tt

abbrev event : String → Props → Episode
event action subject = record (episode_at 20 "committed") {
  action_type = action;
  subject = subject;
  payload = [];
}

abbrev types : List EdgeSpec → List String
types [] = []
types (e ∷ es) = e.type ∷ types es

deployed_links :
    types (extract (λ t. t) (event "agent.deployed" (("agent_id", Json.str "a1") ∷ []))).edges
    ≡ "MEMBER_OF" ∷ "DEPLOYED" ∷ "HAS_STATUS" ∷ []
unfolding program
deployed_links = refl

removed_ends :
    types
      (extract
        (λ t. t)
        (event "org.member_removed" (("target_user_id", Json.str "u2") ∷ []))).invalidations
    ≡ "MEMBER_OF" ∷ []
unfolding program
removed_ends = refl

deployed_wired :
    IsGrounded (extract (λ t. t) (event "agent.deployed" (("agent_id", Json.str "a1") ∷ [])))
deployed_wired =
    extract-IsGrounded (λ t. t) (event "agent.deployed" (("agent_id", Json.str "a1") ∷ []))

abbrev deployed : Episode
deployed = event "agent.deployed" (("agent_id", Json.str "a1") ∷ [])

abbrev at_org : Fold
at_org = record { episode = deployed; scope = acme; now = 50 }

abbrev tally_of : Option Tally → Tally
tally_of none = record { edges = 0; judged = 0; ended = 0; store = empty }
tally_of (some t) = t

abbrev written : Tally
written = tally_of (fold_extraction (world "10" []) at_org (extract (λ t. t) deployed) empty)

written_is : fold_extraction (world "10" []) at_org (extract (λ t. t) deployed) empty ≡ some written
unfolding program fold_program
written_is = refl

deployed_counts : written.edges ≡ length (extract (λ t. t) deployed).edges
deployed_counts =
    fold_extraction-extract (world "10" []) at_org (λ t. t) deployed empty written written_is
