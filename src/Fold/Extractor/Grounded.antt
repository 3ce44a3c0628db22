-- ===== src/Fold/Extractor/Grounded.antt =====
-- The rules of pipeline/extractor.py name only entities that they also make.
use mlpal_memory.Prelude.{String, ◌≡◌, refl, Option, none, some, arith}
use mlpal_memory.Json.{Json, null, bool, num, str, arr, obj, get}
use mlpal_memory.Fold.{Episode, Extraction}
use mlpal_memory.Fold.Extractor.{
  Keys, keys_of, link, canonical, Rule, rule_of, apply_rule, extract, tools_of, text_at, text_of,
  first_of, present,
}
use mlpal_memory.Fold.Extractor.Keeping.{IsGrounded, Keeps, Keeps-refl, Keeps-link}
use mlpal_memory.Fold.Extractor.Canonical.{
  HasKeys, HasKeys-canonical, IsGrounded-canonical, HasKeys-Keeps,
}
use mlpal_memory.Fold.Extractor.Steps.{
  Keeps-status, Keeps-observe_fact, Keeps-end_membership, Keeps-deployed_agent,
  Keeps-deployed_server, Keeps-invoked, Keeps-member,
}

Keeps-apply_rule :
    (slug : String → String) (rule : Rule) (k : Keys) (ep : Episode) (out : Extraction)
    → HasKeys k out
    → present k.target ≡ k.target
    → present k.org ≡ k.org
    → Keeps out (apply_rule slug rule k ep out)
unfolding apply_rule
Keeps-apply_rule slug Rule.agent_written k ep out h p q =
    Keeps-link _ _ k.user _ k.agent _ out h.user h.agent
Keeps-apply_rule slug Rule.agent_deployed k ep out h p q = Keeps-deployed_agent k _ out h
Keeps-apply_rule slug Rule.agent_stopped k ep out h p q = Keeps-status _ k.agent _ out h.agent
Keeps-apply_rule slug Rule.server_written k ep out h p q =
    Keeps-link _ _ k.user _ k.server _ out h.user h.server
Keeps-apply_rule slug Rule.server_deployed k ep out h p q =
    Keeps-deployed_server k (tools_of ep) _ out h
Keeps-apply_rule slug Rule.server_switched k ep out h p q = Keeps-status _ k.server _ out h.server
Keeps-apply_rule slug Rule.tool_invoked k ep out h p q = Keeps-invoked k _ out h
Keeps-apply_rule slug Rule.skill_written k ep out h p q =
    Keeps-link _ _ k.user _ k.skill _ out h.user h.skill
Keeps-apply_rule slug Rule.skill_used k ep out h p q =
    Keeps-link _ _ k.user _ k.skill _ out h.user h.skill
Keeps-apply_rule slug Rule.chat_joined k ep out h p q =
    Keeps-link _ _ k.user _ k.chat _ out h.user h.chat
Keeps-apply_rule slug Rule.member_named k ep out h p q = Keeps-member k out h
Keeps-apply_rule slug Rule.member_removed k ep out h p q =
    Keeps-end_membership k.target k.org out p q h.org
Keeps-apply_rule slug Rule.fact_observed k ep out h p q =
    Keeps-observe_fact slug k.user (text_at "statement" ep.payload) out h.user
Keeps-apply_rule slug Rule.no_rule k ep out h p q = Keeps-refl out

present-present : (k : Option String) → present (present k) ≡ present k
present-present none = refl
present-present (some k) = ground arith

present-text_of : (v : Option Json) → present (text_of v) ≡ text_of v
present-text_of none = refl
present-text_of (some (str s)) = present-present (some s)
present-text_of (some null) = refl
present-text_of (some (bool b)) = refl
present-text_of (some (num n)) = refl
present-text_of (some (arr xs)) = refl
present-text_of (some (obj fs)) = refl

present-first_of :
    (a b : Option String) → present a ≡ a → present b ≡ b → present (first_of a b) ≡ first_of a b
present-first_of none b p q = q
present-first_of (some a) b p q = p

present-target : (ep : Episode) → present (keys_of ep).target ≡ (keys_of ep).target
unfolding keys_of
present-target ep =
    present-first_of (text_at "target_user_id" ep.subject) (present ep.actor.user_id)
      (present-text_of (get "target_user_id" ep.subject)) (present-present ep.actor.user_id)

-- Whatever the event is, both ends of every edge and of every explicit end that the rules make are entities
-- that they make too.
pub extract-IsGrounded : (slug : String → String) (ep : Episode) → IsGrounded (extract slug ep)
unfolding extract keys_of
extract-IsGrounded slug ep =
    let k = keys_of ep in
    let has = HasKeys-canonical k in
    let linked = link "MEMBER_OF" "User" k.user "Org" k.org none (canonical k) in
    let keeps =
      Keeps-link "MEMBER_OF" "User" k.user "Org" k.org none (canonical k) has.user has.org in
    (Keeps-apply_rule slug (rule_of ep.action_type) k ep linked
        (HasKeys-Keeps k (canonical k) linked keeps has) (present-target ep)
        (present-present ep.org_id)).grounded
      (keeps.grounded (IsGrounded-canonical k))
