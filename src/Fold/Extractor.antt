-- ===== src/Fold/Extractor.antt =====
-- pipeline/extractor.py, `extract`: the rules that make entities, edges and ends of a structured event. The
-- ids of actor and subject are texts. The slug of a statement is a parameter, never empty.
pub mod Keeping
pub mod Canonical
pub mod Steps
pub mod Grounded
use mlpal_memory.Prelude.{
  ℕ, String, Bool, true, false, ◌&&◌, ◌||◌, not, Option, none, some, List, [], ◌∷◌, ◌++◌, ◌<>◌, any,
  str_eq, is_some, or_else, if◌then◌else◌,
}
use mlpal_memory.Json.{Json, str, arr, Items, nil, cons, Props, get}
use mlpal_memory.Fold.{Episode, EntitySpec, EdgeSpec, Extraction}

-- `EDGE_CLASSES` of ontology/core.py: the relations that hold one value.
abbrev functional : String → Bool
functional edge_type = str_eq edge_type "HAS_STATUS" || str_eq edge_type "HAS_VALUE"

-- A key that is there and not empty.
abbrev pub present : Option String → Option String
present none = none
present (some k) = if str_eq k "" then none else some k

-- A value that is a text, and not empty.
abbrev pub text_of : Option Json → Option String
text_of none = none
text_of (some (str s)) = present (some s)
text_of (some _) = none

-- `subj.get(key)`
abbrev pub text_at : String → Props → Option String
text_at key props = text_of (get key props)

-- `a or b`
abbrev pub first_of : Option String → Option String → Option String
first_of none b = b
first_of (some a) b = some a

-- `(type_, key) in seen`
abbrev pub is_seen : String → String → List EntitySpec → Bool
is_seen type key = any (λ ent. str_eq ent.type type && str_eq ent.key key)

unfoldable pub add_entity : String → Option String → String → Props → Extraction → Extraction
add_entity type none name props out = out
add_entity type (some key) name props out =
    if str_eq key "" then out else if is_seen type key out.entities then out else record out {
      entities = out.entities ++ record { type = type; key = key; name = name; props = props } ∷ [];
    }

-- An entity that is named by its key.
abbrev pub add_named : String → Option String → Extraction → Extraction
add_named type key out = add_entity type key (or_else key "") [] out

-- `if sk and dk:`
unfoldable pub link :
    String
    → String
    → Option String
    → String
    → Option String
    → Option String
    → Extraction
    → Extraction
link type src_type none dst_type dk fact out = out
link type src_type (some sk) dst_type none fact out = out
link type src_type (some sk) dst_type (some dk) fact out =
    if str_eq sk "" || str_eq dk "" then out else record out {
      edges =
          out.edges
          ++ record {
            type = type;
            src_type = src_type;
            src_key = sk;
            dst_type = dst_type;
            dst_key = dk;
            fact = fact;
            functional = functional type;
            props = [];
          }
            ∷ [];
    }

-- `status`: a lifecycle status is a node of its own.
unfoldable pub status : String → Option String → String → Extraction → Extraction
status stype none value out = out
status stype (some skey) value out =
    link "HAS_STATUS" stype (some skey) "Status" (some value)
      (some (stype <> " " <> skey <> " is " <> value)) (add_named "Status" (some value) out)

-- The ids that the rules read; `target` is `subj.get("target_user_id") or user`.
pub record Keys : Type 0 where
  pub org : Option String
  pub user : Option String
  pub team : Option String
  pub agent : Option String
  pub server : Option String
  pub skill : Option String
  pub chat : Option String
  pub tool : Option String
  pub artifact : Option String
  pub target : Option String

unfoldable pub keys_of : Episode → Keys
keys_of ep = record {
  org = present ep.org_id;
  user = present ep.actor.user_id;
  team = present ep.actor.team_id;
  agent = text_at "agent_id" ep.subject;
  server = text_at "server_id" ep.subject;
  skill = text_at "skill_id" ep.subject;
  chat = text_at "chat_id" ep.subject;
  tool = text_at "tool_name" ep.subject;
  artifact = text_at "artifact_ref" ep.subject;
  target = first_of (text_at "target_user_id" ep.subject) (present ep.actor.user_id);
}

-- The canonical entities, in the order in which they are added.
abbrev pub canonical_keys : Keys → List (String × Option String)
canonical_keys k =
    ("Org", k.org)
    ∷ ("User", k.user)
    ∷ ("Team", k.team)
    ∷ ("Agent", k.agent)
    ∷ ("MCPServer", k.server)
    ∷ ("Skill", k.skill)
    ∷ ("Chat", k.chat)
    ∷ ("Tool", k.tool)
    ∷ ("Artifact", k.artifact)
    ∷ []

unfoldable pub add_all : List (String × Option String) → Extraction → Extraction
add_all [] out = out
add_all ((type, key) ∷ keys) out = add_all keys (add_named type key out)

unfoldable pub canonical : Keys → Extraction
canonical k = add_all (canonical_keys k) (record { entities = []; edges = []; invalidations = [] })

-- A fact's sentence about the user: without a user there is no edge to carry it.
abbrev by_user : Keys → String → Option String
by_user k what = some (or_else k.user "" <> what)

-- A deployed server exposes its tools.
unfoldable pub expose_tools : Option String → List String → Extraction → Extraction
expose_tools server [] out = out
expose_tools server (tool ∷ tools) out =
    expose_tools server tools
      (link "EXPOSES" "MCPServer" server "Tool" (some tool) none (add_named "Tool" (some tool) out))

-- The names of the tools are texts; what `str` makes of other values is left out.
abbrev strings : Items → List String
strings nil = []
strings (cons (str s) xs) = s ∷ strings xs
strings (cons _ xs) = strings xs

abbrev pub tools_of : Episode → List String
tools_of ep = elim (get "tools" ep.payload) [ some (arr xs) ↦ strings xs | _ ↦ [] ]

-- A member who was removed: the relation ends.
unfoldable pub end_membership : Option String → Option String → Extraction → Extraction
end_membership none org out = out
end_membership (some target) none out = out
end_membership (some target) (some org) out =
    let out' = add_named "User" (some target) out in
    record out' {
      invalidations =
          out'.invalidations
          ++ record {
            type = "MEMBER_OF";
            src_type = "User";
            src_key = target;
            dst_type = "Org";
            dst_key = org;
            fact = none;
            functional = false;
            props = [];
          }
            ∷ [];
    }

unfoldable pub observe_fact :
    (String → String) → Option String → Option String → Extraction → Extraction
observe_fact slug user none out = out
observe_fact slug user (some stmt) out =
    link "DECIDED" "User" user "Fact" (some (slug stmt)) (some stmt)
      (add_entity "Fact" (some (slug stmt)) stmt (("statement", str stmt) ∷ []) out)

abbrev or_named : String → List String → Bool
or_named at names = any (λ n. str_eq at n) names

-- The branches of `if at …: elif at …:`.
pub data Rule : Type 0 where
  agent_written agent_deployed agent_stopped server_written server_deployed server_switched
        tool_invoked :
      Rule
  skill_written skill_used chat_joined member_named member_removed fact_observed no_rule : Rule

unfoldable pub rule_of : String → Rule
rule_of at =
    if or_named at ("agent.created" ∷ "agent.updated" ∷ [])
    then Rule.agent_written
    else if str_eq at "agent.deployed"
    then Rule.agent_deployed
    else if str_eq at "agent.stopped"
    then Rule.agent_stopped
    else if str_eq at "mcp.created"
    then Rule.server_written
    else if str_eq at "mcp.deployed"
    then Rule.server_deployed
    else if or_named at ("mcp.stopped" ∷ "mcp.started" ∷ [])
    then Rule.server_switched
    else if str_eq at "mcp.tool.invoked"
    then Rule.tool_invoked
    else if or_named at ("skill.created" ∷ "skill.published" ∷ [])
    then Rule.skill_written
    else if or_named at ("skill.installed" ∷ "skill.loaded" ∷ "skill.used" ∷ [])
    then Rule.skill_used
    else if or_named at ("chat.message" ∷ "chat.trace" ∷ [])
    then Rule.chat_joined
    else if or_named at ("org.member_added" ∷ "org.role_changed" ∷ [])
    then Rule.member_named
    else if str_eq at "org.member_removed"
    then Rule.member_removed
    else if str_eq at "fact.observed"
    then Rule.fact_observed
    else Rule.no_rule

unfoldable pub apply_rule : (String → String) → Rule → Keys → Episode → Extraction → Extraction
apply_rule slug Rule.agent_written k ep out =
    link "AUTHORED" "User" k.user "Agent" k.agent (by_user k " authored agent") out
apply_rule slug Rule.agent_deployed k ep out =
    status "Agent" k.agent "running"
      (link "DEPLOYED" "User" k.user "Agent" k.agent (by_user k " deployed agent") out)
apply_rule slug Rule.agent_stopped k ep out = status "Agent" k.agent "stopped" out
apply_rule slug Rule.server_written k ep out =
    link "AUTHORED" "User" k.user "MCPServer" k.server (by_user k " authored MCP") out
apply_rule slug Rule.server_deployed k ep out = expose_tools k.server (tools_of ep) (
    status "MCPServer" k.server "running"
      (link "DEPLOYED" "User" k.user "MCPServer" k.server (by_user k " deployed MCP") out))
apply_rule slug Rule.server_switched k ep out =
    status "MCPServer" k.server
      (if str_eq ep.action_type "mcp.stopped" then "stopped" else "running") out
apply_rule slug Rule.tool_invoked k ep out =
    link "EXPOSES" "MCPServer" k.server "Tool" k.tool none
      (link "INVOKED" "User" k.user "Tool" k.tool (by_user k " invoked tool") out)
apply_rule slug Rule.skill_written k ep out =
    link "AUTHORED" "User" k.user "Skill" k.skill (by_user k (" " <> ep.action_type)) out
apply_rule slug Rule.skill_used k ep out = link "USED_SKILL" "User" k.user "Skill" k.skill none out
apply_rule slug Rule.chat_joined k ep out =
    link "PARTICIPATED_IN" "User" k.user "Chat" k.chat none out
apply_rule slug Rule.member_named k ep out =
    link "MEMBER_OF" "User" k.target "Org" k.org none (add_named "User" k.target out)
apply_rule slug Rule.member_removed k ep out = end_membership k.target k.org out
apply_rule slug Rule.fact_observed k ep out =
    observe_fact slug k.user (text_at "statement" ep.payload) out
apply_rule slug Rule.no_rule k ep out = out

-- The baseline membership needs no test of its own: `MEMBER_OF` is not functional, as its spec says.
unfoldable pub extract : (String → String) → Episode → Extraction
extract slug ep =
    let k = keys_of ep in
    apply_rule slug (rule_of ep.action_type) k ep
      (link "MEMBER_OF" "User" k.user "Org" k.org none (canonical k))
