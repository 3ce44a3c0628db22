-- ===== src/Fold/Extractor/Steps.antt =====
-- The steps of the rules of pipeline/extractor.py that make more than one entity or link.
use mlpal_memory.Prelude.{
  String, ◌≡◌, true, false, Option, none, some, inl, inr, List, [], ◌∷◌, arith, All-append, str_eq,
  or_else, Bool-cases,
}
use mlpal_memory.Fold.{Extraction}
use mlpal_memory.Fold.Extractor.{
  Keys, is_seen, add_entity, add_named, link, status, expose_tools, end_membership, observe_fact,
  present,
}
use mlpal_memory.Fold.Extractor.Keeping.{
  JoinsSeen, Has, Keeps, Keeps-refl, Keeps-trans, Has-Keeps, Has-added, Keeps-add_entity,
  Keeps-link,
}
use mlpal_memory.Fold.Extractor.Canonical.{HasKeys}

pub Keeps-status :
    (stype : String) (skey : Option String) (value : String) (out : Extraction)
    → Has stype skey out.entities
    → Keeps out (status stype skey value out)
unfolding status
Keeps-status stype none value out h = Keeps-refl out
Keeps-status stype (some skey) value out h =
    let named = add_named "Status" (some value) out in
    let keeps : Keeps out named = Keeps-add_entity "Status" (some value) value [] out in
    Keeps-trans out named _ keeps (
      Keeps-link "HAS_STATUS" stype (some skey) "Status" (some value) _ named
        (Has-Keeps stype (some skey) out named keeps h)
        (Has-added "Status" (some value) value [] out))

pub Keeps-expose_tools :
    (server : Option String) (tools : List String) (out : Extraction)
    → Has "MCPServer" server out.entities
    → Keeps out (expose_tools server tools out)
unfolding expose_tools
Keeps-expose_tools server [] out h = Keeps-refl out
Keeps-expose_tools server (tool ∷ tools) out h =
    let named = add_named "Tool" (some tool) out in
    let linked = link "EXPOSES" "MCPServer" server "Tool" (some tool) none named in
    let first : Keeps out named = Keeps-add_entity "Tool" (some tool) tool [] out in
    let second : Keeps named linked =
      Keeps-link "EXPOSES" "MCPServer" server "Tool" (some tool) none named
        (Has-Keeps "MCPServer" server out named first h)
        (Has-added "Tool" (some tool) tool [] out) in
    let both = Keeps-trans out named linked first second in
    Keeps-trans out linked _ both
      (Keeps-expose_tools server tools linked (Has-Keeps "MCPServer" server out linked both h))

pub Keeps-observe_fact :
    (slug : String → String) (user stmt : Option String) (out : Extraction)
    → Has "User" user out.entities
    → Keeps out (observe_fact slug user stmt out)
unfolding observe_fact
Keeps-observe_fact slug user none out h = Keeps-refl out
Keeps-observe_fact slug user (some stmt) out h =
    let named = add_entity "Fact" (some (slug stmt)) stmt _ out in
    let keeps : Keeps out named = Keeps-add_entity "Fact" (some (slug stmt)) stmt _ out in
    Keeps-trans out named _ keeps (
      Keeps-link "DECIDED" "User" user "Fact" (some (slug stmt)) (some stmt) named
        (Has-Keeps "User" user out named keeps h) (Has-added "Fact" (some (slug stmt)) stmt _ out))

-- A key that is left as it is when empty keys are dropped is not empty.
filled_present : (k : String) → present (some k) ≡ some k → str_eq k "" ≡ false
filled_present k h = elim (Bool-cases (str_eq k "")) [
  | inl y ↦ absurd (ground (arith, h, y))
  | inr n ↦ n
]

pub Keeps-end_membership :
    (target org : Option String) (out : Extraction)
    → present target ≡ target
    → present org ≡ org
    → Has "Org" org out.entities
    → Keeps out (end_membership target org out)
unfolding end_membership
Keeps-end_membership none org out p q h = Keeps-refl out
Keeps-end_membership (some target) none out p q h = Keeps-refl out
Keeps-end_membership (some target) (some org) out p q h =
    let named = add_named "User" (some target) out in
    let keeps : Keeps out named = Keeps-add_entity "User" (some target) target [] out in
    let user : is_seen "User" target named.entities ≡ true =
      Has-added "User" (some target) target [] out (filled_present target p) in
    let owner : is_seen "Org" org named.entities ≡ true =
      keeps.seen "Org" org (h (filled_present org q)) in
    record {
      grounded = λ g. record {
        edges = (keeps.grounded g).edges;
        invalidations =
            All-append (JoinsSeen named.entities) named.invalidations _
              (keeps.grounded g).invalidations ((user, owner), tt);
      };
      seen = keeps.seen;
    }

pub Keeps-deployed_agent :
    (k : Keys) (fact : Option String) (out : Extraction)
    → HasKeys k out
    → Keeps out
        (status "Agent" k.agent "running" (link "DEPLOYED" "User" k.user "Agent" k.agent fact out))
Keeps-deployed_agent k fact out h =
    let linked = link "DEPLOYED" "User" k.user "Agent" k.agent fact out in
    let keeps = Keeps-link "DEPLOYED" "User" k.user "Agent" k.agent fact out h.user h.agent in
    Keeps-trans out linked _ keeps (
      Keeps-status "Agent" k.agent "running" linked
        (Has-Keeps "Agent" k.agent out linked keeps h.agent))

pub Keeps-deployed_server :
    (k : Keys) (tools : List String) (fact : Option String) (out : Extraction)
    → HasKeys k out
    → Keeps out (
        expose_tools k.server tools (
          status "MCPServer" k.server "running"
            (link "DEPLOYED" "User" k.user "MCPServer" k.server fact out)))
Keeps-deployed_server k tools fact out h =
    let linked = link "DEPLOYED" "User" k.user "MCPServer" k.server fact out in
    let running = status "MCPServer" k.server "running" linked in
    let keeps = Keeps-link "DEPLOYED" "User" k.user "MCPServer" k.server fact out h.user h.server in
    let keeps' = Keeps-trans out linked running keeps (
      Keeps-status "MCPServer" k.server "running" linked
        (Has-Keeps "MCPServer" k.server out linked keeps h.server)) in
    Keeps-trans out running _ keeps' (
      Keeps-expose_tools k.server tools running
        (Has-Keeps "MCPServer" k.server out running keeps' h.server))

pub Keeps-invoked :
    (k : Keys) (fact : Option String) (out : Extraction)
    → HasKeys k out
    → Keeps out (
        link "EXPOSES" "MCPServer" k.server "Tool" k.tool none
          (link "INVOKED" "User" k.user "Tool" k.tool fact out))
Keeps-invoked k fact out h =
    let linked = link "INVOKED" "User" k.user "Tool" k.tool fact out in
    let keeps = Keeps-link "INVOKED" "User" k.user "Tool" k.tool fact out h.user h.tool in
    Keeps-trans out linked _ keeps (
      Keeps-link "EXPOSES" "MCPServer" k.server "Tool" k.tool none linked
        (Has-Keeps "MCPServer" k.server out linked keeps h.server)
        (Has-Keeps "Tool" k.tool out linked keeps h.tool))

pub Keeps-member :
    (k : Keys) (out : Extraction)
    → HasKeys k out
    → Keeps out (link "MEMBER_OF" "User" k.target "Org" k.org none (add_named "User" k.target out))
Keeps-member k out h =
    let named = add_named "User" k.target out in
    let keeps : Keeps out named = Keeps-add_entity "User" k.target (or_else k.target "") [] out in
    Keeps-trans out named _ keeps (
      Keeps-link "MEMBER_OF" "User" k.target "Org" k.org none named
        (Has-added "User" k.target (or_else k.target "") [] out)
        (Has-Keeps "Org" k.org out named keeps h.org))
