-- ===== src/Fold/Extractor/Canonical.antt =====
-- The canonical entities of pipeline/extractor.py, and the keys that they stand for.
use mlpal_memory.Prelude.{String, Option, List, [], ◌∷◌, All, or_else}
use mlpal_memory.Fold.{EntitySpec, Extraction}
use mlpal_memory.Fold.Extractor.{Keys, add_named, canonical, canonical_keys, add_all}
use mlpal_memory.Fold.Extractor.Keeping.{
  IsGrounded, Has, Keeps, Keeps-refl, Keeps-trans, Has-Keeps, Has-added, Keeps-add_entity,
}

-- The ids that name an entity, with its type.
abbrev HasAll : List (String × Option String) → List EntitySpec → Type 0
HasAll ps ents = All (λ p. Has p.0 p.1 ents) ps

pub Keeps-add_all :
    (keys : List (String × Option String)) (out : Extraction) → Keeps out (add_all keys out)
unfolding add_all
Keeps-add_all [] out = Keeps-refl out
Keeps-add_all ((t, k) ∷ keys) out =
    Keeps-trans out (add_named t k out) _ (Keeps-add_entity t k (or_else k "") [] out)
      (Keeps-add_all keys (add_named t k out))

HasAll-add_all :
    (keys : List (String × Option String)) (out : Extraction)
    → HasAll keys (add_all keys out).entities
unfolding add_all
HasAll-add_all [] out = tt
HasAll-add_all ((t, k) ∷ keys) out = (
  Has-Keeps t k (add_named t k out) (add_all keys (add_named t k out))
      (Keeps-add_all keys (add_named t k out)) (Has-added t k (or_else k "") [] out),
  HasAll-add_all keys (add_named t k out),
)

-- What the canonical entities give the rules.
pub record HasKeys (k : Keys) (out : Extraction) : Type 0 where
  pub org : Has "Org" k.org out.entities
  pub user : Has "User" k.user out.entities
  pub agent : Has "Agent" k.agent out.entities
  pub server : Has "MCPServer" k.server out.entities
  pub skill : Has "Skill" k.skill out.entities
  pub chat : Has "Chat" k.chat out.entities
  pub tool : Has "Tool" k.tool out.entities

abbrev nothing : Extraction
nothing = record { entities = []; edges = []; invalidations = [] }

pub HasKeys-canonical : (k : Keys) → HasKeys k (canonical k)
unfolding canonical
HasKeys-canonical k =
    let all = HasAll-add_all (canonical_keys k) nothing in
    record {
      org = all.0;
      user = all.1.0;
      agent = all.1.1.1.0;
      server = all.1.1.1.1.0;
      skill = all.1.1.1.1.1.0;
      chat = all.1.1.1.1.1.1.0;
      tool = all.1.1.1.1.1.1.1.0;
    }

pub IsGrounded-canonical : (k : Keys) → IsGrounded (canonical k)
unfolding canonical
IsGrounded-canonical k =
    (Keeps-add_all (canonical_keys k) nothing).grounded (record { edges = tt; invalidations = tt })

pub HasKeys-Keeps :
    (k : Keys) (out out' : Extraction) → Keeps out out' → HasKeys k out → HasKeys k out'
HasKeys-Keeps k out out' h p = record {
  org = Has-Keeps "Org" k.org out out' h p.org;
  user = Has-Keeps "User" k.user out out' h p.user;
  agent = Has-Keeps "Agent" k.agent out out' h p.agent;
  server = Has-Keeps "MCPServer" k.server out out' h p.server;
  skill = Has-Keeps "Skill" k.skill out out' h p.skill;
  chat = Has-Keeps "Chat" k.chat out out' h p.chat;
  tool = Has-Keeps "Tool" k.tool out out' h p.tool;
}
