-- ===== src/Fold/Entities.antt =====
-- The entities of `Updater.process_episode`, and `Resolver.resolve_entity` of pipeline/resolver.py. What
-- raises (two rows of one identity, a date that does not parse) is `none`: the transaction is rolled back.
pub mod Known
use mlpal_memory.Prelude.{
  ℕ, String, Bool, true, false, ◌&&◌, ◌||◌, not, Option, none, some, List, [], ◌∷◌, ◌++◌, map,
  filter, contains, str_eq, leb, ◌==◌, or_else, is_none, if◌then◌else◌,
}
use mlpal_memory.Json.{
  Json, null, bool, num, str, arr, obj, Items, nil, cons, Fields, end, field, Dict, Props, get, put,
}
use mlpal_memory.Scope.{ScopeRef}
use mlpal_memory.Graph.{Node, Edge, Store, Embedding}
use mlpal_memory.Graph.Nodes.{
  Identity, NodeArgs, Found, absent, one, multiple, find_node, upsert_node,
}
use mlpal_memory.Fold.{Episode, EntitySpec}
use mlpal_memory.Fold.Stamp.{stamp_node}
use mlpal_memory.Fold.Judge.{Hit}

infixl 5 ◌>>=◌
abbrev pub ◌>>=◌ {ℓ κ} : {A : Type ℓ} {B : Type κ} → Option A → (A → Option B) → Option B
none >>= f = none
some a >>= f = f a

-- What the updater is made with: the models, the searches, the parsers and the settings.
pub record Services : Type 0 where
  pub embed_one : String → Embedding
  pub embedder_name : String
  pub embedder_dim : ℕ
  pub anchor_text : EntitySpec → String
  pub normalize_fact : Option String → Option String
  pub parse_iso : Json → Option ℕ
  pub sorted : List String → List String
  pub nearest : ScopeRef → String → Embedding → Store → Option (Node × ℕ)
  pub resolver_threshold : ℕ
  pub working_ttl : ℕ
  pub llm_enabled : Bool
  pub contradicts : Option (String → String → Bool)
  pub similarity_threshold : ℕ
  pub search_fact_edges : Edge → Store → List Hit
  pub search_limit : ℕ

-- One fold: its episode, its scope, and the clock's reading.
pub record Fold : Type 0 where
  pub episode : Episode
  pub scope : ScopeRef
  pub now : ℕ

abbrev pub is_claim : Fold → Bool
is_claim f = str_eq f.episode.action_type "memory.claim"

-- `bool(value)`
unfoldable pub truthy_json : Json → Bool
truthy_json null = false
truthy_json (bool b) = b
truthy_json (num n) = not (n == 0)
truthy_json (str s) = not (str_eq s "")
truthy_json (arr nil) = false
truthy_json (arr (cons x xs)) = true
truthy_json (obj end) = false
truthy_json (obj (field k v fs)) = true

abbrev strings : Items → List String
strings nil = []
strings (cons (str s) xs) = s ∷ strings xs
strings (cons _ xs) = strings xs

abbrev items_of : List String → Items
items_of [] = nil
items_of (s ∷ ss) = cons (str s) (items_of ss)

-- `list(props.get(key) or [])`, of a list of texts, as every writer of the key makes it.
abbrev pub names_at : String → Props → List String
names_at key props = elim (get key props) [ some (arr xs) ↦ strings xs | _ ↦ [] ]

abbrev pub authoritative : List String
authoritative =
    "Org" ∷ "Team" ∷ "User" ∷ "Agent" ∷ "MCPServer" ∷ "Tool" ∷ "Skill" ∷ "Chat" ∷ "Artifact"
    ∷ "Metric" ∷ "MetricValue" ∷ []

abbrev pub identity : Fold → String → String → Identity
identity f type key = record { tenant = f.episode.org_id; scope = f.scope; type = type; key = key }

abbrev node_args : Services → Fold → String → Props → Option Embedding → NodeArgs
node_args svc f name props embedding = record {
  name = name;
  summary = none;
  props = props;
  embedding = embedding;
  embedding_model = some svc.embedder_name;
  embedding_dim = some svc.embedder_dim;
  source = some f.episode.source;
}

abbrev upsert_spec : Services → Fold → EntitySpec → Option Embedding → Store → Option (Node × Store)
upsert_spec svc f ent embedding s =
    upsert_node (identity f ent.type ent.key) (node_args svc f ent.name ent.props embedding) f.now s

-- A match in meaning is written under its own identity, name and embedding.
abbrev upsert_match : Services → Fold → EntitySpec → Node → Store → Option (Node × Store)
upsert_match svc f ent match s =
    upsert_node (identity f match.type match.key)
      (node_args svc f match.name ent.props match.embedding) f.now s

unfoldable pub resolve_entity :
    Services → Fold → EntitySpec → Option Embedding → Store → Option (Node × Store)
resolve_entity svc f ent none s = upsert_spec svc f ent none s
resolve_entity svc f ent (some v) s =
    if contains ent.type authoritative
    then upsert_spec svc f ent (some v) s
    else elim (svc.nearest f.scope ent.type v s) [
      | none ↦ upsert_spec svc f ent (some v) s
      | some (match, score) ↦
          if leb svc.resolver_threshold score
          then upsert_match svc f ent match s
          else upsert_spec svc f ent (some v) s
    ]

unfoldable pub entity_embedding : Services → Fold → EntitySpec → Option Embedding
entity_embedding svc f ent =
    if str_eq ent.type "Fact"
    then some (svc.embed_one ent.name)
    else if is_claim f && str_eq ent.type "Metric"
    then some (svc.embed_one (svc.anchor_text ent))
    else none

-- The first name under which a node is known.
unfoldable pub find_alias : Fold → String → List String → Store → Option (Option Node)
find_alias f type [] s = some none
find_alias f type (alias ∷ aliases) s =
    let rest = find_alias f type aliases s in
    elim (find_node (identity f type alias) s.nodes) [
      | multiple ↦ none
      | one n ↦ some (some n)
      | absent ↦ rest
    ]

-- `known |= {a for a in names if a != node.key}`
abbrev pub add_names : String → List String → List String → List String
add_names key known [] = known
add_names key known (a ∷ names) =
    add_names key (if str_eq a key || contains a known then known else known ++ a ∷ []) names

unfoldable pub know_as : Services → List String → Node → Node
know_as svc names n = record n {
  props =
      put "also_known_as"
        (arr (items_of (svc.sorted (add_names n.key (names_at "also_known_as" n.props) names))))
        n.props;
}

-- A row object is written back under its id.
abbrev pub set_node : Node → Store → Store
set_node n s = record s { nodes = map (λ m. if m.id == n.id then n else m) s.nodes }

unfoldable pub named_node : Services → Fold → EntitySpec → Store → Option (Node × Store)
named_node svc f ent s = elim (names_at "aliases" ent.props) [
  | [] ↦ resolve_entity svc f ent (entity_embedding svc f ent) s
  | a ∷ aliases ↦ do
    found ← find_alias f ent.type (ent.key ∷ a ∷ aliases) s
    elim found [
      | none ↦ resolve_entity svc f ent (entity_embedding svc f ent) s
      | some n ↦ some (
        know_as svc (ent.key ∷ a ∷ aliases) n,
        set_node (know_as svc (ent.key ∷ a ∷ aliases) n) s,
      )
    ]
]

-- `props.get("valid_until")`, where it is set.
abbrev pub writer_expiry : Props → Option Json
writer_expiry props = elim (get "valid_until" props) [
  | none ↦ none
  | some v ↦ if truthy_json v then some v else none
]

abbrev pub takes_expiry : Fold → EntitySpec → Bool
takes_expiry f ent = is_claim f && (str_eq ent.type "MetricValue" || str_eq ent.type "Fact")

unfoldable pub expire_node : Services → Fold → EntitySpec → Node → Option Node
expire_node svc f ent n =
    if takes_expiry f ent
    then elim (writer_expiry ent.props) [
      | none ↦ some n
      | some v ↦ do at ← svc.parse_iso v; some (record n { expires_at = some at })
    ]
    else some n

-- `node_map`: the id of the node that stands for a type and a key.
abbrev pub NodeMap : Type 0
NodeMap = List ((String × String) × ℕ)

abbrev pub node_at : String → String → NodeMap → Option ℕ
node_at type key [] = none
node_at type key (((t, k), i) ∷ m) =
    if str_eq t type && str_eq k key then some i else node_at type key m

unfoldable pub fold_entity :
    Services → Fold → EntitySpec → NodeMap × Store → Option (NodeMap × Store)
fold_entity svc f ent (m, s) = do
  (n, s') ← named_node svc f ent s
  n' ← expire_node svc f ent (stamp_node svc.working_ttl f.episode n)
  some (((ent.type, ent.key), n'.id) ∷ m, set_node n' s')

unfoldable pub fold_entities :
    Services → Fold → List EntitySpec → NodeMap × Store → Option (NodeMap × Store)
fold_entities svc f [] out = some out
fold_entities svc f (ent ∷ ents) out = do
  out' ← fold_entity svc f ent out
  fold_entities svc f ents out'
