-- ===== src/Claims.antt =====
-- Claims, pipeline/claims.py: what a typed, addressed assertion gives the fold. The topic, the prompt's
-- hash and the ids of the actor are texts, and lists are lists. Parameters: the slug of a statement, the
-- reader of ISO dates, `str` of numbers, lists and objects, and `json.dumps` of lists and objects. A
-- confidence counts tenths.
pub mod Anchors
pub mod Wired
pub mod Slots
pub mod Folded
use Prim.Native.Char.{Char, code}
use mlpal_memory.Prelude.{
  ℕ, String, Bool, true, false, not, ◌&&◌, ◌||◌, ◌==◌, Option, none, some, List, [], ◌∷◌, ◌++◌,
  ◌<>◌, map, take, ltb, str_eq, is_some, or_else, contains, filter, if◌then◌else◌, is_empty,
  has_part, count_words, first_word, strip_marks,
}
use mlpal_memory.Prelude.Texts.{strip, lower, take_text, replace}
use mlpal_memory.Json.{
  Json, null, bool, num, str, arr, obj, Items, nil, cons, Fields, end, field, Props, get,
}
use mlpal_memory.Fold.{Episode, EntitySpec, EdgeSpec, Extraction}
use mlpal_memory.Fold.Extractor.{present, text_at, extract}
use mlpal_memory.Fold.Relations.{Watch}

pub record Readers : Type 0 where
  pub shown : Json → String
  pub dumps : Json → String
  pub iso_date : String → Option String
  pub slug : String → String

pub data Kind : Type 0 where
  state preference learning deviation : Kind
  dated : Kind

-- `KINDS`; a dated claim is a record.
unfoldable pub kind_of : String → Option Kind
kind_of s =
    if str_eq s "state"
    then some Kind.state
    else if str_eq s "record"
    then some Kind.dated
    else if str_eq s "learning"
    then some Kind.learning
    else if str_eq s "preference"
    then some Kind.preference
    else if str_eq s "deviation"
    then some Kind.deviation
    else none

abbrev pub kind_name : Kind → String
kind_name Kind.state = "state"
kind_name Kind.dated = "record"
kind_name Kind.learning = "learning"
kind_name Kind.preference = "preference"
kind_name Kind.deviation = "deviation"

-- `bool(value)`
abbrev pub truthy : Json → Bool
truthy null = false
truthy (bool b) = b
truthy (num n) = not (n == 0)
truthy (str s) = not (is_empty s)
truthy (arr nil) = false
truthy (arr (cons x xs)) = true
truthy (obj end) = false
truthy (obj (field k v fs)) = true

abbrev pub prefix_of : Kind → String
prefix_of Kind.preference = "pref"
prefix_of Kind.dated = "record"
prefix_of _ = "state"

-- A keyed claim supersedes what stands under its anchor.
unfoldable pub anchor_key : Kind → String → String → String
anchor_key kind topic key = prefix_of kind <> (":" <> (topic <> (":" <> key)))

-- `payload[k]` where `payload.get(k)` is true.
abbrev pub kept : String → Props → Props
kept k p = elim (get k p) [ none ↦ [] | some v ↦ if truthy v then (k, v) ∷ [] else [] ]

abbrev pub kept_all : List String → Props → Props
kept_all [] p = []
kept_all (k ∷ ks) p = kept k p ++ kept_all ks p

abbrev pub flag : String → Bool → Json → Props
flag k b v = if b then (k, v) ∷ [] else []

abbrev pub to_items : List String → Items
to_items [] = nil
to_items (s ∷ ss) = cons (str s) (to_items ss)

abbrev pub to_dict : Fields → Props
to_dict end = []
to_dict (field k v fs) = (k, v) ∷ to_dict fs

-- `payload.get("value")`, as `_text` gives it.
abbrev pub text_in : (Json → String) → Option Json → String
text_in f none = ""
text_in f (some null) = ""
text_in f (some (str s)) = s
text_in f (some (bool true)) = "True"
text_in f (some (bool false)) = "False"
text_in f (some v) = f v

pub record Hint : Type 0 where
  pub type : String
  pub key : String
  pub name : String
  pub aliases : List String

abbrev hint_props : Hint → Props
hint_props h = elim h.aliases [
  | [] ↦ ("extension", bool true) ∷ []
  | ◌∷◌ a as' ↦ ("aliases", arr (to_items h.aliases)) ∷ ("extension", bool true) ∷ []
]

abbrev pub hint_entity : Hint → EntitySpec
hint_entity h = record { type = h.type; key = h.key; name = h.name; props = hint_props h }

abbrev pub hint_edge : String → String → String → Hint → EdgeSpec
hint_edge src_type src_key about h = record {
  type = "MENTIONS";
  src_type = src_type;
  src_key = src_key;
  dst_type = h.type;
  dst_key = h.key;
  fact = some (about <> (" mentions " <> (h.type <> (" " <> h.key))));
  functional = false;
  props = [];
}

unfoldable pub link_entities : List Hint → String → String → String → Extraction → Extraction
link_entities hs src_type src_key about out = record out {
  entities = out.entities ++ map hint_entity hs;
  edges = out.edges ++ map (hint_edge src_type src_key about) hs;
}

abbrev pub no_extraction : Extraction
no_extraction = record { entities = []; edges = []; invalidations = [] }

module _ (r : Readers) where
  -- `str(value)`
  abbrev pub str_of : Json → String
  str_of null = "None"
  str_of v = text_in r.shown (some v)

  unfoldable pub text : Option Json → String
  text v =
      text_in
        (λ j. elim j [ arr xs ↦ r.dumps (arr xs) | obj fs ↦ r.dumps (obj fs) | x ↦ r.shown x ]) v

  -- `str(p.get(k) or "")`
  abbrev pub text_or_empty : String → Props → String
  text_or_empty k p = elim (get k p) [ none ↦ "" | some v ↦ if truthy v then str_of v else "" ]

  unfoldable pub valid_until : Props → Option String
  valid_until p = elim (get "valid_until" p) [
    | none ↦ none
    | some v ↦ if truthy v then r.iso_date (replace "Z" "+00:00" (str_of v)) else none
  ]

  abbrev pub filled : Items → List String
  filled nil = []
  filled (cons x xs) =
      let rest = filled xs in if is_empty (strip (str_of x)) then rest else str_of x ∷ rest

  unfoldable pub evidence_of : Props → List String
  evidence_of p = elim (get "evidence_ids" p) [ some (arr xs) ↦ filled xs | _ ↦ [] ]

  abbrev pub is_grounded : Props → Bool
  is_grounded p = elim (evidence_of p) [ [] ↦ false | ◌∷◌ x xs ↦ true ]

  abbrev pub dated_until : Option String → Props
  dated_until none = []
  dated_until (some d) = ("valid_until", str d) ∷ []

  unfoldable pub claim_provenance : Props → Props
  claim_provenance p =
      ("topic", or_else (get "topic" p) null)
        ∷ ("claim_key", or_else (get "key" p) null)
        ∷ ("kind", or_else (get "kind" p) null)
        ∷ ("evidence_ids", arr (to_items (evidence_of p)))
        ∷ ("grounded", bool (is_grounded p))
        ∷ dated_until (valid_until p)
      ++ flag "phase" (str_eq (or_else (text_at "phase" p) "") "build") (str "build")
      ++ flag "pinned" (elim (get "pinned" p) [ none ↦ false | some v ↦ truthy v ]) (bool true)
      ++ kept_all ("hop" ∷ "prompt_sha" ∷ "origin" ∷ "supersedes" ∷ "run_id" ∷ "half_life" ∷ []) p

  abbrev pub aliases_in : Items → List String
  aliases_in nil = []
  aliases_in (cons x xs) =
      let rest = aliases_in xs in if truthy x then take_text 200 (str_of x) ∷ rest else rest

  abbrev pub hint_of : Props → Option Hint
  hint_of e =
      let type = text_or_empty "type" e in
      let key = text_or_empty "key" e in
      let name = text_or_empty "name" e in
      if is_empty type || is_empty key
      then none
      else some (record {
        type = take_text 40 type;
        key = take_text 200 key;
        name = take_text 200 (if is_empty name then key else name);
        aliases = elim (get "aliases" e) [ some (arr xs) ↦ aliases_in xs | _ ↦ [] ];
      })

  abbrev pub hints_in : Items → List Hint
  hints_in nil = []
  hints_in (cons (obj fs) xs) =
      let rest = hints_in xs in elim (hint_of (to_dict fs)) [ none ↦ rest | some h ↦ h ∷ rest ]
  hints_in (cons _ xs) = hints_in xs

  unfoldable pub entity_hints : Props → List Hint
  entity_hints p = elim (get "entities" p) [ some (arr xs) ↦ take 10 (hints_in xs) | _ ↦ [] ]

  -- A keyed claim: a metric, its value, and the functional relation that holds one value.
  unfoldable pub keyed : Kind → String → String → String → Props → Extraction
  keyed kind topic key value p =
      let a = anchor_key kind topic key in
      let prov = claim_provenance p in
      let shown = topic <> ("/" <> key) in
      link_entities (entity_hints p) "MetricValue" (a <> ("=" <> value)) shown (record {
        entities =
            record {
              type = "Metric";
              key = a;
              name = shown;
              props =
                  ("topic", str topic)
                  ∷ ("claim_key", str key)
                  ∷ ("kind", str (kind_name kind))
                  ∷ kept "half_life" p;
            }
            ∷ record {
              type = "MetricValue";
              key = a <> ("=" <> value);
              name = shown <> (" = " <> value);
              props = ("value", str value) ∷ ("unit", str (kind_name kind)) ∷ prov;
            }
            ∷ [];
        edges =
            record {
              type = "HAS_VALUE";
              src_type = "Metric";
              src_key = a;
              dst_type = "MetricValue";
              dst_key = a <> ("=" <> value);
              fact = some (shown <> (" = " <> value));
              functional = true;
              props = ("value", str value) ∷ prov;
            }
            ∷ [];
        invalidations = [];
      })

  -- A learning: the actor decided a fact.
  unfoldable pub learned : String → String → Props → Extraction
  learned actor statement p =
      let fk = r.slug statement in
      let prov = claim_provenance p in
      link_entities (entity_hints p) "Fact" fk (take_text 80 statement) (record {
        entities =
            record { type = "User"; key = actor; name = actor; props = [] }
            ∷ record {
              type = "Fact";
              key = fk;
              name = statement;
              props = ("statement", str statement) ∷ prov;
            }
            ∷ [];
        edges =
            record {
              type = "DECIDED";
              src_type = "User";
              src_key = actor;
              dst_type = "Fact";
              dst_key = fk;
              fact = some statement;
              functional = false;
              props = ("confidence", num (if is_grounded p then 7 else 4)) ∷ prov;
            }
            ∷ [];
        invalidations = [];
      })

  abbrev pub claim_actor : Episode → String
  claim_actor ep = or_else (present ep.actor.user_id) (or_else (present ep.actor.agent_id) "agent")

  abbrev pub claim_topic : Episode → String
  claim_topic ep = replace "{me}" (claim_actor ep) (or_else (text_at "topic" ep.payload) "")

  abbrev pub claim_key : Episode → String
  claim_key ep = text_or_empty "key" ep.payload

  abbrev pub claim_value : Episode → String
  claim_value ep = take_text 400 (text (get "value" ep.payload))

  unfoldable pub extract_keyed : Kind → Episode → Extraction
  extract_keyed kind ep =
      if is_empty (claim_key ep) || is_empty (claim_value ep)
      then no_extraction
      else keyed kind (claim_topic ep) (claim_key ep) (claim_value ep) ep.payload

  unfoldable pub extract_learned : Episode → Extraction
  extract_learned ep =
      let statement = strip (text (get "value" ep.payload)) in
      if ltb (count_words false statement) 3
      then no_extraction
      else learned (claim_actor ep) statement ep.payload

  unfoldable pub extract_kind : Kind → Episode → Extraction
  extract_kind Kind.state ep = extract_keyed Kind.state ep
  extract_kind Kind.preference ep = extract_keyed Kind.preference ep
  extract_kind Kind.dated ep = extract_keyed Kind.dated ep
  extract_kind Kind.learning ep = extract_learned ep
  extract_kind Kind.deviation ep = no_extraction

  -- The kind of a claim with a topic.
  unfoldable pub claim_kind : Episode → Option Kind
  claim_kind ep =
      if str_eq ep.action_type "memory.claim" && is_some (text_at "topic" ep.payload)
      then kind_of (or_else (text_at "kind" ep.payload) "")
      else none

  abbrev pub extract_as : Option Kind → Episode → Extraction
  extract_as none ep = no_extraction
  extract_as (some k) ep = extract_kind k ep

  unfoldable pub extract_claim : Episode → Extraction
  extract_claim ep = extract_as (claim_kind ep) ep

  -- What the rules and the claim give together: pipeline/updater.py.
  unfoldable pub extract_structured : Episode → Extraction
  extract_structured ep =
      let out = extract r.slug ep in
      let claimed = extract_claim ep in
      if str_eq ep.action_type "memory.claim"
      then record out {
        entities = out.entities ++ claimed.entities;
        edges = out.edges ++ claimed.edges;
      }
      else out

  abbrev pub is_state_claim : Episode → Bool
  is_state_claim ep =
      str_eq ep.action_type "memory.claim"
      && str_eq (or_else (text_at "kind" ep.payload) "") "state"

  -- The first word of the value, without marks.
  abbrev pub opening : Episode → String
  opening ep = strip_marks (first_word (lower (strip (text (get "value" ep.payload)))))

  abbrev pub is_ended : Episode → Bool
  is_ended ep = elim (get "ended" ep.payload) [ some (bool true) ↦ true | _ ↦ false ]

  unfoldable pub absence_target : Episode → Option String
  absence_target ep =
      let key = strip (claim_key ep) in
      let gone = "absent" ∷ "ended" ∷ "deleted" ∷ "gone" ∷ "terminated" ∷ "removed" ∷ [] in
      if is_state_claim ep && not (is_empty key) && (is_ended ep || contains (opening ep) gone)
      then some key
      else none

  unfoldable pub presence_target : Episode → Option String
  presence_target ep =
      let key = strip (claim_key ep) in
      let back = "present" ∷ "ready" ∷ "running" ∷ "available" ∷ "ok" ∷ "healthy" ∷ [] in
      if is_state_claim ep
        && not (is_empty key)
        && has_part "/watch/" (text_or_empty "topic" ep.payload)
        && contains (opening ep) back
      then some key
      else none

  -- What the fold asks of a claim.
  abbrev pub claim_watch : Watch
  claim_watch = record { absence_target = absence_target; presence_target = presence_target }
