-- ===== src/TopicState.antt =====
-- The running state of a topic: fold_topic of pipeline/topic_state.py. A date is a number, in the order
-- of the ISO texts; a quantity is a signed number of thousandths, where the program has a float; case
-- is folded for the letters of ASCII.
pub mod Replays
use mlpal_memory.Prelude.{
  ℕ, zero, suc, ◌+◌, ◌-◌, Bool, true, false, not, ◌&&◌, ◌||◌, Option, none, some, List, [], ◌∷◌,
  ◌++◌, String, ◌==◌, if◌then◌else◌, leb, ltb, str_eq, opt_eq, is_empty, strip, lower, collapse,
  take_text, any, contains, map, or_else, length, sort_by, max, ℤ, pos, ◌+ℤ◌, ◌-ℤ◌, is_negative,
}
use mlpal_memory.Json.{Dict, get, put}

-- What a fact does to the tally; any other word is kept as it is.
pub data Op : Type 0 where
  set add remove : Op
  other : String → Op

pub record Fact : Type 0 where
  pub text : String
  pub date : Option ℕ
  pub op : Option String
  pub qty : Option ℤ
  pub unit : Option String
  pub source_uri : Option String

pub record Item : Type 0 where
  pub date : ℕ
  pub text : String
  pub op : Op
  pub qty : Option ℤ
  pub unit : Option String
  pub source_uri : Option String

-- The last total that was stated.
pub record Stated : Type 0 where
  pub date : ℕ
  pub value : ℤ
  pub unit : Option String

pub record Tally : Type 0 where
  pub count : ℤ
  pub sums : Dict ℤ
  pub stated : Option Stated

pub record TopicState : Type 0 where
  pub tally : Tally
  pub items : List Item
  pub as_of : ℕ

abbrev pub max_items : ℕ
max_items = 40

-- One event, in thousandths.
abbrev pub one : ℤ
one = pos 1000

abbrev pub count_units : List String
count_units = "items" ∷ "item" ∷ "count" ∷ "times" ∷ "events" ∷ "pieces" ∷ "units" ∷ []

abbrev pub is_countish : Option String → Bool
is_countish none = true
is_countish (some u) = contains u count_units

-- `(f.get("unit") or "").strip().lower() or None`
abbrev pub unit_of : Option String → Option String
unit_of none = none
unit_of (some u) = let v = lower (strip u) in if is_empty v then none else some v

-- `(f.get("op") or "none").lower()`
unfoldable pub op_of : Option String → Op
op_of none = other "none"
op_of (some w) =
    let v = lower w in
    if is_empty v
    then other "none"
    else if str_eq v "set"
    then set
    else if str_eq v "add"
    then add
    else if str_eq v "remove"
    then remove
    else other v

unfoldable pub text_key : String → String
text_key s = collapse (lower (strip s))

abbrev pub date_of : ℕ → Fact → ℕ
date_of as_of f = or_else f.date as_of

abbrev pub Key : Type 0
Key = ℕ × String

abbrev pub fact_key : ℕ → Fact → Key
fact_key as_of f = (date_of as_of f, text_key f.text)

abbrev pub item_key : Item → Key
item_key i = (i.date, text_key i.text)

-- `key in seen`
abbrev pub is_seen : Key → List Key → Bool
is_seen k = any (λ j. (j.0 == k.0) && str_eq j.1 k.1)

-- The fact is inside the total that was stated last.
abbrev pub is_covered : Option Stated → ℕ → Option String → Bool
is_covered none date unit = false
is_covered (some s) date unit = leb date s.date && (is_countish unit || opt_eq s.unit unit)

unfoldable pub signed : Op → ℤ → ℤ → ℤ
signed remove a b = a -ℤ b
signed set a b = a +ℤ b
signed add a b = a +ℤ b
signed (other w) a b = a +ℤ b

-- The total of a unit; one without a name is never stored.
abbrev pub sum_of : Option String → Dict ℤ → ℤ
sum_of none sums = pos 0
sum_of (some u) sums = or_else (get u sums) (pos 0)

abbrev pub put_sum : Option String → ℤ → Dict ℤ → Dict ℤ
put_sum none v sums = sums
put_sum (some u) v sums = put u v sums

abbrev pub set_total : ℕ → Option ℤ → Option String → Tally → Tally
set_total date none unit t = t
set_total date (some q) unit t = record {
  count = if is_countish unit then q else t.count;
  sums = if is_countish unit then t.sums else put_sum unit q t.sums;
  stated = some (record { date = date; value = q; unit = unit });
}

abbrev pub shift_sums : Op → Option ℤ → Option String → Dict ℤ → Dict ℤ
shift_sums op none unit sums = sums
shift_sums op (some q) unit sums = put_sum unit (signed op (sum_of unit sums) q) sums

abbrev pub shift : Op → Option ℤ → Option String → Tally → Tally
shift op qty unit t =
    if is_countish unit
    then record t { count = signed op t.count (or_else qty one) }
    else record t { count = signed op t.count one; sums = shift_sums op qty unit t.sums }

-- The tally after a fact, and the word that its item records.
unfoldable pub apply_fact : Op → ℕ → Option ℤ → Option String → Tally → Tally × Op
apply_fact set date qty unit t = (set_total date qty unit t, set)
apply_fact add date qty unit t =
    if is_covered t.stated date unit then (t, other "none") else (shift add qty unit t, add)
apply_fact remove date qty unit t =
    if is_covered t.stated date unit then (t, other "none") else (shift remove qty unit t, remove)
apply_fact (other w) date qty unit t = (t, other w)

-- The text that an item keeps.
unfoldable pub item_text : String → String
item_text s = take_text 160 (strip s)

abbrev pub item_of : ℕ → Op → Fact → Item
item_of as_of op f = record {
  date = date_of as_of f;
  text = item_text f.text;
  op = op;
  qty = f.qty;
  unit = unit_of f.unit;
  source_uri = f.source_uri;
}

-- The tally, the items and the keys that were seen.
pub record Folding : Type 0 where
  pub tally : Tally
  pub items : List Item
  pub seen : List Key

unfoldable pub fold_fact : ℕ → Folding → Fact → Folding
fold_fact as_of g f =
    if is_seen (fact_key as_of f) g.seen
    then g
    else (let out = apply_fact (op_of f.op) (date_of as_of f) f.qty (unit_of f.unit) g.tally in
        record {
          tally = out.0;
          items = g.items ++ item_of as_of out.1 f ∷ [];
          seen = fact_key as_of f ∷ g.seen;
        })

unfoldable pub fold_facts : ℕ → Folding → List Fact → Folding
fold_facts as_of g [] = g
fold_facts as_of g (f ∷ fs) = fold_facts as_of (fold_fact as_of g f) fs

-- `xs[-n:]`
unfoldable pub drop {ℓ} : {A : Type ℓ} → ℕ → List A → List A
drop zero xs = xs
drop (suc n) [] = []
drop (suc n) (x ∷ xs) = drop n xs

abbrev pub take_last {ℓ} : {A : Type ℓ} → ℕ → List A → List A
take_last n xs = drop (length xs - n) xs

abbrev pub sort_items : List Item → List Item
sort_items = sort_by (λ a b. leb a.date b.date)

abbrev pub latest_date : ℕ → List Item → ℕ
latest_date as_of [] = as_of
latest_date as_of (i ∷ items) = max i.date (latest_date as_of items)

abbrev pub clamp : ℤ → ℤ
clamp c = if is_negative c then pos 0 else c

abbrev pub start : Option TopicState → Folding
start none = record {
  tally = record { count = pos 0; sums = []; stated = none };
  items = [];
  seen = [];
}
start (some s) = record { tally = s.tally; items = s.items; seen = map item_key s.items }

unfoldable pub finish : ℕ → Folding → TopicState
finish as_of g =
    let items = take_last max_items (sort_items g.items) in
    record {
      tally = record g.tally { count = clamp g.tally.count };
      items = items;
      as_of = latest_date as_of items;
    }

abbrev pub in_order : ℕ → List Fact → List Fact
in_order as_of = sort_by (λ a b. leb (date_of as_of a) (date_of as_of b))

unfoldable pub fold_topic : Option TopicState → List Fact → ℕ → TopicState
fold_topic state facts as_of = finish as_of (fold_facts as_of (start state) (in_order as_of facts))
