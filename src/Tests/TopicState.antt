-- ===== src/Tests/TopicState.antt =====
-- Topic states: a tally, and sessions that are folded twice.
use mlpal_memory.Prelude.{
  ℕ, ◌≤◌, ◌<◌, ◌≡◌, refl, false, some, none, Option, String, List, [], ◌∷◌, All, length, arith, ℤ,
  pos, ◌+ℤ◌, ◌-ℤ◌, is_negative,
}
use mlpal_memory.Prelude.Texts.{strip, lower, collapse, take_text}
use mlpal_memory.Json.{get, put}
use mlpal_memory.TopicState.{
  Fact, TopicState, max_items, op_of, text_key, signed, apply_fact, item_text, fold_fact,
  fold_facts, drop, finish, fold_topic,
}
use mlpal_memory.TopicState.Replays.{IsKeptWhole, fold_topic_bounds, fold_topic_replay}

program : Unit {0}
unfolding strip lower collapse take_text get put op_of text_key signed apply_fact item_text
    fold_fact fold_facts drop finish fold_topic ◌+ℤ◌ ◌-ℤ◌
program = tt

abbrev fact : String → ℕ → String → Option ℤ → Option String → Fact
fact text date op qty unit = record {
  text = text;
  date = some date;
  op = some op;
  qty = qty;
  unit = unit;
  source_uri = none;
}

abbrev session : List Fact
session =
    fact "Bought two books" 5 "add" (some (pos 2000)) (some "items")
    ∷ fact "I own 25 books" 4 "Set" (some (pos 25000)) none
    ∷ fact "bought  two books " 5 "add" (some (pos 2000)) none
    ∷ fact "Paid for a lamp" 6 "add" (some (pos 12500)) (some "USD")
    ∷ fact "Sold a book" 3 "remove" none none
    ∷ []

abbrev after : TopicState
after = fold_topic none session 7

-- The sale is before the stated total, and the purchase is told twice.
counted : after.tally.count ≡ pos 28000
unfolding program
counted = refl

paid : after.tally.sums ≡ ("usd", pos 12500) ∷ []
unfolding program
paid = refl

-- A text of more than 160 characters is cut, and so it is counted again.
abbrev long_session : List Fact
long_session =
    fact
      "bought one more book about the history of navigation bought one more book about the history of navigation bought one more book about the history of navigation bought one more"
      5 "add" none none
    ∷ []

counted_twice :
    (fold_topic (some (fold_topic none long_session 7)) long_session 7).tally.count ≡ pos 2000
unfolding program
counted_twice = refl

-- A purchase that is told later, dated before a total in dollars, is left out of the count.
dollars_hide_items :
    (fold_topic
      (some
        (fold_topic none (fact "Spent 90 in all" 5 "set" (some (pos 90000)) (some "USD") ∷ []) 7))
      (fact "Bought a pen" 4 "add" none none ∷ [])
      8).tally.count
    ≡ pos 0
unfolding program
dollars_hide_items = refl

session-IsKeptWhole : All IsKeptWhole session
unfolding program
session-IsKeptWhole = (refl, (refl, (refl, (refl, (refl, tt)))))

four_items : length after.items < max_items
unfolding program
four_items = omega arith

fold_topic_replay_example : (fold_topic (some after) session 7).tally ≡ after.tally
fold_topic_replay_example = fold_topic_replay none session 7 session-IsKeptWhole four_items

fold_topic_bounds_example :
    (length after.items ≤ max_items)
    × (is_negative after.tally.count ≡ false)
    × (7 ≤ after.as_of)
    × All (λ i. i.date ≤ after.as_of) after.items
fold_topic_bounds_example = fold_topic_bounds none session 7
