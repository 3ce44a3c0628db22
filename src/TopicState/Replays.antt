-- ===== src/TopicState/Replays.antt =====
-- Bounds of a topic's state, and a session that is folded twice: pipeline/topic_state.py.
use mlpal_memory.Prelude.{
  ℕ, zero, suc, ◌-◌, ◌≤◌, ◌<◌, ◌≡◌, refl, sym, ap, ◌∙◌, inl, inr, Bool, true, false, ◌&&◌, ◌||◌,
  Option, none, some, List, [], ◌∷◌, ◌++◌, ◌==◌, if◌then◌else◌, leb, str_eq, any, map, length,
  arith, All, All-sort_by, All-map_hyp, any-sort_by, Bool-cases, ==_iff, eq_refl, ℤ, pos, negsuc,
  is_negative,
}
use mlpal_memory.TopicState.{
  Fact, Item, TopicState, max_items, op_of, unit_of, text_key, date_of, Key, fact_key, item_key,
  is_seen, apply_fact, item_text, item_of, Folding, fold_fact, fold_facts, drop, take_last,
  sort_items, latest_date, clamp, start, finish, in_order, fold_topic,
}

length-drop {ℓ} : {A : Type ℓ} (n : ℕ) (xs : List A) → length (drop n xs) ≡ length xs - n
unfolding drop
length-drop zero xs = omega arith
length-drop (suc n) [] = omega arith
length-drop (suc n) (x ∷ xs) = omega (arith, length-drop n xs)

dated : (as_of : ℕ) (items : List Item) → All (λ i. i.date ≤ latest_date as_of items) items
dated as_of [] = tt
dated as_of (i ∷ items) =
    (omega arith, All-map_hyp _ _ items (λ j h. omega arith) (dated as_of items))

as_of_dated : (as_of : ℕ) (items : List Item) → as_of ≤ latest_date as_of items
as_of_dated as_of [] = omega arith
as_of_dated as_of (i ∷ items) = omega (arith, as_of_dated as_of items)

clamped : (c : ℤ) → is_negative (clamp c) ≡ false
clamped (pos n) = refl
clamped (negsuc n) = refl

-- Whatever is folded, a state keeps 40 items at most, counts no less than nothing, and is as of no
-- earlier than the fold and than each of its items.
pub fold_topic_bounds :
    (state : Option TopicState) (facts : List Fact) (as_of : ℕ)
    → let out = fold_topic state facts as_of in
      (length out.items ≤ max_items)
      × (is_negative out.tally.count ≡ false)
      × (as_of ≤ out.as_of)
      × All (λ i. i.date ≤ out.as_of) out.items
unfolding fold_topic finish
fold_topic_bounds state facts as_of =
    let g = fold_facts as_of (start state) (in_order as_of facts) in
    let sorted = sort_items g.items in
    (
      omega (arith, length-drop (length sorted - max_items) sorted),
      clamped g.tally.count,
      as_of_dated as_of (take_last max_items sorted),
      dated as_of (take_last max_items sorted),
    )

-- The text that is kept has the key of the whole text.
abbrev pub IsKeptWhole : Fact → Type 0
IsKeptWhole f = text_key (item_text f.text) ≡ text_key f.text

abbrev seen_items : Key → List Item → Bool
seen_items k items = is_seen k (map item_key items)

-- Every key that was seen is that of an item.
abbrev Covers : Folding → Type 0
Covers g = (k : Key) → is_seen k g.seen ≡ true → seen_items k g.items ≡ true

seen-append :
    (k : Key) (items : List Item) (i : Item)
    → seen_items k (items ++ i ∷ []) ≡ (seen_items k items || is_seen k (item_key i ∷ []))
seen-append k [] i = ground arith
seen-append k (j ∷ items) i = ground (arith, seen-append k items i)

Covers-fold_fact :
    (as_of : ℕ) (g : Folding) (f : Fact) → IsKeptWhole f → Covers g → Covers (fold_fact as_of g f)
unfolding fold_fact
Covers-fold_fact as_of g f whole cov = elim (Bool-cases (is_seen (fact_key as_of f) g.seen)) [
  | inl y ↦ rw y cov
  | inr n ↦ rw n (λ k h.
      let out = apply_fact (op_of f.op) (date_of as_of f) f.qty (unit_of f.unit) g.tally in
      let same : item_key (item_of as_of out.1 f) ≡ fact_key as_of f =
        ap (λ t. (date_of as_of f, t)) whole in
      seen-append k g.items (item_of as_of out.1 f)
      ∙ ap (λ j. seen_items k g.items || is_seen k (j ∷ [])) same
      ∙ ground (arith, cov k))
]

seen-fold_fact :
    (as_of : ℕ) (g : Folding) (f : Fact) (k : Key)
    → is_seen k g.seen ≡ true
    → is_seen k (fold_fact as_of g f).seen ≡ true
unfolding fold_fact
seen-fold_fact as_of g f k h = ground arith

seen-fold_facts :
    (as_of : ℕ) (fs : List Fact) (g : Folding) (k : Key)
    → is_seen k g.seen ≡ true
    → is_seen k (fold_facts as_of g fs).seen ≡ true
unfolding fold_facts
seen-fold_facts as_of [] g k h = h
seen-fold_facts as_of (f ∷ fs) g k h =
    seen-fold_facts as_of fs (fold_fact as_of g f) k (seen-fold_fact as_of g f k h)

sees_fact :
    (as_of : ℕ) (g : Folding) (f : Fact)
    → is_seen (fact_key as_of f) (fold_fact as_of g f).seen ≡ true
unfolding fold_fact
sees_fact as_of g f = elim (Bool-cases (is_seen (fact_key as_of f) g.seen)) [
  | inl y ↦ rw y y
  | inr n ↦ rw n (
      ground
        (arith, (==_iff (date_of as_of f) (date_of as_of f)).1 refl, eq_refl (text_key f.text)))
]

sees_all :
    (as_of : ℕ) (fs : List Fact) (g : Folding)
    → All (λ f. is_seen (fact_key as_of f) (fold_facts as_of g fs).seen ≡ true) fs
unfolding fold_facts
sees_all as_of [] g = tt
sees_all as_of (f ∷ fs) g = (
  seen-fold_facts as_of fs (fold_fact as_of g f) (fact_key as_of f) (sees_fact as_of g f),
  sees_all as_of fs (fold_fact as_of g f),
)

Covers-fold_facts :
    (as_of : ℕ) (fs : List Fact) (g : Folding)
    → All IsKeptWhole fs
    → Covers g
    → Covers (fold_facts as_of g fs)
unfolding fold_facts
Covers-fold_facts as_of [] g whole cov = cov
Covers-fold_facts as_of (f ∷ fs) g whole cov =
    Covers-fold_facts as_of fs (fold_fact as_of g f) whole.1
      (Covers-fold_fact as_of g f whole.0 cov)

Covers-start : (state : Option TopicState) → Covers (start state)
Covers-start none k h = h
Covers-start (some s) k h = h

-- A fact that was seen changes nothing.
all_seen :
    (as_of : ℕ) (fs : List Fact) (g : Folding)
    → All (λ f. is_seen (fact_key as_of f) g.seen ≡ true) fs
    → fold_facts as_of g fs ≡ g
unfolding fold_facts fold_fact
all_seen as_of [] g h = refl
all_seen as_of (f ∷ fs) g h =
    ap (λ b. fold_facts as_of (if b then g else next) fs) h.0 ∙ all_seen as_of fs g h.1
  where
    next : Folding
    next =
        let out = apply_fact (op_of f.op) (date_of as_of f) f.qty (unit_of f.unit) g.tally in
        record {
          tally = out.0;
          items = g.items ++ item_of as_of out.1 f ∷ [];
          seen = fact_key as_of f ∷ g.seen;
        }

any-map {ℓ κ} :
    {A : Type ℓ} {B : Type κ} (p : B → Bool) (f : A → B) (xs : List A)
    → any p (map f xs) ≡ any (λ x. p (f x)) xs
any-map p f [] = refl
any-map p f (x ∷ xs) = ap (λ b. p (f x) || b) (any-map p f xs)

-- The order of the items does not matter to what was seen.
seen-sort_items :
    (k : Key) (items : List Item) → seen_items k (sort_items items) ≡ seen_items k items
seen-sort_items k items =
    let p = λ (j : Key). (j.0 == k.0) && str_eq j.1 k.1 in
    any-map p item_key (sort_items items)
    ∙ any-sort_by (λ a b. leb a.date b.date) (λ i. p (item_key i)) items
    ∙ sym (any-map p item_key items)

take_last_all {ℓ} :
    {A : Type ℓ} (n : ℕ) (xs : List A) → length (take_last n xs) < n → take_last n xs ≡ xs
unfolding drop
take_last_all n xs short =
    let whole : length xs - n ≡ 0 = omega (arith, length-drop (length xs - n) xs) in
    ap (λ m. drop m xs) whole

clamp_idem : (c : ℤ) → clamp (clamp c) ≡ clamp c
clamp_idem (pos n) = refl
clamp_idem (negsuc n) = refl

-- A session that is folded a second time leaves the tally as it was, if the texts of its facts are kept
-- whole and no item was dropped.
pub fold_topic_replay :
    (state : Option TopicState) (facts : List Fact) (as_of : ℕ)
    → All IsKeptWhole facts
    → length (fold_topic state facts as_of).items < max_items
    → (fold_topic (some (fold_topic state facts as_of)) facts as_of).tally
      ≡ (fold_topic state facts as_of).tally
unfolding fold_topic finish
fold_topic_replay state facts as_of whole short =
    let fs = in_order as_of facts in
    let g = fold_facts as_of (start state) fs in
    let out = finish as_of g in
    let kept = take_last_all max_items (sort_items g.items) short in
    let sorted_whole = All-sort_by _ _ facts whole in
    let cov = Covers-fold_facts as_of fs (start state) sorted_whole (Covers-start state) in
    let seen =
      All-map_hyp _ (λ f. is_seen (fact_key as_of f) (map item_key out.items) ≡ true) fs
        (λ f h.
          ap (λ items. seen_items (fact_key as_of f) items) kept
          ∙ seen-sort_items (fact_key as_of f) g.items
          ∙ cov (fact_key as_of f) h)
        (sees_all as_of fs (start state)) in
    ap (λ h. record h.tally { count = clamp h.tally.count })
      (all_seen as_of fs (start (some out)) seen)
    ∙ ap (λ c. record g.tally { count = c }) (clamp_idem g.tally.count)
