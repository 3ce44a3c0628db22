-- ===== src/Notes/Ledger.antt =====
-- The kept versions of notes, whatever is written: services/notes.py.
use mlpal_memory.Prelude.{
  All-find, ℕ, suc, ◌<◌, ◌≤◌, ◌≡◌, ◌≢◌, refl, sym, ap, ◌∙◌, ◌⊎◌, inl, inr, Bool, true, false,
  Option, none, some, List, [], ◌∷◌, ◌++◌, ◌==◌, find, if◌then◌else◌, arith, All, All-append,
  All-map_hyp, Bool-cases, ==_iff, opt_eq_refl, eq_refl,
}
use mlpal_memory.Notes.{Body, Section}
use mlpal_memory.Notes.Store.{
  NoteKey, Note, NoteVersion, Notes, key_eq, find_note, Author, new_note, bump, version_row,
  save_note, write_note,
}

-- A row of another note, or one that the note's number covers.
abbrev pub IsKept : Note → NoteVersion → Type 0
IsKept n v = (v.note_id ≢ n.id) ⊎ (v.version ≤ n.version)

-- Ids are unique and drawn from the counter, and no version has a higher number than its note.
pub record IsLedger (s : Notes) : Type 0 where
  pub unique : All (λ n. find (λ m. m.id == n.id) s.notes ≡ some n) s.notes
  pub drawn : All (λ n. n.id < s.next_id) s.notes
  pub rows : All (λ v. v.note_id < s.next_id) s.versions
  pub numbered : All (λ n. All (IsKept n) s.versions) s.notes

-- The note that is opened is in the table.
abbrev pub IsOpened : NoteKey → Note × Notes → Type 0
IsOpened key o =
    IsLedger o.1
    × (find_note key o.1 ≡ some o.0)
    × (find (λ m. m.id == o.0.id) o.1.notes ≡ some o.0)

pub find-append {ℓ} :
    {A : Type ℓ} (p : A → Bool) (xs : List A) (x : A)
    → find p (xs ++ x ∷ [])
      ≡ (elim (find p xs) [ some y ↦ some y | none ↦ if p x then some x else none ])
find-append p [] x = refl
find-append p (y ∷ xs) x = ground (arith, find-append p xs x)

pub eq_self : (n : ℕ) → (n == n) ≡ true
eq_self n = (==_iff n n).1 refl

pub key_eq_refl : (k : NoteKey) → key_eq k k ≡ true
key_eq_refl k =
    ground (arith, opt_eq_refl k.org_id, eq_refl k.scope, eq_refl k.scope_id, eq_refl k.workspace)

find_undrawn : (k : ℕ) (ns : List Note) → All (λ n. n.id < k) ns → find (λ m. m.id == k) ns ≡ none
find_undrawn k [] h = refl
find_undrawn k (n ∷ ns) h = ground (arith, find_undrawn k ns h.1, h.0, ==_iff n.id k)

module _ (s : Notes) (ledger : IsLedger s) where
  pub IsLedger-open :
      (key : NoteKey) (a : Author)
      → find_note key s ≡ none
      → IsOpened key (
        new_note s.next_id key a,
        record s { notes = s.notes ++ new_note s.next_id key a ∷ []; next_id = suc s.next_id },
      )
  unfolding new_note find_note
  IsLedger-open key a absent =
      let n = new_note s.next_id key a in
      let fresh = find_undrawn s.next_id s.notes ledger.drawn in
      let found : find (λ m. m.id == n.id) (s.notes ++ n ∷ []) ≡ some n =
        find-append (λ m. m.id == s.next_id) s.notes n ∙ rw fresh (rw (eq_self s.next_id) refl) in
      (
        record {
          unique =
              All-append _ s.notes (n ∷ [])
                (All-map_hyp _ _ s.notes
                  (λ m h. find-append (λ k. k.id == m.id) s.notes n ∙ rw h refl) ledger.unique)
                (found, tt);
          drawn =
              All-append _ s.notes (n ∷ [])
                (All-map_hyp _ _ s.notes (λ m h. omega arith) ledger.drawn) (omega arith, tt);
          rows = All-map_hyp _ _ s.versions (λ v h. omega arith) ledger.rows;
          numbered =
              All-append _ s.notes (n ∷ []) ledger.numbered
                (All-map_hyp _ _ s.versions (λ v h. inl (omega arith)) ledger.rows, tt);
        },
        find-append (λ m. key_eq m.key key) s.notes n ∙ rw absent (rw (key_eq_refl key) refl),
        found,
      )

-- A write to the row of one note.
module _ (w : Note) where
  abbrev pub written : Option Note → Option Note
  written none = none
  written (some m) = if m.id == w.id then some w else some m

  -- A search by what the write keeps.
  find-save_note :
      (p : Note → Bool) (ns : List Note)
      → All (λ m. (m.id == w.id) ≡ true → p m ≡ p w) ns
      → find p (save_note w ns) ≡ written (find p ns)
  unfolding save_note
  find-save_note p [] h = refl
  find-save_note p (m ∷ ns) h = ground (arith, h.0, find-save_note p ns h.1)

All-save_note {κ μ} :
    (P : Note → Type κ) (Q : Note → Type μ) (w : Note) (ns : List Note)
    → All P ns
    → ((m : Note) → P m → (m.id == w.id) ≡ false → Q m)
    → Q w
    → All Q (save_note w ns)
unfolding save_note
All-save_note P Q w [] h keep new = tt
All-save_note P Q w (m ∷ ns) h keep new = elim (Bool-cases (m.id == w.id)) [
  | inl y ↦ rw y (new, All-save_note P Q w ns h.1 keep new)
  | inr f ↦ rw f (keep m h.0 f, All-save_note P Q w ns h.1 keep new)
]

same_row :
    (ns : List Note) (m n : Note)
    → find (λ k. k.id == m.id) ns ≡ some m
    → find (λ k. k.id == n.id) ns ≡ some n
    → m.id ≡ n.id
    → m ≡ n
same_row ns m n hm hn e =
    ap (λ o. elim o [ some z ↦ z | none ↦ m ]) (sym hm ∙ ap (λ i. find (λ k. k.id == i) ns) e ∙ hn)

-- The row that is written is that of a note in the table, with its id and its key.
module _ (now : ℕ) (a : Author) (body : Body) (sections : List Section) (n : Note) (s : Notes)
    (ledger : IsLedger s) (here : find (λ m. m.id == n.id) s.notes ≡ some n) where
  pub find-written :
      (p : Note → Bool)
      → ((m : Note) → m.key ≡ n.key → m.id ≡ n.id → p m ≡ p (bump a body n))
      → find p (save_note (bump a body n) s.notes) ≡ written (bump a body n) (find p s.notes)
  unfolding bump
  find-written p same = find-save_note (bump a body n) p s.notes (
      All-map_hyp _ _ s.notes
        (λ m h e.
          let row = same_row s.notes m n h here ((==_iff m.id n.id).0 e) in
          same m (ap (λ k. k.key) row) (ap (λ k. k.id) row))
        ledger.unique)

  pub IsLedger-write : IsLedger (write_note now a body sections n s).1
  unfolding write_note bump version_row
  IsLedger-write =
      let w = bump a body n in
      record {
        unique =
            All-save_note _ _ w s.notes ledger.unique
              (λ m h other.
                find-written (λ k. k.id == m.id) (λ k e i. ap (λ j. j == m.id) i)
                ∙ rw h (rw other refl))
              (find-written (λ k. k.id == n.id) (λ k e i. ap (λ j. j == n.id) i)
                ∙ rw here (rw (eq_self n.id) refl));
        drawn =
            All-save_note _ _ w s.notes ledger.drawn (λ m h other. h)
              (All-find (λ m. m.id < s.next_id) _ s.notes n ledger.drawn here);
        rows =
            All-append _ s.versions (version_row now a body n ∷ []) ledger.rows
              (All-find (λ m. m.id < s.next_id) _ s.notes n ledger.drawn here, tt);
        numbered =
            All-save_note _ _ w s.notes ledger.numbered
              (λ m h other.
                All-append _ s.versions (version_row now a body n ∷ []) h
                  (inl (λ e. ground (arith, ==_iff m.id n.id)), tt))
              (All-append _ s.versions (version_row now a body n ∷ [])
                (All-map_hyp _ _ s.versions
                  (λ v h. elim h [ inl other ↦ inl other | inr le ↦ inr (omega arith) ])
                  (All-find (λ m. All (IsKept m) s.versions) _ s.notes n ledger.numbered here))
                (inr (omega arith), tt));
      }
