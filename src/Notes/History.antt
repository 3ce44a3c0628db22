-- ===== src/Notes/History.antt =====
-- What a write of a note does to reads as of an instant: put_note and get_note of services/notes.py.
use mlpal_memory.Prelude.{
  All-find, ℕ, suc, ◌<◌, ◌≤◌, ◌≡◌, ◌≢◌, refl, sym, ap, ◌∙◌, ◌⊎◌, inl, inr, Option, none, some, List,
  [], ◌∷◌, ◌++◌, ◌==◌, find, arith, All, Bool-cases, Option-cases, ==_iff,
}
use mlpal_memory.Notes.{Body, Section}
use mlpal_memory.Notes.Store.{
  NoteKey, Note, NoteVersion, Notes, key_eq, find_note, latest, get_note, Author, new_note, bump,
  version_row, write_note,
}
use mlpal_memory.Notes.Ledger.{IsKept, IsLedger, find-append, written, find-written, eq_self}

-- The text and the number of the version that a read as of the instant gives. The rest of the read is the
-- row of the note as it is now.
abbrev pub read_at : NoteKey → ℕ → Notes → Option (Body × ℕ)
read_at key t s = elim (get_note key (some t) s) [ none ↦ none | some r ↦ some (r.body, r.version) ]

abbrev shown : Option NoteVersion → Option (Body × ℕ)
shown none = none
shown (some v) = some (v.body, v.version)

latest_undrawn :
    (k t : ℕ) (vs : List NoteVersion) → All (λ v. v.note_id < k) vs → latest k t vs ≡ none
unfolding latest
latest_undrawn k t [] h = refl
latest_undrawn k t (v ∷ vs) h = ground (arith, latest_undrawn k t vs h.1, h.0, ==_iff v.note_id k)

latest-append_later :
    (id t : ℕ) (row : NoteVersion) (vs : List NoteVersion)
    → t < row.created_at
    → latest id t (vs ++ row ∷ []) ≡ latest id t vs
unfolding latest
latest-append_later id t row [] later = ground arith
latest-append_later id t row (v ∷ vs) later = ground (arith, latest-append_later id t row vs later)

latest-append_new :
    (id t k : ℕ) (row : NoteVersion) (vs : List NoteVersion)
    → row.created_at ≤ t
    → row.note_id ≡ id
    → row.version ≡ suc k
    → All (λ v. (v.note_id ≢ id) ⊎ (v.version ≤ k)) vs
    → latest id t (vs ++ row ∷ []) ≡ some row
unfolding latest
latest-append_new id t k row [] due same high h = ground (arith, ==_iff row.note_id id)
latest-append_new id t k row (v ∷ vs) due same high h =
    ground (arith, latest-append_new id t k row vs due same high h.1, h.0, ==_iff v.note_id id)

module _ (key : NoteKey) (t : ℕ) (s : Notes) where
  read_none : find_note key s ≡ none → read_at key t s ≡ none
  unfolding get_note
  read_none absent = rw (absent, read_at) refl

  read_some :
      (n : Note) → find_note key s ≡ some n → read_at key t s ≡ shown (latest n.id t s.versions)
  unfolding get_note
  read_some n found = elim (Option-cases (latest n.id t s.versions)) [
    | inl absent ↦ rw (found, read_at) (rw absent refl)
    | inr (v, there) ↦ rw (found, read_at) (rw there refl)
  ]

-- A write to a note of the table.
module _ (now : ℕ) (a : Author) (body : Body) (sections : List Section) (n : Note) (s : Notes)
    (ledger : IsLedger s) (here : find (λ m. m.id == n.id) s.notes ≡ some n) where
  pub find_note-write :
      (key : NoteKey)
      → find_note key (write_note now a body sections n s).1
        ≡ written (bump a body n) (find_note key s)
  unfolding write_note bump find_note
  find_note-write key =
      find-written now a body sections n s ledger here (λ m. key_eq m.key key)
        (λ m e i. ap (λ k. key_eq k key) e)

  pub write-keeps_history :
      (key : NoteKey) (t : ℕ)
      → t < now
      → read_at key t (write_note now a body sections n s).1 ≡ read_at key t s
  unfolding write_note bump version_row
  write-keeps_history key t later =
      let s' = (write_note now a body sections n s).1 in
      elim (Option-cases (find_note key s)) [
        | inl absent ↦
            read_none key t s' (find_note-write key ∙ ap (written (bump a body n)) absent)
            ∙ sym (read_none key t s absent)
        | inr (m, found) ↦ elim (Bool-cases (m.id == n.id)) [
          | inl y ↦
              read_some key t s' (bump a body n)
                (find_note-write key ∙ ap (written (bump a body n)) found ∙ rw y refl)
              ∙ (ap shown (latest-append_later n.id t (version_row now a body n) s.versions later)
                  ∙ ap (λ i. shown (latest i t s.versions)) (sym ((==_iff m.id n.id).0 y))
                  ∙ sym (read_some key t s m found))
          | inr f ↦
              read_some key t s' m
                (find_note-write key ∙ ap (written (bump a body n)) found ∙ rw f refl)
              ∙ (ap shown (latest-append_later m.id t (version_row now a body n) s.versions later)
                  ∙ sym (read_some key t s m found))
        ]
      ]

  pub write-read_at :
      (key : NoteKey) (t : ℕ)
      → find_note key s ≡ some n
      → now ≤ t
      → read_at key t (write_note now a body sections n s).1 ≡ some (body, suc n.version)
  unfolding write_note bump version_row
  write-read_at key t found due =
      read_some key t (write_note now a body sections n s).1 (bump a body n)
        (find_note-write key ∙ ap (written (bump a body n)) found ∙ rw (eq_self n.id) refl)
      ∙ ap shown (
          latest-append_new n.id t n.version (version_row now a body n) s.versions due refl refl
            (All-find (λ m. All (IsKept m) s.versions) _ s.notes n ledger.numbered here))

-- A new note has no versions, so its row changes no read.
pub open-keeps_history :
    (s : Notes) (ledger : IsLedger s) (key : NoteKey) (a : Author) (other : NoteKey) (t : ℕ)
    → read_at other t
        (record s { notes = s.notes ++ new_note s.next_id key a ∷ []; next_id = suc s.next_id })
      ≡ read_at other t s
unfolding find_note new_note
open-keeps_history s ledger key a other t =
    let n = new_note s.next_id key a in
    let s' = record s { notes = s.notes ++ n ∷ []; next_id = suc s.next_id } in
    let search = find-append (λ m. key_eq m.key other) s.notes n in
    elim (Option-cases (find_note other s)) [
      | inl absent ↦ elim (Bool-cases (key_eq key other)) [
        | inl y ↦
            read_some other t s' n (search ∙ rw absent (rw y refl))
            ∙ (ap shown (latest_undrawn s.next_id t s.versions ledger.rows)
                ∙ sym (read_none other t s absent))
        | inr f ↦
            read_none other t s' (search ∙ rw absent (rw f refl)) ∙ sym (read_none other t s absent)
      ]
      | inr (m, found) ↦
          read_some other t s' m (search ∙ rw found refl) ∙ sym (read_some other t s m found)
    ]
