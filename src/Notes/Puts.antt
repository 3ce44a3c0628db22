-- ===== src/Notes/Puts.antt =====
-- What put_note and patch_section of services/notes.py keep, give and refuse.
use mlpal_memory.Prelude.{
  All-find, ℕ, suc, ◌<◌, ◌≤◌, ◌≡◌, ◌≢◌, refl, ap, subst, ◌∙◌, inl, inr, true, Option, some, List,
  [], ◌∷◌, String, ◌==◌, find, arith, Option-cases, ==_iff, strip,
}
use mlpal_memory.Notes.{
  conflict, Result, ok, fail, and_then, refuse, Body, Section, section_of, Sections, normalise,
}
use mlpal_memory.Notes.Store.{
  NoteKey, Note, Notes, NoteRead, key_eq, find_note, is_late, Author, open_note, bump, write_note,
  put_note, op_of, current_sections, patch_section,
}
use mlpal_memory.Notes.Parsing.{Holds, Holds-refuse}
use mlpal_memory.Notes.Ledger.{IsLedger, IsOpened, IsLedger-open, written, IsLedger-write, eq_self}
use mlpal_memory.Notes.History.{
  read_at, find_note-write, write-keeps_history, write-read_at, open-keeps_history,
}

Holds-and_then {ℓ κ} :
    {A : Type ℓ} {B : Type κ} (P : A → Type 0) (Q : B → Type 0) (r : Result A) (f : A → Result B)
    → Holds P r
    → ((a : A) → P a → Holds Q (f a))
    → Holds Q (and_then r f)
unfolding and_then
Holds-and_then P Q (ok a) f h k = k a h
Holds-and_then P Q (fail e) f h k = tt

Holds-trivial {ℓ} : {A : Type ℓ} (r : Result A) → Holds (λ (a : A). Unit) r
Holds-trivial (ok a) = tt
Holds-trivial (fail e) = tt

-- What holds of a result that is there.
of_ok {ℓ} : {A : Type ℓ} (P : A → Type 0) (r : Result A) (a : A) → Holds P r → r ≡ ok a → P a
of_ok P r a h e = subst (Holds P) e h

-- The note at hand is in the tables, which read as those before.
abbrev Opened : NoteKey → Notes → Note × Notes → Type 0
Opened key s o =
    IsOpened key o × ((other : NoteKey) (t : ℕ) → read_at other t o.1 ≡ read_at other t s)

found_in :
    (key : NoteKey) (s : Notes) (n : Note)
    → find_note key s ≡ some n
    → find (λ m. key_eq m.key key) s.notes ≡ some n
unfolding find_note
found_in key s n found = found

returned :
    (now : ℕ) (a : Author) (body : Body) (sections : List Section) (n : Note) (s : Notes)
    → ◌≡◌ {A = Option (Body × ℕ)} (some (body, suc n.version)) (
        some (
          (write_note now a body sections n s).0.body,
          (write_note now a body sections n s).0.version,
        ))
unfolding write_note bump
returned now a body sections n s = refl

found_after :
    (now : ℕ) (key : NoteKey) (a : Author) (body : Body) (sections : List Section) (n : Note)
    (s : Notes)
    → IsLedger s
    → find (λ m. m.id == n.id) s.notes ≡ some n
    → find_note key s ≡ some n
    → (find_note key (write_note now a body sections n s).1
        ≡ some (write_note now a body sections n s).0.note)
      × ((write_note now a body sections n s).0.note.version
          ≡ (write_note now a body sections n s).0.version)
unfolding write_note bump
found_after now key a body sections n s ledger here found = (
  find_note-write now a body sections n s ledger here key
      ∙ ap (written (bump a body n)) found
      ∙ rw (eq_self n.id) refl,
  refl,
)

late : (base : Option ℕ) (m v : ℕ) → base ≡ some m → m ≢ v → is_late base v ≡ true
late base m v e stale = rw e (ground (arith, ==_iff m v))

open_note-late :
    (key : NoteKey) (b : Author) (s : Notes) (n : Note)
    → find_note key s ≡ some n
    → is_late b.base_version n.version ≡ true
    → open_note key b s ≡ fail conflict
unfolding open_note refuse
open_note-late key b s n found stale = rw (found, open_note) (rw stale refl)

Opened-open_note :
    (key : NoteKey) (a : Author) (s : Notes) → IsLedger s → Holds (Opened key s) (open_note key a s)
unfolding open_note
Opened-open_note key a s ledger = elim (Option-cases (find_note key s)) [
  | inl absent ↦
      rw (absent, open_note)
        (Holds-refuse (Opened key s) _ _ _ (
          IsLedger-open s ledger key a absent,
          λ other t. open-keeps_history s ledger key a other t,
        ))
  | inr (n, found) ↦
      rw (found, open_note)
        (Holds-refuse (Opened key s) _ _ _ (
          (
            ledger,
            found,
            All-find (λ k. find (λ m. m.id == k.id) s.notes ≡ some k) _ s.notes n ledger.unique
                (found_in key s n found),
          ),
          λ other t. refl,
        ))
]

-- A put that is not refused is a write to the opened note.
module _ (now : ℕ) (key : NoteKey) (body : Body) (a : Author) (s : Notes)
    (ledger : IsLedger s) where
  Holds-put_note :
      (Q : NoteRead × Notes → Type 0)
      → ((stored : Body) (sections : List Section) (o : Note × Notes)
          → Opened key s o
          → Q (write_note now a stored sections o.0 o.1))
      → Holds Q (put_note now key body a s)
  unfolding put_note
  Holds-put_note Q write =
      Holds-and_then (λ (b : Body). Unit) Q _ _ (Holds-trivial (normalise body))
        (λ stored u.
          Holds-and_then (Opened key s) Q _ _ (Opened-open_note key a s ledger) (λ o opened.
            Holds-and_then (λ (l : List Section). Unit) Q _ _ (Holds-trivial _)
              (λ sections v. write stored sections o opened)))

  IsLedger-put_note : Holds (λ out. IsLedger out.1) (put_note now key body a s)
  IsLedger-put_note =
      Holds-put_note (λ out. IsLedger out.1)
        (λ stored sections o opened.
          IsLedger-write now a stored sections o.0 o.1 opened.0.0 opened.0.2)

  -- A write leaves the text and the version that a read as of an earlier instant gives as they were, of that
  -- note and of any other. (Title and last author are the note's as it is now, and not looked at.)
  pub put_note-keeps_history :
      (out : NoteRead × Notes) (other : NoteKey) (t : ℕ)
      → put_note now key body a s ≡ ok out
      → t < now
      → read_at other t out.1 ≡ read_at other t s
  put_note-keeps_history out other t done later =
      of_ok (λ out. read_at other t out.1 ≡ read_at other t s) _ out
        (Holds-put_note (λ out. read_at other t out.1 ≡ read_at other t s)
          (λ stored sections o opened.
            write-keeps_history now a stored sections o.0 o.1 opened.0.0 opened.0.2 other t later
            ∙ opened.1 other t))
        done

  -- A read as of the write or later gives what the write returned.
  pub put_note-get_note :
      (out : NoteRead × Notes) (t : ℕ)
      → put_note now key body a s ≡ ok out
      → now ≤ t
      → read_at key t out.1 ≡ some (out.0.body, out.0.version)
  put_note-get_note out t done due =
      of_ok (λ out. read_at key t out.1 ≡ some (out.0.body, out.0.version)) _ out
        (Holds-put_note (λ out. read_at key t out.1 ≡ some (out.0.body, out.0.version))
          (λ stored sections o opened.
            write-read_at now a stored sections o.0 o.1 opened.0.0 opened.0.2 key t opened.0.1 due
            ∙ returned now a stored sections o.0 o.1))
        done

  -- The note in the tables is the one that was returned.
  returned_found :
      Holds
        (λ out. (find_note key out.1 ≡ some out.0.note) × (out.0.note.version ≡ out.0.version))
        (put_note now key body a s)
  returned_found =
      Holds-put_note
        (λ out. (find_note key out.1 ≡ some out.0.note) × (out.0.note.version ≡ out.0.version))
        (λ stored sections o opened.
          found_after now key a stored sections o.0 o.1 opened.0.0 opened.0.2 opened.0.1)

  -- After a write, one that was prepared on another version of the note is refused.
  pub put_note-conflicts :
      (out : NoteRead × Notes) (later m : ℕ) (text stored : Body) (b : Author)
      → put_note now key body a s ≡ ok out
      → b.base_version ≡ some m
      → m ≢ out.0.version
      → normalise text ≡ ok stored
      → put_note later key text b out.1 ≡ fail conflict
  unfolding put_note and_then
  put_note-conflicts out later m text stored b done base stale readable =
      let (found, version) =
        of_ok
          (λ (o : NoteRead × Notes).
            (find_note key o.1 ≡ some o.0.note) × (o.0.note.version ≡ o.0.version))
          _ out returned_found done in
      let refused =
        open_note-late key b out.1 out.0.note found
          (late b.base_version m out.0.note.version base (λ e. stale (e ∙ version))) in
      rw readable (rw refused refl)

IsLedger-patch_section :
    (now : ℕ) (key : NoteKey) (section op : String) (text : List String) (a : Author) (s : Notes)
    → IsLedger s
    → Holds (λ (out : NoteRead × Notes). IsLedger out.1) (patch_section now key section op text a s)
unfolding patch_section
IsLedger-patch_section now key section op text a s ledger =
    elim (Option-cases (section_of (strip section))) [
      | inl unknown ↦ rw (unknown, patch_section) tt
      | inr (name, known) ↦
          rw (known, patch_section)
            (elim (Option-cases (op_of op)) [
              | inl bad ↦ rw bad tt
              | inr (o, good) ↦ rw good (
                  Holds-and_then (λ (x : Sections). Unit)
                    (λ (out : NoteRead × Notes). IsLedger out.1) _ _
                    (Holds-trivial (current_sections (find_note key s)))
                    (λ current u.
                      Holds-refuse (λ (out : NoteRead × Notes). IsLedger out.1) _ _ _
                        (IsLedger-put_note now key _ _ s ledger)))
            ])
    ]

-- A write, and what the session makes of it: a refused one is rolled back.
pub data NoteWrite : Type 0 where
  put : ℕ → NoteKey → Body → Author → NoteWrite
  patch : ℕ → NoteKey → String → String → List String → Author → NoteWrite

abbrev keep : Notes → Result (NoteRead × Notes) → Notes
keep s (ok out) = out.1
keep s (fail e) = s

unfoldable pub run_notes : Notes → List NoteWrite → Notes
run_notes s [] = s
run_notes s (put now key body a ∷ ws) = run_notes (keep s (put_note now key body a s)) ws
run_notes s (patch now key section op text a ∷ ws) =
    run_notes (keep s (patch_section now key section op text a s)) ws

IsLedger-keep :
    (s : Notes) (r : Result (NoteRead × Notes))
    → IsLedger s
    → Holds (λ out. IsLedger out.1) r
    → IsLedger (keep s r)
IsLedger-keep s (ok out) h k = k
IsLedger-keep s (fail e) h k = h

-- Whatever writes arrive, ids stay unique and no kept version has a higher number than its note.
pub IsLedger-run_notes : (s : Notes) (ws : List NoteWrite) → IsLedger s → IsLedger (run_notes s ws)
unfolding run_notes
IsLedger-run_notes s [] h = h
IsLedger-run_notes s (put now key body a ∷ ws) h =
    IsLedger-run_notes (keep s (put_note now key body a s)) ws
      (IsLedger-keep s (put_note now key body a s) h (IsLedger-put_note now key body a s h))
IsLedger-run_notes s (patch now key section op text a ∷ ws) h =
    IsLedger-run_notes (keep s (patch_section now key section op text a s)) ws (
      IsLedger-keep s (patch_section now key section op text a s) h
        (IsLedger-patch_section now key section op text a s h))
