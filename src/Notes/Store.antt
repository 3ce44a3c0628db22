-- ===== src/Notes/Store.antt =====
-- The table of notes and the kept versions: db/models/note.py, and find_note, get_note, put_note,
-- patch_section and history of services/notes.py.
use mlpal_memory.Prelude.{
  ℕ, suc, Bool, false, ◌&&◌, not, Option, none, some, List, [], ◌∷◌, ◌++◌, String, ◌==◌, map,
  filter, find, take, if◌then◌else◌, leb, ltb, str_eq, strip, is_empty, is_some, opt_eq, or_else,
  sort_by,
}
use mlpal_memory.Notes.{
  Section, section_eq, bad_op, conflict, unknown_section, Result, ok, fail, and_then, refuse, Body,
  section_of, strip_blank, Sections, no_sections, parse_sections, render_body, normalise,
  changed_sections,
}

-- What a note is found by.
pub record NoteKey : Type 0 where
  pub org_id : Option String
  pub scope : String
  pub scope_id : String
  pub workspace : String

pub record Note : Type 0 where
  pub id : ℕ
  pub key : NoteKey
  pub classification : String
  pub owner_user_id : Option String
  pub title : Option String
  pub body : Body
  pub version : ℕ
  pub updated_by : Option String

pub record NoteVersion : Type 0 where
  pub note_id : ℕ
  pub version : ℕ
  pub body : Body
  pub updated_by : Option String
  pub reason : Option String
  pub created_at : ℕ

-- The payload of the episode of an update: it holds no content.
pub record NoteEvent : Type 0 where
  pub note_id : ℕ
  pub version : ℕ
  pub reason : Option String
  pub sections_changed : List Section
  pub chars : ℕ

pub record Notes : Type 0 where
  pub notes : List Note
  pub versions : List NoteVersion
  pub events : List NoteEvent
  pub next_id : ℕ

pub record NoteRead : Type 0 where
  pub note : Note
  pub body : Body
  pub version : ℕ

abbrev pub key_eq : NoteKey → NoteKey → Bool
key_eq a b =
    opt_eq a.org_id b.org_id
    && str_eq a.scope b.scope
    && str_eq a.scope_id b.scope_id
    && str_eq a.workspace b.workspace

unfoldable pub find_note : NoteKey → Notes → Option Note
find_note key s = find (λ n. key_eq n.key key) s.notes

abbrev pub is_version_at : ℕ → ℕ → NoteVersion → Bool
is_version_at note_id as_of v = v.note_id == note_id && leb v.created_at as_of

-- The version that was in force: of the rows by then, the one with the highest number.
unfoldable pub latest : ℕ → ℕ → List NoteVersion → Option NoteVersion
latest note_id as_of [] = none
latest note_id as_of (v ∷ vs) =
    let rest = latest note_id as_of vs in
    if is_version_at note_id as_of v
    then (elim rest [ none ↦ some v | some w ↦ if ltb v.version w.version then some w else some v ])
    else rest

unfoldable pub get_note : NoteKey → Option ℕ → Notes → Option NoteRead
get_note key as_of s = elim (find_note key s) [
  | none ↦ none
  | some n ↦ elim as_of [
    | none ↦ some (record { note = n; body = n.body; version = n.version })
    | some t ↦ elim (latest n.id t s.versions) [
      | none ↦ none
      | some v ↦ some (record { note = n; body = v.body; version = v.version })
    ]
  ]
]

-- The arguments of a write.
pub record Author : Type 0 where
  pub updated_by : Option String
  pub reason : Option String
  pub base_version : Option ℕ
  pub classification : Option String
  pub title : Option String

abbrev pub is_text : Option String → Bool
is_text none = false
is_text (some s) = not (is_empty s)

-- The row of a note that does not exist yet.
unfoldable pub new_note : ℕ → NoteKey → Author → Note
new_note id key a = record {
  id = id;
  key = key;
  classification =
      if is_text a.classification
      then or_else a.classification ""
      else if str_eq key.scope "user"
      then "personal"
      else "internal";
  owner_user_id = if str_eq key.scope "user" then some key.scope_id else a.updated_by;
  title = a.title;
  body = record { lines = []; chars = 0 };
  version = 0;
  updated_by = a.updated_by;
}

-- `base_version not in (None, 0)`, and the test of a note that exists.
abbrev pub is_late : Option ℕ → ℕ → Bool
is_late none version = false
is_late (some b) version = not (b == version)

-- The note that is written to, and the tables with its row.
unfoldable pub open_note : NoteKey → Author → Notes → Result (Note × Notes)
open_note key a s = elim (find_note key s) [
  | none ↦ refuse (is_late a.base_version 0) conflict (
      let n = new_note s.next_id key a in
      ok (n, record s { notes = s.notes ++ n ∷ []; next_id = suc s.next_id }))
  | some n ↦ refuse (is_late a.base_version n.version) conflict (ok (n, s))
]

unfoldable pub bump : Author → Body → Note → Note
bump a body n = record n {
  version = suc n.version;
  body = body;
  updated_by = a.updated_by;
  title = if is_some a.title then a.title else n.title;
}

unfoldable pub version_row : ℕ → Author → Body → Note → NoteVersion
version_row now a body n = record {
  note_id = n.id;
  version = suc n.version;
  body = body;
  updated_by = a.updated_by;
  reason = a.reason;
  created_at = now;
}

unfoldable pub save_note : Note → List Note → List Note
save_note n = map (λ m. if m.id == n.id then n else m)

-- The new version, its row and its episode.
unfoldable pub write_note : ℕ → Author → Body → List Section → Note → Notes → NoteRead × Notes
write_note now a body sections n s =
    let new = bump a body n in
    (
      record { note = new; body = body; version = new.version },
      record s {
        notes = save_note new s.notes;
        versions = s.versions ++ version_row now a body n ∷ [];
        events =
            s.events
            ++ record {
              note_id = n.id;
              version = suc n.version;
              reason = a.reason;
              sections_changed = sections;
              chars = body.chars;
            }
              ∷ [];
      },
    )

unfoldable pub put_note : ℕ → NoteKey → Body → Author → Notes → Result (NoteRead × Notes)
put_note now key body a s = and_then (normalise body) (λ new_body.
    and_then (open_note key a s) (λ target.
      and_then (changed_sections target.0.body new_body)
        (λ sections. ok (write_note now a new_body sections target.0 target.1))))

-- `if note and note.body`
unfoldable pub current_sections : Option Note → Result Sections
current_sections none = ok no_sections
current_sections (some n) = if n.body.chars == 0 then ok no_sections else parse_sections n.body

-- The operation of a patch.
pub data PatchOp : Type 0 where
  replace append : PatchOp

abbrev pub op_of : String → Option PatchOp
op_of op =
    if str_eq op "replace" then some replace else if str_eq op "append" then some append else none

unfoldable pub patched : PatchOp → List String → List String → List String
patched replace old text = strip_blank text
patched append [] text = strip_blank text
patched append (l ∷ old) text = (l ∷ old) ++ strip_blank text

abbrev pub put_section : Section → List String → Sections → Sections
put_section name ls x s = if section_eq name s then ls else x s

abbrev pub version_of : Option Note → ℕ
version_of none = 0
version_of (some n) = n.version

-- The text of a patch is its lines.
unfoldable pub patch_section :
    ℕ → NoteKey → String → String → List String → Author → Notes → Result (NoteRead × Notes)
patch_section now key section op text a s = elim (section_of (strip section)) [
  | none ↦ fail (unknown_section section)
  | some name ↦ elim (op_of op) [
    | none ↦ fail bad_op
    | some o ↦
        let note = find_note key s in
        and_then (current_sections note) (λ current.
          refuse (is_late a.base_version (version_of note)) conflict (
            put_note now key
              (render_body (put_section name (patched o (current name) text) current))
              (record a { classification = none; title = none }) s))
  ]
]

-- The versions of a note, the last first.
unfoldable pub history : ℕ → Note → Notes → List NoteVersion
history limit n s =
    take limit
      (sort_by (λ v w. leb w.version v.version) (filter (λ v. v.note_id == n.id) s.versions))
