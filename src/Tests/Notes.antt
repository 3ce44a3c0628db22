-- ===== src/Tests/Notes.antt =====
-- Notes: parsing, writing, conflicts and reads of the past.
use mlpal_memory.Prelude.{ℕ, ◌≤◌, ◌≡◌, refl, some, none, Option, List, [], ◌∷◌, arith, All}
use mlpal_memory.Prelude.Texts.{strip}
use mlpal_memory.Notes.{
  Section, now, decisions, text_before, unknown_section, duplicate, conflict, ok, fail, and_then,
  refuse, Body, max_chars, heading, section_of, parse_lines, keep_line, drop_last_blank,
  drop_first_blank, strip_blank, Sections, no_sections, parse_sections, render_lines, count_chars,
  render_body, normalise, parse_old, changed_sections,
}
use mlpal_memory.Notes.Parsing.{IsPlain, parse_sections-render_body}
use mlpal_memory.Notes.Canonical.{normalise_idem}
use mlpal_memory.Notes.Store.{
  NoteKey, Note, Notes, NoteRead, find_note, latest, get_note, Author, new_note, open_note, bump,
  version_row, save_note, write_note, put_note, current_sections, patched, patch_section, history,
  put_section,
}
use mlpal_memory.Notes.Ledger.{IsLedger}
use mlpal_memory.Notes.History.{read_at}
use mlpal_memory.Notes.Puts.{
  put_note-keeps_history, put_note-get_note, put_note-conflicts, NoteWrite, put, patch, run_notes,
  IsLedger-run_notes,
}

program : Unit {0}
unfolding and_then refuse heading section_of parse_lines keep_line drop_last_blank drop_first_blank
    strip_blank parse_sections render_lines count_chars render_body normalise parse_old
    changed_sections find_note latest get_note new_note open_note bump version_row save_note
    write_note put_note current_sections patched patch_section history run_notes strip
program = tt

abbrev draft : Body
draft = record {
  lines = "##   decisions " ∷ "" ∷ "Use antt" ∷ "" ∷ "## NOW" ∷ "Prove" ∷ [];
  chars = 42;
}

abbrev stored : Body
stored = record {
  lines =
      "## Now" ∷ "Prove" ∷ "" ∷ "## Decisions" ∷ "Use antt" ∷ "" ∷ "## Open threads" ∷ ""
      ∷ "## Preferences" ∷ "" ∷ "## Pointers" ∷ [];
  chars = 82;
}

draft_is_put_in_order : normalise draft ≡ ok stored
unfolding program
draft_is_put_in_order = refl

twice :
    parse_sections (record { lines = "## Now" ∷ "## now" ∷ []; chars = 14 }) ≡ fail (duplicate now)
unfolding program
twice = refl

unknown_title :
    parse_sections (record { lines = "## Later" ∷ []; chars = 9 }) ≡ fail (unknown_section "Later")
unfolding program
unknown_title = refl

loose_text : parse_sections (record { lines = "##" ∷ []; chars = 3 }) ≡ fail text_before
unfolding program
loose_text = refl

normalise_idem_example : normalise stored ≡ ok stored
normalise_idem_example = normalise_idem draft stored draft_is_put_in_order (omega arith)

-- Sections with one line each in two of them.
abbrev two_parts : Sections
two_parts =
    put_section now ("Prove" ∷ []) (put_section decisions ("" ∷ "Use antt" ∷ []) no_sections)

two_parts-IsPlain : (s : Section) → All IsPlain (strip_blank (two_parts s))
unfolding program
two_parts-IsPlain Section.now = (refl, tt)
two_parts-IsPlain Section.decisions = (refl, tt)
two_parts-IsPlain Section.open_threads = tt
two_parts-IsPlain Section.preferences = tt
two_parts-IsPlain Section.pointers = tt

two_parts_fit : (render_body two_parts).chars ≤ max_chars
unfolding program
two_parts_fit = omega arith

parse_sections-render_body_example :
    parse_sections (render_body two_parts) ≡ ok (λ s. strip_blank (two_parts s))
parse_sections-render_body_example =
    parse_sections-render_body two_parts two_parts-IsPlain two_parts_fit

abbrev bare : Notes
bare = record { notes = []; versions = []; events = []; next_id = 0 }

bare-IsLedger : IsLedger bare
bare-IsLedger = record { unique = tt; drawn = tt; rows = tt; numbered = tt }

abbrev ops : NoteKey
ops = record { org_id = some "acme"; scope = "org"; scope_id = "acme"; workspace = "ops" }

abbrev author : Option ℕ → Author
author base = record {
  updated_by = some "ann";
  reason = none;
  base_version = base;
  classification = none;
  title = none;
}

abbrev written_once : Note
written_once = record {
  id = 0;
  key = ops;
  classification = "internal";
  owner_user_id = some "ann";
  title = none;
  body = stored;
  version = 1;
  updated_by = some "ann";
}

abbrev first : NoteRead × Notes
first = (
  record { note = written_once; body = stored; version = 1 },
  record {
    notes = written_once ∷ [];
    versions =
        record {
          note_id = 0;
          version = 1;
          body = stored;
          updated_by = some "ann";
          reason = none;
          created_at = 10;
        }
        ∷ [];
    events =
        record {
          note_id = 0;
          version = 1;
          reason = none;
          sections_changed = now ∷ decisions ∷ [];
          chars = 82;
        }
        ∷ [];
    next_id = 1;
  },
)

first_put : put_note 10 ops draft (author (some 0)) bare ≡ ok first
unfolding program
first_put = refl

abbrev writes : List NoteWrite
writes =
    put 10 ops draft (author (some 0))
    ∷ patch 20 ops "decisions" "append" ("Keep versions" ∷ []) (author (some 1))
    ∷ patch 30 ops "Later" "append" ("Lost" ∷ []) (author none)
    ∷ []

then_read : read_at ops 15 (run_notes bare writes) ≡ some (stored, 1)
unfolding program
then_read = refl

abbrev number : Option NoteRead → ℕ
number none = 0
number (some r) = r.version

two_versions : number (get_note ops none (run_notes bare writes)) ≡ 2
unfolding program
two_versions = refl

numbers_are_kept : IsLedger (run_notes bare writes)
numbers_are_kept = IsLedger-run_notes bare writes bare-IsLedger

put_note-keeps_history_example : read_at ops 9 first.1 ≡ read_at ops 9 bare
put_note-keeps_history_example =
    put_note-keeps_history 10 ops draft (author (some 0)) bare bare-IsLedger first ops 9 first_put
      (omega arith)

put_note-get_note_example : read_at ops 12 first.1 ≡ some (stored, 1)
put_note-get_note_example =
    put_note-get_note 10 ops draft (author (some 0)) bare bare-IsLedger first 12 first_put
      (omega arith)

put_note-conflicts_example : put_note 20 ops draft (author (some 0)) first.1 ≡ fail conflict
put_note-conflicts_example =
    put_note-conflicts 10 ops draft (author (some 0)) bare bare-IsLedger first 20 0 draft stored
      (author (some 0)) first_put refl (omega arith) draft_is_put_in_order
