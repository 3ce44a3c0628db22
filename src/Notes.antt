-- ===== src/Notes.antt =====
-- The text of a workspace note: parse_sections, render_body and normalise of services/notes.py. A
-- body is its lines, those that splitlines gives, with the number of its characters.
pub mod Parsing
pub mod Canonical
pub mod Store
pub mod Ledger
pub mod History
pub mod Puts
use mlpal_memory.Prelude.{
  ℕ, suc, ◌+◌, Bool, true, false, ◌&&◌, ◌||◌, not, Option, none, some, List, [], ◌∷◌, ◌++◌, String,
  ◌==◌, if◌then◌else◌, leb, ltb, str_eq, strip, is_empty, is_space, or_else, filter,
}
use Prim.Native.Char.{Char, code}

-- The closed set of sections.
pub data Section : Type 0 where
  now decisions open_threads preferences pointers : Section

abbrev pub section_eq : Section → Section → Bool
section_eq now now = true
section_eq decisions decisions = true
section_eq open_threads open_threads = true
section_eq preferences preferences = true
section_eq pointers pointers = true
section_eq _ _ = false

-- NoteError by its message, and the two refusals of a write.
pub data NoteError : Type 0 where
  too_long text_before bad_op conflict : NoteError
  unknown_section : String → NoteError
  duplicate : Section → NoteError

pub data Result {ℓ} (A : Type ℓ) : Type ℓ where
  ok : A → Result A
  fail : NoteError → Result A

module _ {ℓ κ} {A : Type ℓ} {B : Type κ} where
  unfoldable pub and_then : Result A → (A → Result B) → Result B
  and_then (ok a) f = f a
  and_then (fail e) f = fail e

unfoldable pub refuse {ℓ} : {A : Type ℓ} → Bool → NoteError → Result A → Result A
refuse true e r = fail e
refuse false e r = r

pub record Body : Type 0 where
  pub lines : List String
  pub chars : ℕ

abbrev pub max_chars : ℕ
max_chars = 8000

-- `len(s)`
abbrev pub text_length : String → ℕ
text_length String.[] = 0
text_length (String.◌∷◌ c s) = suc (text_length s)

-- `str.lower` on the letters that a name of a section can have.
abbrev pub lower_char : Char → ℕ
lower_char c = let n = code c in if leb 65 n && leb n 90 then n + 32 else n

-- The two texts agree once lowered; the second is in lower case.
abbrev pub lowers_to : String → String → Bool
lowers_to String.[] String.[] = true
lowers_to (String.◌∷◌ c s) (String.◌∷◌ d t) = (lower_char c == code d) && lowers_to s t
lowers_to _ _ = false

-- `_SECTION_BY_KEY`
unfoldable pub section_of : String → Option Section
section_of key =
    if lowers_to key "now"
    then some now
    else if lowers_to key "decisions"
    then some decisions
    else if lowers_to key "open threads"
    then some open_threads
    else if lowers_to key "preferences"
    then some preferences
    else if lowers_to key "pointers"
    then some pointers
    else none

-- What stands after the hashes, if space does: the name, without the space around it.
abbrev pub heading_name : String → Option String
heading_name String.[] = none
heading_name (String.◌∷◌ c s) = if is_space c && not (is_empty s) then some (strip s) else none

abbrev pub is_hash : Char → Bool
is_hash c = code c == 35

abbrev pub second_hash : String → Option String
second_hash String.[] = none
second_hash (String.◌∷◌ c s) = if is_hash c then heading_name s else none

-- `_HEADING.match(raw)`: the name in a line that opens with two hashes and space.
unfoldable pub heading : String → Option String
heading String.[] = none
heading (String.◌∷◌ c s) = if is_hash c then second_hash s else none

-- `found`: the lines of the sections that were opened.
abbrev pub Found : Type 0
Found = Section → Option (List String)

abbrev pub nothing_found : Found
nothing_found s = none

abbrev pub put_found : Section → List String → Found → Found
put_found s ls f r = if section_eq s r then some ls else f r

-- `found[current].append(raw)`
abbrev pub add_line : Section → String → Found → Found
add_line s raw f = put_found s (or_else (f s) [] ++ raw ∷ []) f

-- The loop over the lines; a heading may not be unknown or come twice.
unfoldable pub parse_lines : List String → Option Section → Found → Result Found
parse_lines [] current f = ok f
parse_lines (raw ∷ ls) current f = elim (heading raw) [
  | some name ↦ elim (section_of name) [
    | none ↦ fail (unknown_section name)
    | some s ↦ elim (f s) [
      | some _ ↦ fail (duplicate s)
      | none ↦ parse_lines ls (some s) (put_found s [] f)
    ]
  ]
  | none ↦ elim current [
    | none ↦ refuse (not (is_empty (strip raw))) text_before (parse_lines ls none f)
    | some s ↦ parse_lines ls (some s) (add_line s raw f)
  ]
]

-- A line stays if it is not empty or lines stay after it.
unfoldable pub keep_line : String → List String → List String
keep_line l [] = if is_empty l then [] else l ∷ []
keep_line l (r ∷ rest) = l ∷ r ∷ rest

-- The lines without the empty ones at the end, and at both ends.
unfoldable pub drop_last_blank : List String → List String
drop_last_blank [] = []
drop_last_blank (l ∷ ls) = keep_line l (drop_last_blank ls)

unfoldable pub drop_first_blank : List String → List String
drop_first_blank [] = []
drop_first_blank (l ∷ ls) = if is_empty l then drop_first_blank ls else l ∷ ls

-- `"\n".join(lines).strip("\n")`, as lines
unfoldable pub strip_blank : List String → List String
strip_blank ls = drop_last_blank (drop_first_blank ls)

abbrev pub Sections : Type 0
Sections = Section → List String

abbrev pub no_sections : Sections
no_sections s = []

abbrev pub close_found : Found → Sections
close_found f s = strip_blank (or_else (f s) [])

unfoldable pub parse_sections : Body → Result Sections
parse_sections body =
    refuse (ltb max_chars body.chars) too_long
      (and_then (parse_lines body.lines none nothing_found) (λ f. ok (close_found f)))

abbrev pub title_of : Section → String
title_of now = "## Now"
title_of decisions = "## Decisions"
title_of open_threads = "## Open threads"
title_of preferences = "## Preferences"
title_of pointers = "## Pointers"

-- The lines of one part, and of the parts joined: an empty line stands between two.
abbrev pub part : Sections → Section → List String
part x s = title_of s ∷ strip_blank (x s)

unfoldable pub render_lines : Sections → List String
render_lines x =
    part x now
    ++ (""
        ∷ (part x decisions
            ++ (""
                ∷ (part x open_threads ++ ("" ∷ (part x preferences ++ ("" ∷ part x pointers)))))))

-- Every line of the rendered text ends in a line break.
unfoldable pub count_chars : List String → ℕ
count_chars [] = 0
count_chars (l ∷ ls) = suc (text_length l) + count_chars ls

unfoldable pub render_body : Sections → Body
render_body x = let ls = render_lines x in record { lines = ls; chars = count_chars ls }

unfoldable pub normalise : Body → Result Body
normalise body = and_then (parse_sections body) (λ x. ok (render_body x))

abbrev pub all_sections : List Section
all_sections = now ∷ decisions ∷ open_threads ∷ preferences ∷ pointers ∷ []

abbrev pub lines_eq : List String → List String → Bool
lines_eq [] [] = true
lines_eq (a ∷ as') (b ∷ bs) = str_eq a b && lines_eq as' bs
lines_eq _ _ = false

-- `parse_sections(old) if old else {s: "" for s in SECTIONS}`
unfoldable pub parse_old : Body → Result Sections
parse_old old = if old.chars == 0 then ok no_sections else parse_sections old

unfoldable pub changed_sections : Body → Body → Result (List Section)
changed_sections old new = and_then (parse_old old) (λ a.
    and_then (parse_sections new) (λ b. ok (filter (λ s. not (lines_eq (a s) (b s))) all_sections)))
