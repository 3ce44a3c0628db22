-- ===== src/Notes/Parsing.antt =====
-- A note that is rendered is parsed to the sections it was rendered from: services/notes.py.
use mlpal_memory.Prelude.{
  ◌≤◌, ◌≡◌, refl, sym, ap, ◌∙◌, inl, inr, Bool, true, false, Option, none, some, List, [], ◌∷◌,
  ◌++◌, String, if◌then◌else◌, ltb, is_empty, or_else, arith, All, All-append, Bool-cases,
  Option-cases,
}
use mathlib.Core.Path.{fun_ext}
use mlpal_memory.Prelude.Texts.{strip}
use mlpal_memory.Notes.{
  Section, now, decisions, open_threads, preferences, pointers, section_eq, NoteError, too_long,
  Result, ok, fail, and_then, refuse, max_chars, section_of, heading, Found, nothing_found,
  put_found, add_line, parse_lines, keep_line, drop_last_blank, drop_first_blank, strip_blank,
  Sections, close_found, parse_sections, title_of, part, render_lines, render_body,
}

-- The line opens no section.
abbrev pub IsPlain : String → Type 0
IsPlain l = heading l ≡ none

drop_last-append_blank : (ls : List String) → drop_last_blank (ls ++ "" ∷ []) ≡ drop_last_blank ls
unfolding drop_last_blank keep_line
drop_last-append_blank [] = refl
drop_last-append_blank (l ∷ ls) = ap (keep_line l) (drop_last-append_blank ls)

drop_last_idem : (ls : List String) → drop_last_blank (drop_last_blank ls) ≡ drop_last_blank ls
unfolding drop_last_blank keep_line
drop_last_idem [] = refl
drop_last_idem (l ∷ ls) = go l (drop_last_blank ls) (drop_last_idem ls)
  where
    go :
        (l : String) (rest : List String)
        → drop_last_blank rest ≡ rest
        → drop_last_blank (keep_line l rest) ≡ keep_line l rest
    go l [] h = elim (Bool-cases (is_empty l)) [
      | inl y ↦ rw (keep_line, y) refl
      | inr f ↦ rw (keep_line, f) (rw (keep_line, f) refl)
    ]
    go l (r ∷ rest) h = ap (keep_line l) h

-- The first line is not empty.
abbrev Starts : List String → Type 0
Starts [] = Unit
Starts (l ∷ ls) = is_empty l ≡ false

Starts-drop_first : (ls : List String) → Starts (drop_first_blank ls)
unfolding drop_first_blank
Starts-drop_first [] = tt
Starts-drop_first (l ∷ ls) = elim (Bool-cases (is_empty l)) [
  | inl y ↦ rw y (Starts-drop_first ls)
  | inr f ↦ rw f f
]

Starts-drop_last : (ls : List String) → Starts ls → Starts (drop_last_blank ls)
unfolding drop_last_blank keep_line
Starts-drop_last [] h = tt
Starts-drop_last (l ∷ ls) h = go (drop_last_blank ls)
  where
    go : (rest : List String) → Starts (keep_line l rest)
    go [] = rw (keep_line, h) h
    go (r ∷ rest) = h

drop_first-Starts : (ls : List String) → Starts ls → drop_first_blank ls ≡ ls
unfolding drop_first_blank
drop_first-Starts [] h = refl
drop_first-Starts (l ∷ ls) h = rw h refl

pub strip_blank_idem : (ls : List String) → strip_blank (strip_blank ls) ≡ strip_blank ls
unfolding strip_blank
strip_blank_idem ls =
    let kept =
      drop_first-Starts (drop_last_blank (drop_first_blank ls))
        (Starts-drop_last (drop_first_blank ls) (Starts-drop_first ls)) in
    ap drop_last_blank kept ∙ drop_last_idem (drop_first_blank ls)

-- An empty line after the stripped ones is stripped again.
strip_blank-append : (ls : List String) → strip_blank (strip_blank ls ++ "" ∷ []) ≡ strip_blank ls
unfolding strip_blank drop_first_blank drop_last_blank
strip_blank-append ls =
    go (drop_last_blank (drop_first_blank ls))
      (Starts-drop_last (drop_first_blank ls) (Starts-drop_first ls))
    ∙ drop_last_idem (drop_first_blank ls)
  where
    go :
        (ys : List String)
        → Starts ys
        → drop_last_blank (drop_first_blank (ys ++ "" ∷ [])) ≡ drop_last_blank ys
    go [] h = refl
    go (y ∷ ys) h =
        ap drop_last_blank (drop_first-Starts (y ∷ ys ++ "" ∷ []) h)
        ∙ drop_last-append_blank (y ∷ ys)

put_found_twice :
    (s : Section) (a b : List String) (f : Found)
    → put_found s b (put_found s a f) ≡ put_found s b f
put_found_twice s a b f = fun_ext (λ r. go r (section_eq s r))
  where
    go :
        (r : Section) (same : Bool)
        → (if same then some b else if same then some a else f r) ≡ (if same then some b else f r)
    go r true = refl
    go r false = refl

put_found_self : (s : Section) (a : List String) (f : Found) → put_found s a f s ≡ some a
put_found_self now a f = refl
put_found_self decisions a f = refl
put_found_self open_threads a f = refl
put_found_self preferences a f = refl
put_found_self pointers a f = refl

append_nil : (xs : List String) → xs ++ [] ≡ xs
append_nil [] = refl
append_nil (x ∷ xs) = ap (λ l. x ∷ l) (append_nil xs)

append_one :
    (xs : List String) (x : String) (ys : List String) → (xs ++ x ∷ []) ++ ys ≡ xs ++ x ∷ ys
append_one [] x ys = refl
append_one (z ∷ xs) x ys = ap (λ l. z ∷ l) (append_one xs x ys)

plain_step :
    (l : String) (ls : List String) (s : Section) (f : Found)
    → IsPlain l
    → parse_lines (l ∷ ls) (some s) f ≡ parse_lines ls (some s) (add_line s l f)
unfolding parse_lines
plain_step l ls s f h = rw (h, parse_lines) refl

-- Lines that open no section join the section at hand.
parse_lines-append :
    (ls rest : List String) (s : Section) (old : List String) (f : Found)
    → All IsPlain ls
    → parse_lines (ls ++ rest) (some s) (put_found s old f)
      ≡ parse_lines rest (some s) (put_found s (old ++ ls) f)
unfolding parse_lines
parse_lines-append [] rest s old f h =
    ap (λ l. parse_lines rest (some s) (put_found s l f)) (sym (append_nil old))
parse_lines-append (l ∷ ls) rest s old f h =
    let added : add_line s l (put_found s old f) ≡ put_found s (old ++ l ∷ []) f =
      ap (λ o. put_found s (or_else o [] ++ l ∷ []) (put_found s old f)) (put_found_self s old f)
      ∙ put_found_twice s old (old ++ l ∷ []) f in
    plain_step l (ls ++ rest) s (put_found s old f) h.0
    ∙ (ap (parse_lines (ls ++ rest) (some s)) added
        ∙ parse_lines-append ls rest s (old ++ l ∷ []) f h.1
        ∙ ap (λ o. parse_lines rest (some s) (put_found s o f)) (append_one old l ls))

-- A title opens its section.
title_opens :
    (s : Section) (rest : List String) (current : Option Section) (f : Found)
    → f s ≡ none
    → parse_lines (title_of s ∷ rest) current f ≡ parse_lines rest (some s) (put_found s [] f)
unfolding parse_lines heading section_of strip
title_opens now rest current f new = rw new refl
title_opens decisions rest current f new = rw new refl
title_opens open_threads rest current f new = rw new refl
title_opens preferences rest current f new = rw new refl
title_opens pointers rest current f new = rw new refl

blank_line : IsPlain ""
unfolding heading
blank_line = refl

parse_end : (current : Option Section) (f : Found) → parse_lines [] current f ≡ ok f
unfolding parse_lines
parse_end current f = refl

-- A part, and the empty line after it.
module _ (x : Sections) (plain : (s : Section) → All IsPlain (strip_blank (x s))) where
  part_last :
      (s : Section) (current : Option Section) (f : Found)
      → f s ≡ none
      → parse_lines (part x s) current f ≡ ok (put_found s (strip_blank (x s)) f)
  part_last s current f new =
      title_opens s (strip_blank (x s)) current f new
      ∙ (ap (λ ls. parse_lines ls (some s) (put_found s [] f))
            (sym (append_nil (strip_blank (x s))))
          ∙ parse_lines-append (strip_blank (x s)) [] s [] f (plain s)
          ∙ parse_end (some s) (put_found s (strip_blank (x s)) f))

  part_then :
      (s : Section) (rest : List String) (current : Option Section) (f : Found)
      → f s ≡ none
      → parse_lines (part x s ++ "" ∷ rest) current f
        ≡ parse_lines rest (some s) (put_found s (strip_blank (x s) ++ "" ∷ []) f)
  part_then s rest current f new =
      title_opens s (strip_blank (x s) ++ "" ∷ rest) current f new
      ∙ (parse_lines-append (strip_blank (x s)) ("" ∷ rest) s [] f (plain s)
          ∙ parse_lines-append ("" ∷ []) rest s (strip_blank (x s)) f (blank_line, tt))

  abbrev body_of : Section → List String
  body_of s = strip_blank (x s)

  abbrev found_at_end : Found
  found_at_end = put_found pointers (body_of pointers) (
      put_found preferences (body_of preferences ++ "" ∷ []) (
        put_found open_threads (body_of open_threads ++ "" ∷ []) (
          put_found decisions (body_of decisions ++ "" ∷ [])
            (put_found now (body_of now ++ "" ∷ []) nothing_found))))

  parse-render_lines : parse_lines (render_lines x) none nothing_found ≡ ok found_at_end
  unfolding render_lines
  parse-render_lines =
      part_then now _ none nothing_found refl
      ∙ part_then decisions _ _ _ refl
      ∙ part_then open_threads _ _ _ refl
      ∙ part_then preferences _ _ _ refl
      ∙ part_last pointers _ _ refl

  close-found_at_end : (s : Section) → close_found found_at_end s ≡ strip_blank (x s)
  close-found_at_end now = strip_blank-append (x now)
  close-found_at_end decisions = strip_blank-append (x decisions)
  close-found_at_end open_threads = strip_blank-append (x open_threads)
  close-found_at_end preferences = strip_blank-append (x preferences)
  close-found_at_end pointers = strip_blank_idem (x pointers)

-- Sections without a heading line inside, rendered within the limit, are parsed to themselves less the
-- empty lines around each.
pub parse_sections-render_body :
    (x : Sections)
    → ((s : Section) → All IsPlain (strip_blank (x s)))
    → (render_body x).chars ≤ max_chars
    → parse_sections (render_body x) ≡ ok (λ s. strip_blank (x s))
unfolding parse_sections render_body and_then refuse
parse_sections-render_body x plain fits =
    let small : ltb max_chars (render_body x).chars ≡ false = ground arith in
    ap
      (λ b.
        refuse b too_long
          (and_then (parse_lines (render_lines x) none nothing_found) (λ f. ok (close_found f))))
      small
    ∙ ap (λ r. and_then r (λ f. ok (close_found f))) (parse-render_lines x plain)
    ∙ ap ok (fun_ext (close-found_at_end x plain))

-- What a result gives, if it is not an error.
abbrev pub Holds {ℓ} : {A : Type ℓ} → (A → Type 0) → Result A → Type 0
Holds P (ok a) = P a
Holds P (fail e) = Unit

-- No line of a section that was opened is a heading.
abbrev pub IsPlainAll : Found → Type 0
IsPlainAll f = (s : Section) → All IsPlain (or_else (f s) [])

IsPlainAll-put_found :
    (s : Section) (ls : List String) (f : Found)
    → All IsPlain ls
    → IsPlainAll f
    → IsPlainAll (put_found s ls f)
IsPlainAll-put_found s ls f h plain r = elim (Bool-cases (section_eq s r)) [
  | inl y ↦ rw y h
  | inr n ↦ rw n (plain r)
]

pub Holds-refuse {ℓ} :
    {A : Type ℓ} (P : A → Type 0) (b : Bool) (e : NoteError) (r : Result A)
    → Holds P r
    → Holds P (refuse b e r)
unfolding refuse
Holds-refuse P true e r h = tt
Holds-refuse P false e r h = h

-- A heading opens a new section, or the parse is refused.
IsPlainAll-open :
    (l : String) (ls : List String) (current : Option Section) (f : Found) (name : String)
    → heading l ≡ some name
    → ((s : Section) → Holds IsPlainAll (parse_lines ls (some s) (put_found s [] f)))
    → Holds IsPlainAll (parse_lines (l ∷ ls) current f)
unfolding parse_lines
IsPlainAll-open l ls current f name titled rest =
    rw (titled, parse_lines)
      (elim (Option-cases (section_of name)) [
        | inl unknown ↦ rw unknown tt
        | inr (s, known) ↦ rw known (elim (Option-cases (f s)) [
          | inl new ↦ rw new (rest s)
          | inr (old, twice) ↦ rw twice tt
        ])
      ])

pub IsPlainAll-parse_lines :
    (ls : List String) (current : Option Section) (f : Found)
    → IsPlainAll f
    → Holds IsPlainAll (parse_lines ls current f)
unfolding parse_lines
IsPlainAll-parse_lines [] current f plain = plain
IsPlainAll-parse_lines (l ∷ ls) none f plain = elim (Option-cases (heading l)) [
  | inl text ↦
      rw (text, parse_lines)
        (Holds-refuse IsPlainAll _ _ (parse_lines ls none f)
          (IsPlainAll-parse_lines ls none f plain))
  | inr (name, titled) ↦ IsPlainAll-open l ls none f name titled (λ s.
      IsPlainAll-parse_lines ls (some s) (put_found s [] f) (IsPlainAll-put_found s [] f tt plain))
]
IsPlainAll-parse_lines (l ∷ ls) (some s) f plain = elim (Option-cases (heading l)) [
  | inl text ↦
      rw (text, parse_lines)
        (IsPlainAll-parse_lines ls (some s) (add_line s l f) (
          IsPlainAll-put_found s (or_else (f s) [] ++ l ∷ []) f
            (All-append IsPlain (or_else (f s) []) (l ∷ []) (plain s) (text, tt)) plain))
  | inr (name, titled) ↦ IsPlainAll-open l ls (some s) f name titled (λ r.
      IsPlainAll-parse_lines ls (some r) (put_found r [] f) (IsPlainAll-put_found r [] f tt plain))
]
