-- ===== src/Notes/Canonical.antt =====
-- The form that a note is stored in: normalise of services/notes.py.
use mathlib.Core.Path.{fun_ext}
use mlpal_memory.Prelude.{
  ◌≤◌, ◌≡◌, refl, sym, ap, subst, ◌∙◌, ◌⊎◌, inl, inr, none, List, [], ◌∷◌, ◌++◌, String, is_empty,
  or_else, arith, All, Bool-cases,
}
use mlpal_memory.Notes.{
  Section, now, decisions, open_threads, preferences, pointers, NoteError, Result, ok, fail,
  and_then, Body, max_chars, Found, nothing_found, parse_lines, keep_line, drop_last_blank,
  drop_first_blank, strip_blank, Sections, close_found, parse_sections, title_of, render_lines,
  count_chars, render_body, normalise,
}
use mlpal_memory.Notes.Parsing.{
  IsPlain, strip_blank_idem, parse_sections-render_body, Holds, IsPlainAll, IsPlainAll-parse_lines,
  Holds-refuse,
}

All-drop_first {κ} :
    (P : String → Type κ) (ls : List String) → All P ls → All P (drop_first_blank ls)
unfolding drop_first_blank
All-drop_first P [] h = tt
All-drop_first P (l ∷ ls) h = elim (Bool-cases (is_empty l)) [
  | inl y ↦ rw y (All-drop_first P ls h.1)
  | inr n ↦ rw n h
]

All-keep_line {κ} :
    (P : String → Type κ) (l : String) (ls : List String) → P l → All P ls → All P (keep_line l ls)
unfolding keep_line
All-keep_line P l [] p h = elim (Bool-cases (is_empty l)) [ inl y ↦ rw y tt | inr n ↦ rw n (p, tt) ]
All-keep_line P l (x ∷ ls) p h = (p, h)

All-drop_last {κ} : (P : String → Type κ) (ls : List String) → All P ls → All P (drop_last_blank ls)
unfolding drop_last_blank
All-drop_last P [] h = tt
All-drop_last P (l ∷ ls) h = All-keep_line P l (drop_last_blank ls) h.0 (All-drop_last P ls h.1)

All-strip_blank {κ} : (P : String → Type κ) (ls : List String) → All P ls → All P (strip_blank ls)
unfolding strip_blank
All-strip_blank P ls h = All-drop_last P (drop_first_blank ls) (All-drop_first P ls h)

Result-cases {ℓ} :
    {A : Type ℓ} (r : Result A) → ((a : A) × (r ≡ ok a)) ⊎ ((e : NoteError) × (r ≡ fail e))
Result-cases (ok a) = inl (a, refl)
Result-cases (fail e) = inr (e, refl)

IsPlain-close_found :
    (r : Result Found)
    → Holds IsPlainAll r
    → Holds
        (λ (x : Sections). (s : Section) → All IsPlain (x s))
        (and_then r (λ f. ok (close_found f)))
unfolding and_then
IsPlain-close_found (ok f) h = λ s. All-strip_blank IsPlain (or_else (f s) []) (h s)
IsPlain-close_found (fail e) h = tt

-- The sections that a body parses to hold no heading line.
IsPlain-parse_sections :
    (body : Body)
    → Holds (λ (x : Sections). (s : Section) → All IsPlain (x s)) (parse_sections body)
unfolding parse_sections
IsPlain-parse_sections body =
    Holds-refuse (λ (x : Sections). (s : Section) → All IsPlain (x s)) _ _ _
      (IsPlain-close_found (parse_lines body.lines none nothing_found)
        (IsPlainAll-parse_lines body.lines none nothing_found (λ s. tt)))

render_body-strip_blank : (x : Sections) → render_body (λ s. strip_blank (x s)) ≡ render_body x
unfolding render_body render_lines
render_body-strip_blank x =
    ap (λ (y : Sections). record { lines = lines_of y; chars = count_chars (lines_of y) })
      (fun_ext (λ s. strip_blank_idem (x s)))
  where
    lines_of : Sections → List String
    lines_of y =
        (title_of now ∷ y now)
        ++ (""
            ∷ ((title_of decisions ∷ y decisions)
                ++ (""
                    ∷ ((title_of open_threads ∷ y open_threads)
                        ++ (""
                            ∷ ((title_of preferences ∷ y preferences)
                                ++ ("" ∷ (title_of pointers ∷ y pointers))))))))

body_or : Body → Result Body → Body
body_or b (ok a) = a
body_or b (fail e) = b

not_ok : (e : NoteError) (b : Body) → ¬ (◌≡◌ {A = Result Body} (fail e) (ok b))
not_ok e b h = ground arith

-- What is stored is in the canonical form: to normalise it again changes nothing, if it is within the
-- limit on characters.
pub normalise_idem :
    (body stored : Body)
    → normalise body ≡ ok stored
    → stored.chars ≤ max_chars
    → normalise stored ≡ ok stored
unfolding normalise and_then body_or
normalise_idem body stored done fits = elim (Result-cases (parse_sections body)) [
  | inl (x, parsed) ↦
      let same : render_body x ≡ stored =
        ap (body_or stored) (sym (ap (λ r. and_then r (λ y. ok (render_body y))) parsed) ∙ done) in
      let plain : (s : Section) → All IsPlain (strip_blank (x s)) = λ s.
        All-strip_blank IsPlain (x s) (
          subst (Holds (λ (y : Sections). (s : Section) → All IsPlain (y s))) parsed
            (IsPlain-parse_sections body) s) in
      subst (λ b. normalise b ≡ ok b) same
        (ap (λ r. and_then r (λ y. ok (render_body y)))
            (parse_sections-render_body x plain (subst (λ b. b.chars ≤ max_chars) (sym same) fits))
          ∙ ap ok (render_body-strip_blank x))
  | inr (e, failed) ↦
      absurd (not_ok e stored (sym (ap (λ r. and_then r (λ y. ok (render_body y))) failed) ∙ done))
]
