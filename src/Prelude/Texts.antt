-- ===== src/Prelude/Texts.antt =====
-- Python's texts: whitespace, strip and the texts without any.
use Prim.Native.Char.{Char, code}
use Prim.Native.Nat.{ℕ, zero, suc, ◌-◌}
use Prim.Native.String.{String, ◌++◌}
use mathlib.Core.Bool.{Bool, true, false, ◌||◌, ◌&&◌}
use mlpal_memory.Prelude.Tests.{leb, str_eq, ◌==◌, if◌then◌else◌}

-- `c.isspace()`
abbrev pub is_space : Char → Bool
is_space c =
    let n = code c in
    (leb 9 n && leb n 13)
    || (leb 28 n && leb n 32)
    || (n == 133)
    || (n == 160)
    || (n == 5760)
    || (leb 8192 n && leb n 8202)
    || (n == 8232)
    || (n == 8233)
    || (n == 8239)
    || (n == 8287)
    || (n == 12288)

-- `not s`
abbrev pub is_empty : String → Bool
is_empty String.[] = true
is_empty (String.◌∷◌ c s) = false

abbrev pub lstrip : String → String
lstrip String.[] = String.[]
lstrip (String.◌∷◌ c s) = if is_space c then lstrip s else String.◌∷◌ c s

abbrev pub rstrip : String → String
rstrip String.[] = String.[]
rstrip (String.◌∷◌ c s) =
    let rest = rstrip s in if is_space c && is_empty rest then String.[] else String.◌∷◌ c rest

-- `s.strip()`
unfoldable pub strip : String → String
strip s = rstrip (lstrip s)

-- The character at a place of the text, or else the one given.
abbrev pub char_at_or : String → ℕ → Char → Char
char_at_or String.[] n d = d
char_at_or (String.◌∷◌ c s) zero d = c
char_at_or (String.◌∷◌ c s) (suc n) d = char_at_or s n d

-- `c.lower()` for the letters of ASCII.
abbrev pub lower_letter : Char → Char
lower_letter c =
    let n = code c in
    if leb 65 n && leb n 90 then char_at_or "abcdefghijklmnopqrstuvwxyz" (n - 65) c else c

unfoldable pub lower : String → String
lower String.[] = String.[]
lower (String.◌∷◌ c s) = String.◌∷◌ (lower_letter c) (lower s)

-- Runs of space become one blank; the flag says whether a run is going on.
abbrev pub collapse_run : Bool → String → String
collapse_run in_run String.[] = String.[]
collapse_run in_run (String.◌∷◌ c s) =
    let within = collapse_run true s in
    let outside = collapse_run false s in
    if is_space c
    then (if in_run then within else String.◌∷◌ (char_at_or " " 0 c) within)
    else String.◌∷◌ c outside

-- `re.sub(r"\s+", " ", s)`
unfoldable pub collapse : String → String
collapse s = collapse_run false s

-- `s[:n]`
unfoldable pub take_text : ℕ → String → String
take_text zero s = String.[]
take_text (suc n) String.[] = String.[]
take_text (suc n) (String.◌∷◌ c s) = String.◌∷◌ c (take_text n s)

-- `s.startswith(p)`
abbrev pub starts_with : String → String → Bool
starts_with String.[] s = true
starts_with (String.◌∷◌ c p) String.[] = false
starts_with (String.◌∷◌ c p) (String.◌∷◌ d s) = (code c == code d) && starts_with p s

-- `s.endswith(p)`: the text is `p`, or its tail ends with `p`.
abbrev pub ends_with : String → String → Bool
ends_with p String.[] = str_eq p String.[]
ends_with p (String.◌∷◌ c s) = str_eq p (String.◌∷◌ c s) || ends_with p s

-- `part in s`
abbrev pub has_part : String → String → Bool
has_part p String.[] = is_empty p
has_part p (String.◌∷◌ c s) = starts_with p (String.◌∷◌ c s) || has_part p s

-- The length of a text.
abbrev pub size : String → ℕ
size String.[] = 0
size (String.◌∷◌ c s) = suc (size s)

-- `s.replace(old, new)` for an old text that is not empty; the number counts characters still to be skipped.
abbrev pub replace_from : ℕ → String → String → String → String
replace_from n old new String.[] = String.[]
replace_from zero old new (String.◌∷◌ c s) =
    let replaced = replace_from (size old - 1) old new s in
    let kept = replace_from 0 old new s in
    if starts_with old (String.◌∷◌ c s) then new ++ replaced else String.◌∷◌ c kept
replace_from (suc n) old new (String.◌∷◌ c s) = replace_from n old new s

unfoldable pub replace : String → String → String → String
replace old new s = replace_from 0 old new s

-- `len(s.split())`; the flag says whether a word is going on.
abbrev pub count_words : Bool → String → ℕ
count_words in_word String.[] = 0
count_words in_word (String.◌∷◌ c s) =
    let within = count_words true s in
    let outside = count_words false s in
    if is_space c then outside else if in_word then within else suc within

-- `s.split(" ", 1)[0]`
abbrev pub first_word : String → String
first_word String.[] = String.[]
first_word (String.◌∷◌ c s) =
    let rest = first_word s in if code c == 32 then String.[] else String.◌∷◌ c rest

-- `s.rstrip(".,;:")`
abbrev pub strip_marks : String → String
strip_marks String.[] = String.[]
strip_marks (String.◌∷◌ c s) =
    let rest = strip_marks s in
    let n = code c in
    if is_empty rest && (n == 46 || (n == 44) || (n == 59) || (n == 58))
    then String.[]
    else String.◌∷◌ c rest
