-- ===== src/Claims/Anchors.antt =====
-- The anchors of keyed claims: which claims share one (anchor_key of pipeline/claims.py).
use Prim.Native.Char.{Char, code}
use Prim.Native.String.append
use mlpal_memory.Prelude.{
  ℕ, String, ◌≡◌, refl, sym, ap, ◌∙◌, Bool, true, not, ◌&&◌, ◌==◌, ◌<>◌, arith,
}
use mathlib.Core.Path.{ap₂}
use text.Mathlib.TextEquality.{Char-path}
use mlpal_memory.Claims.{Kind, prefix_of, anchor_key}

-- No colon in the text.
abbrev pub has_no_colon : String → Bool
has_no_colon String.[] = true
has_no_colon (String.◌∷◌ c s) = not (code c == 58) && has_no_colon s

abbrev head_code : String → ℕ
head_code String.[] = 0
head_code (String.◌∷◌ c s) = code c

abbrev tail : String → String
tail String.[] = String.[]
tail (String.◌∷◌ c s) = s

append_nil : (t : String) → "" <> t ≡ t
append_nil t = λ i. append.nil t i

append_cons : (c : Char) (s t : String) → String.◌∷◌ c s <> t ≡ String.◌∷◌ c (s <> t)
append_cons c s t = λ i. append.cons c s t i

head-append : (c : Char) (s t : String) → head_code (String.◌∷◌ c s <> t) ≡ code c
head-append c s t = ap head_code (append_cons c s t)

tail-append : (c : Char) (s t : String) → tail (String.◌∷◌ c s <> t) ≡ s <> t
tail-append c s t = ap tail (append_cons c s t)

head_colon : (x : String) → head_code (":" <> x) ≡ 58
head_colon x = head-append _ "" x

tail_colon : (x : String) → tail (":" <> x) ≡ x
tail_colon x = tail-append _ "" x ∙ append_nil x

cut :
    (a b x y : String)
    → has_no_colon a ≡ true
    → has_no_colon b ≡ true
    → a <> (":" <> x) ≡ b <> (":" <> y)
    → (a ≡ b) × (x ≡ y)
cut String.[] String.[] x y h k e =
    let e' = sym (append_nil (":" <> x)) ∙ e ∙ append_nil (":" <> y) in
    (refl, sym (tail_colon x) ∙ ap tail e' ∙ tail_colon y)
cut String.[] (String.◌∷◌ d b) x y h k e =
    let e' = sym (append_nil (":" <> x)) ∙ e in
    let p = sym (head_colon x) ∙ ap head_code e' ∙ head-append d b (":" <> y) in ground arith
cut (String.◌∷◌ c a) String.[] x y h k e =
    let e' = e ∙ append_nil (":" <> y) in
    let p = sym (head-append c a (":" <> x)) ∙ ap head_code e' ∙ head_colon y in ground arith
cut (String.◌∷◌ c a) (String.◌∷◌ d b) x y h k e =
    let e' = sym (append_cons c a (":" <> x)) ∙ e ∙ append_cons d b (":" <> y) in
    let (p, q) = cut a b x y (ground arith) (ground arith) (ap tail e') in
    (ap₂ (λ c s. String.◌∷◌ c s) (Char-path c d (ap head_code e')) p, q)

no_colon-prefix_of : (k : Kind) → has_no_colon (prefix_of k) ≡ true
no_colon-prefix_of Kind.state = refl
no_colon-prefix_of Kind.preference = refl
no_colon-prefix_of Kind.learning = refl
no_colon-prefix_of Kind.deviation = refl
no_colon-prefix_of Kind.dated = refl

-- An anchor tells its kind, its topic and its key, if the topic has no colon.
pub anchor_key-injective :
    (k j : Kind) (topic key topic' key' : String)
    → has_no_colon topic ≡ true
    → has_no_colon topic' ≡ true
    → anchor_key k topic key ≡ anchor_key j topic' key'
    → (prefix_of k ≡ prefix_of j) × (topic ≡ topic') × (key ≡ key')
unfolding anchor_key
anchor_key-injective k j topic key topic' key' h h' e =
    let (p, rest) =
      cut (prefix_of k) (prefix_of j) _ _ (no_colon-prefix_of k) (no_colon-prefix_of j) e in
    let (q, r) = cut topic topic' key key' h h' rest in (p, q, r)
