-- ===== src/Trust/Consequences.antt =====
-- What the join of pipeline/trust.py counts, and what it takes to be corroborated.
use mlpal_memory.Prelude.{
  ℕ, ◌+◌, ◌≤◌, String, ◌≡◌, ◌≢◌, ◌⊎◌, ◌↔◌, refl, ap, ◌∙◌, Bool, true, false, ◌&&◌, Option, none,
  some, inl, inr, List, [], ◌∷◌, arith, leb, contains, count, All, or_else, str_eq, eq_iff, eq_refl,
  Bool-cases, Option-cases, if◌then◌else◌,
}
use mlpal_memory.Json.{Dict, get, put, get-put}
use mlpal_memory.Trust.{
  pass_results, Consequence, no_consequence, note_run, note_nodes, note_served, join_from,
  join_consequences, corroborated, tier_for,
}

-- The consequence of a node, empty where there is none.
abbrev pub consequence_of : String → Dict Consequence → Consequence
consequence_of nid out = or_else (get nid out) no_consequence

abbrev pub Distinct : List String → Type 0
Distinct [] = Unit
Distinct (x ∷ xs) = (contains x xs ≡ false) × Distinct xs

consequence_of-put :
    (nid j : String) (c : Consequence) (out : Dict Consequence)
    → consequence_of nid (put j c out) ≡ (if str_eq j nid then c else consequence_of nid out)
consequence_of-put nid j c out = ground (arith, get-put j nid c out)

-- What one run adds to one node.
abbrev pub passed : String → String → List String → ℕ
passed nid v ids = if contains v pass_results && contains nid ids then 1 else 0

passes-note_run :
    (r v : String) (c : Consequence)
    → (note_run r v c).passes ≡ c.passes + (if contains v pass_results then 1 else 0)
unfolding note_run
passes-note_run r v c = ground arith

-- The node that the run saw.
passes_there :
    (nid j r v : String) (out : Dict Consequence)
    → j ≡ nid
    → (consequence_of nid (put j (note_run r v (consequence_of j out)) out)).passes
      ≡ (consequence_of nid out).passes + (if contains v pass_results then 1 else 0)
passes_there nid j r v out same =
    ap (λ x. (consequence_of nid (put x (note_run r v (consequence_of x out)) out)).passes) same
    ∙ ap (λ c. c.passes) (consequence_of-put nid nid (note_run r v (consequence_of nid out)) out)
    ∙ rw (eq_refl nid) (passes-note_run r v (consequence_of nid out))

once :
    (nid j v : String) (ids : List String) (out : Dict Consequence)
    → j ≡ nid
    → contains j ids ≡ false
    → (consequence_of nid out).passes
        + (if contains v pass_results then 1 else 0)
        + passed nid v ids
      ≡ (consequence_of nid out).passes + passed nid v (j ∷ ids)
once nid j v ids out same absent =
    ground (arith, ap (λ x. contains x ids) same, absent, ap (str_eq nid) same, eq_refl nid)

passes-note_nodes :
    (nid r v : String) (ids : List String) (out : Dict Consequence)
    → Distinct ids
    → (consequence_of nid (note_nodes r v ids out)).passes
      ≡ (consequence_of nid out).passes + passed nid v ids
unfolding note_nodes
passes-note_nodes nid r v [] out d = ground arith
passes-note_nodes nid r v (j ∷ ids) out d =
    let c = note_run r v (consequence_of j out) in
    let rest = passes-note_nodes nid r v ids (put j c out) d.1 in
    elim (Bool-cases (str_eq j nid)) [
      | inl y ↦
          let same : j ≡ nid = (eq_iff j nid).0 y in
          rest
          ∙ ap (λ n. n + passed nid v ids) (passes_there nid j r v out same)
          ∙ once nid j v ids out same d.0
      | inr n ↦ rest ∙ ground (arith, consequence_of-put nid j c out, n, eq_iff j nid, eq_iff nid j)
    ]

-- Every run of the record whose verdict is a pass and that saw the node.
abbrev pub passing_runs : String → Dict String → Dict (List String) → ℕ
passing_runs nid verdicts served =
    count (λ s. contains (or_else (get s.0 verdicts) "") pass_results && contains nid s.1) served

passes-note_served :
    (nid r : String) (verdicts : Dict String) (ids : List String) (out : Dict Consequence)
    → Distinct ids
    → (consequence_of nid (note_served verdicts r ids out)).passes
      ≡ (consequence_of nid out).passes
        + (if contains (or_else (get r verdicts) "") pass_results && contains nid ids then 1 else 0)
passes-note_served nid r verdicts ids out d = elim (Option-cases (get r verdicts)) [
  | inl absent ↦ rw (absent, note_served) (omega arith)
  | inr (v, found) ↦ rw (found, note_served) (passes-note_nodes nid r v ids out d)
]

passes-join_from :
    (nid : String) (verdicts : Dict String) (served : Dict (List String)) (out : Dict Consequence)
    → All (λ s. Distinct s.1) served
    → (consequence_of nid (join_from verdicts served out)).passes
      ≡ (consequence_of nid out).passes + passing_runs nid verdicts served
passes-join_from nid verdicts [] out h = omega arith
passes-join_from nid verdicts ((r, ids) ∷ served) out h =
    passes-join_from nid verdicts served (note_served verdicts r ids out) h.1
    ∙ ground (arith, passes-note_served nid r verdicts ids out h.0)

-- A node passed as often as there are runs that saw it and whose verdict is a pass; a run without a verdict
-- counts for nothing.
pub passes-join_consequences :
    (nid : String) (served : Dict (List String)) (verdicts : Dict String)
    → All (λ s. Distinct s.1) served
    → (consequence_of nid (join_consequences served verdicts)).passes
      ≡ passing_runs nid verdicts served
unfolding join_consequences get
passes-join_consequences nid served verdicts h =
    passes-join_from nid verdicts served [] h ∙ omega arith

-- What a memory must show to be corroborated.
pub record IsCorroborated (grounded : Option Bool) (observed : ℕ) (c : Option Consequence)
    (is_endorsed : Bool) : Type 0 where
  pub unendorsed : is_endorsed ≡ false
  pub not_ungrounded : grounded ≢ some false
  pub unfailed : (or_else c no_consequence).fails ≡ 0
  pub seen_or_used : (2 ≤ observed) ⊎ (3 ≤ (or_else c no_consequence).passes)

earned :
    (grounded : Option Bool) (observed : ℕ) (c : Option Consequence) (e : Bool)
    → tier_for grounded observed c e ≡ corroborated
    → IsCorroborated grounded observed c e
unfolding tier_for
earned grounded observed c e h = record {
  unendorsed = ground (arith, h);
  not_ungrounded = λ p. ground (arith, h, p);
  unfailed = ground (arith, h);
  seen_or_used = elim (Bool-cases (leb 2 observed)) [
    | inl y ↦ inl (ground (arith, y))
    | inr n ↦ inr (ground (arith, h, n))
  ];
}

sufficient :
    (grounded : Option Bool) (observed : ℕ) (c : Option Consequence) (e : Bool)
    → IsCorroborated grounded observed c e
    → tier_for grounded observed c e ≡ corroborated
unfolding tier_for
sufficient (some false) observed c e h = absurd (h.not_ungrounded refl)
sufficient (some true) observed c e h = elim h.seen_or_used [
  | inl seen ↦ ground (arith, h.unendorsed, h.unfailed, seen)
  | inr used ↦ ground (arith, h.unendorsed, h.unfailed, used)
]
sufficient none observed c e h = elim h.seen_or_used [
  | inl seen ↦ ground (arith, h.unendorsed, h.unfailed, seen)
  | inr used ↦ ground (arith, h.unendorsed, h.unfailed, used)
]

-- A memory is corroborated exactly when no person endorsed it, it is not ungrounded, no run that used it
-- failed, and it was seen twice or three runs that used it passed.
pub tier_for-IsCorroborated :
    (grounded : Option Bool) (observed : ℕ) (c : Option Consequence) (e : Bool)
    → (tier_for grounded observed c e ≡ corroborated) ↔ IsCorroborated grounded observed c e
tier_for-IsCorroborated grounded observed c e =
    (earned grounded observed c e, sufficient grounded observed c e)
