-- ===== src/Tests/Trust.antt =====
-- Runs, verdicts and tiers.
use mlpal_memory.Prelude.{◌≡◌, ◌↔◌, refl, true, false, some, none, String, List, [], ◌∷◌}
use mlpal_memory.Json.{Dict, get, put}
use mlpal_memory.Trust.{note_run, note_nodes, join_consequences, corroborated, tier_for}
use mlpal_memory.Trust.Consequences.{
  consequence_of, passing_runs, passes-join_consequences, IsCorroborated, tier_for-IsCorroborated,
}

program : Unit {0}
unfolding get put note_run note_nodes join_consequences tier_for
program = tt

abbrev served : Dict (List String)
served = ("r1", "n1" ∷ "n2" ∷ []) ∷ ("r2", "n1" ∷ []) ∷ ("r3", "n1" ∷ []) ∷ []

abbrev verdicts : Dict String
verdicts = ("r1", "success") ∷ ("r2", "error") ∷ []

one_fail : (consequence_of "n1" (join_consequences served verdicts)).fails ≡ 1
unfolding program
one_fail = refl

verdicts_join :
    (consequence_of "n1" (join_consequences served verdicts)).passes
    ≡ passing_runs "n1" verdicts served
verdicts_join =
    passes-join_consequences "n1" served verdicts
      ((refl, (refl, tt)), ((refl, tt), ((refl, tt), tt)))

one_tier_decided :
    (tier_for (some true) 2 none false ≡ corroborated) ↔ IsCorroborated (some true) 2 none false
one_tier_decided = tier_for-IsCorroborated (some true) 2 none false
