-- ===== src/Claims/Folded.antt =====
-- The fold of rules and claims together: pipeline/updater.py over pipeline/claims.py.
use mlpal_memory.Prelude.{◌≡◌, subst, inl, inr, some, All-append, str_eq, Bool-cases, length}
use mlpal_memory.Fold.{Episode}
use mlpal_memory.Fold.Extractor.{extract}
use mlpal_memory.Fold.Extractor.Keeping.{IsGrounded}
use mlpal_memory.Fold.Extractor.Grounded.{extract-IsGrounded}
use mlpal_memory.Fold.Entities.{Fold}
use mlpal_memory.Fold.Relations.{Tally}
use mlpal_memory.Graph.{Store}
use mlpal_memory.Fold.Process.{World, fold_extraction}
use mlpal_memory.Fold.Process.Counts.{Counts, Counts-fold_extraction}
use mlpal_memory.Claims.{Readers, extract_claim, extract_structured}
use mlpal_memory.Claims.Wired.{joined_left, joined_right, extract_claim-IsGrounded}

IsGrounded-extract_structured : (r : Readers) (ep : Episode) → IsGrounded (extract_structured r ep)
unfolding extract_structured
IsGrounded-extract_structured r ep =
    let out = extract r.slug ep in
    let claimed = extract_claim r ep in
    let g = extract-IsGrounded r.slug ep in
    elim (Bool-cases (str_eq ep.action_type "memory.claim")) [
      | inl y ↦ rw y (record {
        edges =
            All-append _ out.edges claimed.edges
              (joined_left out.entities claimed.entities out.edges g.edges)
              (joined_right out.entities claimed.entities claimed.edges
                (extract_claim-IsGrounded r ep).edges);
        invalidations = joined_left out.entities claimed.entities out.invalidations g.invalidations;
      })
      | inr n ↦ rw n g
    ]

-- When the fold of what the rules and a claim extract does not raise, it writes as many edges as there are:
-- none is passed over for want of an end.
pub fold_extraction-extract_structured :
    (w : World) (f : Fold) (r : Readers) (ep : Episode) (s : Store) (t : Tally)
    → fold_extraction w f (extract_structured r ep) s ≡ some t
    → t.edges ≡ length (extract_structured r ep).edges
fold_extraction-extract_structured w f r ep s t done =
    subst (Counts (length (extract_structured r ep).edges)) done
      (Counts-fold_extraction w f (extract_structured r ep) s (IsGrounded-extract_structured r ep))
