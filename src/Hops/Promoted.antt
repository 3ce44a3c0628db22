-- ===== src/Hops/Promoted.antt =====
-- What stands behind a promotion without a person, and behind a due turn: hop_promote.py, hop_eval.py
-- and hop_cadence.py of pipeline/.
use mlpal_memory.Prelude.{
  All-find, ℕ, ◌+◌, ◌*◌, ◌≤◌, ◌≡◌, ◌≢◌, ◌↔◌, ◌⊎◌, refl, sym, ap, subst, ◌∙◌, inl, inr, Bool, true,
  false, not, ◌&&◌, ◌||◌, Option, none, some, List, [], ◌∷◌, ◌++◌, String, leb, str_eq, eq_iff,
  or_else, any, opt_eq, any-sort_by, contains, arith, All, All-map_hyp, Bool-cases, Option-cases,
  leb→le,
}
use mlpal_memory.Hops.{
  Suite, Hop, is_read_only, tool_name, may_mutate, is_nil, is_apply_capable, Disposition, accepted,
  rejected, scored, auto, golden_of, golden_gates, decide_promotion, CadencePolicy, day,
  run_reasons, age_reasons, event_reasons, decide_due,
}
use mlpal_memory.Hops.Ladder.{
  ladder_rank, ladder_order, gates_by_role, gates_of, Run, meets_bar, stops, walk_suites, dispose,
  run_ladder,
}

All-any {ℓ} :
    {A : Type ℓ} (p : A → Bool) (xs : List A) → any p xs ≡ false → All (λ x. p x ≡ false) xs
All-any p [] h = tt
All-any p (x ∷ xs) h = (ground arith, All-any p xs (ground arith))

-- The golden suite gates the ladder and met its bar; or it leaves `gates` out, and its role does not gate, in
-- which case the ladder only scores it.
abbrev pub IsPassed : {Score : Type 0} → (Suite → ℕ → Run Score) → Suite → Type 0
IsPassed runner s =
    ((gates_of s ≡ true) × (meets_bar runner s ≡ true))
    ⊎ ((s.gates ≡ none) × (gates_by_role s.role ≡ false))

-- What lets a HOP promote itself.
pub record IsVetted {Score : Type 0} (runner : Suite → ℕ → Run Score) (hop : Hop) : Type 0 where
  pub asked : hop.promote ≡ some "auto"
  pub golden : (s : Suite) × (golden_of hop ≡ some s) × IsPassed runner s
  pub green : All (λ s. (gates_of s ≡ false) ⊎ (meets_bar runner s ≡ true)) hop.evals
  pub listed : hop.include_tools ≢ []
  pub read_only : All (λ r. is_read_only (tool_name r) ≡ some true) (hop.include_tools ++ hop.allow)

reads_only : (name : String) → may_mutate name ≡ false → is_read_only name ≡ some true
reads_only name h = elim (Option-cases (is_read_only name)) [
  | inl unknown ↦ ground (arith, unknown)
  | inr (ro, known) ↦ known ∙ ap some (ground (arith, known))
]

-- Of a decision to promote without a person, each guard.
module _ (hop : Hop) where
  accepted_only : (d : Disposition) → decide_promotion hop d ≡ auto → d ≡ accepted
  unfolding decide_promotion
  accepted_only accepted h = refl
  accepted_only rejected h = ground arith
  accepted_only scored h = ground arith

  guards :
      decide_promotion hop accepted ≡ auto
      → (str_eq (or_else hop.promote "human") "auto" ≡ true)
        × (golden_gates hop ≡ true)
        × (is_apply_capable hop ≡ false)
  unfolding decide_promotion
  guards h = (ground arith, ground arith, ground arith)

  asks_auto : str_eq (or_else hop.promote "human") "auto" ≡ true → hop.promote ≡ some "auto"
  asks_auto h = go hop.promote h
    where
      go : (p : Option String) → str_eq (or_else p "human") "auto" ≡ true → p ≡ some "auto"
      go none e = ground arith
      go (some t) e = ap some ((eq_iff t "auto").0 e)

  golden_found :
      golden_gates hop ≡ true
      → (s : Suite) × (golden_of hop ≡ some s) × (or_else s.gates true ≡ true)
  golden_found h = elim (Option-cases (golden_of hop)) [
    | inl absent ↦ ground (arith, absent)
    | inr (s, found) ↦ (s, found, ground (arith, found))
  ]

  tools_read :
      is_apply_capable hop ≡ false
      → (is_nil hop.include_tools ≡ false)
        × All (λ r. is_read_only (tool_name r) ≡ some true) (hop.include_tools ++ hop.allow)
  unfolding is_apply_capable
  tools_read h = (
    ground arith,
    All-map_hyp _ _ (hop.include_tools ++ hop.allow) (λ r. reads_only (tool_name r))
        (All-any (λ r. may_mutate (tool_name r)) (hop.include_tools ++ hop.allow) (ground arith)),
  )

module _ {Score : Type 0} (runner : Suite → ℕ → Run Score)
    (meets_margin : List Score → Option Bool) where
  -- A gating suite that misses its bar.
  abbrev fails : Suite → Bool
  fails s = gates_of s && not (meets_bar runner s)

  walk_suites-stops :
      (stopped : Bool) (ss : List Suite)
      → (walk_suites runner stopped ss).0 ≡ (stopped || any fails ss)
  unfolding walk_suites
  walk_suites-stops stopped [] = ground arith
  walk_suites-stops stopped (s ∷ ss) = ground (arith, walk_suites-stops (stops runner stopped s) ss)

  green_suite : (s : Suite) → fails s ≡ false → (gates_of s ≡ false) ⊎ (meets_bar runner s ≡ true)
  green_suite s h = elim (Bool-cases (gates_of s)) [ inl y ↦ inr (ground arith) | inr f ↦ inl f ]

  ladder_green :
      (hop : Hop) (has_baseline : Bool)
      → run_ladder runner meets_margin hop has_baseline ≡ accepted
      → All (λ s. (gates_of s ≡ false) ⊎ (meets_bar runner s ≡ true)) hop.evals
  unfolding run_ladder ladder_order dispose
  ladder_green hop has_baseline h =
      let unstopped = go (walk_suites runner false (ladder_order hop.evals)).0 _ h in
      All-map_hyp _ _ hop.evals green_suite (
        All-any fails hop.evals (
          sym (any-sort_by (λ a b. leb (ladder_rank a) (ladder_rank b)) fails hop.evals)
          ∙ sym (walk_suites-stops false (ladder_order hop.evals))
          ∙ unstopped))
    where
      go : (b : Bool) (m : Option Bool) → dispose b m ≡ accepted → b ≡ false
      go true m e = ground arith
      go false m e = refl

  golden_passes :
      (s : Suite)
      → or_else s.gates true ≡ true
      → (gates_of s ≡ false) ⊎ (meets_bar runner s ≡ true)
      → IsPassed runner s
  golden_passes s h green = elim (Option-cases s.gates) [
    | inl absent ↦ elim (Bool-cases (gates_by_role s.role)) [
      | inl y ↦ inl (
        ground (arith, absent, y),
        elim green [ inl f ↦ ground (arith, absent, y, f) | inr met ↦ met ],
      )
      | inr n ↦ inr (absent, n)
    ]
    | inr (g, stated) ↦ inl (
      ground (arith, stated, h),
      elim green [ inl f ↦ ground (arith, stated, h, f) | inr met ↦ met ],
    )
  ]

  -- A HOP that is promoted without a person asked for it, has a golden suite, passed every gating suite of
  -- its ladder, and lists tools, each of which is known to only read. The golden suite is one of the gating
  -- ones that met their bar, unless it leaves `gates` out and its role does not gate.
  pub decide_promotion-IsVetted :
      (hop : Hop) (has_baseline : Bool)
      → decide_promotion hop (run_ladder runner meets_margin hop has_baseline) ≡ auto
      → IsVetted runner hop
  decide_promotion-IsVetted hop has_baseline h =
      let done = accepted_only hop _ h in
      let (asked, gated, harmless) =
        guards hop (subst (λ d. decide_promotion hop d ≡ auto) done h) in
      let (listed, read_only) = tools_read hop harmless in
      record {
        asked = asks_auto hop asked;
        golden =
            let (s, found, stated) = golden_found hop gated in
            (
              s,
              found,
              golden_passes s stated (
                  All-find (λ s. (gates_of s ≡ false) ⊎ (meets_bar runner s ≡ true))
                    (λ s. opt_eq (some s.name) hop.golden_suite) hop.evals s
                    (ladder_green hop has_baseline done) found),
            );
        green = ladder_green hop has_baseline done;
        listed = λ e. nil_absurd hop.include_tools listed e;
        read_only = read_only;
      }
    where
      nil_absurd : (xs : List String) → is_nil xs ≡ false → ¬ (xs ≡ [])
      nil_absurd xs f e = ground (arith, ap is_nil e)

is_nil-append {ℓ} : {A : Type ℓ} (xs ys : List A) → is_nil (xs ++ ys) ≡ (is_nil xs && is_nil ys)
is_nil-append [] ys = refl
is_nil-append (x ∷ xs) ys = refl

is_nil-event_reasons :
    (p : CadencePolicy) (events : List String)
    → is_nil (event_reasons p events) ≡ not (any (λ e. contains e p.triggers) events)
is_nil-event_reasons p [] = refl
is_nil-event_reasons p (e ∷ events) = ground (arith, is_nil-event_reasons p events)

aged :
    (p : CadencePolicy) (now : ℕ) (last : Option ℕ)
    → is_nil (age_reasons p now last) ≡ false
    → (t : ℕ) × (last ≡ some t) × (t + p.max_age_days * day ≤ now)
aged p now none h = ground arith
aged p now (some t) h = (t, refl, ground arith)

old :
    (p : CadencePolicy) (now : ℕ) (last : Option ℕ) (t : ℕ)
    → last ≡ some t
    → t + p.max_age_days * day ≤ now
    → is_nil (age_reasons p now last) ≡ false
old p now last t e le = rw e (ground arith)

-- A turn is due exactly when the runs reach the floor, the last turn is as old as the policy allows, or a
-- declared trigger was observed.
pub decide_due_iff :
    (p : CadencePolicy) (runs : ℕ) (last : Option ℕ) (now : ℕ) (events : List String)
    → ((decide_due p runs last now events).due ≡ true) ↔ (
        (p.min_runs_since_last ≤ runs)
        ⊎ ((t : ℕ) × (last ≡ some t) × (t + p.max_age_days * day ≤ now))
        ⊎ (any (λ e. contains e p.triggers) events ≡ true))
unfolding decide_due
decide_due_iff p runs last now events =
    let parts =
      is_nil-append (run_reasons p runs) (age_reasons p now last ++ event_reasons p events) in
    let rest = is_nil-append (age_reasons p now last) (event_reasons p events) in
    let seen = is_nil-event_reasons p events in
    (
      λ h. elim (Bool-cases (any (λ e. contains e p.triggers) events)) [
        | inl y ↦ inr (inr y)
        | inr f ↦ elim (Bool-cases (leb p.min_runs_since_last runs)) [
          | inl y ↦ inl (leb→le p.min_runs_since_last runs y)
          | inr g ↦ inr (inl (aged p now last (ground (arith, parts, rest, seen, f, g, h))))
        ]
      ],
      λ h. elim h [
        | inl le ↦ ground (arith, parts, rest)
        | inr (inl (t, e, le)) ↦ ground (arith, parts, rest, old p now last t e le)
        | inr (inr y) ↦ ground (arith, parts, rest, seen)
      ],
    )
