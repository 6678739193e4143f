-- ===== src/Policy/Optimizer/Filed.antt =====
-- What one step of the search does to the ranked policies.
use aegis_ai_risk_manager.Common.{
  ℕ, suc, ◌+◌, ◌≡◌, refl, sym, ap, ◌∙◌, ◌⊎◌, inl, inr, false, Bool-cases, String, List, [], ◌∷◌,
  ◌++◌, length, length-append, Option, none, some, Result, ok, >>=-eq-ok, ok-injective, ◌==◌,
  string_eq, nat_eq, arith, subst,
}
use aegis_ai_risk_manager.Common.Members.{List-cases}
use aegis_ai_risk_manager.Common.Dict.{tally, bump_by, tally-bump_by}
use aegis_ai_risk_manager.Common.Sets.{contains}
use aegis_ai_risk_manager.Common.{select}
use aegis_ai_risk_manager.Common.Float.{Float}
use aegis_ai_risk_manager.Policy.Config.{PolicyConfig, OperatingConstraints}
use aegis_ai_risk_manager.Policy.Costs.{CostProfile}
use aegis_ai_risk_manager.Policy.Backtest.Loop.{BacktestExample}
use aegis_ai_risk_manager.Policy.Backtest.Metrics.{PolicyMetrics}
use aegis_ai_risk_manager.Policy.Backtest.Report.{evaluate_policy}
use aegis_ai_risk_manager.Policy.Optimizer.{constraint_violations, checks}
use aegis_ai_risk_manager.Policy.Optimizer.Search.{
  Ranked, SearchState, candidate_policy, violations_of, entry_of, rank_or_reject, reject_all,
  distance_of, file_candidate, consider,
}

violations-other :
    {F : Type 0} ⦃f : Float F⦄ (constraints : Option (OperatingConstraints F))
    (metrics : PolicyMetrics F)
    → contains (violations_of constraints metrics) "populated_verify_band" ≡ false
unfolding constraint_violations checks select contains
violations-other none metrics = refl
violations-other (some c) metrics = ground arith

module _ {F : Type 0} ⦃f : Float F⦄ (constraints : Option (OperatingConstraints F)) where
  -- A populated verify band and no violated constraint.
  abbrev pub IsFeasible : PolicyMetrics F → Type 0
  IsFeasible metrics =
      ((tally "VERIFY" metrics.action_counts == 0) ≡ false)
      × (violations_of constraints metrics ≡ [])

  pub file_candidate-ranked :
      (float_sum : List F → F) (examples : List (BacktestExample F)) (policy : PolicyConfig F)
      (metrics : PolicyMetrics F) (s : SearchState F)
      → ((IsFeasible metrics → ⊥)
          × ((file_candidate float_sum examples constraints policy metrics s).ranked ≡ s.ranked))
        ⊎ (IsFeasible metrics
            × ((file_candidate float_sum examples constraints policy metrics s).ranked
                ≡ s.ranked ++ (entry_of examples policy metrics ∷ [])))
  unfolding file_candidate rank_or_reject
  file_candidate-ranked float_sum examples policy metrics s =
      elim (Bool-cases (tally "VERIFY" metrics.action_counts == 0)) [
        | inl none_verified ↦ inl ((λ h. ground arith), rw none_verified refl)
        | inr verified ↦ elim (List-cases (violations_of constraints metrics)) [
          | inl e ↦ inr ((verified, e), rw (verified, e) refl)
          | inr (v, vs, e) ↦ inl ((λ h. ground arith), rw (verified, e) refl)
        ]
      ]

  -- Every evaluated candidate adds one to exactly one of the three counts.
  abbrev pub filed : SearchState F → ℕ
  filed s = tally "populated_verify_band" s.rejected + length s.nearest + length s.ranked

  reject_all-other :
      (violations : List String) (rejected : List (String × ℕ))
      → contains violations "populated_verify_band" ≡ false
      → tally "populated_verify_band" (reject_all violations rejected)
        ≡ tally "populated_verify_band" rejected
  unfolding reject_all contains
  reject_all-other [] rejected h = refl
  reject_all-other (v ∷ violations) rejected h =
      let here = tally-bump_by v "populated_verify_band" 1 rejected in
      let rest = reject_all-other violations (bump_by v 1 rejected) (ground arith) in
      rest ∙ ground (arith, here)

  pub file_candidate-filed :
      (float_sum : List F → F) (examples : List (BacktestExample F)) (policy : PolicyConfig F)
      (metrics : PolicyMetrics F) (s : SearchState F)
      → filed (file_candidate float_sum examples constraints policy metrics s) ≡ suc (filed s)
  unfolding file_candidate rank_or_reject
  file_candidate-filed float_sum examples policy metrics s =
      let other = violations-other constraints metrics in
      elim (Bool-cases (tally "VERIFY" metrics.action_counts == 0)) [
        | inl none_verified ↦ rw none_verified (
            omega
              (arith, tally-bump_by "populated_verify_band" "populated_verify_band" 1 s.rejected))
        | inr verified ↦ elim (List-cases (violations_of constraints metrics)) [
          | inl e ↦
              rw (verified, e)
                (omega (arith, length-append s.ranked (entry_of examples policy metrics ∷ [])))
          | inr (v, vs, e) ↦
              let same = reject_all-other (v ∷ vs) s.rejected (rw e at other) in
              rw (verified, e)
                (omega (
                  arith,
                  same,
                  length-append s.nearest (
                      record {
                        distance = distance_of float_sum constraints metrics;
                        policy = policy;
                        metrics = metrics;
                        violations = v ∷ vs;
                      }
                      ∷ []),
                ))
        ]
      ]

  file_candidate-evaluated :
      (float_sum : List F → F) (examples : List (BacktestExample F)) (policy : PolicyConfig F)
      (metrics : PolicyMetrics F) (s : SearchState F)
      → (file_candidate float_sum examples constraints policy metrics s).evaluated_pair_count
        ≡ s.evaluated_pair_count
  unfolding file_candidate rank_or_reject
  file_candidate-evaluated float_sum examples policy metrics s =
      elim (Bool-cases (tally "VERIFY" metrics.action_counts == 0)) [
        | inl none_verified ↦ rw none_verified refl
        | inr verified ↦ elim (List-cases (violations_of constraints metrics)) [
          | inl e ↦ rw (verified, e) refl
          | inr (v, vs, e) ↦ rw (verified, e) refl
        ]
      ]

  module _ (policy_hash : PolicyConfig F → String) (profile_hash : CostProfile F → String)
      (float_sum : List F → F) (examples : List (BacktestExample F)) (base_policy : PolicyConfig F)
      (cost_profile : CostProfile F) where
    abbrev pub candidate : F → F → PolicyConfig F
    candidate = candidate_policy base_policy cost_profile

    abbrev pub evaluated : F → F → Result (PolicyMetrics F)
    evaluated v h = evaluate_policy policy_hash profile_hash examples (candidate v h) cost_profile

    abbrev pub entry : F → F → PolicyMetrics F → Ranked F
    entry v h = entry_of examples (candidate v h)

    -- A step over a pair leaves the ranked policies, or appends the one that it found feasible.
    pub consider-ranked :
        (v h : F) (s t : SearchState F)
        → consider policy_hash profile_hash float_sum examples base_policy cost_profile constraints
            v h s
          ≡ ok t
        → ((t.ranked ≡ s.ranked)
            × ((m : PolicyMetrics F) → f.le h v ≡ false → evaluated v h ≡ ok m → IsFeasible m → ⊥))
          ⊎ ((m : PolicyMetrics F) × (f.le h v ≡ false)
              × (evaluated v h ≡ ok m)
              × IsFeasible m
              × (t.ranked ≡ s.ranked ++ (entry v h m ∷ [])))
    unfolding consider
    consider-ranked v h s t e = elim (Bool-cases (f.le h v)) [
      | inl skip ↦
          let same : s ≡ t = ok-injective (rw skip at e) in
          inl (ap (λ (s : SearchState F). s.ranked) (sym same), λ m lt _ _. ground arith)
      | inr run ↦
          let (m, first, last) = >>=-eq-ok (evaluated v h) _ (rw run at e) in
          let same = ok-injective last in
          let ranked = ap (λ (s : SearchState F). s.ranked) (sym same) in
          elim (file_candidate-ranked float_sum examples (candidate v h) m
            (record s { evaluated_pair_count = s.evaluated_pair_count + 1 })) [
              | inl (bad, e) ↦ inl (
                ranked ∙ e,
                λ n _ ran good. bad (subst IsFeasible (ok-injective (sym ran ∙ first)) good),
              )
              | inr (good, e) ↦ inr (m, run, first, good, ranked ∙ e)
            ]
    ]

    pub consider-filed :
        (v h : F) (s t : SearchState F)
        → consider policy_hash profile_hash float_sum examples base_policy cost_profile constraints
            v h s
          ≡ ok t
        → filed s ≡ s.evaluated_pair_count
        → filed t ≡ t.evaluated_pair_count
    unfolding consider
    consider-filed v h s t e before = elim (Bool-cases (f.le h v)) [
      | inl skip ↦
          subst (λ s. filed s ≡ s.evaluated_pair_count) (ok-injective (rw skip at e)) before
      | inr run ↦
          let (m, first, last) = >>=-eq-ok (evaluated v h) _ (rw run at e) in
          let counted = record s { evaluated_pair_count = s.evaluated_pair_count + 1 } in
          let more = file_candidate-filed float_sum examples (candidate v h) m counted in
          let same = file_candidate-evaluated float_sum examples (candidate v h) m counted in
          subst (λ s. filed s ≡ s.evaluated_pair_count) (ok-injective last)
            (omega (arith, more, same, before))
    ]
