-- ===== src/Policy/Optimizer/Total.antt =====
-- `optimize_thresholds` returns: a choice, or the error of no feasible policy.
use aegis_ai_risk_manager.Common.{
  ℕ, ◌≡◌, refl, inl, inr, true, false, Bool-cases, String, List, [], ◌∷◌, map, length, Option,
  Result, Result-cases, ok, All, arith, ltb, any_of, all_of, not, ◌+◌, ◌≤◌,
}
use aegis_ai_risk_manager.Common.Float.{Float, Compares, Rounds}
use aegis_ai_risk_manager.Policy.Config.{PolicyConfig, OperatingConstraints, validate_policy}
use aegis_ai_risk_manager.Policy.Costs.{CostProfile, validate_profile}
use aegis_ai_risk_manager.Policy.Engine.{versions_match}
use aegis_ai_risk_manager.Policy.Engine.Decision.{validate_policy-ReviewsSevere}
use aegis_ai_risk_manager.Policy.Backtest.Loop.{BacktestExample}
use aegis_ai_risk_manager.Policy.Backtest.Sound.{IsDecidable, evaluate_policy_returns}
use aegis_ai_risk_manager.Policy.Optimizer.Search.{
  SearchState, no_search, candidate_policy, file_candidate, consider, try_holds, try_pairs,
}
use aegis_ai_risk_manager.Policy.Optimizer.{no_scores, threshold_candidates}
use aegis_ai_risk_manager.Policy.Optimizer.Choice.{
  Optimization, optimize_thresholds, all_candidates, conclude, generation, by_key,
}
use aegis_ai_risk_manager.Policy.Optimizer.Best.{optimization, thresholds}

abbrev pub score : {F : Type 0} → BacktestExample F → F
score e = e.policy_input.model_score

-- Finite scores of at least one example pass the guard of `threshold_candidates`.
module _ {F : Type 0} ⦃f : Float F⦄ where
  no_scores-map : (es : List (BacktestExample F)) → no_scores (map score es) ≡ no_scores es
  no_scores-map [] = refl
  no_scores-map (e ∷ es) = refl

  scores_pass :
      (es : List (BacktestExample F))
      → all_of (λ e. f.is_finite (score e)) es ≡ true
      → any_of (λ x. not (f.is_finite x)) (map score es) ≡ false
  unfolding all_of any_of
  scores_pass [] h = refl
  scores_pass (e ∷ es) h = ground (arith, scores_pass es)

module _ {F : Type 0} ⦃f : Float F⦄ ⦃cmp : Compares F⦄ ⦃round : Rounds F⦄ (show : ℕ → String)
    (quantile : List F → ℕ → List F) (policy_hash : PolicyConfig F → String)
    (profile_hash : CostProfile F → String) (float_sum : List F → F)
    (examples : List (BacktestExample F)) (base_policy : PolicyConfig F)
    (cost_profile : CostProfile F) (constraints : Option (OperatingConstraints F))
    (quantile_count : ℕ) (additional_thresholds : List F) where
  abbrev step : F → F → SearchState F → Result (SearchState F)
  step = consider policy_hash profile_hash float_sum examples base_policy cost_profile constraints

  abbrev row : F → List F → SearchState F → Result (SearchState F)
  row = try_holds policy_hash profile_hash float_sum examples base_policy cost_profile constraints

  abbrev rows : List F → List F → SearchState F → Result (SearchState F)
  rows = try_pairs policy_hash profile_hash float_sum examples base_policy cost_profile constraints

  module _ (policy_valid : validate_policy base_policy ≡ ok tt)
      (profile_valid : validate_profile cost_profile ≡ ok tt)
      (decidable : All (IsDecidable base_policy) examples) where
    -- The thresholds do not decide whether a decision is made.
    same-IsDecidable :
        (v h : F) (es : List (BacktestExample F))
        → All (IsDecidable base_policy) es
        → All (IsDecidable (candidate_policy base_policy cost_profile v h)) es
    unfolding versions_match
    same-IsDecidable v h [] all = tt
    same-IsDecidable v h (e ∷ es) all = (all.0, same-IsDecidable v h es all.1)

    step_returns : (v h : F) (s : SearchState F) → (t : SearchState F) × (step v h s ≡ ok t)
    unfolding consider
    step_returns v h s =
        let candidate = candidate_policy base_policy cost_profile v h in
        let (m, ran) =
          evaluate_policy_returns policy_hash profile_hash examples candidate cost_profile
            (validate_policy-ReviewsSevere base_policy policy_valid) profile_valid refl
            (same-IsDecidable v h examples decidable) in
        elim (Bool-cases (f.le h v)) [
          | inl skip ↦ (s, rw skip refl)
          | inr run ↦ (
            file_candidate float_sum examples constraints candidate m
                (record s { evaluated_pair_count = s.evaluated_pair_count + 1 }),
            rw (run, ran) refl,
          )
        ]

    row_returns :
        (v : F) (hs : List F) (s : SearchState F) → (t : SearchState F) × (row v hs s ≡ ok t)
    unfolding try_holds
    row_returns v [] s = (s, refl)
    row_returns v (h ∷ hs) s =
        let (u, first) = step_returns v h s in
        let (t, rest) = row_returns v hs u in (t, rw first rest)

    rows_return : (cs vs : List F) (s : SearchState F) → (t : SearchState F) × (rows cs vs s ≡ ok t)
    unfolding try_pairs
    rows_return cs [] s = (s, refl)
    rows_return cs (v ∷ vs) s =
        let (u, first) = row_returns v cs s in
        let (t, rest) = rows_return cs vs u in (t, rw first rest)

  thresholds_found :
      no_scores examples ≡ false
      → all_of (λ (e : BacktestExample F). f.is_finite (score e)) examples ≡ true
      → 2 ≤ quantile_count
      → (cs : List F) × (thresholds show quantile policy_hash profile_hash float_sum examples
            base_policy cost_profile constraints quantile_count additional_thresholds
          ≡ ok cs)
  unfolding all_candidates threshold_candidates
  thresholds_found nonempty finite enough =
      let pass = scores_pass examples finite in
      let some_scores = no_scores-map examples in
      let count : ltb quantile_count 2 ≡ false = ground arith in
      elim (Result-cases (
        all_candidates show quantile policy_hash profile_hash float_sum examples base_policy
          quantile_count additional_thresholds)) [ inl found ↦ found | inr (e, h) ↦ ground arith ]

  -- With a validated policy and profile, decidable examples, at least one of them, finite scores
  -- and at least two quantiles, the optimization ends in a choice or in the error of no feasible
  -- policy.
  pub optimize_thresholds_total :
      validate_policy base_policy ≡ ok tt
      → validate_profile cost_profile ≡ ok tt
      → All (IsDecidable base_policy) examples
      → no_scores examples ≡ false
      → all_of (λ (e : BacktestExample F). f.is_finite (score e)) examples ≡ true
      → 2 ≤ quantile_count
      → (o : Optimization F) × (optimization show quantile policy_hash profile_hash float_sum
            examples base_policy cost_profile constraints quantile_count additional_thresholds
          ≡ ok o)
  unfolding optimize_thresholds
  optimize_thresholds_total policy_valid profile_valid decidable nonempty finite enough =
      let (cs, found) = thresholds_found nonempty finite enough in
      let (t, ran) = rows_return policy_valid profile_valid decidable cs cs no_search in
      (
        conclude (generation show quantile_count (not (no_scores additional_thresholds)))
            (length cs) (by_key t.ranked) t,
        rw (found, ran) refl,
      )
