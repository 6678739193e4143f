-- ===== src/Policy/Optimizer/Choice.antt =====
-- packages/policy_engine/optimizer.py, `optimize_thresholds`: the candidates, the search, and the
-- choice of the first ranked policy. `str` of a count is a parameter too.
use aegis_ai_risk_manager.Common.{
  ℕ, Bool, not, String, List, [], ◌∷◌, ◌++◌, map, length, Option, Result, ok, ◌>>=◌, ◌<>◌,
  if◌then◌else◌,
}
use aegis_ai_risk_manager.Common.Int.{ℤ}
use aegis_ai_risk_manager.Common.Sort.{sort_by, lex_lt, take}
use aegis_ai_risk_manager.Common.TextOrder.{str_lt}
use aegis_ai_risk_manager.Common.Float.{Float}
use aegis_ai_risk_manager.Policy.Config.{PolicyConfig, OperatingConstraints}
use aegis_ai_risk_manager.Policy.Costs.{CostProfile}
use aegis_ai_risk_manager.Policy.Backtest.Loop.{BacktestExample, Counter}
use aegis_ai_risk_manager.Policy.Backtest.Metrics.{OperatingMetrics, PolicyMetrics}
use aegis_ai_risk_manager.Policy.Optimizer.{sorted_floats, threshold_candidates, no_scores}
use aegis_ai_risk_manager.Policy.Optimizer.Search.{Ranked, Near, SearchState, no_search, try_pairs}

pub record NearCandidate (F : Type 0) : Type 0 where
  pub verify_threshold : F
  pub hold_threshold : F
  pub violations : List String
  pub operating_metrics : OperatingMetrics F
  pub total_policy_expected_cost : ℕ

pub record Diagnostics (F : Type 0) : Type 0 where
  pub candidate_threshold_count : ℕ
  pub evaluated_pair_count : ℕ
  pub feasible_candidate_count : ℕ
  pub rejected_by_constraint : Counter
  pub nearest_candidates : List (NearCandidate F)

pub record FrontierPoint (F : Type 0) : Type 0 where
  pub verify_threshold : F
  pub hold_threshold : F
  pub total_policy_expected_cost : ℕ
  pub estimated_net_protected_value : ℤ
  pub intervention_precision : F
  pub intervention_recall : F
  pub operating_metrics : OperatingMetrics F

pub record OptimizationResult (F : Type 0) : Type 0 where
  pub policy : PolicyConfig F
  pub validation_metrics : PolicyMetrics F
  pub frontier : List (FrontierPoint F)
  pub candidate_threshold_count : ℕ
  pub evaluated_pair_count : ℕ
  pub feasible_candidate_count : ℕ
  pub rejected_by_constraint : Counter
  pub candidate_generation : String
  pub objective : String
  pub tie_break : String

-- The result, or the `NoFeasiblePolicyError` with its diagnostics.
pub data Optimization (F : Type 0) : Type 0 where
  chosen : OptimizationResult F → Optimization F
  no_feasible_policy : Diagnostics F → Optimization F

abbrev pub objective : String
objective = "minimum validation synthetic total_policy_expected_cost"

abbrev pub tie_break : String
tie_break =
    "lower legitimate amount touched, then lower human-review count, then lower legitimate severe-intervention count, then fewer total interventions, then higher intervention precision, then higher verify threshold, then higher hold threshold"

abbrev pub generation : (ℕ → String) → ℕ → Bool → String
generation show quantile_count additional =
    if additional
    then show quantile_count
      <> " evenly spaced validation-score quantiles plus 0, 1, configured thresholds, Phase 5 threshold, and risk-policy-v1 thresholds; exact duplicates removed"
    else show quantile_count
      <> " evenly spaced validation-score quantiles plus 0, 1 and configured thresholds; exact duplicates removed"

abbrev pub sorted_items : Counter → Counter
sorted_items = sort_by (λ (a b : String × ℕ). str_lt a.0 b.0)

module _ {F : Type 0} ⦃f : Float F⦄ where
  -- `key=lambda item: (item[0], item[1].verify_threshold, item[1].hold_threshold)`
  abbrev pub near_key : Near F → List F
  near_key n = n.distance ∷ n.policy.verify_threshold ∷ n.policy.hold_threshold ∷ []

  unfoldable pub near_candidate : Near F → NearCandidate F
  near_candidate n = record {
    verify_threshold = n.policy.verify_threshold;
    hold_threshold = n.policy.hold_threshold;
    violations = n.violations;
    operating_metrics = n.metrics.operating_metrics;
    total_policy_expected_cost = n.metrics.costs_paise.total_policy_expected_cost;
  }

  unfoldable pub diagnostics : ℕ → SearchState F → Diagnostics F
  unfolding near_candidate sort_by lex_lt
  diagnostics candidate_count s = record {
    candidate_threshold_count = candidate_count;
    evaluated_pair_count = s.evaluated_pair_count;
    feasible_candidate_count = 0;
    rejected_by_constraint = sorted_items s.rejected;
    nearest_candidates =
        map near_candidate
          (take 10 (sort_by (λ (a b : Near F). lex_lt f.lt (near_key a) (near_key b)) s.nearest));
  }

  unfoldable pub frontier_point : Ranked F → FrontierPoint F
  frontier_point r = record {
    verify_threshold = r.policy.verify_threshold;
    hold_threshold = r.policy.hold_threshold;
    total_policy_expected_cost = r.metrics.costs_paise.total_policy_expected_cost;
    estimated_net_protected_value = r.metrics.costs_paise.estimated_net_protected_value;
    intervention_precision = r.metrics.intervention.precision;
    intervention_recall = r.metrics.intervention.recall;
    operating_metrics = r.metrics.operating_metrics;
  }

  unfoldable pub by_key : List (Ranked F) → List (Ranked F)
  unfolding sort_by lex_lt
  by_key = sort_by (λ (a b : Ranked F). lex_lt f.lt a.key b.key)

  -- From `if not ranked`, with the ranked policies already sorted.
  unfoldable pub conclude : String → ℕ → List (Ranked F) → SearchState F → Optimization F
  unfolding diagnostics frontier_point
  conclude generated candidate_count [] s = no_feasible_policy (diagnostics candidate_count s)
  conclude generated candidate_count (best ∷ others) s = chosen (record {
    policy = best.policy;
    validation_metrics = best.metrics;
    frontier = map frontier_point (take 100 (best ∷ others));
    candidate_threshold_count = candidate_count;
    evaluated_pair_count = s.evaluated_pair_count;
    feasible_candidate_count = length (best ∷ others);
    rejected_by_constraint = sorted_items s.rejected;
    candidate_generation = generated;
    objective = objective;
    tie_break = tie_break;
  })

  module _ (show : ℕ → String) (quantile : List F → ℕ → List F)
      (policy_hash : PolicyConfig F → String) (profile_hash : CostProfile F → String)
      (float_sum : List F → F) where
    -- `candidates`
    unfoldable pub all_candidates :
        List (BacktestExample F) → PolicyConfig F → ℕ → List F → Result (List F)
    unfolding threshold_candidates sorted_floats
    all_candidates examples base_policy quantile_count additional_thresholds = do
      thresholds ←
          threshold_candidates quantile
            (map (λ (e : BacktestExample F). e.policy_input.model_score) examples) quantile_count
      ok (
          sorted_floats (
            thresholds
            ++ (base_policy.verify_threshold ∷ base_policy.hold_threshold ∷ additional_thresholds)))

    unfoldable pub optimize_thresholds :
        List (BacktestExample F)
        → PolicyConfig F
        → CostProfile F
        → Option (OperatingConstraints F)
        → ℕ
        → List F
        → Result (Optimization F)
    unfolding all_candidates try_pairs by_key conclude
    optimize_thresholds examples base_policy cost_profile constraints quantile_count
          additional_thresholds =
        do
          candidates ← all_candidates examples base_policy quantile_count additional_thresholds
          s ←
              try_pairs policy_hash profile_hash float_sum examples base_policy cost_profile
                constraints candidates candidates no_search
          ok (
              conclude (generation show quantile_count (not (no_scores additional_thresholds)))
                (length candidates) (by_key s.ranked) s)
