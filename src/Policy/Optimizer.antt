-- ===== src/Policy/Optimizer.antt =====
-- packages/policy_engine/optimizer.py: the candidate thresholds and the operating constraints.
-- `np.quantile` and `sum` over floats, which Python compensates, are parameters. A tuple or dict
-- that the source builds with fixed keys is a record.
pub mod Search
pub mod Choice
pub mod Filed
pub mod Optimal
pub mod Best
pub mod Total
use aegis_ai_risk_manager.Common.{
  ℕ, Bool, true, false, not, ◌||◌, ◌&&◌, ◌++◌, if◌then◌else◌, String, List, [], ◌∷◌, map, Result,
  ok, ◌>>=◌, ◌>>◌, value_error, reject_if, ltb, any_of, select,
}
use aegis_ai_risk_manager.Common.Sort.{sort_by}
use aegis_ai_risk_manager.Common.Float.{Float, of_int, float_max}
use aegis_ai_risk_manager.Policy.Config.{OperatingConstraints}
use aegis_ai_risk_manager.Policy.Backtest.Metrics.{OperatingMetrics, PolicyMetrics}

abbrev pub no_scores {ℓ} : {A : Type ℓ} → List A → Bool
no_scores [] = true
no_scores (x ∷ xs) = false

module _ {F : Type 0} ⦃f : Float F⦄ where
  -- A set of floats, as the list of its members: of equal values the first stays, and a NaN equals
  -- nothing.
  unfoldable pub distinct_floats : List F → List F → List F
  unfolding any_of
  distinct_floats seen [] = seen
  distinct_floats seen (x ∷ xs) =
      let known = any_of (λ y. f.le x y && f.le y x) seen in
      distinct_floats (if known then seen else seen ++ (x ∷ [])) xs

  -- `sorted({...})` of floats; where a NaN stands in the order is unspecified in the source.
  unfoldable pub sorted_floats : List F → List F
  unfolding distinct_floats sort_by
  sorted_floats xs = sort_by f.lt (distinct_floats [] xs)

  unfoldable pub threshold_candidates : (List F → ℕ → List F) → List F → ℕ → Result (List F)
  unfolding sorted_floats any_of
  threshold_candidates quantile scores quantile_count = do
    reject_if (no_scores scores || any_of (λ x. not (f.is_finite x)) scores)
        (value_error "validation scores must be a finite non-empty vector")
    reject_if (ltb quantile_count 2) (value_error "quantile_count must be at least 2")
    ok (sorted_floats (of_int 0 ∷ of_int 1 ∷ quantile scores quantile_count))

  -- `constraint_violations`
  unfoldable pub checks : OperatingMetrics F → OperatingConstraints F → List (String × Bool)
  checks operating constraints =
      (
        "minimum_abuse_intervention_recall",
        f.lt operating.abuse_intervention_recall constraints.minimum_abuse_intervention_recall,
      )
      ∷ (
        "maximum_legitimate_intervention_rate",
        f.lt constraints.maximum_legitimate_intervention_rate
            operating.legitimate_intervention_rate,
      )
      ∷ (
        "maximum_legitimate_severe_intervention_rate",
        f.lt constraints.maximum_legitimate_severe_intervention_rate
            operating.legitimate_severe_intervention_rate,
      )
      ∷ (
        "maximum_total_human_review_rate",
        f.lt constraints.maximum_total_human_review_rate operating.total_human_review_rate,
      )
      ∷ (
        "maximum_any_legitimate_persona_severe_intervention_rate",
        f.lt constraints.maximum_any_legitimate_persona_severe_intervention_rate
            operating.maximum_legitimate_persona_severe_intervention_rate,
      )
      ∷ []

  unfoldable pub constraint_violations : PolicyMetrics F → OperatingConstraints F → List String
  unfolding checks select
  constraint_violations metrics constraints =
      map (λ (check : String × Bool). check.0)
        (select (λ (check : String × Bool). check.1) (checks metrics.operating_metrics constraints))

  abbrev pub excess : F → F → F
  excess a b = float_max (of_int 0) (f.sub a b)

  unfoldable pub constraint_distance : (List F → F) → PolicyMetrics F → OperatingConstraints F → F
  constraint_distance float_sum metrics constraints =
      let operating = metrics.operating_metrics in
      float_sum (
        excess constraints.minimum_abuse_intervention_recall operating.abuse_intervention_recall
        ∷ excess operating.legitimate_intervention_rate
            constraints.maximum_legitimate_intervention_rate
        ∷ excess operating.legitimate_severe_intervention_rate
            constraints.maximum_legitimate_severe_intervention_rate
        ∷ excess operating.total_human_review_rate constraints.maximum_total_human_review_rate
        ∷ excess operating.maximum_legitimate_persona_severe_intervention_rate
            constraints.maximum_any_legitimate_persona_severe_intervention_rate
        ∷ [])
