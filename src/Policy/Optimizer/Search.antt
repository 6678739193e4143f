-- ===== src/Policy/Optimizer/Search.antt =====
-- packages/policy_engine/optimizer.py, `optimize_thresholds`: every ordered pair of candidates is
-- evaluated, and filed as rejected, near or ranked.
use aegis_ai_risk_manager.Common.{
  ℕ, ◌+◌, ◌-◌, String, List, [], ◌∷◌, ◌++◌, length, Option, none, some, Result, ok, ◌>>=◌, ◌==◌,
  string_eq, nat_eq, if◌then◌else◌,
}
use aegis_ai_risk_manager.Common.Dict.{tally, bump_by}
use aegis_ai_risk_manager.Common.Float.{Float, of_int}
use aegis_ai_risk_manager.Policy.Config.{PolicyConfig, OperatingConstraints}
use aegis_ai_risk_manager.Policy.Costs.{CostProfile}
use aegis_ai_risk_manager.Policy.Backtest.Loop.{BacktestExample, Counter}
use aegis_ai_risk_manager.Policy.Backtest.Metrics.{PolicyMetrics}
use aegis_ai_risk_manager.Policy.Backtest.Report.{evaluate_policy}
use aegis_ai_risk_manager.Policy.Optimizer.{constraint_violations, constraint_distance}

pub record Ranked (F : Type 0) : Type 0 where
  pub key : List F
  pub policy : PolicyConfig F
  pub metrics : PolicyMetrics F

pub record Near (F : Type 0) : Type 0 where
  pub distance : F
  pub policy : PolicyConfig F
  pub metrics : PolicyMetrics F
  pub violations : List String

-- The local variables of the search.
pub record SearchState (F : Type 0) : Type 0 where
  pub ranked : List (Ranked F)
  pub rejected : Counter
  pub nearest : List (Near F)
  pub evaluated_pair_count : ℕ

abbrev pub no_search : {F : Type 0} → SearchState F
no_search = record { ranked = []; rejected = []; nearest = []; evaluated_pair_count = 0 }

-- `for violation in violations: rejected[violation] += 1`
unfoldable pub reject_all : List String → Counter → Counter
unfolding bump_by
reject_all [] rejected = rejected
reject_all (v ∷ violations) rejected = reject_all violations (bump_by v 1 rejected)

module _ {F : Type 0} ⦃f : Float F⦄ where
  -- `base_policy.model_copy(update={...})`
  abbrev pub candidate_policy : PolicyConfig F → CostProfile F → F → F → PolicyConfig F
  candidate_policy base_policy cost_profile verify_threshold hold_threshold = record base_policy {
    verify_threshold = verify_threshold;
    hold_threshold = hold_threshold;
    cost_profile = cost_profile.cost_profile_version;
  }

  unfoldable pub ranking_key : List (BacktestExample F) → PolicyConfig F → PolicyMetrics F → List F
  unfolding tally
  ranking_key examples policy metrics =
      of_int metrics.costs_paise.total_policy_expected_cost
      ∷ of_int metrics.amounts_paise.legitimate_amount_touched
      ∷ of_int metrics.operating_metrics.human_review_count
      ∷ of_int metrics.severe_intervention.counts.fp
      ∷ of_int (length examples - tally "ALLOW" metrics.action_counts)
      ∷ f.neg metrics.intervention.precision
      ∷ f.neg policy.verify_threshold
      ∷ f.neg policy.hold_threshold
      ∷ []

  -- `constraint_violations(metrics, constraints) if constraints else ()`
  abbrev pub violations_of : Option (OperatingConstraints F) → PolicyMetrics F → List String
  violations_of none metrics = []
  violations_of (some constraints) metrics = constraint_violations metrics constraints

  -- Without constraints there is no violation, and no distance is asked for.
  abbrev pub distance_of : (List F → F) → Option (OperatingConstraints F) → PolicyMetrics F → F
  distance_of float_sum none metrics = of_int 0
  distance_of float_sum (some constraints) metrics =
      constraint_distance float_sum metrics constraints

  abbrev pub entry_of : List (BacktestExample F) → PolicyConfig F → PolicyMetrics F → Ranked F
  entry_of examples policy metrics = record {
    key = ranking_key examples policy metrics;
    policy = policy;
    metrics = metrics;
  }

  -- The body of the loop after the evaluation.
  unfoldable pub rank_or_reject :
      (List F → F)
      → List (BacktestExample F)
      → Option (OperatingConstraints F)
      → PolicyConfig F
      → PolicyMetrics F
      → List String
      → SearchState F
      → SearchState F
  unfolding reject_all
  rank_or_reject float_sum examples constraints policy metrics [] s = record s {
    ranked = s.ranked ++ (entry_of examples policy metrics ∷ []);
  }
  rank_or_reject float_sum examples constraints policy metrics (v ∷ violations) s = record s {
    rejected = reject_all (v ∷ violations) s.rejected;
    nearest =
        s.nearest
        ++ (record {
          distance = distance_of float_sum constraints metrics;
          policy = policy;
          metrics = metrics;
          violations = v ∷ violations;
        }
            ∷ []);
  }

  unfoldable pub file_candidate :
      (List F → F)
      → List (BacktestExample F)
      → Option (OperatingConstraints F)
      → PolicyConfig F
      → PolicyMetrics F
      → SearchState F
      → SearchState F
  unfolding tally bump_by rank_or_reject constraint_violations
  file_candidate float_sum examples constraints policy metrics s =
      if tally "VERIFY" metrics.action_counts == 0
      then record s { rejected = bump_by "populated_verify_band" 1 s.rejected }
      else rank_or_reject float_sum examples constraints policy metrics
          (violations_of constraints metrics) s

  module _ (policy_hash : PolicyConfig F → String) (profile_hash : CostProfile F → String)
      (float_sum : List F → F) (examples : List (BacktestExample F)) (base_policy : PolicyConfig F)
      (cost_profile : CostProfile F) (constraints : Option (OperatingConstraints F)) where
    unfoldable pub consider : F → F → SearchState F → Result (SearchState F)
    unfolding evaluate_policy file_candidate
    consider verify_threshold hold_threshold s =
        if f.le hold_threshold verify_threshold then ok s else do
          let policy = candidate_policy base_policy cost_profile verify_threshold hold_threshold
          metrics ← evaluate_policy policy_hash profile_hash examples policy cost_profile
          ok (
              file_candidate float_sum examples constraints policy metrics
                (record s { evaluated_pair_count = s.evaluated_pair_count + 1 }))

    -- `for hold_threshold in candidates`
    unfoldable pub try_holds : F → List F → SearchState F → Result (SearchState F)
    unfolding consider
    try_holds verify_threshold [] s = ok s
    try_holds verify_threshold (h ∷ holds) s = do
      t ← consider verify_threshold h s
      try_holds verify_threshold holds t

    -- `for verify_threshold in candidates`
    unfoldable pub try_pairs : List F → List F → SearchState F → Result (SearchState F)
    unfolding try_holds
    try_pairs candidates [] s = ok s
    try_pairs candidates (v ∷ verifies) s = do
      t ← try_holds v candidates s
      try_pairs candidates verifies t
