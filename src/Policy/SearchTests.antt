-- ===== src/Policy/SearchTests.antt =====
-- Runs of the threshold optimizer, and its theorems at concrete inputs.
use aegis_ai_risk_manager.Common.{
  ℕ, ◌≡◌, refl, Bool, true, false, String, List, [], ◌∷◌, Option, none, some, Result, ok, raise,
  arith, string_eq, nat_eq, ◌==◌, All, select, all_of, inl, inr,
}
use aegis_ai_risk_manager.Common.Dict.{tally}
use aegis_ai_risk_manager.Common.Sort.{lex_lt}
use aegis_ai_risk_manager.Common.Members.{◌∈◌}
use aegis_ai_risk_manager.Common.Float.Millionths.{millionths, millionths_compare, millionths_round}
use aegis_ai_risk_manager.Policy.Config.{PolicyConfig, OperatingConstraints}
use aegis_ai_risk_manager.Policy.Domain.{scores_in_range}
use aegis_ai_risk_manager.Policy.Costs.{CostProfile, expected_cost_paise}
use aegis_ai_risk_manager.Policy.Engine.{versions_match, verdict, assess}
use aegis_ai_risk_manager.Policy.Rules.{strong_graph_signal_codes}
use aegis_ai_risk_manager.Policy.Optimizer.Search.{try_pairs}
use aegis_ai_risk_manager.Policy.Optimizer.Choice.{all_candidates}
use aegis_ai_risk_manager.Policy.Backtest.Loop.{account}
use aegis_ai_risk_manager.Policy.Backtest.Metrics.{PolicyMetrics}
use aegis_ai_risk_manager.Policy.Backtest.Report.{evaluate_policy}
use aegis_ai_risk_manager.Policy.Backtest.Sound.{IsDecidable}
use aegis_ai_risk_manager.Policy.Samples.{
  policy_v2, policy_v2_valid, balanced, balanced_valid, history,
}
use aegis_ai_risk_manager.Policy.Optimizer.Search.{
  SearchState, no_search, ranking_key, candidate_policy, violations_of,
}
use aegis_ai_risk_manager.Policy.Optimizer.Choice.{
  Optimization, OptimizationResult, Diagnostics, chosen, no_feasible_policy, optimize_thresholds,
}
use aegis_ai_risk_manager.Policy.Optimizer.Filed.{filed, IsFeasible}
use aegis_ai_risk_manager.Policy.Optimizer.Optimal.{rows, try_pairs-filed}
use aegis_ai_risk_manager.Policy.Optimizer.Best.{
  optimization, thresholds, metrics_at, chosen-IsFeasible, chosen-least, no_feasible_policy_sound,
}
use aegis_ai_risk_manager.Policy.Optimizer.Total.{optimize_thresholds_total}

abbrev policy_hash : PolicyConfig ℕ → String
policy_hash p = p.policy_version

abbrev profile_hash : CostProfile ℕ → String
profile_hash p = p.cost_profile_version

abbrev show : ℕ → String
show n = "n"

-- The scores themselves stand for their quantiles.
abbrev quantile : List ℕ → ℕ → List ℕ
quantile scores n = scores

abbrev total : List ℕ → ℕ
total xs = 0

-- All abuse and no legitimate payment must be touched: no policy does that here.
abbrev strict : OperatingConstraints ℕ
strict = record {
  assumptions_label = "strict";
  minimum_abuse_intervention_recall = 1000000;
  maximum_legitimate_intervention_rate = 0;
  maximum_legitimate_severe_intervention_rate = 0;
  maximum_total_human_review_rate = 0;
  maximum_any_legitimate_persona_severe_intervention_rate = 0;
}

abbrev run : Option (OperatingConstraints ℕ) → Result (Optimization ℕ)
run constraints =
    optimization show quantile policy_hash profile_hash total history policy_v2 balanced constraints
      21 []

abbrev is_chosen : Result (Optimization ℕ) → Bool
is_chosen (ok (chosen r)) = true
is_chosen (ok (no_feasible_policy d)) = false
is_chosen (raise e) = false

chosen_of :
    (o : Result (Optimization ℕ))
    → is_chosen o ≡ true
    → (r : OptimizationResult ℕ) × (o ≡ ok (chosen r))
chosen_of (ok (chosen r)) h = (r, refl)
chosen_of (ok (no_feasible_policy d)) h = cc
chosen_of (raise e) h = cc

abbrev is_refused : Result (Optimization ℕ) → Bool
is_refused (ok (chosen r)) = false
is_refused (ok (no_feasible_policy d)) = true
is_refused (raise e) = false

refused_of :
    (o : Result (Optimization ℕ))
    → is_refused o ≡ true
    → (d : Diagnostics ℕ) × (o ≡ ok (no_feasible_policy d))
refused_of (ok (chosen r)) h = cc
refused_of (ok (no_feasible_policy d)) h = (d, refl)
refused_of (raise e) h = cc

-- The metrics of the pair of thresholds of the base policy.
abbrev base_metrics : Option (OperatingConstraints ℕ) → Result (PolicyMetrics ℕ)
base_metrics constraints =
    metrics_at show quantile policy_hash profile_hash total history policy_v2 balanced constraints
      21 [] 5482 962288

abbrev verifies : Result (PolicyMetrics ℕ) → Bool
verifies (ok m) = tally "VERIFY" m.action_counts == 0
verifies (raise e) = true

metrics_of :
    (o : Result (PolicyMetrics ℕ))
    → verifies o ≡ false
    → (m : PolicyMetrics ℕ) × (o ≡ ok m) × ((tally "VERIFY" m.action_counts == 0) ≡ false)
metrics_of (ok m) h = (m, refl, h)
metrics_of (raise e) h = cc

abbrev state_of : Result (SearchState ℕ) → SearchState ℕ
state_of (ok s) = s
state_of (raise e) = no_search

unconstrained : is_chosen (run none) ≡ true
unfolding optimize_thresholds assess versions_match verdict strong_graph_signal_codes
    scores_in_range expected_cost_paise account ranking_key
unconstrained = refl

constrained : is_refused (run (some strict)) ≡ true
unfolding optimize_thresholds assess versions_match verdict strong_graph_signal_codes
    scores_in_range expected_cost_paise account ranking_key
constrained = refl

base_verifies : verifies (base_metrics none) ≡ false
unfolding evaluate_policy assess versions_match verdict strong_graph_signal_codes scores_in_range
    expected_cost_paise account select
base_verifies = refl

abbrev cs : List ℕ
cs = 0 ∷ 1000 ∷ 5482 ∷ 600000 ∷ 962288 ∷ 990000 ∷ 1000000 ∷ []

cs_found :
    (constraints : Option (OperatingConstraints ℕ))
    → thresholds show quantile policy_hash profile_hash total history policy_v2 balanced constraints
        21 []
      ≡ ok cs
unfolding all_candidates
cs_found constraints = refl

history-IsDecidable : All (IsDecidable policy_v2) history
unfolding versions_match scores_in_range
history-IsDecidable = (
  (refl, refl, omega arith),
  ((refl, refl, omega arith), ((refl, refl, omega arith), ((refl, refl, omega arith), tt))),
)

optimize_thresholds_total_example : (o : Optimization ℕ) × (run (some strict) ≡ ok o)
unfolding all_of
optimize_thresholds_total_example =
    optimize_thresholds_total show quantile policy_hash profile_hash total history policy_v2
      balanced (some strict) 21 [] policy_v2_valid balanced_valid history-IsDecidable refl refl
      (omega arith)

abbrev winner : OptimizationResult ℕ
winner = (chosen_of (run none) unconstrained).0

chosen-IsFeasible_example :
    (cs : List ℕ) × (v : ℕ) × (h : ℕ) × (thresholds show quantile policy_hash profile_hash total
        history policy_v2 balanced none 21 []
      ≡ ok cs)
    × (v ∈ cs)
    × (h ∈ cs)
    × (candidate_policy policy_v2 balanced v h ≡ winner.policy)
    × (millionths.le h v ≡ false)
    × (evaluate_policy policy_hash profile_hash history winner.policy balanced
        ≡ ok winner.validation_metrics)
    × ((tally "VERIFY" winner.validation_metrics.action_counts == 0) ≡ false)
    × (violations_of none winner.validation_metrics ≡ [])
chosen-IsFeasible_example =
    chosen-IsFeasible show quantile policy_hash profile_hash total history policy_v2 balanced none
      21 [] (chosen_of (run none) unconstrained).1

abbrev base_run :
    (m : PolicyMetrics ℕ) × (base_metrics none ≡ ok m)
    × ((tally "VERIFY" m.action_counts == 0) ≡ false)
base_run = metrics_of (base_metrics none) base_verifies

chosen-least_example :
    lex_lt millionths.lt
      (ranking_key history (candidate_policy policy_v2 balanced 5482 962288) base_run.0)
      (ranking_key history winner.policy winner.validation_metrics)
    ≡ false
unfolding ranking_key
chosen-least_example =
    chosen-least show quantile policy_hash profile_hash total history policy_v2 balanced none 21 []
      cs 5482 962288 base_run.0 (chosen_of (run none) unconstrained).1 (cs_found none)
      (inr (inr (inl refl))) (inr (inr (inr (inr (inl refl))))) refl base_run.1 (base_run.2, refl)
      (λ v h m _ _ _ ran. (refl, (refl, (refl, (refl, (refl, (refl, (refl, (refl, tt)))))))))

no_feasible_policy_sound_example : ¬ IsFeasible (some strict) base_run.0
no_feasible_policy_sound_example =
    no_feasible_policy_sound show quantile policy_hash profile_hash total history policy_v2 balanced
      (some strict) 21 [] cs 5482 962288 base_run.0 (refused_of (run (some strict)) constrained).1
      (cs_found (some strict)) (inr (inr (inl refl))) (inr (inr (inr (inr (inl refl))))) refl
      base_run.1

abbrev search : Result (SearchState ℕ)
search = rows none policy_hash profile_hash total history policy_v2 balanced cs cs no_search

searched : (t : SearchState ℕ) × (search ≡ ok t)
unfolding try_pairs assess versions_match verdict strong_graph_signal_codes scores_in_range
    expected_cost_paise account ranking_key
searched = (state_of search, refl)

try_pairs-filed_example : filed none searched.0 ≡ searched.0.evaluated_pair_count
try_pairs-filed_example =
    try_pairs-filed none policy_hash profile_hash total history policy_v2 balanced cs searched.1
