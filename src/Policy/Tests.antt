-- ===== src/Policy/Tests.antt =====
-- Runs of the policy, and the theorems at concrete inputs.
use aegis_ai_risk_manager.Common.{
  ℕ, ◌≤◌, ◌≡◌, refl, ◌↔◌, ◌⊎◌, true, false, String, [], ◌∷◌, length, none, some, ok, raise,
  value_error, arith, string_eq, sum_of,
}
use aegis_ai_risk_manager.Common.Sets.{contains, sorted_set_by}
use aegis_ai_risk_manager.Common.{select, All}
use aegis_ai_risk_manager.Common.Float.Millionths.{millionths, millionths_compare, millionths_round}
use aegis_ai_risk_manager.Enums.{verify, hold, recommend_block, action_rank, action_eq}
use aegis_ai_risk_manager.Policy.Config.{PolicyConfig}
use aegis_ai_risk_manager.Policy.Domain.{
  PolicyInput, RiskAssessment, PolicyDecisionResult, scores_in_range,
}
use aegis_ai_risk_manager.Policy.Rules.{codes_of, strong_graph_signal_codes}
use aegis_ai_risk_manager.Policy.Engine.{
  assess, decision_of, assessment_of, verdict, verdict_of, strong_codes, versions_match,
}
use aegis_ai_risk_manager.Policy.Engine.Table.{InHoldBand, IsCorroborated, IsBlockable}
use aegis_ai_risk_manager.Policy.Engine.Decision.{assess_versions, decision_table, severe-reviewed}
use aegis_ai_risk_manager.Policy.Engine.Evidence.{below_hold_evidence, assess_mono, decision_congr}
use aegis_ai_risk_manager.Policy.Costs.{CostProfile, Cost, expected_cost_paise}
use aegis_ai_risk_manager.Policy.Costs.Laws.{IsBounded, expected_cost-IsBounded}
use aegis_ai_risk_manager.Policy.Backtest.Loop.{BacktestExample}
use aegis_ai_risk_manager.Policy.Backtest.Metrics.{PolicyMetrics}
use aegis_ai_risk_manager.Policy.Backtest.Sound.{
  metrics_count, metrics_amounts, evaluate_policy_total, evaluation, IsDecidable,
}
use aegis_ai_risk_manager.Policy.Samples.{
  policy_v2, policy_v2_valid, balanced, balanced_valid, input, ring, ring_codes, history,
}

abbrev decided : PolicyInput ℕ → PolicyDecisionResult ℕ
decided p = decision_of policy_v2 p (verdict_of policy_v2 p)

abbrev assessed : PolicyInput ℕ → RiskAssessment ℕ
assessed p = assessment_of policy_v2 p (verdict_of policy_v2 p).severity

ring-assess : assess policy_v2 ring ≡ ok (assessed ring, decided ring)
unfolding assess versions_match verdict strong_graph_signal_codes sorted_set_by select contains
    scores_in_range
ring-assess = refl

ring_action : (decided ring).action ≡ recommend_block
unfolding verdict strong_graph_signal_codes sorted_set_by select contains
ring_action = refl

decision_table_example : ((decided ring).action ≡ recommend_block) ↔ (
    InHoldBand policy_v2 990000
    × IsCorroborated policy_v2 (length (strong_codes policy_v2 ring))
    × IsBlockable policy_v2 (length (strong_codes policy_v2 ring)) (some "clu_1"))
decision_table_example = (decision_table policy_v2 ring ring-assess).4

severe-reviewed_example : (decided ring).requires_human_review ≡ true
severe-reviewed_example =
    severe-reviewed policy_v2 ring ring-assess policy_v2_valid (rw ring_action (omega arith))

other_version : PolicyInput ℕ
other_version = record ring { graph_version = "graph-v0" }

assess_versions_example :
    ((versions_match policy_v2 ring ≡ true)
      × (assess policy_v2 ring ≡ ok (assessed ring, decided ring)))
    ⊎ ((versions_match policy_v2 ring ≡ false)
        × (assess policy_v2 ring ≡ raise (value_error "policy input version mismatch")))
unfolding scores_in_range
assess_versions_example = assess_versions policy_v2 ring policy_v2_valid refl

-- A moderate score, without and with the evidence of a ring.
abbrev plain : PolicyInput ℕ
plain = input 600000 [] none

abbrev surrounded : PolicyInput ℕ
surrounded = input 600000 ring_codes (some "clu_1")

plain-assess : assess policy_v2 plain ≡ ok (assessed plain, decided plain)
unfolding assess versions_match verdict strong_graph_signal_codes sorted_set_by select contains
    scores_in_range
plain-assess = refl

surrounded-assess : assess policy_v2 surrounded ≡ ok (assessed surrounded, decided surrounded)
unfolding assess versions_match verdict strong_graph_signal_codes sorted_set_by select contains
    scores_in_range
surrounded-assess = refl

below_hold_evidence_example :
    ((decided plain).action ≡ (decided surrounded).action)
    × ((decided plain).severity ≡ (decided surrounded).severity)
    × (action_rank (decided plain).action ≤ action_rank verify)
below_hold_evidence_example =
    below_hold_evidence policy_v2 plain surrounded plain-assess surrounded-assess refl refl

no_codes_subset :
    (c : String) → contains (codes_of plain.graph_signals) c ≡ true → contains ring_codes c ≡ true
unfolding contains
no_codes_subset c h = cc

assess_mono_example : action_rank (decided plain).action ≤ action_rank (decided ring).action
assess_mono_example =
    assess_mono policy_v2 plain ring plain-assess ring-assess refl no_codes_subset (λ h. cc)

-- The codes of the ring in another order, without the repetition.
abbrev reordered : PolicyInput ℕ
reordered =
    input 990000
      ("MULTI_COMPONENT_BRIDGE" ∷ "RAPID_RELATIONSHIP_EXPANSION"
        ∷ "DEVICE_MULTI_CUSTOMER_CONCENTRATION" ∷ [])
      (some "clu_1")

reordered-assess : assess policy_v2 reordered ≡ ok (assessed reordered, decided reordered)
unfolding assess versions_match verdict strong_graph_signal_codes sorted_set_by select contains
    scores_in_range
reordered-assess = refl

same_codes :
    (c : String)
    → contains (codes_of ring.graph_signals) c ≡ contains (codes_of reordered.graph_signals) c
unfolding contains
same_codes c = ground arith

decision_congr_example : decided ring ≡ decided reordered
decision_congr_example =
    decision_congr policy_v2 ring reordered.graph_signals ring-assess reordered-assess same_codes

expected_cost-IsBounded_example :
    (c : Cost) × (expected_cost_paise 50000 true hold balanced ≡ ok c)
    × IsBounded balanced 50000 true hold c
expected_cost-IsBounded_example =
    expected_cost-IsBounded balanced balanced_valid 50000 (omega arith) true hold

-- Hashes of the two configurations; any function serves.
abbrev policy_hash : PolicyConfig ℕ → String
policy_hash p = p.policy_version

abbrev profile_hash : CostProfile ℕ → String
profile_hash p = p.cost_profile_version

history-IsDecidable : All (IsDecidable policy_v2) history
unfolding versions_match scores_in_range
history-IsDecidable = (
  (refl, refl, omega arith),
  ((refl, refl, omega arith), ((refl, refl, omega arith), ((refl, refl, omega arith), tt))),
)

sample_run :
    (m : PolicyMetrics ℕ) × (evaluation policy_hash profile_hash history policy_v2 balanced ≡ ok m)
sample_run =
    evaluate_policy_total policy_hash profile_hash history policy_v2 balanced policy_v2_valid
      balanced_valid refl history-IsDecidable

metrics_count_example :
    sum_of (λ (entry : String × ℕ). entry.1) sample_run.0.action_counts ≡ length history
metrics_count_example =
    (metrics_count policy_hash profile_hash history policy_v2 balanced sample_run.1).0

metrics_amounts_example :
    sample_run.0.amounts_paise.total_transaction_amount
    ≡ sum_of (λ (e : BacktestExample ℕ). e.amount_paise) history
metrics_amounts_example =
    (metrics_amounts policy_hash profile_hash history policy_v2 balanced sample_run.1).0

evaluate_policy_total_example :
    (m : PolicyMetrics ℕ) × (evaluation policy_hash profile_hash history policy_v2 balanced ≡ ok m)
evaluate_policy_total_example =
    evaluate_policy_total policy_hash profile_hash history policy_v2 balanced policy_v2_valid
      balanced_valid refl history-IsDecidable
