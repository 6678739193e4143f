-- ===== src/Policy/Config.antt =====
-- packages/policy_engine/config.py: the policy configuration and its validators. A message that the
-- source completes with values keeps here its constant part. Reading the YAML file, hashing and
-- JSON are not modelled.
use aegis_ai_risk_manager.Common.{
  ℕ, Bool, not, ◌&&◌, ◌||◌, String, List, [], ◌∷◌, Result, ◌>>◌, value_error, out_of_range,
  reject_if, ◌==◌, ◌!=◌, string_eq, ltb, all_of,
}
use aegis_ai_risk_manager.Common.Sets.{contains}
use aegis_ai_risk_manager.Common.Float.{Float, in_unit}
use aegis_ai_risk_manager.Enums.{PolicyAction, escalate, recommend_block, action_eq}
use aegis_ai_risk_manager.Graph.Registry.{graph_version, signal_codes}
use aegis_ai_risk_manager.Features.Registry.{feature_version}

abbrev pub policy_v1_version : String
policy_v1_version = "risk-policy-v1"

abbrev pub policy_v2_version : String
policy_v2_version = "risk-policy-v2"

abbrev pub primary_model_version : String
primary_model_version = "risk-lgbm-v2"

pub record GraphCorroborationConfig : Type 0 where
  pub strong_signal_codes : List String
  pub minimum_strong_signals : ℕ
  pub recommend_block_minimum_strong_signals : ℕ
  pub recommend_block_requires_active_cluster : Bool

pub record PolicyConfig (F : Type 0) : Type 0 where
  pub policy_version : String
  pub schema_version : String
  pub model_version : String
  pub feature_version : String
  pub graph_version : String
  pub cost_profile : String
  pub verify_threshold : F
  pub hold_threshold : F
  pub graph_corroboration : GraphCorroborationConfig
  pub human_review_actions : List PolicyAction

pub record OperatingConstraints (F : Type 0) : Type 0 where
  pub assumptions_label : String
  pub minimum_abuse_intervention_recall : F
  pub maximum_legitimate_intervention_rate : F
  pub maximum_legitimate_severe_intervention_rate : F
  pub maximum_total_human_review_rate : F
  pub maximum_any_legitimate_persona_severe_intervention_rate : F

-- `Field(ge=2)` twice, then `known_signals`.
unfoldable pub validate_corroboration : GraphCorroborationConfig → Result (Unit {0})
unfolding all_of contains
validate_corroboration g = do
  reject_if (ltb g.minimum_strong_signals 2) out_of_range
  reject_if (ltb g.recommend_block_minimum_strong_signals 2) out_of_range
  reject_if (not (all_of (contains signal_codes) g.strong_signal_codes))
      (value_error "unknown graph-v1 signal codes")
  reject_if (ltb g.recommend_block_minimum_strong_signals g.minimum_strong_signals)
      (value_error "recommend-block evidence cannot be weaker than escalation evidence")

module _ {F : Type 0} ⦃f : Float F⦄ where
  -- The field constraints, then `valid_policy`.
  unfoldable pub validate_policy : PolicyConfig F → Result (Unit {0})
  unfolding validate_corroboration contains
  validate_policy c = do
    reject_if (not (in_unit c.verify_threshold)) out_of_range
    reject_if (not (in_unit c.hold_threshold)) out_of_range
    validate_corroboration c.graph_corroboration
    reject_if (not (contains (policy_v1_version ∷ policy_v2_version ∷ []) c.policy_version))
        (value_error "unsupported policy version")
    reject_if (c.schema_version != "policy-schema-v1")
        (value_error "unsupported policy version/schema")
    reject_if (c.model_version != primary_model_version)
        (value_error "policy requires risk-lgbm-v2")
    reject_if (c.feature_version != feature_version || c.graph_version != graph_version)
        (value_error "policy requires frozen features-v1 and graph-v1")
    reject_if (not (f.is_finite c.verify_threshold) || not (f.is_finite c.hold_threshold))
        (value_error "policy thresholds must be finite")
    reject_if (f.lt c.hold_threshold c.verify_threshold)
        (value_error "verify_threshold must be <= hold_threshold")
    reject_if (c.policy_version == policy_v2_version && f.le c.hold_threshold c.verify_threshold)
        (value_error "risk-policy-v2 requires verify_threshold < hold_threshold")
    reject_if (not (all_of (contains c.human_review_actions) (escalate ∷ recommend_block ∷ [])))
        (value_error "ESCALATE and RECOMMEND_BLOCK must require human review")

  -- The field constraints of `OperatingConstraints`.
  unfoldable pub validate_constraints : OperatingConstraints F → Result (Unit {0})
  validate_constraints c = do
    reject_if (not (in_unit c.minimum_abuse_intervention_recall)) out_of_range
    reject_if (not (in_unit c.maximum_legitimate_intervention_rate)) out_of_range
    reject_if (not (in_unit c.maximum_legitimate_severe_intervention_rate)) out_of_range
    reject_if (not (in_unit c.maximum_total_human_review_rate)) out_of_range
    reject_if (not (in_unit c.maximum_any_legitimate_persona_severe_intervention_rate)) out_of_range
