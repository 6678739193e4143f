-- ===== src/Policy/Backtest/Metrics.antt =====
-- The tables of metrics that `evaluate_policy` returns.
use aegis_ai_risk_manager.Common.{ℕ, String, List, Option, string_eq, nat_eq}
use aegis_ai_risk_manager.Common.Int.{ℤ}
use aegis_ai_risk_manager.Common.TextOrder.{string_ord}
use aegis_ai_risk_manager.Enums.{action_eq}
use aegis_ai_risk_manager.Policy.Backtest.Loop.{Counter, Detail}

pub record Confusion : Type 0 where
  pub tp : ℕ
  pub fp : ℕ
  pub tn : ℕ
  pub fn : ℕ

pub record Classification (F : Type 0) : Type 0 where
  pub precision : F
  pub recall : F
  pub f1 : F
  pub counts : Confusion

pub record SliceRow (F : Type 0) : Type 0 where
  pub transactions : ℕ
  pub by_action : Counter
  pub severe_intervention_rate : F
  pub intervention_rate : F

pub record OperatingMetrics (F : Type 0) : Type 0 where
  pub abuse_intervention_recall : F
  pub legitimate_intervention_rate : F
  pub legitimate_severe_intervention_rate : F
  pub total_human_review_rate : F
  pub human_review_count : ℕ
  pub legitimate_count : ℕ
  pub abuse_count : ℕ
  pub maximum_legitimate_persona_severe_intervention_rate : F
  pub maximum_legitimate_persona : Option String

pub record Amounts (F : Type 0) : Type 0 where
  pub total_transaction_amount : ℕ
  pub total_legitimate_amount : ℕ
  pub total_abuse_amount : ℕ
  pub legitimate_amount_touched : ℕ
  pub abuse_amount_touched : ℕ
  pub abuse_amount_allowed : ℕ
  pub amount_weighted_abuse_intervention_rate : F

pub record CostTotals : Type 0 where
  pub allow_all_baseline_expected_loss : ℕ
  pub remaining_abuse_loss : ℕ
  pub legitimate_intervention_friction_cost : ℕ
  pub operational_action_cost : ℕ
  pub total_policy_expected_cost : ℕ
  pub estimated_net_protected_value : ℤ

pub record PolicyMetrics (F : Type 0) : Type 0 where
  pub policy_version : String
  pub policy_config_hash : String
  pub cost_profile_version : String
  pub cost_profile_hash : String
  pub assumptions_label : String
  pub verify_threshold : F
  pub hold_threshold : F
  pub action_counts : Counter
  pub intervention : Classification F
  pub severe_intervention : Classification F
  pub operating_metrics : OperatingMetrics F
  pub amounts_paise : Amounts F
  pub costs_paise : CostTotals
  pub legitimate_intervention_by_action : List (String × Detail)
  pub persona_actions : List (String × SliceRow F)
  pub scenario_actions : List (String × SliceRow F)
