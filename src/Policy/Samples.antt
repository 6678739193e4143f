-- ===== src/Policy/Samples.antt =====
-- Inputs for the tests of the policy: the configuration of risk-policy-v2.yaml and the profile of
-- balanced-v1.yaml, over millionths.
use aegis_ai_risk_manager.Common.{
  ℕ, ◌≡◌, refl, true, String, List, [], ◌∷◌, map, Option, none, some, ok,
}
use aegis_ai_risk_manager.Common.Float.Millionths.{millionths}
use aegis_ai_risk_manager.Enums.{allow, verify, hold, escalate, recommend_block, action_eq}
use aegis_ai_risk_manager.Graph.Registry.{signal_codes}
use aegis_ai_risk_manager.Policy.Config.{PolicyConfig, validate_policy}
use aegis_ai_risk_manager.Policy.Domain.{GraphEvidence, PolicyInput}
use aegis_ai_risk_manager.Policy.Costs.{
  ActionCost, CostProfile, validate_profile, fractions_in_range, intervenes,
}
use aegis_ai_risk_manager.Policy.Backtest.Loop.{BacktestExample}

abbrev pub policy_v2 : PolicyConfig ℕ
policy_v2 = record {
  policy_version = "risk-policy-v2";
  schema_version = "policy-schema-v1";
  model_version = "risk-lgbm-v2";
  feature_version = "features-v1";
  graph_version = "graph-v1";
  cost_profile = "balanced-v1";
  verify_threshold = 5482;
  hold_threshold = 962288;
  graph_corroboration = record {
    strong_signal_codes = signal_codes;
    minimum_strong_signals = 2;
    recommend_block_minimum_strong_signals = 3;
    recommend_block_requires_active_cluster = true;
  };
  human_review_actions = escalate ∷ recommend_block ∷ [];
}

pub policy_v2_valid : validate_policy policy_v2 ≡ ok tt
unfolding validate_policy
policy_v2_valid = refl

abbrev row : ℕ → ℕ → ℕ → ℕ → ActionCost ℕ
row fixed friction operational effectiveness = record {
  legitimate_fixed_cost_paise = fixed;
  legitimate_friction_fraction = friction;
  operational_cost_paise = operational;
  abuse_intervention_effectiveness = effectiveness;
}

abbrev pub balanced : CostProfile ℕ
balanced = record {
  cost_profile_version = "balanced-v1";
  assumptions_label = "ILLUSTRATIVE SYNTHETIC POLICY ASSUMPTIONS";
  currency = "INR";
  abuse_loss_fraction = 1000000;
  actions =
      (allow, row 0 0 0 0)
      ∷ (verify, row 100 1000 50 350000)
      ∷ (hold, row 300 4000 100 750000)
      ∷ (escalate, row 300 6000 1500 850000)
      ∷ (recommend_block, row 300 10000 2500 950000)
      ∷ [];
}

pub balanced_valid : validate_profile balanced ≡ ok tt
unfolding validate_profile fractions_in_range intervenes
balanced_valid = refl

abbrev signal : String → GraphEvidence ℕ
signal code = record {
  code = code;
  strength = 500000;
  observed_value = 4000000;
  threshold = 3000000;
  evidence = [];
}

abbrev pub input : ℕ → List String → Option String → PolicyInput ℕ
input score codes cluster = record {
  transaction_public_id = "txn_1";
  model_version = "risk-lgbm-v2";
  model_score = score;
  feature_version = "features-v1";
  graph_version = "graph-v1";
  graph_structure_score = 400000;
  graph_signals = map signal codes;
  detected_cluster_id = cluster;
  computed_at = 0;
}

-- A ring on one device: three strong signals and a cluster.
abbrev pub ring_codes : List String
ring_codes =
    "RAPID_RELATIONSHIP_EXPANSION" ∷ "DEVICE_MULTI_CUSTOMER_CONCENTRATION"
    ∷ "MULTI_COMPONENT_BRIDGE" ∷ "RAPID_RELATIONSHIP_EXPANSION" ∷ []

abbrev pub ring : PolicyInput ℕ
ring = input 990000 ring_codes (some "clu_1")

abbrev pub example : PolicyInput ℕ → ℕ → ℕ → BacktestExample ℕ
example p amount label = record {
  policy_input = p;
  amount_paise = amount;
  label = label;
  persona = some "STUDENT";
  scenario = some "ACCOUNT_FARM";
}

abbrev pub history : List (BacktestExample ℕ)
history =
    example ring 50000 1
    ∷ example (input 1000 ring_codes (some "clu_1")) 20000 1
    ∷ example (input 600000 [] none) 10000 0
    ∷ example (input 1000 [] none) 7000 0
    ∷ []
