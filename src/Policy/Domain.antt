-- ===== src/Policy/Domain.antt =====
-- packages/policy_engine/domain.py: the runtime contracts. No field holds a label, a scenario or
-- any other evaluation truth. Times are microseconds.
use aegis_ai_risk_manager.Common.{ℕ, Bool, ◌&&◌, String, List, Option, all_of}
use aegis_ai_risk_manager.Common.Float.{Float, in_unit}
use aegis_ai_risk_manager.Common.Value.{Mapping}
use aegis_ai_risk_manager.Enums.{PolicyAction, RiskSeverity}

pub record GraphEvidence (F : Type 0) : Type 0 where
  pub code : String
  pub strength : F
  pub observed_value : F
  pub threshold : F
  pub evidence : Mapping F

pub record PolicyInput (F : Type 0) : Type 0 where
  pub transaction_public_id : String
  pub model_version : String
  pub model_score : F
  pub feature_version : String
  pub graph_version : String
  pub graph_structure_score : F
  pub graph_signals : List (GraphEvidence F)
  pub detected_cluster_id : Option String
  pub computed_at : ℕ

pub record RiskAssessment (F : Type 0) : Type 0 where
  pub transaction_public_id : String
  pub model_version : String
  pub model_score : F
  pub feature_version : String
  pub graph_version : String
  pub graph_structure_score : F
  pub graph_signals : List (GraphEvidence F)
  pub detected_cluster_id : Option String
  pub severity : RiskSeverity
  pub rule_signals : List String
  pub policy_context : Mapping F
  pub computed_at : ℕ

pub record PolicyDecisionResult (F : Type 0) : Type 0 where
  pub transaction_public_id : String
  pub policy_version : String
  pub action : PolicyAction
  pub severity : RiskSeverity
  pub requires_human_review : Bool
  pub reason_codes : List String
  pub model_score : F
  pub graph_corroborated : Bool
  pub detected_cluster_id : Option String

module _ {F : Type 0} ⦃f : Float F⦄ where
  -- The field constraints of `PolicyInput` and of its graph evidence. `RiskAssessment` and
  -- `PolicyDecisionResult` check the same scores again.
  unfoldable pub scores_in_range : PolicyInput F → Bool
  unfolding all_of
  scores_in_range p =
      in_unit p.model_score
      && in_unit p.graph_structure_score
      && all_of (λ (s : GraphEvidence F). in_unit s.strength) p.graph_signals
