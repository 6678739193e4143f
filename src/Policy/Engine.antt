-- ===== src/Policy/Engine.antt =====
-- packages/policy_engine/engine.py: `PolicyEngine.assess`.
pub mod Table
pub mod Decision
pub mod Evidence
use aegis_ai_risk_manager.Common.{
  ℕ, Bool, false, not, ◌&&◌, ◌||◌, String, ◌<>◌, List, [], ◌∷◌, ◌++◌, map, length, Option, none,
  some, Result, ok, ◌>>◌, value_error, runtime_error, out_of_range, reject_if, ◌==◌, ◌!=◌,
  string_eq, leb, if◌then◌else◌,
}
use aegis_ai_risk_manager.Common.Sets.{contains, from_keys}
use aegis_ai_risk_manager.Common.Float.{Float}
use aegis_ai_risk_manager.Common.Value.{text, number}
use aegis_ai_risk_manager.Enums.{
  PolicyAction, RiskSeverity, hold, escalate, recommend_block, critical, action_eq, severity_value,
}
use aegis_ai_risk_manager.Policy.Config.{GraphCorroborationConfig, PolicyConfig}
use aegis_ai_risk_manager.Policy.Domain.{
  PolicyInput, RiskAssessment, PolicyDecisionResult, scores_in_range,
}
use aegis_ai_risk_manager.Policy.Rules.{score_band, strong_graph_signal_codes}

-- `bool(detected_cluster_id)`
abbrev pub truthy : Option String → Bool
truthy none = false
truthy (some s) = s != ""

-- The local variables `action`, `severity` and `reasons`.
pub record Verdict : Type 0 where
  pub action : PolicyAction
  pub severity : RiskSeverity
  pub reasons : List String

-- The inner `if`: from an escalation to the block recommendation.
unfoldable pub recommend : GraphCorroborationConfig → ℕ → Option String → Verdict → Verdict
recommend g strong cluster v =
    if (truthy cluster || not g.recommend_block_requires_active_cluster)
      && leb g.recommend_block_minimum_strong_signals strong
    then record {
      action = recommend_block;
      severity = v.severity;
      reasons = v.reasons ++ "ACTIVE_CLUSTER_CORROBORATION" ∷ "HUMAN_REVIEW_RECOMMENDATION" ∷ [];
    }
    else v

-- Graph evidence never moves ALLOW/VERIFY directly to a severe intervention.
unfoldable pub corroborate : GraphCorroborationConfig → ℕ → Option String → Verdict → Verdict
unfolding recommend
corroborate g strong cluster v =
    if v.action == hold && leb g.minimum_strong_signals strong
    then recommend g strong cluster (record {
      action = escalate;
      severity = critical;
      reasons = v.reasons ++ "GRAPH_CORROBORATED_ESCALATION" ∷ [];
    })
    else v

abbrev pub rule_signals : RiskSeverity → List String → Option String → List String
rule_signals severity codes cluster =
    ("MODEL_RISK_BAND:" <> severity_value severity)
      ∷ map (λ (code : String). "GRAPH_SIGNAL:" <> code) codes
    ++ (if truthy cluster then "ACTIVE_CLUSTER" ∷ [] else [])

module _ {F : Type 0} ⦃f : Float F⦄ where
  -- The verdict of the band, with the corroboration reasons.
  unfoldable pub base_verdict : PolicyConfig F → F → ℕ → Verdict
  unfolding score_band
  base_verdict config score strong =
      let (action, severity, band_reason) = score_band score config in
      record {
        action = action;
        severity = severity;
        reasons =
            if leb config.graph_corroboration.minimum_strong_signals strong
            then band_reason ∷ "GRAPH_CORROBORATED" ∷ "MULTIPLE_STRUCTURAL_SIGNALS" ∷ []
            else band_reason ∷ [];
      }

  unfoldable pub verdict : PolicyConfig F → F → ℕ → Option String → Verdict
  unfolding base_verdict corroborate
  verdict config score strong cluster =
      corroborate config.graph_corroboration strong cluster (base_verdict config score strong)

  unfoldable pub versions_match : PolicyConfig F → PolicyInput F → Bool
  versions_match config p =
      p.model_version == config.model_version
      && p.feature_version == config.feature_version
      && p.graph_version == config.graph_version

  abbrev pub strong_codes : PolicyConfig F → PolicyInput F → List String
  strong_codes config p = strong_graph_signal_codes p.graph_signals config

  abbrev pub verdict_of : PolicyConfig F → PolicyInput F → Verdict
  verdict_of config p =
      verdict config p.model_score (length (strong_codes config p)) p.detected_cluster_id

  abbrev pub assessment_of : PolicyConfig F → PolicyInput F → RiskSeverity → RiskAssessment F
  assessment_of config p severity = record {
    transaction_public_id = p.transaction_public_id;
    model_version = p.model_version;
    model_score = p.model_score;
    feature_version = p.feature_version;
    graph_version = p.graph_version;
    graph_structure_score = p.graph_structure_score;
    graph_signals = p.graph_signals;
    detected_cluster_id = p.detected_cluster_id;
    severity = severity;
    rule_signals = rule_signals severity (strong_codes config p) p.detected_cluster_id;
    policy_context =
        ("policy_version", text config.policy_version)
        ∷ ("verify_threshold", number config.verify_threshold)
        ∷ ("hold_threshold", number config.hold_threshold)
        ∷ ("score_semantics", text "uncalibrated model score; not a fraud probability")
        ∷ [];
    computed_at = p.computed_at;
  }

  abbrev pub decision_of : PolicyConfig F → PolicyInput F → Verdict → PolicyDecisionResult F
  decision_of config p v = record {
    transaction_public_id = p.transaction_public_id;
    policy_version = config.policy_version;
    action = v.action;
    severity = v.severity;
    requires_human_review = contains config.human_review_actions v.action;
    reason_codes = from_keys v.reasons;
    model_score = p.model_score;
    graph_corroborated =
        leb config.graph_corroboration.minimum_strong_signals (length (strong_codes config p));
    detected_cluster_id = p.detected_cluster_id;
  }

  -- The last test stands for the constraints that `RiskAssessment` and `PolicyDecisionResult` put
  -- on the scores that they copy.
  unfoldable pub assess :
      PolicyConfig F → PolicyInput F → Result (RiskAssessment F × PolicyDecisionResult F)
  assess config p = do
    reject_if (not (versions_match config p)) (value_error "policy input version mismatch")
    let v = verdict_of config p
    reject_if (v.action == recommend_block && not (contains config.human_review_actions v.action))
        (runtime_error "RECOMMEND_BLOCK cannot bypass human review")
    reject_if (not (scores_in_range p)) out_of_range
    ok (assessment_of config p v.severity, decision_of config p v)
