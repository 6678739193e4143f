-- ===== src/Policy/Engine/Decision.antt =====
-- `PolicyEngine.assess` as a whole: when it raises, what it returns, and who reviews it.
use aegis_ai_risk_manager.Common.{
  ℕ, ◌≤◌, ◌≡◌, ap, ◌↔◌, ◌⊎◌, inl, inr, true, false, length, arith, ok, raise, value_error,
  Bool-cases,
}
use aegis_ai_risk_manager.Common.Sets.{contains}
use aegis_ai_risk_manager.Common.Float.{Float}
use aegis_ai_risk_manager.Enums.{
  allow, verify, hold, escalate, recommend_block, action_rank, action_eq,
}
use aegis_ai_risk_manager.Policy.Config.{PolicyConfig, validate_policy}
use aegis_ai_risk_manager.Policy.Domain.{
  PolicyInput, RiskAssessment, PolicyDecisionResult, scores_in_range,
}
use aegis_ai_risk_manager.Policy.Engine.{
  verdict_of, versions_match, strong_codes, assessment_of, decision_of, assess,
}
use aegis_ai_risk_manager.Policy.Engine.Table.{
  InHoldBand, IsCorroborated, IsBlockable, outcome, outcome-allow_iff, outcome-verify_iff,
  outcome-hold_iff, outcome-escalate_iff, outcome-recommend_block_iff,
}

-- Both severe actions go to a human.
abbrev pub ReviewsSevere : {F : Type 0} → PolicyConfig F → Type 0
ReviewsSevere config =
    (contains config.human_review_actions escalate ≡ true)
    × (contains config.human_review_actions recommend_block ≡ true)

-- A validated configuration sends them there.
pub validate_policy-ReviewsSevere :
    {F : Type 0} ⦃f : Float F⦄ (config : PolicyConfig F)
    → validate_policy config ≡ ok tt
    → ReviewsSevere config
unfolding validate_policy
validate_policy-ReviewsSevere config h = ground arith

module _ {F : Type 0} ⦃f : Float F⦄ (config : PolicyConfig F) (p : PolicyInput F) where
  -- A returned pair is the assessment and the decision of the verdict.
  pub assess-eq_ok :
      {r : RiskAssessment F × PolicyDecisionResult F}
      → assess config p ≡ ok r
      → (versions_match config p ≡ true)
        × (r ≡ (
          assessment_of config p (verdict_of config p).severity,
          decision_of config p (verdict_of config p),
        ))
  unfolding assess
  assess-eq_ok {r} h = ground arith

  -- With a validated configuration and an input whose scores are in range `assess` raises exactly
  -- when a version differs.
  pub assess_total :
      ReviewsSevere config
      → scores_in_range p ≡ true
      → (versions_match config p ≡ true)
      → assess config p
        ≡ ok (
          assessment_of config p (verdict_of config p).severity,
          decision_of config p (verdict_of config p),
        )
  unfolding assess
  assess_total v s m = ground arith

  -- `assess` never fails with a validated configuration on an input in range, except that it
  -- refuses an input of other versions.
  pub assess_versions :
      validate_policy config ≡ ok tt
      → scores_in_range p ≡ true
      → ((versions_match config p ≡ true)
          × (assess config p
              ≡ ok (
                assessment_of config p (verdict_of config p).severity,
                decision_of config p (verdict_of config p),
              )))
        ⊎ ((versions_match config p ≡ false)
            × (assess config p ≡ raise (value_error "policy input version mismatch")))
  unfolding assess
  assess_versions v s = elim (Bool-cases (versions_match config p)) [
    | inl m ↦ inl (m, assess_total (validate_policy-ReviewsSevere config v) s m)
    | inr m ↦ inr (m, ground arith)
  ]

  module _ {a : RiskAssessment F} {d : PolicyDecisionResult F}
      (returned : assess config p ≡ ok (a, d)) where
    abbrev strong_count : ℕ
    strong_count = length (strong_codes config p)

    returned-decision : d ≡ decision_of config p (verdict_of config p)
    returned-decision =
        ap (λ (r : RiskAssessment F × PolicyDecisionResult F). r.1) (assess-eq_ok returned).1

    pub returned-action : d.action ≡ outcome config p.model_score strong_count p.detected_cluster_id
    returned-action = ap (λ (d : PolicyDecisionResult F). d.action) returned-decision

    -- The action of a returned decision, by the score band, the number of distinct strong graph
    -- signals and the cluster: ALLOW exactly below the verify threshold, VERIFY exactly from there
    -- to the hold threshold, and above both HOLD, ESCALATE or RECOMMEND_BLOCK as the evidence fails
    -- to corroborate, corroborates, or meets the block requirements too.
    pub decision_table :
        ((d.action ≡ allow) ↔ (f.lt p.model_score config.verify_threshold ≡ true))
        × ((d.action ≡ verify) ↔ (
            (f.lt p.model_score config.verify_threshold ≡ false)
            × (f.lt p.model_score config.hold_threshold ≡ true)))
        × ((d.action ≡ hold)
            ↔ (InHoldBand config p.model_score × (¬ IsCorroborated config strong_count)))
        × ((d.action ≡ escalate) ↔ (
            InHoldBand config p.model_score
            × IsCorroborated config strong_count
            × (¬ IsBlockable config strong_count p.detected_cluster_id)))
        × ((d.action ≡ recommend_block) ↔ (
            InHoldBand config p.model_score
            × IsCorroborated config strong_count
            × IsBlockable config strong_count p.detected_cluster_id))
    decision_table = rw returned-action (
      outcome-allow_iff config p.model_score strong_count p.detected_cluster_id,
      outcome-verify_iff config p.model_score strong_count p.detected_cluster_id,
      outcome-hold_iff config p.model_score strong_count p.detected_cluster_id,
      outcome-escalate_iff config p.model_score strong_count p.detected_cluster_id,
      outcome-recommend_block_iff config p.model_score strong_count p.detected_cluster_id,
    )

    -- With a validated configuration every returned ESCALATE or RECOMMEND_BLOCK requires a human
    -- review.
    pub severe-reviewed :
        validate_policy config ≡ ok tt
        → action_rank escalate ≤ action_rank d.action
        → d.requires_human_review ≡ true
    severe-reviewed v h = ground (arith, validate_policy-ReviewsSevere config v, returned-decision)
