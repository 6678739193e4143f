-- ===== src/Policy/Engine/Evidence.antt =====
-- How graph evidence and the score move a decision.
use aegis_ai_risk_manager.Common.{
  ◌≤◌, ◌≡◌, ap, sym, ◌∙◌, true, List, length, select, arith, ok, String, string_eq,
}
use aegis_ai_risk_manager.Common.Sets.{contains}
use aegis_ai_risk_manager.Common.Sets.Laws.{sorted_set_congr}
use aegis_ai_risk_manager.Common.Sets.Size.{IsSubset, sorted_set-length-le}
use aegis_ai_risk_manager.Common.Sets.Filter.{contains-select}
use aegis_ai_risk_manager.Common.TextOrder.{string_ord}
use aegis_ai_risk_manager.Common.Float.{Float, Compares}
use aegis_ai_risk_manager.Enums.{action_rank, verify}
use aegis_ai_risk_manager.Policy.Config.{PolicyConfig}
use aegis_ai_risk_manager.Policy.Domain.{
  GraphEvidence, PolicyInput, RiskAssessment, PolicyDecisionResult,
}
use aegis_ai_risk_manager.Policy.Rules.{codes_of, strong_graph_signal_codes}
use aegis_ai_risk_manager.Policy.Engine.{
  truthy, verdict, verdict_of, strong_codes, decision_of, assess,
}
use aegis_ai_risk_manager.Policy.Engine.Decision.{assess-eq_ok}
use aegis_ai_risk_manager.Policy.Engine.Table.{outcome_mono}

module _ {F : Type 0} (config : PolicyConfig F) (signals others : List (GraphEvidence F)) where
  -- The strong codes depend only on the set of codes raised.
  pub strong_codes_congr :
      ((c : String) → contains (codes_of signals) c ≡ contains (codes_of others) c)
      → strong_graph_signal_codes signals config ≡ strong_graph_signal_codes others config
  unfolding strong_graph_signal_codes
  strong_codes_congr h =
      let strong = contains config.graph_corroboration.strong_signal_codes in
      sorted_set_congr (select strong (codes_of signals)) (select strong (codes_of others))
        (λ c. simp (contains-select, h c))

  -- More codes raised are at least as many strong ones.
  pub strong_codes_mono :
      IsSubset (codes_of signals) (codes_of others)
      → length (strong_graph_signal_codes signals config)
        ≤ length (strong_graph_signal_codes others config)
  unfolding strong_graph_signal_codes
  strong_codes_mono h =
      let strong = contains config.graph_corroboration.strong_signal_codes in
      sorted_set-length-le (select strong (codes_of signals)) (select strong (codes_of others))
        (λ c k. ground (
          arith,
          contains-select strong (codes_of signals) c,
          contains-select strong (codes_of others) c,
          h c,
        ))

module _ {F : Type 0} ⦃f : Float F⦄ (config : PolicyConfig F) (p q : PolicyInput F)
    {a b : RiskAssessment F} {d e : PolicyDecisionResult F} (first : assess config p ≡ ok (a, d))
    (second : assess config q ≡ ok (b, e)) where
  first_decision : d ≡ decision_of config p (verdict_of config p)
  first_decision =
      ap (λ (r : RiskAssessment F × PolicyDecisionResult F). r.1) (assess-eq_ok config p first).1

  second_decision : e ≡ decision_of config q (verdict_of config q)
  second_decision =
      ap (λ (r : RiskAssessment F × PolicyDecisionResult F). r.1) (assess-eq_ok config q second).1

  -- Below the hold threshold graph evidence and clusters change neither the action nor the
  -- severity, and the action is at most VERIFY: two assessments of one score agree on both.
  pub below_hold_evidence :
      p.model_score ≡ q.model_score
      → f.lt p.model_score config.hold_threshold ≡ true
      → (d.action ≡ e.action)
        × (d.severity ≡ e.severity)
        × (action_rank d.action ≤ action_rank verify)
  unfolding verdict
  below_hold_evidence s h = ground (arith, first_decision, second_decision)

  -- A higher score, more graph signal codes and a cluster where there was one never make the
  -- action milder.
  pub assess_mono :
      ⦃laws : Compares F⦄
      → f.le p.model_score q.model_score ≡ true
      → IsSubset (codes_of p.graph_signals) (codes_of q.graph_signals)
      → (truthy p.detected_cluster_id ≡ true → truthy q.detected_cluster_id ≡ true)
      → action_rank d.action ≤ action_rank e.action
  assess_mono s sub cluster =
      rw
        (
          ap (λ (r : PolicyDecisionResult F). r.action) first_decision,
          ap (λ (r : PolicyDecisionResult F). r.action) second_decision,
        )
        (outcome_mono config p.model_score q.model_score (length (strong_codes config p))
          (length (strong_codes config q)) p.detected_cluster_id q.detected_cluster_id s
          (strong_codes_mono config p.graph_signals q.graph_signals sub) cluster)

-- Two inputs that differ only in their graph signals, and raise the same set of codes, get the same
-- decision: the order, the repetition and the numbers of the signals do not matter.
pub decision_congr :
    {F : Type 0} ⦃f : Float F⦄ (config : PolicyConfig F) (p : PolicyInput F)
    (others : List (GraphEvidence F)) {a b : RiskAssessment F} {d e : PolicyDecisionResult F}
    → assess config p ≡ ok (a, d)
    → assess config (record p { graph_signals = others }) ≡ ok (b, e)
    → ((c : String) → contains (codes_of p.graph_signals) c ≡ contains (codes_of others) c)
    → d ≡ e
decision_congr config p others first second h =
    let q = record p { graph_signals = others } in
    first_decision config p q first second
    ∙ rw (strong_codes_congr config p.graph_signals others h)
        (sym (second_decision config p q first second))
