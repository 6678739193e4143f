-- ===== src/Policy/Rules.antt =====
-- packages/policy_engine/rules.py.
use aegis_ai_risk_manager.Common.{String, List, map, select, if◌then◌else◌, string_eq}
use aegis_ai_risk_manager.Common.Sets.{contains, sorted_set}
use aegis_ai_risk_manager.Common.TextOrder.{string_ord}
use aegis_ai_risk_manager.Common.Float.{Float}
use aegis_ai_risk_manager.Enums.{PolicyAction, RiskSeverity, allow, verify, hold, low, medium, high}
use aegis_ai_risk_manager.Policy.Config.{PolicyConfig}
use aegis_ai_risk_manager.Policy.Domain.{GraphEvidence}

module _ {F : Type 0} where
  unfoldable pub score_band :
      ⦃f : Float F⦄ → F → PolicyConfig F → PolicyAction × RiskSeverity × String
  score_band ⦃f⦄ score config =
      if f.lt score config.verify_threshold
      then (allow, low, "MODEL_SCORE_BELOW_VERIFY")
      else if f.lt score config.hold_threshold
      then (verify, medium, "MODEL_SCORE_VERIFY_BAND")
      else (hold, high, "MODEL_SCORE_HOLD_BAND")

  abbrev pub codes_of : List (GraphEvidence F) → List String
  codes_of = map (λ (s : GraphEvidence F). s.code)

  unfoldable pub strong_graph_signal_codes : List (GraphEvidence F) → PolicyConfig F → List String
  strong_graph_signal_codes signals config =
      sorted_set
        (select (contains config.graph_corroboration.strong_signal_codes) (codes_of signals))
