-- ===== src/Policy/Engine/Table.antt =====
-- What `assess` decides, as a table over the score bands, the count of strong signals and the
-- cluster.
use aegis_ai_risk_manager.Common.{ℕ, ◌≤◌, ◌≡◌, ◌↔◌, ◌⊎◌, true, false, String, Option, arith}
use aegis_ai_risk_manager.Common.Float.{Float, Compares}
use aegis_ai_risk_manager.Enums.{
  PolicyAction, allow, verify, hold, escalate, recommend_block, action_rank,
}
use aegis_ai_risk_manager.Policy.Config.{PolicyConfig}
use aegis_ai_risk_manager.Policy.Engine.{truthy, verdict}

module _ {F : Type 0} ⦃f : Float F⦄ (config : PolicyConfig F) where
  -- The score reached the HOLD band.
  abbrev pub InHoldBand : F → Type 0
  InHoldBand score =
      (f.lt score config.verify_threshold ≡ false) × (f.lt score config.hold_threshold ≡ false)

  abbrev pub IsCorroborated : ℕ → Type 0
  IsCorroborated strong = config.graph_corroboration.minimum_strong_signals ≤ strong

  -- What the block recommendation needs beyond an escalation.
  abbrev pub IsBlockable : ℕ → Option String → Type 0
  IsBlockable strong cluster =
      (config.graph_corroboration.recommend_block_minimum_strong_signals ≤ strong)
      × ((truthy cluster ≡ true)
          ⊎ (config.graph_corroboration.recommend_block_requires_active_cluster ≡ false))

  module _ (score : F) (strong : ℕ) (cluster : Option String) where
    abbrev pub outcome : PolicyAction
    outcome = (verdict config score strong cluster).action

    pub outcome-allow_iff : (outcome ≡ allow) ↔ (f.lt score config.verify_threshold ≡ true)
    unfolding verdict
    outcome-allow_iff = ground arith

    pub outcome-verify_iff :
        (outcome ≡ verify)
        ↔ ((f.lt score config.verify_threshold ≡ false) × (f.lt score config.hold_threshold ≡ true))
    unfolding verdict
    outcome-verify_iff = ground arith

    pub outcome-hold_iff : (outcome ≡ hold) ↔ (InHoldBand score × (¬ IsCorroborated strong))
    unfolding verdict
    outcome-hold_iff = ground arith

    pub outcome-escalate_iff :
        (outcome ≡ escalate)
        ↔ (InHoldBand score × IsCorroborated strong × (¬ IsBlockable strong cluster))
    unfolding verdict
    outcome-escalate_iff = ground arith

    pub outcome-recommend_block_iff :
        (outcome ≡ recommend_block)
        ↔ (InHoldBand score × IsCorroborated strong × IsBlockable strong cluster)
    unfolding verdict
    outcome-recommend_block_iff = ground arith

module _ {F : Type 0} ⦃f : Float F⦄ ⦃laws : Compares F⦄ (config : PolicyConfig F) where
  -- The outcome grows with the score, the number of strong signals and the cluster.
  pub outcome_mono :
      (s t : F) (m n : ℕ) (c d : Option String)
      → f.le s t ≡ true
      → m ≤ n
      → (truthy c ≡ true → truthy d ≡ true)
      → action_rank (outcome config s m c) ≤ action_rank (outcome config t n d)
  unfolding verdict
  outcome_mono s t m n c d le more cluster = ground (
    arith,
    laws.le_lt_trans s t config.verify_threshold,
    laws.le_lt_trans s t config.hold_threshold,
  )
