-- ===== src/Features/Domain.antt =====
-- packages/risk_engine/features/domain.py. A subclass holds the record of its parent, whose fields
-- are the scoring context. A `datetime` is a number of microseconds.
use aegis_ai_risk_manager.Common.{ℕ, String, Option}
use aegis_ai_risk_manager.Enums.{TransactionStatus}

pub record ScoringFeatureTransaction : Type 0 where
  pub transaction_public_id : String
  pub customer_id : String
  pub merchant_id : String
  pub instrument_id : String
  pub device_id : String
  pub ip_id : String
  pub address_id : String
  pub amount_paise : ℕ
  pub currency : String
  pub payment_method : String
  pub event_time : ℕ
  pub account_created_at : ℕ

pub record FeatureTransaction : Type 0 where
  pub scoring_context : ScoringFeatureTransaction
  pub status : TransactionStatus
  pub failure_code : Option String
