-- ===== src/Ingestion/Domain.antt =====
-- apps/api/app/schemas/contracts.py and apps/api/app/models: the event and the rows that ingestion
-- reads and writes. `F` is the type of floats, a time is a number of microseconds, an `id` a text.
use aegis_ai_risk_manager.Common.{ℕ, Bool, String, List, Option}
use aegis_ai_risk_manager.Enums.{
  TransactionStatus, GroundTruthLabel, ScenarioType, NetworkType, ProcessingStatus,
}

pub record RawPaymentEvent (F : Type 0) : Type 0 where
  pub event_id : String
  pub event_type : String
  pub event_version : String
  pub event_time : ℕ
  pub received_at : Option ℕ
  pub customer_ref : String
  pub account_created_at : ℕ
  pub customer_segment : String
  pub home_region : String
  pub instrument_fingerprint : String
  pub instrument_type : String
  pub issuer_region : String
  pub device_fingerprint : String
  pub device_type : String
  pub os_family : String
  pub browser_family : String
  pub ip_hash : String
  pub network_type : NetworkType
  pub ip_region : String
  pub address_fingerprint : String
  pub address_region : String
  pub postal_prefix : String
  pub merchant_ref : String
  pub merchant_category : String
  pub merchant_region : String
  pub merchant_risk_baseline : F
  pub amount_paise : ℕ
  pub currency : String
  pub payment_method : String
  pub status : TransactionStatus
  pub failure_code : Option String

pub record TrustedSyntheticContext : Type 0 where
  pub scenario_run_public_id : String
  pub label : GroundTruthLabel
  pub scenario_type : ScenarioType
  pub ring_id : Option String
  pub persona : Option String

-- The payload is the dumped event.
pub record RawEvent (F : Type 0) : Type 0 where
  pub id : String
  pub event_id : String
  pub event_type : String
  pub event_version : String
  pub payload : RawPaymentEvent F
  pub event_time : ℕ
  pub received_at : ℕ
  pub processing_status : ProcessingStatus
  pub processing_error : Option String

pub record Customer : Type 0 where
  pub id : String
  pub public_id : String
  pub source_ref : String
  pub account_created_at : ℕ
  pub customer_segment : String
  pub home_region : String
  pub is_synthetic : Bool
  pub updated_at : ℕ

pub record Merchant (F : Type 0) : Type 0 where
  pub id : String
  pub public_id : String
  pub source_ref : String
  pub category : String
  pub risk_baseline : F
  pub region : String

pub record PaymentInstrument : Type 0 where
  pub id : String
  pub public_id : String
  pub instrument_type : String
  pub fingerprint : String
  pub issuer_region : String
  pub first_seen_at : ℕ
  pub last_seen_at : ℕ

pub record Device : Type 0 where
  pub id : String
  pub public_id : String
  pub device_fingerprint : String
  pub device_type : String
  pub os_family : String
  pub browser_family : String
  pub first_seen_at : ℕ
  pub last_seen_at : ℕ

pub record IpAddress : Type 0 where
  pub id : String
  pub public_id : String
  pub ip_hash : String
  pub network_type : NetworkType
  pub region : String
  pub first_seen_at : ℕ
  pub last_seen_at : ℕ

pub record Address : Type 0 where
  pub id : String
  pub public_id : String
  pub address_fingerprint : String
  pub region : String
  pub postal_prefix : String
  pub first_seen_at : ℕ
  pub last_seen_at : ℕ

-- The columns of the constraint `uq_entity_edges_logical_edge`.
pub record LogicalEdge : Type 0 where
  pub source_type : String
  pub source_public_id : String
  pub relation_type : String
  pub target_type : String
  pub target_public_id : String

pub record EntityEdge : Type 0 where
  pub logical : LogicalEdge
  pub first_seen_at : ℕ
  pub last_seen_at : ℕ
  pub observation_count : ℕ
  pub updated_at : ℕ

pub record Transaction : Type 0 where
  pub id : String
  pub public_id : String
  pub customer_id : String
  pub merchant_id : String
  pub payment_instrument_id : String
  pub device_id : String
  pub ip_address_id : String
  pub address_id : String
  pub amount_paise : ℕ
  pub currency : String
  pub payment_method : String
  pub status : TransactionStatus
  pub failure_code : Option String
  pub event_time : ℕ
  pub received_at : ℕ
  pub processed_at : Option ℕ
  pub created_at : ℕ
  pub scenario_run_id : Option String
  pub ground_truth_label : Option GroundTruthLabel
  pub ground_truth_scenario : Option ScenarioType
  pub ground_truth_ring_id : Option String

pub record AuditEvent : Type 0 where
  pub public_id : String
  pub aggregate_type : String
  pub aggregate_id : String
  pub event_type : String
  pub actor_type : String
  pub actor_id : Option String
  pub payload : List (String × String)

pub record ScenarioRun : Type 0 where
  pub id : String
  pub public_id : String

pub record Database (F : Type 0) : Type 0 where
  pub raw_events : List (RawEvent F)
  pub customers : List Customer
  pub merchants : List (Merchant F)
  pub instruments : List PaymentInstrument
  pub devices : List Device
  pub ip_addresses : List IpAddress
  pub addresses : List Address
  pub edges : List EntityEdge
  pub transactions : List Transaction
  pub audit_events : List AuditEvent
  pub scenario_runs : List ScenarioRun

pub record NormalizedTransaction : Type 0 where
  pub transaction_public_id : String
  pub customer_public_id : String
  pub merchant_public_id : String
  pub payment_instrument_public_id : String
  pub device_public_id : String
  pub ip_address_public_id : String
  pub address_public_id : String
  pub amount_paise : ℕ
  pub currency : String
  pub payment_method : String
  pub event_time : ℕ
  pub status : TransactionStatus
  pub failure_code : Option String
  pub received_at : ℕ
  pub processed_at : Option ℕ
  pub created_at : ℕ
