-- ===== src/Enums.antt =====
-- apps/api/app/core/enums.py: the string enumerations, with the text that each member carries.
use aegis_ai_risk_manager.Common.{ℕ, ◌≡◌, ◌↔◌, true, String, arith, Eq, nat_beq}

pub data TransactionStatus : Type 0 where
  created authorized captured failed refunded : TransactionStatus

pub data RiskSeverity : Type 0 where
  low medium high critical : RiskSeverity

pub data PolicyAction : Type 0 where
  allow verify hold escalate recommend_block : PolicyAction

pub data GraphEntityType : Type 0 where
  customer payment_instrument device ip address : GraphEntityType

pub data GroundTruthLabel : Type 0 where
  legitimate coordinated_abuse : GroundTruthLabel

pub data ScenarioType : Type 0 where
  normal_traffic card_testing account_farm identity_rotation collusive_ring : ScenarioType

pub data NetworkType : Type 0 where
  residential corporate hostel public_wifi datacenter mobile : NetworkType

-- The states of a raw event. `FAILED` is the status whose name the transactions have taken.
pub data ProcessingStatus : Type 0 where
  received processing processed processing_failed : ProcessingStatus

abbrev pub severity_value : RiskSeverity → String
severity_value low = "LOW"
severity_value medium = "MEDIUM"
severity_value high = "HIGH"
severity_value critical = "CRITICAL"

abbrev pub action_value : PolicyAction → String
action_value allow = "ALLOW"
action_value verify = "VERIFY"
action_value hold = "HOLD"
action_value escalate = "ESCALATE"
action_value recommend_block = "RECOMMEND_BLOCK"

abbrev pub entity_type_value : GraphEntityType → String
entity_type_value customer = "CUSTOMER"
entity_type_value payment_instrument = "PAYMENT_INSTRUMENT"
entity_type_value device = "DEVICE"
entity_type_value ip = "IP"
entity_type_value address = "ADDRESS"

-- The members in the order of their declaration; for an action, from mild to severe.
abbrev pub status_rank : TransactionStatus → ℕ
status_rank created = 0
status_rank authorized = 1
status_rank captured = 2
status_rank failed = 3
status_rank refunded = 4

abbrev pub action_rank : PolicyAction → ℕ
action_rank allow = 0
action_rank verify = 1
action_rank hold = 2
action_rank escalate = 3
action_rank recommend_block = 4

-- The position of the member's text among the five texts: members compare as texts do.
abbrev pub entity_type_rank : GraphEntityType → ℕ
entity_type_rank address = 0
entity_type_rank customer = 1
entity_type_rank device = 2
entity_type_rank ip = 3
entity_type_rank payment_instrument = 4

pub status_eq_iff :
    (a b : TransactionStatus) → (nat_beq (status_rank a) (status_rank b) ≡ true) ↔ (a ≡ b)
status_eq_iff a b = ground arith

pub action_eq_iff :
    (a b : PolicyAction) → (nat_beq (action_rank a) (action_rank b) ≡ true) ↔ (a ≡ b)
action_eq_iff a b = ground arith

pub entity_type_eq_iff :
    (a b : GraphEntityType) → (nat_beq (entity_type_rank a) (entity_type_rank b) ≡ true) ↔ (a ≡ b)
entity_type_eq_iff a b = ground arith

instance abbrev pub status_eq : Eq TransactionStatus
status_eq = record { beq = λ a b. nat_beq (status_rank a) (status_rank b); beq_iff = status_eq_iff }

instance abbrev pub action_eq : Eq PolicyAction
action_eq = record { beq = λ a b. nat_beq (action_rank a) (action_rank b); beq_iff = action_eq_iff }

instance abbrev pub entity_type_eq : Eq GraphEntityType
entity_type_eq = record {
  beq = λ a b. nat_beq (entity_type_rank a) (entity_type_rank b);
  beq_iff = entity_type_eq_iff;
}
