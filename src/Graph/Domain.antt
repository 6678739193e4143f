-- ===== src/Graph/Domain.antt =====
-- packages/graph_engine/domain.py: entities, transactions, signals and assessments. A `datetime` is
-- the number of microseconds since an epoch.
pub mod Order
use aegis_ai_risk_manager.Common.{
  ℕ, ◌<>◌, ◌≡◌, ◌↔◌, Bool, true, ◌&&◌, String, List, [], ◌∷◌, Option, arith, Eq, string_eq, ◌==◌,
  ltb, if◌then◌else◌,
}
use aegis_ai_risk_manager.Common.TextOrder.{str_lt}
use aegis_ai_risk_manager.Common.Value.{Mapping}
use aegis_ai_risk_manager.Enums.{
  GraphEntityType, customer, payment_instrument, device, ip, address, entity_type_value,
  entity_type_rank, entity_type_eq,
}

pub record GraphEntityRef : Type 0 where
  pub entity_type : GraphEntityType
  pub public_id : String

abbrev pub ref : GraphEntityType → String → GraphEntityRef
ref t i = record { entity_type = t; public_id = i }

abbrev pub canonical : GraphEntityRef → String
canonical r = entity_type_value r.entity_type <> (":" <> r.public_id)

abbrev pub ref_beq : GraphEntityRef → GraphEntityRef → Bool
ref_beq a b = (a.entity_type == b.entity_type) && (a.public_id == b.public_id)

pub ref_beq_iff : (a b : GraphEntityRef) → (ref_beq a b ≡ true) ↔ (a ≡ b)
ref_beq_iff a b = ground (
  arith,
  entity_type_eq.beq_iff a.entity_type b.entity_type,
  string_eq.beq_iff a.public_id b.public_id,
)

instance abbrev pub ref_eq : Eq GraphEntityRef
ref_eq = record { beq = ref_beq; beq_iff = ref_beq_iff }

-- `@dataclass(order=True)`: the pair of the type's text and the identifier.
unfoldable pub ref_lt : GraphEntityRef → GraphEntityRef → Bool
ref_lt a b =
    if ltb (entity_type_rank a.entity_type) (entity_type_rank b.entity_type)
    then true
    else (a.entity_type == b.entity_type) && str_lt a.public_id b.public_id

pub record GraphTransaction : Type 0 where
  pub transaction_public_id : String
  pub customer_id : String
  pub instrument_id : String
  pub device_id : String
  pub ip_id : String
  pub address_id : String
  pub amount_paise : ℕ
  pub event_time : ℕ

-- The five components of `entities()`.
abbrev pub customer_of : GraphTransaction → GraphEntityRef
customer_of t = ref customer t.customer_id

abbrev pub instrument_of : GraphTransaction → GraphEntityRef
instrument_of t = ref payment_instrument t.instrument_id

abbrev pub device_of : GraphTransaction → GraphEntityRef
device_of t = ref device t.device_id

abbrev pub ip_of : GraphTransaction → GraphEntityRef
ip_of t = ref ip t.ip_id

abbrev pub address_of : GraphTransaction → GraphEntityRef
address_of t = ref address t.address_id

abbrev pub entities : GraphTransaction → List GraphEntityRef
entities t = customer_of t ∷ instrument_of t ∷ device_of t ∷ ip_of t ∷ address_of t ∷ []

abbrev pub relationships : GraphTransaction → List (GraphEntityRef × GraphEntityRef)
relationships t =
    (customer_of t, device_of t)
    ∷ (customer_of t, instrument_of t)
    ∷ (customer_of t, ip_of t)
    ∷ (customer_of t, address_of t)
    ∷ (instrument_of t, device_of t)
    ∷ []

pub record GraphSignal (F : Type 0) : Type 0 where
  pub code : String
  pub strength : F
  pub observed_value : F
  pub threshold : F
  pub evidence : Mapping F

pub record GraphAssessment (F : Type 0) : Type 0 where
  pub graph_version : String
  pub transaction_public_id : String
  pub metrics : Mapping F
  pub signals : List (GraphSignal F)
  pub structural_score : F
  pub touched_component_fingerprints : List String
  pub candidate_cluster : Bool
  pub computed_at : ℕ
  pub max_source_event_time : Option ℕ
