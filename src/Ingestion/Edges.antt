-- ===== src/Ingestion/Edges.antt =====
-- apps/api/app/services/transactions.py: `_upsert_edge` and the five edges of a payment.
use aegis_ai_risk_manager.Common.{
  ℕ, ◌+◌, min, max, ◌≡◌, ◌↔◌, Bool, true, ◌&&◌, String, List, [], ◌∷◌, Eq, ◌==◌, string_eq, arith,
}
use aegis_ai_risk_manager.Ingestion.Domain.{LogicalEdge, EntityEdge, Database}
use aegis_ai_risk_manager.Ingestion.Upserts.{upsert, Environment, Entities}

abbrev pub logical_beq : LogicalEdge → LogicalEdge → Bool
logical_beq a b =
    (a.source_type == b.source_type)
    && ((a.source_public_id == b.source_public_id)
        && ((a.relation_type == b.relation_type)
            && ((a.target_type == b.target_type) && (a.target_public_id == b.target_public_id))))

pub logical_beq_iff : (a b : LogicalEdge) → (logical_beq a b ≡ true) ↔ (a ≡ b)
logical_beq_iff a b = ground (
  arith,
  string_eq.beq_iff a.source_type b.source_type,
  string_eq.beq_iff a.source_public_id b.source_public_id,
  string_eq.beq_iff a.relation_type b.relation_type,
  string_eq.beq_iff a.target_type b.target_type,
  string_eq.beq_iff a.target_public_id b.target_public_id,
)

instance abbrev pub logical_eq : Eq LogicalEdge
logical_eq = record { beq = logical_beq; beq_iff = logical_beq_iff }

abbrev pub new_edge_row : ℕ → ℕ → LogicalEdge → EntityEdge
new_edge_row created_at observed_at edge = record {
  logical = edge;
  first_seen_at = observed_at;
  last_seen_at = observed_at;
  observation_count = 1;
  updated_at = created_at;
}

abbrev pub observe_again : ℕ → ℕ → EntityEdge → EntityEdge
observe_again updated_at observed_at r = record r {
  first_seen_at = min r.first_seen_at observed_at;
  last_seen_at = max r.last_seen_at observed_at;
  observation_count = r.observation_count + 1;
  updated_at = updated_at;
}

unfoldable pub edge_row :
    {F : Type 0} → Environment → ℕ → LogicalEdge → Database F → Database F × Unit {0}
unfolding upsert
edge_row env observed_at edge d =
    let out =
      upsert (λ (r : EntityEdge). r.logical == edge) (new_edge_row env.created_at observed_at edge)
        (observe_again env.updated_at observed_at) d.edges in
    (record d { edges = out.0 }, tt)

abbrev pub edge_of : String → String → String → String → String → LogicalEdge
edge_of source_type source relation target_type target = record {
  source_type = source_type;
  source_public_id = source;
  relation_type = relation;
  target_type = target_type;
  target_public_id = target;
}

abbrev pub edges_of : {F : Type 0} → Entities F → List LogicalEdge
edges_of e =
    edge_of "CUSTOMER" e.customer.public_id "USES" "DEVICE" e.device.public_id
    ∷ edge_of "CUSTOMER" e.customer.public_id "USES" "PAYMENT_INSTRUMENT" e.instrument.public_id
    ∷ edge_of "CUSTOMER" e.customer.public_id "USES" "IP_ADDRESS" e.ip_address.public_id
    ∷ edge_of "CUSTOMER" e.customer.public_id "USES" "ADDRESS" e.address.public_id
    ∷ edge_of "PAYMENT_INSTRUMENT" e.instrument.public_id "SEEN_ON" "DEVICE" e.device.public_id
    ∷ []
