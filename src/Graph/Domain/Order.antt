-- ===== src/Graph/Domain/Order.antt =====
-- The order of entities is a strict total one.
use aegis_ai_risk_manager.Common.{◌≡◌, true, false, arith}
use aegis_ai_risk_manager.Common.Sets.{Ord}
use aegis_ai_risk_manager.Common.TextOrder.{str_lt_irrefl, str_lt_trans, str_lt_total}
use aegis_ai_risk_manager.Enums.{entity_type_eq}
use aegis_ai_risk_manager.Graph.Domain.{GraphEntityRef, ref_lt}

pub ref_lt_irrefl : (a : GraphEntityRef) → ref_lt a a ≡ false
unfolding ref_lt
ref_lt_irrefl a = ground (arith, str_lt_irrefl a.public_id)

pub ref_lt_trans :
    (a b c : GraphEntityRef) → ref_lt a b ≡ true → ref_lt b c ≡ true → ref_lt a c ≡ true
unfolding ref_lt
ref_lt_trans a b c h k = ground (
  arith,
  str_lt_trans a.public_id b.public_id c.public_id,
  entity_type_eq.beq_iff a.entity_type b.entity_type,
  entity_type_eq.beq_iff b.entity_type c.entity_type,
)

pub ref_lt_total : (a b : GraphEntityRef) → ref_lt a b ≡ false → ref_lt b a ≡ false → a ≡ b
unfolding ref_lt
ref_lt_total a b h k = ground (
  arith,
  str_lt_total a.public_id b.public_id,
  entity_type_eq.beq_iff a.entity_type b.entity_type,
  entity_type_eq.beq_iff b.entity_type a.entity_type,
)

instance abbrev pub ref_ord : Ord GraphEntityRef
ref_ord = record {
  lt = ref_lt;
  lt_irrefl = ref_lt_irrefl;
  lt_trans = ref_lt_trans;
  lt_total = ref_lt_total;
}
