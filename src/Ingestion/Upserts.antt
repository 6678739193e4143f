-- ===== src/Ingestion/Upserts.antt =====
-- apps/api/app/services/transactions.py: `INSERT ... ON CONFLICT DO UPDATE` of the six entities of
-- an event and of its edges.
use aegis_ai_risk_manager.Common.{
  ℕ, min, max, Bool, String, List, [], ◌∷◌, ◌==◌, string_eq, if◌then◌else◌,
}
use aegis_ai_risk_manager.Ingestion.Domain.{
  RawPaymentEvent, Customer, Merchant, PaymentInstrument, Device, IpAddress, Address, Database,
}

-- The row in conflict is updated, or the new row appended; that row is returned.
unfoldable pub upsert : {R : Type 0} → (R → Bool) → R → (R → R) → List R → List R × R
upsert same fresh update [] = (fresh ∷ [], fresh)
upsert same fresh update (r ∷ rs) =
    let rest = upsert same fresh update rs in
    if same r then (update r ∷ rs, update r) else (r ∷ rest.0, rest.1)

-- What the service takes from outside: identifiers, one for each prefix or table, and times.
pub record Environment : Type 0 where
  pub generate_public_id : String → String
  pub new_id : String → String
  pub received_at : ℕ
  pub updated_at : ℕ
  pub processed_at : ℕ
  pub created_at : ℕ

pub record Entities (F : Type 0) : Type 0 where
  pub customer : Customer
  pub merchant : Merchant F
  pub instrument : PaymentInstrument
  pub device : Device
  pub ip_address : IpAddress
  pub address : Address

module _ {F : Type 0} (env : Environment) (event : RawPaymentEvent F) where
  abbrev pub now : ℕ
  now = event.event_time

  unfoldable pub customer_row : Bool → Database F → Database F × Customer
  unfolding upsert
  customer_row is_synthetic d =
      let out =
        upsert (λ (r : Customer). r.source_ref == event.customer_ref)
          record {
            id = env.new_id "customers";
            public_id = env.generate_public_id "cus";
            source_ref = event.customer_ref;
            account_created_at = event.account_created_at;
            customer_segment = event.customer_segment;
            home_region = event.home_region;
            is_synthetic = is_synthetic;
            updated_at = env.created_at;
          }
          (λ r. record r {
            customer_segment = event.customer_segment;
            home_region = event.home_region;
            updated_at = env.updated_at;
          })
          d.customers in
      (record d { customers = out.0 }, out.1)

  unfoldable pub merchant_row : Database F → Database F × Merchant F
  unfolding upsert
  merchant_row d =
      let out =
        upsert (λ (r : Merchant F). r.source_ref == event.merchant_ref)
          record {
            id = env.new_id "merchants";
            public_id = env.generate_public_id "mer";
            source_ref = event.merchant_ref;
            category = event.merchant_category;
            risk_baseline = event.merchant_risk_baseline;
            region = event.merchant_region;
          }
          (λ r. record r {
            category = event.merchant_category;
            risk_baseline = event.merchant_risk_baseline;
            region = event.merchant_region;
          })
          d.merchants in
      (record d { merchants = out.0 }, out.1)

  unfoldable pub instrument_row : Database F → Database F × PaymentInstrument
  unfolding upsert
  instrument_row d =
      let out =
        upsert (λ (r : PaymentInstrument). r.fingerprint == event.instrument_fingerprint)
          record {
            id = env.new_id "payment_instruments";
            public_id = env.generate_public_id "card";
            instrument_type = event.instrument_type;
            fingerprint = event.instrument_fingerprint;
            issuer_region = event.issuer_region;
            first_seen_at = now;
            last_seen_at = now;
          }
          (λ r. record r {
            first_seen_at = min r.first_seen_at now;
            last_seen_at = max r.last_seen_at now;
          })
          d.instruments in
      (record d { instruments = out.0 }, out.1)

  unfoldable pub device_row : Database F → Database F × Device
  unfolding upsert
  device_row d =
      let out =
        upsert (λ (r : Device). r.device_fingerprint == event.device_fingerprint)
          record {
            id = env.new_id "devices";
            public_id = env.generate_public_id "dev";
            device_fingerprint = event.device_fingerprint;
            device_type = event.device_type;
            os_family = event.os_family;
            browser_family = event.browser_family;
            first_seen_at = now;
            last_seen_at = now;
          }
          (λ r. record r {
            first_seen_at = min r.first_seen_at now;
            last_seen_at = max r.last_seen_at now;
          })
          d.devices in
      (record d { devices = out.0 }, out.1)

  unfoldable pub ip_row : Database F → Database F × IpAddress
  unfolding upsert
  ip_row d =
      let out =
        upsert (λ (r : IpAddress). r.ip_hash == event.ip_hash)
          record {
            id = env.new_id "ip_addresses";
            public_id = env.generate_public_id "ip";
            ip_hash = event.ip_hash;
            network_type = event.network_type;
            region = event.ip_region;
            first_seen_at = now;
            last_seen_at = now;
          }
          (λ r. record r {
            first_seen_at = min r.first_seen_at now;
            last_seen_at = max r.last_seen_at now;
          })
          d.ip_addresses in
      (record d { ip_addresses = out.0 }, out.1)

  unfoldable pub address_row : Database F → Database F × Address
  unfolding upsert
  address_row d =
      let out =
        upsert (λ (r : Address). r.address_fingerprint == event.address_fingerprint)
          record {
            id = env.new_id "addresses";
            public_id = env.generate_public_id "addr";
            address_fingerprint = event.address_fingerprint;
            region = event.address_region;
            postal_prefix = event.postal_prefix;
            first_seen_at = now;
            last_seen_at = now;
          }
          (λ r. record r {
            first_seen_at = min r.first_seen_at now;
            last_seen_at = max r.last_seen_at now;
          })
          d.addresses in
      (record d { addresses = out.0 }, out.1)
