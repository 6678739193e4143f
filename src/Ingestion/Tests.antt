-- ===== src/Ingestion/Tests.antt =====
-- An event that is ingested into an empty database, on a session in memory.
use aegis_ai_risk_manager.Common.{
  ◌≡◌, refl, Bool, true, false, [], Option, none, some, length, ℕ, if◌then◌else◌, string_eq,
}
use aegis_ai_risk_manager.Common.Sets.{contains}
use aegis_ai_risk_manager.Enums.{captured, residential}
use aegis_ai_risk_manager.Ingestion.Domain.{
  RawPaymentEvent, RawEvent, Transaction, Database, NormalizedTransaction,
}
use aegis_ai_risk_manager.Ingestion.Session.{
  Session, Fault, Step, ◌>>=◌, execute, or_throw, touch, commit_step, give, throw,
}
use aegis_ai_risk_manager.Ingestion.Upserts.{
  Environment, upsert, customer_row, merchant_row, instrument_row, device_row, ip_row, address_row,
}
use aegis_ai_risk_manager.Ingestion.Edges.{edge_row}
use aegis_ai_risk_manager.Ingestion.Rows.{
  event_ids, event_ids_hold, find_row, update_row, all_distinct, clip, join_row, read_row,
}
use aegis_ai_risk_manager.Ingestion.Ingest.{
  returned, escaped, duplicate_event, normalization_error, ingest_transaction, preserve_raw_event,
  normalize, store, get_raw, find_scenario_run, resolve_entities, upsert_edges, mark_raw_failed,
  transaction_to_schema,
}
use aegis_ai_risk_manager.Ingestion.Normalized.{Stored}
use aegis_ai_risk_manager.Ingestion.Ends.{Ends}
use aegis_ai_risk_manager.Ingestion.Liveness.{Shows, ingest_transaction-Returns}

module _ {D : Type 0} (keys_hold : D → Bool) where
  -- The durable tables, and what the open transaction sees.
  abbrev commit_memory : D × D → Option (D × D)
  commit_memory s = if keys_hold s.1 then some (s.1, s.1) else none

  commit_memory_accepts :
      (s : D × D)
      → keys_hold s.1 ≡ true
      → (t : D × D) × (commit_memory s ≡ some t) × (t.0 ≡ s.1) × (t.1 ≡ s.1)
  commit_memory_accepts s h = ((s.1, s.1), rw h refl, refl, refl)

  commit_memory_rejects : (s : D × D) → keys_hold s.1 ≡ false → commit_memory s ≡ none
  commit_memory_rejects s h = rw h refl

  abbrev in_memory : Session D (D × D) keys_hold
  in_memory = record {
    durable = λ s. s.0;
    visible = λ s. s.1;
    write = λ f s. (s.0, f s.1);
    commit = commit_memory;
    rollback = λ s. (s.0, s.0);
    durable-write = λ f s. refl;
    visible-write = λ f s. refl;
    durable-rollback = λ s. refl;
    visible-rollback = λ s. refl;
    commit_accepts = commit_memory_accepts;
    commit_rejects = commit_memory_rejects;
  }

abbrev empty : Database ℕ
empty = record {
  raw_events = [];
  customers = [];
  merchants = [];
  instruments = [];
  devices = [];
  ip_addresses = [];
  addresses = [];
  edges = [];
  transactions = [];
  audit_events = [];
  scenario_runs = [];
}

abbrev payment : RawPaymentEvent ℕ
payment = record {
  event_id = "evt_1";
  event_type = "payment.transaction";
  event_version = "1.0";
  event_time = 500;
  received_at = none;
  customer_ref = "alice";
  account_created_at = 100;
  customer_segment = "retail";
  home_region = "KA";
  instrument_fingerprint = "card_a";
  instrument_type = "CARD";
  issuer_region = "KA";
  device_fingerprint = "phone";
  device_type = "MOBILE";
  os_family = "android";
  browser_family = "chrome";
  ip_hash = "net";
  network_type = residential;
  ip_region = "KA";
  address_fingerprint = "home";
  address_region = "KA";
  postal_prefix = "560";
  merchant_ref = "shop";
  merchant_category = "grocery";
  merchant_region = "KA";
  merchant_risk_baseline = 1;
  amount_paise = 50000;
  currency = "INR";
  payment_method = "CARD";
  status = captured;
  failure_code = none;
}

abbrev env : Environment
env = record {
  generate_public_id = λ prefix. prefix;
  new_id = λ table. table;
  received_at = 510;
  updated_at = 520;
  processed_at = 530;
  created_at = 540;
}

abbrev integrity_error : Fault
integrity_error = record { type_name = "IntegrityError"; message = "duplicate key" }

abbrev no_outage : Step → Option Fault
no_outage step = none

abbrev session : Session (Database ℕ) (Database ℕ × Database ℕ) event_ids_hold
session = in_memory event_ids_hold

keys : event_ids_hold empty ≡ true
unfolding event_ids_hold
keys = refl

no_row : find_row (λ (r : RawEvent ℕ). r.id) "raw_events" [] ≡ none
unfolding find_row
no_row = refl

no_transaction : find_row (λ (r : Transaction). r.id) "transactions" [] ≡ none
unfolding find_row
no_transaction = refl

unseen : contains (event_ids empty.raw_events) "evt_1" ≡ false
unfolding contains
unseen = refl

ingest_transaction-Returns_example :
    (n : NormalizedTransaction) × (w : Database ℕ × Database ℕ) × (ingest_transaction session
        no_outage integrity_error env payment none
        (empty, empty)
      ≡ (returned n, w))
    × Shows payment n
    × Stored session no_outage integrity_error env payment none empty w.0
ingest_transaction-Returns_example =
    ingest_transaction-Returns session no_outage integrity_error env payment none (empty, empty)
      (λ step. refl) refl keys no_row unseen tt no_transaction

-- Reading back fails after the commit: the event is reported as failed, and its transaction is kept.
abbrev lost : Fault
lost = record { type_name = "OperationalError"; message = "connection lost" }

abbrev refresh_fails : Step → Option Fault
refresh_fails step = elim step [ Step.refresh ↦ some lost | _ ↦ none ]

late_failure :
    (ingest_transaction session refresh_fails integrity_error env payment none (empty, empty)).0
    ≡ normalization_error "evt_1" "OperationalError: connection lost"
unfolding ingest_transaction preserve_raw_event event_ids_hold normalize ◌>>=◌ store get_raw execute
    or_throw find_row touch find_scenario_run resolve_entities upsert_edges commit_step update_row
    edge_row address_row contains mark_raw_failed transaction_to_schema all_distinct clip join_row
    read_row give throw customer_row device_row instrument_row ip_row merchant_row upsert
late_failure = refl

late_failure_keeps :
    length
      (ingest_transaction session refresh_fails integrity_error env payment none
        (empty, empty)).1.0.transactions
    ≡ 1
unfolding ingest_transaction preserve_raw_event event_ids_hold normalize ◌>>=◌ store get_raw execute
    or_throw find_row touch find_scenario_run resolve_entities upsert_edges commit_step update_row
    edge_row address_row contains mark_raw_failed transaction_to_schema all_distinct clip join_row
    read_row give throw customer_row device_row instrument_row ip_row merchant_row upsert
late_failure_keeps = refl

-- The rollback fails too: its exception escapes, and the event stays received.
abbrev store_and_rollback_fail : Step → Option Fault
store_and_rollback_fail step = elim step [
  | Step.upsert_customer ↦ some lost
  | Step.failure_rollback ↦ some lost
  | _ ↦ none
]

rollback_failure :
    (ingest_transaction session store_and_rollback_fail integrity_error env payment none
      (empty, empty)).0
    ≡ escaped lost
unfolding ingest_transaction preserve_raw_event event_ids_hold normalize ◌>>=◌ store get_raw execute
    or_throw find_row touch find_scenario_run resolve_entities update_row give throw all_distinct
    contains
rollback_failure = refl

-- An IntegrityError of the first commit, whatever its cause, refuses the event as a duplicate.
abbrev conflicts : Step → Option Fault
conflicts step = elim step [ Step.preserve_commit ↦ some integrity_error | _ ↦ none ]

conflict_refused :
    (ingest_transaction session conflicts integrity_error env payment none (empty, empty)).0
    ≡ duplicate_event "evt_1"
unfolding ingest_transaction preserve_raw_event
conflict_refused = refl
