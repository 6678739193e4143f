-- ===== src/Ingestion/Ingest.antt =====
-- apps/api/app/services/transactions.py: `preserve_raw_event`, `_resolve_entities`,
-- `ingest_transaction` with its rollback, `_mark_raw_failed`, and the query that reads back.
use aegis_ai_risk_manager.Common.{
  Bool, true, false, if◌then◌else◌, String, List, [], ◌∷◌, ◌++◌, Option, none, some, string_eq,
}
use mathlib.Core.Option
use aegis_ai_risk_manager.Enums.{received, processing, processed, processing_failed}
use aegis_ai_risk_manager.Ingestion.Domain.{
  RawPaymentEvent, RawEvent, TrustedSyntheticContext, LogicalEdge, Transaction, AuditEvent,
  ScenarioRun, Database, NormalizedTransaction,
}
use aegis_ai_risk_manager.Ingestion.Session.{
  Session, Attempt, Tried, done, thrown, ◌>>=◌, ◌>>◌, give, or_throw, Fault, detail_of, Step,
  preserve_commit, preserve_rollback, failure_rollback, is_integrity_error, lock_raw, find_run,
  upsert_customer, upsert_merchant, upsert_instrument, upsert_device, upsert_ip, upsert_address,
  upsert_edge, final_commit, refresh, read_back, mark_get, mark_commit, execute, touch, commit_step,
}
use aegis_ai_risk_manager.Ingestion.Upserts.{
  Environment, Entities, customer_row, merchant_row, instrument_row, device_row, ip_row,
  address_row,
}
use aegis_ai_risk_manager.Ingestion.Edges.{edge_row, edges_of}
use aegis_ai_risk_manager.Ingestion.Rows.{
  find_row, update_row, read_row, event_ids_hold, clip, disappeared, unknown_run, not_found,
}

abbrev pub is_some : {A : Type 0} → Option A → Bool
is_some none = false
is_some (some a) = true

abbrev ring_of : Option TrustedSyntheticContext → Option String
ring_of none = none
ring_of (some c) = c.ring_id

-- How `ingest_transaction` ends: it returns, or it raises DuplicateEventError, NormalizationError
-- with an identifier and a detail, or another exception.
pub data Outcome (A : Type 0) : Type 0 where
  returned : A → Outcome A
  duplicate_event : String → Outcome A
  normalization_error : String → String → Outcome A
  escaped : Fault → Outcome A

module _ {F S : Type 0} (session : Session (Database F) S event_ids_hold)
    (outage : Step → Option Fault) (integrity_error : Fault) (env : Environment)
    (event : RawPaymentEvent F) (context : Option TrustedSyntheticContext) where
  abbrev pub raw_row : RawEvent F
  raw_row = record {
    id = env.new_id "raw_events";
    event_id = event.event_id;
    event_type = event.event_type;
    event_version = event.event_version;
    payload = event;
    event_time = event.event_time;
    received_at = env.received_at;
    processing_status = received;
    processing_error = none;
  }

  abbrev pub add_raw : Database F → Database F
  add_raw d = record d { raw_events = d.raw_events ++ (raw_row ∷ []) }

  -- The handler of a commit that raised IntegrityError: its rollback may raise.
  abbrev pub refused : Option Fault → S → Outcome (RawEvent F) × S
  refused (some fault) s = (escaped fault, s)
  refused none s = (duplicate_event event.event_id, session.rollback s)

  abbrev pub preserving : Option Fault → Option Fault → Option S → S → Outcome (RawEvent F) × S
  preserving (some fault) undo c s =
      if is_integrity_error fault then refused undo s else (escaped fault, s)
  preserving none undo none s = refused undo s
  preserving none undo (some t) s = (returned raw_row, t)

  unfoldable pub preserve_raw_event : S → Outcome (RawEvent F) × S
  preserve_raw_event s =
      let added = session.write add_raw s in
      preserving (outage preserve_commit) (outage preserve_rollback) (session.commit added) added

  abbrev statement : {A : Type 0} → Step → (Database F → Database F × A) → Attempt S A
  statement = execute session outage integrity_error

  unfoldable pub resolve_entities : Attempt S (Entities F)
  resolve_entities = do
    customer ← statement upsert_customer (customer_row env event (is_some context))
    merchant ← statement upsert_merchant (merchant_row env event)
    instrument ← statement upsert_instrument (instrument_row env event)
    device ← statement upsert_device (device_row env event)
    ip_address ← statement upsert_ip (ip_row env event)
    address ← statement upsert_address (address_row env event)
    give (record {
      customer = customer;
      merchant = merchant;
      instrument = instrument;
      device = device;
      ip_address = ip_address;
      address = address;
    })

  -- `await session.get(RawEvent, raw_id, with_for_update=True)`
  unfoldable pub get_raw : Step → Attempt S (RawEvent F)
  get_raw step = do
    raw ←
        statement step
          (λ d. (d, find_row (λ (r : RawEvent F). r.id) (env.new_id "raw_events") d.raw_events))
    or_throw disappeared raw

  -- `raw.processing_status = ...` and `raw.processing_error = ...`
  abbrev pub set_raw : (RawEvent F → RawEvent F) → Database F → Database F
  set_raw f d = record d {
    raw_events = update_row (λ (r : RawEvent F). r.id) (env.new_id "raw_events") f d.raw_events;
  }

  unfoldable pub find_scenario_run : Option TrustedSyntheticContext → Attempt S (Option ScenarioRun)
  find_scenario_run none = give none
  find_scenario_run (some c) = do
    run ← statement find_run (λ d.
        (d, find_row (λ (r : ScenarioRun). r.public_id) c.scenario_run_public_id d.scenario_runs))
    scenario_run ← or_throw (unknown_run c.scenario_run_public_id) run
    give (some scenario_run)

  abbrev pub transaction_row : Option ScenarioRun → Entities F → Transaction
  transaction_row scenario_run e = record {
    id = env.new_id "transactions";
    public_id = env.generate_public_id "txn";
    customer_id = e.customer.id;
    merchant_id = e.merchant.id;
    payment_instrument_id = e.instrument.id;
    device_id = e.device.id;
    ip_address_id = e.ip_address.id;
    address_id = e.address.id;
    amount_paise = event.amount_paise;
    currency = event.currency;
    payment_method = event.payment_method;
    status = event.status;
    failure_code = event.failure_code;
    event_time = event.event_time;
    received_at = env.received_at;
    processed_at = some env.processed_at;
    created_at = env.created_at;
    scenario_run_id = Option.map (λ (r : ScenarioRun). r.id) scenario_run;
    ground_truth_label = Option.map (λ (c : TrustedSyntheticContext). c.label) context;
    ground_truth_scenario = Option.map (λ (c : TrustedSyntheticContext). c.scenario_type) context;
    ground_truth_ring_id = ring_of context;
  }

  abbrev pub add_transaction : Transaction → Database F → Database F
  add_transaction t d = record d { transactions = d.transactions ++ (t ∷ []) }

  unfoldable pub upsert_edges : List LogicalEdge → Attempt S (Unit {0})
  upsert_edges [] = give tt
  upsert_edges (edge ∷ edges) =
      statement (upsert_edge edge) (edge_row env event.event_time edge) >> upsert_edges edges

  abbrev pub audit_row : AuditEvent
  audit_row = record {
    public_id = env.generate_public_id "aud";
    aggregate_type = "TRANSACTION";
    aggregate_id = env.generate_public_id "txn";
    event_type = "TRANSACTION_INGESTED";
    actor_type = "SYSTEM";
    actor_id = none;
    payload = ("event_id", event.event_id) ∷ ("raw_event_id", env.new_id "raw_events") ∷ [];
  }

  abbrev pub add_audit : Database F → Database F
  add_audit d = record d { audit_events = d.audit_events ++ (audit_row ∷ []) }

  -- The statements of `ingest_transaction` up to its commit, on the preserved event.
  unfoldable pub store : Attempt S Transaction
  store = do
    raw ← get_raw lock_raw
    touch session outage integrity_error
        (set_raw (λ r. record r { processing_status = processing }))
    scenario_run ← find_scenario_run context
    entities ← resolve_entities
    touch session outage integrity_error (add_transaction (transaction_row scenario_run entities))
    upsert_edges (edges_of entities)
    touch session outage integrity_error add_audit
    touch session outage integrity_error
        (set_raw (λ r. record r { processing_status = processed; processing_error = none }))
    give (transaction_row scenario_run entities)

  unfoldable pub transaction_to_schema : Transaction → Attempt S NormalizedTransaction
  transaction_to_schema t = do
    row ← statement read_back (λ d. (d, read_row t.id d))
    or_throw not_found row

  -- The body of the `try` of `ingest_transaction`.
  unfoldable pub normalize : Attempt S NormalizedTransaction
  normalize = do
    t ← store
    commit_step session outage integrity_error final_commit
    statement refresh (λ d. (d, tt))
    transaction_to_schema t

  unfoldable pub mark_raw_failed : String → Attempt S (Unit {0})
  mark_raw_failed detail = do
    raw ← get_raw mark_get
    touch session outage integrity_error (
        set_raw (λ r. record r {
          processing_status = processing_failed;
          processing_error = some (clip 4000 detail);
        }))
    commit_step session outage integrity_error mark_commit

  abbrev pub marked : String → Tried (Unit {0}) × S → Outcome NormalizedTransaction × S
  marked detail (done u, s) = (normalization_error event.event_id detail, s)
  marked detail (thrown fault, s) = (escaped fault, s)

  -- The handler of `ingest_transaction`: its rollback may raise.
  abbrev pub rolling_back : Option Fault → String → S → Outcome NormalizedTransaction × S
  rolling_back (some other) detail s = (escaped other, s)
  rolling_back none detail s = marked detail (mark_raw_failed detail (session.rollback s))

  abbrev pub recover : Tried NormalizedTransaction × S → Outcome NormalizedTransaction × S
  recover (done n, s) = (returned n, s)
  recover (thrown fault, s) = rolling_back (outage failure_rollback) (detail_of fault) s

  abbrev pub continue_with : Outcome (RawEvent F) × S → Outcome NormalizedTransaction × S
  continue_with (returned raw, s) = recover (normalize s)
  continue_with (duplicate_event id, s) = (duplicate_event id, s)
  continue_with (normalization_error id detail, s) = (normalization_error id detail, s)
  continue_with (escaped fault, s) = (escaped fault, s)

  unfoldable pub ingest_transaction : S → Outcome NormalizedTransaction × S
  ingest_transaction s = continue_with (preserve_raw_event s)
