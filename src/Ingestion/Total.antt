-- ===== src/Ingestion/Total.antt =====
-- When no call fails, the statements before the commit return.
use aegis_ai_risk_manager.Common.{◌≡◌, refl, sym, ◌∙◌, List, [], ◌∷◌, Option, none, some}
use aegis_ai_risk_manager.Ingestion.Domain.{
  RawPaymentEvent, RawEvent, TrustedSyntheticContext, Customer, Merchant, PaymentInstrument, Device,
  IpAddress, Address, LogicalEdge, Transaction, ScenarioRun, Database,
}
use aegis_ai_risk_manager.Ingestion.Session.{
  Session, Attempt, ◌>>=◌, Fault, Step, find_run, upsert_customer, upsert_merchant,
  upsert_instrument, upsert_device, upsert_ip, upsert_address, upsert_edge, execute,
}
use aegis_ai_risk_manager.Ingestion.Upserts.{
  Environment, Entities, customer_row, merchant_row, instrument_row, device_row, ip_row,
  address_row,
}
use aegis_ai_risk_manager.Ingestion.Edges.{edge_row}
use aegis_ai_risk_manager.Ingestion.Rows.{find_row, event_ids_hold, disappeared, unknown_run}
use aegis_ai_risk_manager.Ingestion.Runs.{
  Runs, run_bind, run_give, run_or_throw, run_execute, Found, Found-upsert,
}
use aegis_ai_risk_manager.Ingestion.Ingest.{
  is_some, get_raw, find_scenario_run, resolve_entities, upsert_edges,
}

-- The run that a synthetic event names is known.
abbrev pub KnowsRun : Option TrustedSyntheticContext → List ScenarioRun → Type 0
KnowsRun none runs = Unit
KnowsRun (some c) runs = Found (λ (r : ScenarioRun). r.public_id) c.scenario_run_public_id runs

module _ {F S : Type 0} (session : Session (Database F) S event_ids_hold)
    (outage : Step → Option Fault) (integrity_error : Fault) (env : Environment)
    (event : RawPaymentEvent F) (context : Option TrustedSyntheticContext)
    (up : (step : Step) → outage step ≡ none) where
  then_runs :
      {A B : Type 0} (P : Database F → Type 0) (R : A → Database F → Type 0)
      (Q : B → Database F → Type 0) (step : Step) (run : Database F → Database F × A)
      (next : A → Attempt S B)
      → ((v : Database F) → P v → R (run v).1 (run v).0)
      → ((a : A) → Runs session (R a) (next a) Q)
      → Runs session P (execute session outage integrity_error step run >>= next) Q
  then_runs P R Q step run next h k =
      run_bind session P R Q (execute session outage integrity_error step run) next
        (run_execute session outage integrity_error P R step run (up step) h) k

  -- The rows of the entities are in their tables.
  abbrev pub HasCustomer : Customer → Database F → Type 0
  HasCustomer c v = Found (λ (r : Customer). r.id) c.id v.customers

  abbrev pub HasMerchant : Merchant F → Database F → Type 0
  HasMerchant m v = Found (λ (r : Merchant F). r.id) m.id v.merchants

  abbrev pub HasInstrument : PaymentInstrument → Database F → Type 0
  HasInstrument i v = Found (λ (r : PaymentInstrument). r.id) i.id v.instruments

  abbrev pub HasDevice : Device → Database F → Type 0
  HasDevice e v = Found (λ (r : Device). r.id) e.id v.devices

  abbrev pub HasIp : IpAddress → Database F → Type 0
  HasIp p v = Found (λ (r : IpAddress). r.id) p.id v.ip_addresses

  abbrev pub HasAddress : Address → Database F → Type 0
  HasAddress a v = Found (λ (r : Address). r.id) a.id v.addresses

  abbrev pub HasEntities : Entities F → Database F → Type 0
  HasEntities e v =
      HasCustomer e.customer v
      × HasMerchant e.merchant v
      × HasInstrument e.instrument v
      × HasDevice e.device v
      × HasIp e.ip_address v
      × HasAddress e.address v

  -- The identifier of the next transaction is new.
  abbrev pub IsNew : Database F → Type 0
  IsNew v = find_row (λ (r : Transaction). r.id) (env.new_id "transactions") v.transactions ≡ none

  pub resolve_entities-Runs :
      Runs session IsNew
        (resolve_entities session outage integrity_error env event context)
        (λ e v. IsNew v × HasEntities e v)
  unfolding resolve_entities customer_row merchant_row instrument_row device_row ip_row address_row
  resolve_entities-Runs =
      let Q = λ (e : Entities F) (v : Database F). IsNew v × HasEntities e v in
      then_runs IsNew (λ c v. IsNew v × HasCustomer c v) Q upsert_customer
        (customer_row env event (is_some context)) _
        (λ v h. (h, Found-upsert (λ (r : Customer). r.id) _ _ _ v.customers))
        (λ c.
          let P1 = λ (v : Database F). IsNew v × HasCustomer c v in
          then_runs P1 (λ m v. P1 v × HasMerchant m v) Q upsert_merchant (merchant_row env event) _
            (λ v h. (h, Found-upsert (λ (r : Merchant F). r.id) _ _ _ v.merchants))
            (λ m.
              let P2 = λ (v : Database F). P1 v × HasMerchant m v in
              then_runs P2 (λ i v. P2 v × HasInstrument i v) Q upsert_instrument
                (instrument_row env event) _
                (λ v h. (h, Found-upsert (λ (r : PaymentInstrument). r.id) _ _ _ v.instruments))
                (λ i.
                  let P3 = λ (v : Database F). P2 v × HasInstrument i v in
                  then_runs P3 (λ e v. P3 v × HasDevice e v) Q upsert_device (device_row env event)
                    _ (λ v h. (h, Found-upsert (λ (r : Device). r.id) _ _ _ v.devices))
                    (λ e.
                      let P4 = λ (v : Database F). P3 v × HasDevice e v in
                      then_runs P4 (λ p v. P4 v × HasIp p v) Q upsert_ip (ip_row env event) _
                        (λ v h. (h, Found-upsert (λ (r : IpAddress). r.id) _ _ _ v.ip_addresses))
                        (λ p.
                          let P5 = λ (v : Database F). P4 v × HasIp p v in
                          then_runs P5 (λ a v. P5 v × HasAddress a v) Q upsert_address
                            (address_row env event) _
                            (λ v h. (h, Found-upsert (λ (r : Address). r.id) _ _ _ v.addresses))
                            (λ a.
                              run_give session (λ v. P5 v × HasAddress a v) Q _
                                (λ v ((((((new, hc), hm), hi), he), hp), ha).
                                  (new, (hc, hm, hi, he, hp, ha)))))))))

  pub upsert_edges-Runs :
      (P : Database F → Type 0)
      → ((v : Database F) (edge : LogicalEdge) → P v → P (edge_row env event.event_time edge v).0)
      → (edges : List LogicalEdge)
      → Runs session P
          (upsert_edges session outage integrity_error env event context edges)
          (λ u. P)
  unfolding upsert_edges
  upsert_edges-Runs P keeps [] = run_give session P (λ u. P) tt (λ v h. h)
  upsert_edges-Runs P keeps (edge ∷ edges) =
      then_runs P (λ u. P) (λ u. P) (upsert_edge edge) (edge_row env event.event_time edge) _
        (λ v h. keeps v edge h) (λ u. upsert_edges-Runs P keeps edges)

  abbrev pub HasRaw : Database F → Type 0
  HasRaw v = Found (λ (r : RawEvent F). r.id) (env.new_id "raw_events") v.raw_events

  pub get_raw-Runs :
      (step : Step) (P : Database F → Type 0)
      → ((v : Database F) → P v → HasRaw v)
      → Runs session P (get_raw session outage integrity_error env event context step) (λ r. P)
  unfolding get_raw
  get_raw-Runs step P has =
      then_runs P
        (λ o v.
          P v × (find_row (λ (r : RawEvent F). r.id) (env.new_id "raw_events") v.raw_events ≡ o))
        (λ r. P) step
        (λ v. (v, find_row (λ (r : RawEvent F). r.id) (env.new_id "raw_events") v.raw_events)) _
        (λ v h. (h, refl))
        (λ o.
          run_or_throw session
            (λ v.
              P v
              × (find_row (λ (r : RawEvent F). r.id) (env.new_id "raw_events") v.raw_events ≡ o))
            (λ r. P) disappeared o (λ v (h, e). let (r, f) = has v h in (r, sym e ∙ f, h)))

  pub find_scenario_run-Runs :
      (c : Option TrustedSyntheticContext)
      → Runs session
          (λ v. KnowsRun c v.scenario_runs × IsNew v)
          (find_scenario_run session outage integrity_error env event context c)
          (λ r. IsNew)
  unfolding find_scenario_run
  find_scenario_run-Runs none =
      run_give session (λ v. KnowsRun none v.scenario_runs × IsNew v) (λ r. IsNew) none (λ v h. h.1)
  find_scenario_run-Runs (some c) =
      let P = λ (v : Database F). KnowsRun (some c) v.scenario_runs × IsNew v in
      let found = λ (v : Database F).
        find_row (λ (r : ScenarioRun). r.public_id) c.scenario_run_public_id v.scenario_runs in
      then_runs P (λ o v. P v × (found v ≡ o)) (λ r. IsNew) find_run (λ v. (v, found v)) _
        (λ v h. (h, refl))
        (λ o.
          run_bind session (λ v. P v × (found v ≡ o)) (λ r. IsNew) (λ r. IsNew) _ _
            (run_or_throw session (λ v. P v × (found v ≡ o)) (λ r. IsNew)
              (unknown_run c.scenario_run_public_id) o
              (λ v (h, e). let (r, f) = h.0 in (r, sym e ∙ f, h.1)))
            (λ r. run_give session IsNew (λ r. IsNew) (some r) (λ v h. h)))
