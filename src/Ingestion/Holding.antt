-- ===== src/Ingestion/Holding.antt =====
-- The calls of `store` that leave the events, the transactions and the audit trail alone.
use aegis_ai_risk_manager.Common.{◌≡◌, List, [], ◌∷◌, Option, none, some, string_eq}
use aegis_ai_risk_manager.Ingestion.Domain.{
  RawPaymentEvent, RawEvent, TrustedSyntheticContext, LogicalEdge, Transaction, AuditEvent,
  ScenarioRun, Database,
}
use aegis_ai_risk_manager.Ingestion.Session.{
  Session, Attempt, ◌>>=◌, Fault, Step, find_run, upsert_customer, upsert_merchant,
  upsert_instrument, upsert_device, upsert_ip, upsert_address, upsert_edge, execute,
}
use aegis_ai_risk_manager.Ingestion.Upserts.{
  Environment, customer_row, merchant_row, instrument_row, device_row, ip_row, address_row,
}
use aegis_ai_risk_manager.Ingestion.Edges.{edge_row}
use aegis_ai_risk_manager.Ingestion.Rows.{find_row, event_ids_hold, unknown_run, disappeared}
use aegis_ai_risk_manager.Ingestion.Triples.{
  Triple, bind_rule, give_rule, or_throw_rule, execute_rule,
}
use aegis_ai_risk_manager.Ingestion.Ingest.{
  is_some, get_raw, find_scenario_run, resolve_entities, upsert_edges,
}

-- The three tables that the entities and edges leave alone.
abbrev pub Holding :
    {F : Type 0} → List (RawEvent F) → List Transaction → List AuditEvent → Database F → Type 0
Holding raws ts audits v = (v.raw_events ≡ raws) × (v.transactions ≡ ts) × (v.audit_events ≡ audits)

module _ {F S : Type 0} (session : Session (Database F) S event_ids_hold)
    (outage : Step → Option Fault) (integrity_error : Fault) (env : Environment)
    (event : RawPaymentEvent F) (context : Option TrustedSyntheticContext) where
  and_then :
      {A B : Type 0} {d : Database F} (P : Database F → Type 0) (R : A → Database F → Type 0)
      (Q : B → Database F → Type 0) (step : Step) (run : Database F → Database F × A)
      (next : A → Attempt S B)
      → ((v : Database F) → P v → R (run v).1 (run v).0)
      → ((a : A) → Triple session d (R a) (next a) Q)
      → Triple session d P (execute session outage integrity_error step run >>= next) Q
  and_then {d = d} P R Q step run next h k =
      bind_rule session d P R Q (execute session outage integrity_error step run) next
        (execute_rule session outage integrity_error d P R step run h) k

  module _ (d : Database F) (raws : List (RawEvent F)) (ts : List Transaction)
      (audits : List AuditEvent) where
    pub resolve_entities-Triple :
        Triple session d
          (Holding raws ts audits)
          (resolve_entities session outage integrity_error env event context)
          (λ e. Holding raws ts audits)
    unfolding resolve_entities customer_row merchant_row instrument_row device_row ip_row
        address_row
    resolve_entities-Triple =
        let H = Holding raws ts audits in
        let keep = λ (v : Database F) (h : H v). h in
        and_then H (λ a. H) (λ e. H) upsert_customer (customer_row env event (is_some context)) _
          keep
          (λ c.
            and_then H (λ a. H) (λ e. H) upsert_merchant (merchant_row env event) _ keep
              (λ m.
                and_then H (λ a. H) (λ e. H) upsert_instrument (instrument_row env event) _ keep
                  (λ i.
                    and_then H (λ a. H) (λ e. H) upsert_device (device_row env event) _ keep
                      (λ v.
                        and_then H (λ a. H) (λ e. H) upsert_ip (ip_row env event) _ keep
                          (λ p.
                            and_then H (λ a. H) (λ e. H) upsert_address (address_row env event) _
                              keep (λ a. give_rule session d H (λ e. H) _ keep))))))

    pub upsert_edges-Triple :
        (edges : List LogicalEdge)
        → Triple session d
            (Holding raws ts audits)
            (upsert_edges session outage integrity_error env event context edges)
            (λ e. Holding raws ts audits)
    unfolding upsert_edges edge_row
    upsert_edges-Triple [] =
        give_rule session d (Holding raws ts audits) (λ e. Holding raws ts audits) tt (λ v h. h)
    upsert_edges-Triple (edge ∷ edges) =
        let H = Holding raws ts audits in
        and_then H (λ a. H) (λ e. H) (upsert_edge edge) (edge_row env event.event_time edge) _
          (λ v h. h) (λ u. upsert_edges-Triple edges)

    pub find_scenario_run-Triple :
        (c : Option TrustedSyntheticContext)
        → Triple session d
            (Holding raws ts audits)
            (find_scenario_run session outage integrity_error env event context c)
            (λ e. Holding raws ts audits)
    unfolding find_scenario_run
    find_scenario_run-Triple none =
        give_rule session d (Holding raws ts audits) (λ e. Holding raws ts audits) none (λ v h. h)
    find_scenario_run-Triple (some c) =
        let H = Holding raws ts audits in
        let keep = λ (v : Database F) (h : H v). h in
        and_then H (λ a. H) (λ e. H) find_run
          (λ v. (
            v,
            find_row (λ (r : ScenarioRun). r.public_id) c.scenario_run_public_id v.scenario_runs,
          ))
          _ keep
          (λ run.
            bind_rule session d H (λ a. H) (λ a. H) _ _
              (or_throw_rule session d H (λ a. H) (unknown_run c.scenario_run_public_id) run
                (λ a. keep))
              (λ a. give_rule session d H (λ a. H) (some a) keep))

    pub get_raw-Triple :
        (step : Step)
        → Triple session d
            (Holding raws ts audits)
            (get_raw session outage integrity_error env event context step)
            (λ r. Holding raws ts audits)
    unfolding get_raw
    get_raw-Triple step =
        let H = Holding raws ts audits in
        let keep = λ (v : Database F) (h : H v). h in
        and_then H (λ a. H) (λ e. H) step
          (λ v. (v, find_row (λ (r : RawEvent F). r.id) (env.new_id "raw_events") v.raw_events)) _
          keep (λ raw. or_throw_rule session d H (λ a. H) disappeared raw (λ a. keep))
