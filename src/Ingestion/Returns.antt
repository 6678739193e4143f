-- ===== src/Ingestion/Returns.antt =====
-- When no call fails, a new event is stored and its transaction returned.
use aegis_ai_risk_manager.Common.{◌≡◌, refl, Option, none, some}
use aegis_ai_risk_manager.Enums.{processing, processed}
use aegis_ai_risk_manager.Ingestion.Domain.{
  RawPaymentEvent, RawEvent, TrustedSyntheticContext, Transaction, ScenarioRun, Database,
  NormalizedTransaction,
}
use aegis_ai_risk_manager.Ingestion.Session.{
  Session, Attempt, ◌>>◌, give, Fault, Step, lock_raw, touch,
}
use aegis_ai_risk_manager.Ingestion.Upserts.{Environment, Entities}
use aegis_ai_risk_manager.Ingestion.Edges.{edge_row, edges_of}
use aegis_ai_risk_manager.Ingestion.Rows.{event_ids_hold, to_schema, join_row, read_row}
use aegis_ai_risk_manager.Ingestion.Runs.{Runs, run_bind, run_give, run_touch, find_row-append}
use aegis_ai_risk_manager.Ingestion.Ingest.{
  set_raw, transaction_row, add_transaction, upsert_edges, add_audit, store,
}
use aegis_ai_risk_manager.Ingestion.Total.{
  KnowsRun, HasEntities, IsNew, HasRaw, resolve_entities-Runs, upsert_edges-Runs, get_raw-Runs,
  find_scenario_run-Runs,
}

-- The transaction can be read back, with its own columns.
abbrev pub Reads : {F : Type 0} → Transaction → Database F → Type 0
Reads t v =
    (n : NormalizedTransaction) × (read_row t.id v ≡ some n)
    × (n.transaction_public_id ≡ t.public_id)
    × (n.amount_paise ≡ t.amount_paise)
    × (n.status ≡ t.status)
    × (n.event_time ≡ t.event_time)

module _ {F S : Type 0} (session : Session (Database F) S event_ids_hold)
    (outage : Step → Option Fault) (integrity_error : Fault) (env : Environment)
    (event : RawPaymentEvent F) (context : Option TrustedSyntheticContext)
    (up : (step : Step) → outage step ≡ none) where
  abbrev row : Option ScenarioRun → Entities F → Transaction
  row = transaction_row session outage integrity_error env event context

  -- A transaction of stored entities can be read back once it is added.
  add_transaction-Reads :
      (run : Option ScenarioRun) (e : Entities F) (v : Database F)
      → IsNew session outage integrity_error env event context up v
      → HasEntities session outage integrity_error env event context up e v
      → Reads
          (row run e)
          (add_transaction session outage integrity_error env event context (row run e) v)
  unfolding read_row join_row
  add_transaction-Reads run e v new (hc, hm, hi, he, hp, ha) =
      let t = row run e in
      let found = find_row-append (λ (r : Transaction). r.id) t v.transactions new in
      (
        to_schema t hc.0 hm.0 hi.0 he.0 hp.0 ha.0,
        rw (found, hc.1, hm.1, hi.1, he.1, hp.1, ha.1) refl,
        refl,
        refl,
        refl,
        refl,
      )

  abbrev set_status : (RawEvent F → RawEvent F) → Attempt S (Unit {0})
  set_status f =
      touch session outage integrity_error
        (set_raw session outage integrity_error env event context f)

  write-Runs :
      (run : Option ScenarioRun) (e : Entities F)
      → Runs session
          (λ v.
            IsNew session outage integrity_error env event context up v
            × HasEntities session outage integrity_error env event context up e v)
          (touch session outage integrity_error
              (add_transaction session outage integrity_error env event context (row run e))
            >> (upsert_edges session outage integrity_error env event context (edges_of e)
                >> (touch session outage integrity_error
                      (add_audit session outage integrity_error env event context)
                    >> (set_status
                          (λ r. record r { processing_status = processed; processing_error = none })
                        >> give (row run e)))))
          Reads
  unfolding read_row join_row edge_row
  write-Runs run e =
      let P = λ (v : Database F).
        IsNew session outage integrity_error env event context up v
        × HasEntities session outage integrity_error env event context up e v in
      let R = λ (u : Unit {0}). Reads (row run e) in
      run_bind session P R Reads _ _
        (run_touch session outage integrity_error P R
          (add_transaction session outage integrity_error env event context (row run e))
          (λ v h. add_transaction-Reads run e v h.0 h.1))
        (λ u.
          run_bind session (R u) R Reads _ _
            (upsert_edges-Runs session outage integrity_error env event context up (R u)
              (λ v edge h. h) (edges_of e))
            (λ u.
              run_bind session (R u) R Reads _ _
                (run_touch session outage integrity_error (R u) R
                  (add_audit session outage integrity_error env event context) (λ v h. h))
                (λ u.
                  run_bind session (R u) R Reads _ _
                    (run_touch session outage integrity_error (R u) R
                      (set_raw session outage integrity_error env event context
                        (λ r. record r { processing_status = processed; processing_error = none }))
                      (λ v h. h))
                    (λ u. run_give session (R u) Reads (row run e) (λ v h. h)))))

  -- The statements before the commit return a transaction that can be read back.
  pub store-Runs :
      Runs session
        (λ v.
          HasRaw session outage integrity_error env event context up v
          × KnowsRun context v.scenario_runs
          × IsNew session outage integrity_error env event context up v)
        (store session outage integrity_error env event context)
        Reads
  unfolding store
  store-Runs =
      let New = IsNew session outage integrity_error env event context up in
      let P = λ (v : Database F).
        HasRaw session outage integrity_error env event context up v
        × KnowsRun context v.scenario_runs
        × New v in
      let Known = λ (v : Database F). KnowsRun context v.scenario_runs × New v in
      run_bind session P (λ r. P) Reads _ _
        (get_raw-Runs session outage integrity_error env event context up lock_raw P (λ v h. h.0))
        (λ raw.
          run_bind session P (λ u. Known) Reads _ _
            (run_touch session outage integrity_error P (λ u. Known)
              (set_raw session outage integrity_error env event context
                (λ r. record r { processing_status = processing }))
              (λ v h. (h.1, h.2)))
            (λ u.
              run_bind session Known (λ r. New) Reads _ _
                (find_scenario_run-Runs session outage integrity_error env event context up context)
                (λ run.
                  run_bind session New
                    (λ e v.
                      New v × HasEntities session outage integrity_error env event context up e v)
                    Reads _ _
                    (resolve_entities-Runs session outage integrity_error env event context up)
                    (λ e. write-Runs run e))))
