-- ===== src/Ingestion/Store.antt =====
-- What `store` has written when it does not raise: one transaction, one audit event and the status
-- of the preserved event.
use aegis_ai_risk_manager.Common.{
  ◌≡◌, refl, sym, ap, subst, ◌∙◌, inl, inr, Bool-cases, String, List, [], ◌∷◌, ◌++◌, Option, none,
  ◌==◌, string_eq, arith,
}
use aegis_ai_risk_manager.Enums.{processing, processed}
use aegis_ai_risk_manager.Ingestion.Domain.{
  RawPaymentEvent, RawEvent, TrustedSyntheticContext, Transaction, AuditEvent, ScenarioRun,
  Database,
}
use aegis_ai_risk_manager.Ingestion.Session.{Session, ◌>>◌, give, Fault, Step, touch, lock_raw}
use aegis_ai_risk_manager.Ingestion.Upserts.{Environment, Entities}
use aegis_ai_risk_manager.Ingestion.Edges.{edges_of}
use aegis_ai_risk_manager.Ingestion.Rows.{find_row, update_row, event_ids_hold}
use aegis_ai_risk_manager.Ingestion.Triples.{Triple, bind_rule, give_rule, touch_rule}
use aegis_ai_risk_manager.Ingestion.Ingest.{
  raw_row, set_raw, transaction_row, add_transaction, upsert_edges, audit_row, add_audit, store,
}
use aegis_ai_risk_manager.Ingestion.Holding.{
  Holding, resolve_entities-Triple, upsert_edges-Triple, find_scenario_run-Triple, get_raw-Triple,
}

-- Updating the row that was appended under a new identifier.
pub update_row-append :
    {R : Type 0} (column : R → String) (r : R) (f : R → R) (rs : List R)
    → find_row column (column r) rs ≡ none
    → update_row column (column r) f (rs ++ (r ∷ [])) ≡ rs ++ (f r ∷ [])
unfolding update_row find_row
update_row-append column r f [] h = rw ((string_eq.beq_iff (column r) (column r)).1 refl) refl
update_row-append column r f (x ∷ rs) h = elim (Bool-cases (column x == column r)) [
  | inl same ↦ absurd (ground (arith, h, same))
  | inr other ↦ rw other (ap (◌∷◌ x) (update_row-append column r f rs (rw other at h)))
]

module _ {F S : Type 0} (session : Session (Database F) S event_ids_hold)
    (outage : Step → Option Fault) (integrity_error : Fault) (env : Environment)
    (event : RawPaymentEvent F) (context : Option TrustedSyntheticContext) where
  module _ (d : Database F) where
    -- The tables when the preserved event has a status, and a transaction and an audit event follow.
    abbrev pub Preserved : RawEvent F → Database F → Type 0
    Preserved raw = Holding (d.raw_events ++ (raw ∷ [])) d.transactions d.audit_events

    abbrev pub stored_row : RawEvent F
    stored_row = record (raw_row session outage integrity_error env event context) {
      processing_status = processed;
      processing_error = none;
    }

    -- What is stored of a transaction: it is made of the event and of entities.
    pub record IsStored (t : Transaction) (v : Database F) : Type 0 where
      pub holds :
          Holding
            (d.raw_events ++ (stored_row ∷ []))
            (d.transactions ++ (t ∷ []))
            (d.audit_events ++ (audit_row session outage integrity_error env event context ∷ []))
            v
      pub made :
          (run : Option ScenarioRun) × (e : Entities F) × (t
            ≡ transaction_row session outage integrity_error env event context run e)

  abbrev pub setting : (RawEvent F → RawEvent F) → Database F → Database F
  setting = set_raw session outage integrity_error env event context

  module _ (d : Database F)
      (fresh : find_row (λ (r : RawEvent F). r.id) (env.new_id "raw_events") d.raw_events
        ≡ none) where
    -- Setting the status of the preserved event.
    pub setting-Holding :
        (raw : RawEvent F) (f : RawEvent F → RawEvent F) (ts : List Transaction)
        (audits : List AuditEvent) (v : Database F)
        → raw.id ≡ env.new_id "raw_events"
        → Holding (d.raw_events ++ (raw ∷ [])) ts audits v
        → Holding (d.raw_events ++ (f raw ∷ [])) ts audits (setting f v)
    setting-Holding raw f ts audits v same (raws, stored, audited) = (
      ap (update_row (λ (r : RawEvent F). r.id) (env.new_id "raw_events") f) raws
          ∙ subst
              (λ id.
                update_row (λ (r : RawEvent F). r.id) id f (d.raw_events ++ (raw ∷ []))
                ≡ d.raw_events ++ (f raw ∷ []))
              same
              (update_row-append (λ (r : RawEvent F). r.id) raw f d.raw_events
                (subst (λ id. find_row (λ (r : RawEvent F). r.id) id d.raw_events ≡ none) (sym same)
                  fresh)),
      stored,
      audited,
    )

    abbrev busy_row : RawEvent F
    busy_row = record (raw_row session outage integrity_error env event context) {
      processing_status = processing;
    }

    write-Triple :
        (base : Database F) (run : Option ScenarioRun) (e : Entities F)
        → Triple session base
            (Preserved d busy_row)
            (touch session outage integrity_error (
                add_transaction session outage integrity_error env event context
                  (transaction_row session outage integrity_error env event context run e))
              >> (upsert_edges session outage integrity_error env event context (edges_of e)
                  >> (touch session outage integrity_error
                        (add_audit session outage integrity_error env event context)
                      >> (touch session outage integrity_error (
                            setting (λ r. record r {
                              processing_status = processed;
                              processing_error = none;
                            }))
                          >> give (
                              transaction_row session outage integrity_error env event context run
                                e)))))
            (IsStored d)
    write-Triple base run e =
        let t = transaction_row session outage integrity_error env event context run e in
        let held = d.raw_events ++ (busy_row ∷ []) in
        let ts = d.transactions ++ (t ∷ []) in
        let audits =
          d.audit_events ++ (audit_row session outage integrity_error env event context ∷ []) in
        let Added = Holding held ts d.audit_events in
        let Audited = Holding held ts audits in
        let finish =
          λ (r : RawEvent F). record r { processing_status = processed; processing_error = none } in
        let Finished = Holding (d.raw_events ++ (stored_row d ∷ [])) ts audits in
        bind_rule session base (Preserved d busy_row) (λ u. Added) (IsStored d) _ _
          (touch_rule session outage integrity_error base (Preserved d busy_row) (λ u. Added)
            (add_transaction session outage integrity_error env event context t)
            (λ v (raws, stored, audited). (raws, ap (λ xs. xs ++ (t ∷ [])) stored, audited)))
          (λ u.
            bind_rule session base Added (λ u. Added) (IsStored d) _ _
              (upsert_edges-Triple session outage integrity_error env event context base held ts
                d.audit_events (edges_of e))
              (λ u.
                bind_rule session base Added (λ u. Audited) (IsStored d) _ _
                  (touch_rule session outage integrity_error base Added (λ u. Audited)
                    (add_audit session outage integrity_error env event context)
                    (λ v (raws, stored, audited). (
                      raws,
                      stored,
                      ap
                          (λ xs.
                            xs ++ (audit_row session outage integrity_error env event context ∷ []))
                          audited,
                    )))
                  (λ u.
                    bind_rule session base Audited (λ u. Finished) (IsStored d) _ _
                      (touch_rule session outage integrity_error base Audited (λ u. Finished)
                        (setting finish)
                        (λ v h. setting-Holding busy_row finish ts audits v refl h))
                      (λ u.
                        give_rule session base Finished (IsStored d) t
                          (λ v h. record { holds = h; made = (run, e, refl) })))))

    pub store-Triple :
        (base : Database F)
        → Triple session base
            (Preserved d (raw_row session outage integrity_error env event context))
            (store session outage integrity_error env event context)
            (IsStored d)
    unfolding store
    store-Triple base =
        let first = raw_row session outage integrity_error env event context in
        let busy = record first { processing_status = processing } in
        let held = d.raw_events ++ (busy ∷ []) in
        let Start = Preserved d first in
        let Busy = Preserved d busy in
        bind_rule session base Start (λ r. Start) (IsStored d) _ _
          (get_raw-Triple session outage integrity_error env event context base
            (d.raw_events ++ (first ∷ [])) d.transactions d.audit_events lock_raw)
          (λ raw.
            bind_rule session base Start (λ u. Busy) (IsStored d) _ _
              (touch_rule session outage integrity_error base Start (λ u. Busy)
                (setting (λ r. record r { processing_status = processing }))
                (λ v h.
                  setting-Holding first (λ r. record r { processing_status = processing })
                    d.transactions d.audit_events v refl h))
              (λ u.
                bind_rule session base Busy (λ r. Busy) (IsStored d) _ _
                  (find_scenario_run-Triple session outage integrity_error env event context base
                    held d.transactions d.audit_events context)
                  (λ run.
                    bind_rule session base Busy (λ e. Busy) (IsStored d) _ _
                      (resolve_entities-Triple session outage integrity_error env event context base
                        held d.transactions d.audit_events)
                      (λ e. write-Triple base run e))))
