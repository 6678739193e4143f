-- ===== src/Ingestion/Ends.antt =====
-- How an ingestion can end, and what is durable then, whatever call fails on the way.
use aegis_ai_risk_manager.Common.{
  ◌≡◌, refl, sym, ap, subst, ◌∙◌, ◌⊎◌, inl, inr, true, false, Bool-cases, Option, none, some, arith,
  string_eq,
}
use aegis_ai_risk_manager.Common.Sets.{contains}
use aegis_ai_risk_manager.Ingestion.Domain.{
  RawPaymentEvent, RawEvent, TrustedSyntheticContext, Transaction, Database, NormalizedTransaction,
}
use aegis_ai_risk_manager.Ingestion.Session.{
  is_integrity_error, failure_rollback, preserve_rollback, Session, Tried, done, thrown, Fault,
  detail_of, Step, preserve_commit,
}
use aegis_ai_risk_manager.Ingestion.Upserts.{Environment}
use aegis_ai_risk_manager.Ingestion.Rows.{
  find_row, event_ids, event_ids_hold, all_distinct, read_row,
}
use aegis_ai_risk_manager.Ingestion.Ingest.{
  refused, rolling_back, Outcome, returned, duplicate_event, normalization_error, escaped, raw_row,
  add_raw, set_raw, normalize, preserve_raw_event, mark_raw_failed, preserving, recover, marked,
  continue_with, ingest_transaction,
}
use aegis_ai_risk_manager.Ingestion.Store.{IsStored, update_row-append}
use aegis_ai_risk_manager.Ingestion.Marking.{
  Marks, mark_failed, mark_raw_failed-Marks, all_distinct-append, event_ids-append,
}
use aegis_ai_risk_manager.Ingestion.Normalized.{with_raw, Stored, Normalized, normalize-Normalized}

module _ {F S : Type 0} (session : Session (Database F) S event_ids_hold)
    (outage : Step → Option Fault) (integrity_error : Fault) (env : Environment)
    (event : RawPaymentEvent F) (context : Option TrustedSyntheticContext) where
  abbrev first_row : RawEvent F
  first_row = raw_row session outage integrity_error env event context

  abbrev IsKept : Database F → Database F → Type 0
  IsKept = Stored session outage integrity_error env event context

  abbrev failed_row : Fault → RawEvent F
  failed_row fault =
      mark_failed session outage integrity_error env event context (detail_of fault) first_row

  -- The end of an ingestion that started with the durable tables `d`: what it returned or raised,
  -- and the durable tables `e` that it leaves.
  pub data Ends (d e : Database F) (o : Outcome NormalizedTransaction) : Type 0 where
    -- The event was known; nothing changes.
    duplicate :
        contains (event_ids d.raw_events) event.event_id ≡ true
        → o ≡ duplicate_event event.event_id
        → e ≡ d
        → Ends d e o
    -- The database reported an IntegrityError at the commit of the event; nothing changes.
    conflict :
        (fault : Fault)
        → is_integrity_error fault ≡ true
        → o ≡ duplicate_event event.event_id
        → e ≡ d
        → Ends d e o
    -- The event could not be preserved; nothing changes.
    not_preserved : (fault : Fault) → o ≡ escaped fault → e ≡ d → Ends d e o
    -- A failure before the final commit: the event alone is kept, as failed and with the detail.
    rejected :
        (fault : Fault)
        → o ≡ normalization_error event.event_id (detail_of fault)
        → e ≡ with_raw d (failed_row fault)
        → Ends d e o
    -- A failure before the final commit and another one while rolling back or marking: the event
    -- stays received.
    not_marked : (fault : Fault) → o ≡ escaped fault → e ≡ with_raw d first_row → Ends d e o
    -- The transaction is stored, and what is returned is read from its stored row.
    accepted :
        (n : NormalizedTransaction) (t : Transaction)
        → o ≡ returned n
        → IsStored session outage integrity_error env event context d t e
        → read_row t.id e ≡ some n
        → Ends d e o
    -- A failure after the final commit: the transaction is stored, and its event marked as failed.
    marked_late :
        (fault : Fault) (v : Database F)
        → IsKept d v
        → o ≡ normalization_error event.event_id (detail_of fault)
        → e
          ≡ set_raw session outage integrity_error env event context
              (mark_failed session outage integrity_error env event context (detail_of fault))
              v
        → Ends d e o
    -- The same, with a failure while rolling back or marking.
    late_not_marked : (fault : Fault) → o ≡ escaped fault → IsKept d e → Ends d e o

  preserving-conflict :
      (fault : Fault) (undo : Option Fault) (c : Option S) (s : S)
      → is_integrity_error fault ≡ true
      → preserving session outage integrity_error env event context (some fault) undo c s
        ≡ refused session outage integrity_error env event context undo s
  preserving-conflict fault undo c s h = rw h refl

  preserving-escape :
      (fault : Fault) (undo : Option Fault) (c : Option S) (s : S)
      → is_integrity_error fault ≡ false
      → preserving session outage integrity_error env event context (some fault) undo c s
        ≡ (escaped fault, s)
  preserving-escape fault undo c s h = rw h refl

  module _ (d : Database F) (keys : event_ids_hold d ≡ true)
      (fresh : find_row (λ (r : RawEvent F). r.id) (env.new_id "raw_events") d.raw_events
        ≡ none) where
    -- Marking the preserved event marks the last row.
    marked_row :
        (fault : Fault)
        → set_raw session outage integrity_error env event context
            (mark_failed session outage integrity_error env event context (detail_of fault))
            (with_raw d first_row)
          ≡ with_raw d (failed_row fault)
    marked_row fault =
        ap (λ rows. record d { raw_events = rows })
          (update_row-append (λ (r : RawEvent F). r.id) first_row
            (mark_failed session outage integrity_error env event context (detail_of fault))
            d.raw_events fresh)

    marked-Ends :
        (fault : Fault) (v : Database F) (p : Tried (Unit {0}) × S)
        → Marks session outage integrity_error env event context (detail_of fault) v p
        → (v ≡ with_raw d first_row) ⊎ IsKept d v
        → Ends d
            (session.durable
              (marked session outage integrity_error env event context (detail_of fault) p).1)
            (marked session outage integrity_error env event context (detail_of fault) p).0
    marked-Ends fault v (done u, s) h (inl e) = rejected fault refl (
        h
        ∙ (ap
              (set_raw session outage integrity_error env event context
                (mark_failed session outage integrity_error env event context (detail_of fault)))
              e
            ∙ marked_row fault))
    marked-Ends fault v (done u, s) h (inr k) = marked_late fault v k refl h
    marked-Ends fault v (thrown other, s) h (inl e) = not_marked other refl (h ∙ e)
    marked-Ends fault v (thrown other, s) h (inr k) =
        late_not_marked other refl (subst (IsKept d) (sym h) k)

    rolling_back-Ends :
        (fault : Fault) (undo : Option Fault) (s : S)
        → (session.durable s ≡ with_raw d first_row) ⊎ IsKept d (session.durable s)
        → Ends d
            (session.durable
              (rolling_back session outage integrity_error env event context undo
                (detail_of fault)
                s).1)
            (rolling_back session outage integrity_error env event context undo
              (detail_of fault)
              s).0
    rolling_back-Ends fault (some other) s (inl e) = not_marked other refl e
    rolling_back-Ends fault (some other) s (inr k) = late_not_marked other refl k
    rolling_back-Ends fault none s h =
        let rolled = session.rollback s in
        marked-Ends fault (session.durable s)
          (mark_raw_failed session outage integrity_error env event context (detail_of fault)
            rolled)
          (mark_raw_failed-Marks session outage integrity_error env event context (detail_of fault)
            (session.durable s) rolled (session.durable-rollback s) (session.visible-rollback s))
          h

    recover-Ends :
        (r : Tried NormalizedTransaction × S)
        → Normalized session outage integrity_error env event context d r
        → Ends d
            (session.durable (recover session outage integrity_error env event context r).1)
            (recover session outage integrity_error env event context r).0
    recover-Ends (done n, s) (t, k, read) = accepted n t refl k read
    recover-Ends (thrown fault, s) h = rolling_back-Ends fault (outage failure_rollback) s h

    known :
        event_ids_hold (with_raw d first_row) ≡ false
        → contains (event_ids d.raw_events) event.event_id ≡ true
    unfolding event_ids_hold
    known twice = ground (
      arith,
      all_distinct-append (event_ids d.raw_events) event.event_id,
      ap all_distinct (event_ids-append d.raw_events first_row),
      keys,
      twice,
    )

    abbrev Ending : Outcome (RawEvent F) × S → Type 0
    Ending r =
        Ends d
          (session.durable (continue_with session outage integrity_error env event context r).1)
          (continue_with session outage integrity_error env event context r).0

    -- The handler of the first commit: its rollback raises, or the event is reported as a duplicate.
    refused-Ends :
        (undo : Option Fault) (s : S)
        → session.durable s ≡ d
        → ((e : Database F) → e ≡ d → Ends d e (duplicate_event event.event_id))
        → Ending (refused session outage integrity_error env event context undo s)
    refused-Ends (some other) s e k = not_preserved other refl e
    refused-Ends none s e k =
        k (session.durable (session.rollback s)) (session.durable-rollback s ∙ e)

    preserving-Ends :
        (s : S) (o undo : Option Fault) (c : Option S)
        → session.durable s ≡ d
        → session.visible s ≡ with_raw d first_row
        → ((c ≡ none) × (event_ids_hold (with_raw d first_row) ≡ false))
          ⊎ ((t : S) × (c ≡ some t)
              × (session.durable t ≡ session.visible s)
              × (session.visible t ≡ session.visible s))
        → Ending (preserving session outage integrity_error env event context o undo c s)
    preserving-Ends s (some fault) undo c e f h = elim (Bool-cases (is_integrity_error fault)) [
      | inl conflicting ↦
          subst Ending (sym (preserving-conflict fault undo c s conflicting))
            (refused-Ends undo s e (λ e p. conflict fault conflicting refl p))
      | inr other ↦
          subst Ending (sym (preserving-escape fault undo c s other)) (not_preserved fault refl e)
    ]
    preserving-Ends s none undo none e f (inl (same, twice)) =
        refused-Ends undo s e (λ e p. duplicate (known twice) refl p)
    preserving-Ends s none undo none e f (inr (t, same, kept, seen)) = cc
    preserving-Ends s none undo (some t) e f (inl (same, twice)) = cc
    preserving-Ends s none undo (some t) e f (inr (u, same, kept, seen)) =
        let p : u ≡ t = ground (arith, same) in
        recover-Ends (normalize session outage integrity_error env event context t) (
          normalize-Normalized session outage integrity_error env event context d fresh t
            (subst (λ w. session.durable w ≡ with_raw d first_row) p (kept ∙ f))
            (subst (λ w. session.visible w ≡ with_raw d first_row) p (seen ∙ f)))

  pub ingest_transaction-Ends :
      (s : S)
      → session.visible s ≡ session.durable s
      → event_ids_hold (session.durable s) ≡ true
      → find_row (λ (r : RawEvent F). r.id) (env.new_id "raw_events") (session.durable s).raw_events
        ≡ none
      → Ends
          (session.durable s)
          (session.durable
            (ingest_transaction session outage integrity_error env event context s).1)
          (ingest_transaction session outage integrity_error env event context s).0
  unfolding ingest_transaction preserve_raw_event
  ingest_transaction-Ends s idle keys fresh =
      let d = session.durable s in
      let adding = add_raw session outage integrity_error env event context in
      let added = session.write adding s in
      let sees : session.visible added ≡ with_raw d first_row =
        session.visible-write adding s ∙ ap adding idle in
      preserving-Ends d keys fresh added (outage preserve_commit) (outage preserve_rollback)
        (session.commit added) (session.durable-write adding s) sees
        (elim (Bool-cases (event_ids_hold (with_raw d first_row))) [
          | inr twice ↦ inl (session.commit_rejects added (rw sees twice), twice)
          | inl once ↦ inr (session.commit_accepts added (rw sees once))
        ])
