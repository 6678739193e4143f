-- ===== src/Ingestion/Liveness.antt =====
-- When no call fails, ingesting a new event returns its stored transaction.
use aegis_ai_risk_manager.Common.{
  ◌≡◌, refl, sym, ap, subst, ◌∙◌, true, false, [], ◌∷◌, ◌++◌, Option, none, string_eq,
}
use aegis_ai_risk_manager.Common.Sets.{contains}
use aegis_ai_risk_manager.Ingestion.Domain.{
  RawPaymentEvent, RawEvent, TrustedSyntheticContext, Transaction, Database, NormalizedTransaction,
}
use aegis_ai_risk_manager.Ingestion.Session.{
  preserve_rollback, Session, Attempt, done, after, ◌>>=◌, ◌>>◌, Fault, Step, preserve_commit,
  final_commit, refresh, read_back, commit_step, committing, execute,
}
use aegis_ai_risk_manager.Ingestion.Upserts.{Environment}
use aegis_ai_risk_manager.Ingestion.Rows.{
  find_row, event_ids, event_ids_hold, all_distinct, read_row, not_found,
}
use aegis_ai_risk_manager.Ingestion.Triples.{Holds}
use aegis_ai_risk_manager.Ingestion.Runs.{
  Runs, run_bind, run_execute, run_or_throw, find_row-append,
}
use aegis_ai_risk_manager.Ingestion.Ingest.{
  Outcome, returned, raw_row, add_raw, store, normalize, transaction_to_schema, preserve_raw_event,
  preserving, recover, continue_with, ingest_transaction,
}
use aegis_ai_risk_manager.Ingestion.Store.{IsStored, store-Triple}
use aegis_ai_risk_manager.Ingestion.Marking.{all_distinct-append, event_ids-append}
use aegis_ai_risk_manager.Ingestion.Normalized.{with_raw, Stored}
use aegis_ai_risk_manager.Ingestion.Ends.{Ends, ingest_transaction-Ends}
use aegis_ai_risk_manager.Ingestion.Total.{KnowsRun}
use aegis_ai_risk_manager.Ingestion.Returns.{Reads, store-Runs}

-- The columns of the event that its transaction shows.
abbrev pub Shows : {F : Type 0} → RawPaymentEvent F → NormalizedTransaction → Type 0
Shows event n =
    (n.amount_paise ≡ event.amount_paise)
    × (n.status ≡ event.status)
    × (n.event_time ≡ event.event_time)

module _ {F S : Type 0} (session : Session (Database F) S event_ids_hold)
    (outage : Step → Option Fault) (integrity_error : Fault) (env : Environment)
    (event : RawPaymentEvent F) (context : Option TrustedSyntheticContext)
    (up : (step : Step) → outage step ≡ none) where
  commit_step-accepts :
      (step : Step) (s : S)
      → event_ids_hold (session.visible s) ≡ true
      → (t : S) × (commit_step session outage integrity_error step s ≡ (done tt, t))
        × (session.visible t ≡ session.visible s)
  unfolding commit_step
  commit_step-accepts step s once =
      let (t, accepted, kept, seen) = session.commit_accepts s once in
      (
        t,
        ap (λ o. committing session outage integrity_error o (session.commit s) s) (up step)
            ∙ ap (λ c. committing session outage integrity_error none c s) accepted,
        seen,
      )

  abbrev reading : Transaction → Attempt S NormalizedTransaction
  reading t =
      execute session outage integrity_error refresh (λ v. (v, tt))
      >> transaction_to_schema session outage integrity_error env event context t

  reading-Runs :
      (t : Transaction)
      → Runs session (Reads t) (reading t) (λ n v.
        (n.amount_paise ≡ t.amount_paise) × (n.status ≡ t.status) × (n.event_time ≡ t.event_time))
  unfolding transaction_to_schema
  reading-Runs t =
      let Q = λ (n : NormalizedTransaction) (v : Database F).
        (n.amount_paise ≡ t.amount_paise) × (n.status ≡ t.status) × (n.event_time ≡ t.event_time) in
      let R =
        λ (o : Option NormalizedTransaction) (v : Database F). Reads t v × (read_row t.id v ≡ o) in
      run_bind session (Reads t) (λ u. Reads t) Q _ _
        (run_execute session outage integrity_error (Reads t) (λ u. Reads t) refresh (λ v. (v, tt))
          (up refresh) (λ v h. h))
        (λ u.
          run_bind session (Reads t) R Q _ _
            (run_execute session outage integrity_error (Reads t) R read_back
              (λ v. (v, read_row t.id v)) (up read_back) (λ v h. (h, refl)))
            (λ o.
              run_or_throw session (R o) Q not_found o
                (λ v ((n, found, name, amount, status, time), e).
                  (n, sym e ∙ found, (amount, status, time)))))

  module _ (d : Database F) (keys : event_ids_hold d ≡ true)
      (fresh : find_row (λ (r : RawEvent F). r.id) (env.new_id "raw_events") d.raw_events ≡ none)
      (unseen : contains (event_ids d.raw_events) event.event_id ≡ false)
      (run_known : KnowsRun context d.scenario_runs)
      (new : find_row (λ (r : Transaction). r.id) (env.new_id "transactions") d.transactions
        ≡ none) where
    abbrev first_row : RawEvent F
    first_row = raw_row session outage integrity_error env event context

    abbrev begun : Database F
    begun = with_raw d first_row

    -- The preserved event keeps the key, whatever its status.
    rows_hold :
        (r : RawEvent F)
        → r.event_id ≡ event.event_id
        → (v : Database F) → v.raw_events ≡ d.raw_events ++ (r ∷ [])
        → event_ids_hold v ≡ true
    unfolding event_ids_hold
    rows_hold r same v e =
        ap (λ rows. all_distinct (event_ids rows)) e
        ∙ (ap all_distinct (event_ids-append d.raw_events r)
            ∙ (ap (λ id. all_distinct (event_ids d.raw_events ++ (id ∷ []))) same
                ∙ (all_distinct-append (event_ids d.raw_events) event.event_id
                    ∙ rw (unseen, keys) refl)))

    holds_then :
        (s : S) (t : Transaction) (w : S)
        → session.durable s ≡ begun
        → session.visible s ≡ begun
        → store session outage integrity_error env event context s ≡ (done t, w)
        → IsStored session outage integrity_error env event context d t (session.visible w)
    holds_then s t w e f run =
        let held =
          store-Triple session outage integrity_error env event context d fresh begun s e
            (rw f (refl, refl, refl)) in
        (subst (Holds session begun (IsStored session outage integrity_error env event context d))
          run held).1

    normalize-returns :
        (s : S)
        → session.durable s ≡ begun
        → session.visible s ≡ begun
        → (n : NormalizedTransaction) × (w : S) × (normalize session outage integrity_error env
              event context s
            ≡ (done n, w))
          × Shows event n
    unfolding normalize ◌>>=◌
    normalize-returns s e f =
        let found = find_row-append (λ (r : RawEvent F). r.id) first_row d.raw_events fresh in
        let (t, w, stored, reads) =
          store-Runs session outage integrity_error env event context up s
            (rw f ((first_row, found), run_known, new)) in
        let is_stored = holds_then s t w e f stored in
        let once = rows_hold _ refl (session.visible w) is_stored.holds.0 in
        let (x, committed, seen) = commit_step-accepts final_commit w once in
        let (n, z, read, shown) = reading-Runs t x (subst (Reads t) (sym seen) reads) in
        let (run, entities, made) = is_stored.made in
        (
          n,
          z,
          ap (after (λ t. commit_step session outage integrity_error final_commit >> reading t))
                stored
              ∙ (ap (after (λ u. reading t)) committed ∙ read),
          (
            shown.0 ∙ ap (λ (r : Transaction). r.amount_paise) made,
            shown.1 ∙ ap (λ (r : Transaction). r.status) made,
            shown.2 ∙ ap (λ (r : Transaction). r.event_time) made,
          ),
        )

    ingest-returns :
        (s : S)
        → session.durable s ≡ d
        → session.visible s ≡ d
        → (n : NormalizedTransaction) × (w : S) × (ingest_transaction session outage integrity_error
              env event context s
            ≡ (returned n, w))
          × Shows event n
    unfolding ingest_transaction preserve_raw_event
    ingest-returns s e f =
        let adding = add_raw session outage integrity_error env event context in
        let added = session.write adding s in
        let sees = session.visible-write adding s ∙ ap adding f in
        let once = ap event_ids_hold sees ∙ rows_hold first_row refl begun refl in
        let (t, accepted, kept, seen) = session.commit_accepts added once in
        let (n, w, normalized, shown) = normalize-returns t (kept ∙ sees) (seen ∙ sees) in
        let preserve = λ (o : Option Fault) (c : Option S).
          continue_with session outage integrity_error env event context (
            preserving session outage integrity_error env event context o (outage preserve_rollback)
              c added) in
        (
          n,
          w,
          ap (λ o. preserve o (session.commit added)) (up preserve_commit)
              ∙ (ap (λ c. preserve none c) accepted
                  ∙ ap (recover session outage integrity_error env event context) normalized),
          shown,
        )

returned-Stored :
    {F S : Type 0} (session : Session (Database F) S event_ids_hold) (outage : Step → Option Fault)
    (integrity_error : Fault) (env : Environment) (event : RawPaymentEvent F)
    (context : Option TrustedSyntheticContext) (d e : Database F)
    (o : Outcome NormalizedTransaction) (n : NormalizedTransaction)
    → o ≡ returned n
    → Ends session outage integrity_error env event context d e o
    → Stored session outage integrity_error env event context d e
returned-Stored session outage integrity_error env event context d e o n h (Ends.duplicate k p q) =
    cc
returned-Stored session outage integrity_error env event context d e o n h (Ends.conflict f k p q) =
    cc
returned-Stored session outage integrity_error env event context d e o n h
      (Ends.not_preserved f p q) =
    cc
returned-Stored session outage integrity_error env event context d e o n h (Ends.rejected f p q) =
    cc
returned-Stored session outage integrity_error env event context d e o n h (Ends.not_marked f p q) =
    cc
returned-Stored session outage integrity_error env event context d e o n h
      (Ends.accepted m t p q r) =
    (t, q)
returned-Stored session outage integrity_error env event context d e o n h
      (Ends.marked_late f v k p q) =
    cc
returned-Stored session outage integrity_error env event context d e o n h
      (Ends.late_not_marked f p q) =
    cc

-- When no call fails, ingesting an event that was not seen before, under new row identifiers and for
-- a known run, returns a transaction with the event's amount, status and time, and stores it.
pub ingest_transaction-Returns :
    {F S : Type 0} (session : Session (Database F) S event_ids_hold) (outage : Step → Option Fault)
    (integrity_error : Fault) (env : Environment) (event : RawPaymentEvent F)
    (context : Option TrustedSyntheticContext) (s : S)
    → ((step : Step) → outage step ≡ none)
    → session.visible s ≡ session.durable s
    → event_ids_hold (session.durable s) ≡ true
    → find_row (λ (r : RawEvent F). r.id) (env.new_id "raw_events") (session.durable s).raw_events
      ≡ none
    → contains (event_ids (session.durable s).raw_events) event.event_id ≡ false
    → KnowsRun context (session.durable s).scenario_runs
    → find_row
        (λ (r : Transaction). r.id)
        (env.new_id "transactions")
        (session.durable s).transactions
      ≡ none
    → (n : NormalizedTransaction) × (w : S) × (ingest_transaction session outage integrity_error env
          event context s
        ≡ (returned n, w))
      × Shows event n
      × Stored session outage integrity_error env event context
          (session.durable s)
          (session.durable w)
ingest_transaction-Returns session outage integrity_error env event context s up idle keys fresh
      unseen known new =
    let (n, w, ends, shown) =
      ingest-returns session outage integrity_error env event context up (session.durable s) keys
        fresh unseen known new s refl idle in
    let end =
      ingest_transaction-Ends session outage integrity_error env event context s idle keys fresh in
    (
      n,
      w,
      ends,
      shown,
      returned-Stored session outage integrity_error env event context (session.durable s)
          (session.durable w) (returned n) n refl
          (subst
            (λ r.
              Ends session outage integrity_error env event context (session.durable s)
                (session.durable r.1) r.0)
            ends end),
    )
