-- ===== src/Ingestion/Normalized.antt =====
-- What the body of the `try` of `ingest_transaction` leaves: nothing, or a stored transaction that
-- was read back.
use aegis_ai_risk_manager.Common.{
  ◌≡◌, refl, sym, ap, subst, ◌∙◌, ◌⊎◌, inl, inr, [], ◌∷◌, ◌++◌, Option, none, some, string_eq,
}
use aegis_ai_risk_manager.Ingestion.Domain.{
  RawPaymentEvent, RawEvent, TrustedSyntheticContext, Transaction, Database, NormalizedTransaction,
}
use aegis_ai_risk_manager.Ingestion.Session.{
  or_throw, throw, give, Session, Attempt, Tried, done, thrown, after, ◌>>=◌, ◌>>◌, Fault, Step,
  final_commit, refresh, read_back, commit_step, execute,
}
use aegis_ai_risk_manager.Ingestion.Upserts.{Environment}
use aegis_ai_risk_manager.Ingestion.Rows.{find_row, event_ids_hold, read_row, not_found}
use aegis_ai_risk_manager.Ingestion.Triples.{Triple, Holds, bind_rule, execute_rule}
use aegis_ai_risk_manager.Ingestion.Ingest.{raw_row, store, normalize, transaction_to_schema}
use aegis_ai_risk_manager.Ingestion.Store.{IsStored, store-Triple}
use aegis_ai_risk_manager.Ingestion.Marking.{Commits, commit_step-Commits}

-- The tables with one more event.
abbrev pub with_raw : {F : Type 0} → Database F → RawEvent F → Database F
with_raw d r = record d { raw_events = d.raw_events ++ (r ∷ []) }

module _ {F S : Type 0} (session : Session (Database F) S event_ids_hold)
    (outage : Step → Option Fault) (integrity_error : Fault) (env : Environment)
    (event : RawPaymentEvent F) (context : Option TrustedSyntheticContext) where
  abbrev pub Stored : Database F → Database F → Type 0
  Stored d v = (t : Transaction) × IsStored session outage integrity_error env event context d t v

  abbrev first_row : RawEvent F
  first_row = raw_row session outage integrity_error env event context

  -- After the body of the `try`: nothing more is durable and it raised, or the transaction is stored,
  -- and a returned one was read from its row.
  abbrev pub Normalized : Database F → Tried NormalizedTransaction × S → Type 0
  Normalized d (done n, s) =
      (t : Transaction) × IsStored session outage integrity_error env event context d t
        (session.durable s)
      × (read_row t.id (session.durable s) ≡ some n)
  Normalized d (thrown fault, s) =
      (session.durable s ≡ with_raw d first_row) ⊎ Stored d (session.durable s)

  abbrev reading : Transaction → Attempt S NormalizedTransaction
  reading t =
      execute session outage integrity_error refresh (λ v. (v, tt))
      >> transaction_to_schema session outage integrity_error env event context t

  found-Triple :
      (v : Database F) (t : Transaction) (o : Option NormalizedTransaction)
      → Triple session v
          (λ w. o ≡ read_row t.id v)
          (or_throw not_found o)
          (λ n w. read_row t.id v ≡ some n)
  unfolding or_throw throw give
  found-Triple v t none s e p = e
  found-Triple v t (some n) s e p = (e, sym p)

  -- Reading back leaves the durable tables, and returns what they hold.
  reading-Triple :
      (v : Database F) (t : Transaction)
      → Triple session v (λ w. w ≡ v) (reading t) (λ n w. read_row t.id v ≡ some n)
  unfolding transaction_to_schema
  reading-Triple v t =
      let Read = λ (n : NormalizedTransaction) (w : Database F). read_row t.id v ≡ some n in
      bind_rule session v (λ w. w ≡ v) (λ u w. w ≡ v) Read _ _
        (execute_rule session outage integrity_error v (λ w. w ≡ v) (λ u w. w ≡ v) refresh
          (λ w. (w, tt)) (λ w h. h))
        (λ u.
          bind_rule session v (λ w. w ≡ v) (λ o w. o ≡ read_row t.id v) Read _ _
            (execute_rule session outage integrity_error v (λ w. w ≡ v) (λ o w. o ≡ read_row t.id v)
              read_back (λ w. (w, read_row t.id w)) (λ w h. ap (read_row t.id) h))
            (found-Triple v t))

  read-Normalized :
      (d v : Database F) (t : Transaction) (r : Tried NormalizedTransaction × S)
      → IsStored session outage integrity_error env event context d t v
      → Holds session v (λ n w. read_row t.id v ≡ some n) r
      → Normalized d r
  read-Normalized d v t (done n, s) k h = (
    t,
    subst (IsStored session outage integrity_error env event context d t) (sym h.0) k,
    subst (λ e. read_row t.id e ≡ some n) (sym h.0) h.1,
  )
  read-Normalized d v t (thrown fault, s) k h = inr (subst (Stored d) (sym h) (t, k))

  committed-Normalized :
      (d : Database F) (t : Transaction) (s : S) (p : Tried (Unit {0}) × S)
      → session.durable s ≡ with_raw d first_row
      → IsStored session outage integrity_error env event context d t (session.visible s)
      → Commits session outage integrity_error s p
      → Normalized d (after (λ u. reading t) p)
  committed-Normalized d t s (thrown fault, w) e k h = inl (h ∙ e)
  committed-Normalized d t s (done u, w) e k h =
      read-Normalized d (session.visible s) t (reading t w) k
        (reading-Triple (session.visible s) t w h.0 h.1)

  stored-Normalized :
      (d : Database F) (r : Tried Transaction × S)
      → Holds session
          (with_raw d first_row)
          (IsStored session outage integrity_error env event context d)
          r
      → Normalized d
          (after (λ t. commit_step session outage integrity_error final_commit >> reading t) r)
  unfolding ◌>>=◌
  stored-Normalized d (thrown fault, s) h = inl h
  stored-Normalized d (done t, s) h =
      committed-Normalized d t s (commit_step session outage integrity_error final_commit s) h.0 h.1
        (commit_step-Commits session outage integrity_error final_commit s)

  module _ (d : Database F)
      (fresh : find_row (λ (r : RawEvent F). r.id) (env.new_id "raw_events") d.raw_events
        ≡ none) where
    pub normalize-Normalized :
        (s : S)
        → session.durable s ≡ with_raw d first_row
        → session.visible s ≡ with_raw d first_row
        → Normalized d (normalize session outage integrity_error env event context s)
    unfolding normalize ◌>>=◌
    normalize-Normalized s e f =
        stored-Normalized d (store session outage integrity_error env event context s) (
          store-Triple session outage integrity_error env event context d fresh
            (with_raw d first_row) s e (rw f (refl, refl, refl)))
