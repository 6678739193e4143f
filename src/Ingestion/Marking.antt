-- ===== src/Ingestion/Marking.antt =====
-- What becomes of the preserved event after a failure: `_mark_raw_failed` on a session that was
-- rolled back, and the unique key on the way to each commit.
use aegis_ai_risk_manager.Common.{
  ◌≡◌, refl, ap, subst, ◌∙◌, ◌⊎◌, inl, inr, Bool, not, ◌&&◌, Bool-cases, String, List, [], ◌∷◌,
  ◌++◌, Option, none, some, ◌||◌, ◌==◌, string_eq, arith,
}
use aegis_ai_risk_manager.Common.Sets.{contains}
use aegis_ai_risk_manager.Enums.{processing_failed}
use aegis_ai_risk_manager.Ingestion.Domain.{
  RawPaymentEvent, RawEvent, TrustedSyntheticContext, Database,
}
use aegis_ai_risk_manager.Ingestion.Session.{
  Session, Attempt, Tried, done, thrown, after, ◌>>=◌, ◌>>◌, Fault, Step, mark_get, mark_commit,
  touch, commit_step, committing, touch,
}
use aegis_ai_risk_manager.Ingestion.Upserts.{Environment}
use aegis_ai_risk_manager.Ingestion.Rows.{
  find_row, disappeared, all_distinct, event_ids, event_ids_hold, clip,
}
use aegis_ai_risk_manager.Ingestion.Triples.{
  Triple, Holds, bind_rule, touch_rule, execute_rule, or_throw_rule,
}
use aegis_ai_risk_manager.Ingestion.Ingest.{set_raw, get_raw, mark_raw_failed}

-- Two rows of the same event at the end of a table give the same identifiers.
pub event_ids-append :
    {F : Type 0} (rs : List (RawEvent F)) (r : RawEvent F)
    → event_ids (rs ++ (r ∷ [])) ≡ event_ids rs ++ (r.event_id ∷ [])
event_ids-append [] r = refl
event_ids-append (x ∷ rs) r = ap (◌∷◌ x.event_id) (event_ids-append rs r)

contains-append_last :
    (xs : List String) (x y : String) → contains (xs ++ (x ∷ [])) y ≡ (contains xs y || (x == y))
unfolding contains
contains-append_last [] x y = ground arith
contains-append_last (z ∷ xs) x y = ground (arith, contains-append_last xs x y)

-- A new identifier keeps a list distinct exactly when it is not in it.
pub all_distinct-append :
    (xs : List String) (x : String)
    → all_distinct (xs ++ (x ∷ [])) ≡ (all_distinct xs && not (contains xs x))
unfolding all_distinct contains
all_distinct-append [] x = refl
all_distinct-append (y ∷ xs) x = ground (
  arith,
  all_distinct-append xs x,
  contains-append_last xs x y,
  string_eq.beq_iff x y,
  string_eq.beq_iff y x,
)

module _ {D S : Type 0} {keys_hold : D → Bool} (session : Session D S keys_hold)
    (outage : Step → Option Fault) (integrity_error : Fault) where
  -- A commit raises and makes nothing durable, or makes durable what the transaction sees.
  abbrev pub Commits : S → Tried (Unit {0}) × S → Type 0
  Commits s (done u, t) =
      (session.durable t ≡ session.visible s) × (session.visible t ≡ session.visible s)
  Commits s (thrown fault, t) = session.durable t ≡ session.durable s

  committing-Commits :
      (s : S) (o : Option Fault) (c : Option S)
      → (c ≡ none)
        ⊎ ((t : S) × (c ≡ some t)
            × (session.durable t ≡ session.visible s)
            × (session.visible t ≡ session.visible s))
      → Commits s (committing session outage integrity_error o c s)
  committing-Commits s (some fault) c h = refl
  committing-Commits s none none h = refl
  committing-Commits s none (some t) (inl twice) = cc
  committing-Commits s none (some t) (inr (u, same, kept, seen)) =
      let e : u ≡ t = ground (arith, same) in
      subst (λ w. (session.durable w ≡ session.visible s) × (session.visible w ≡ session.visible s))
        e (kept, seen)

  pub commit_step-Commits :
      (step : Step) (s : S) → Commits s (commit_step session outage integrity_error step s)
  unfolding commit_step
  commit_step-Commits step s =
      committing-Commits s (outage step) (session.commit s)
        (elim (Bool-cases (keys_hold (session.visible s))) [
          | inr twice ↦ inl (session.commit_rejects s twice)
          | inl once ↦ inr (session.commit_accepts s once)
        ])

module _ {F S : Type 0} (session : Session (Database F) S event_ids_hold)
    (outage : Step → Option Fault) (integrity_error : Fault) (env : Environment)
    (event : RawPaymentEvent F) (context : Option TrustedSyntheticContext) where
  abbrev pub mark_failed : String → RawEvent F → RawEvent F
  mark_failed detail r = record r {
    processing_status = processing_failed;
    processing_error = some (clip 4000 detail);
  }

  -- Marking raises and leaves the durable tables, or only the preserved event changes in them.
  abbrev pub Marks : String → Database F → Tried (Unit {0}) × S → Type 0
  Marks detail v (done u, s) =
      session.durable s
      ≡ set_raw session outage integrity_error env event context (mark_failed detail) v
  Marks detail v (thrown fault, s) = session.durable s ≡ v

  Commits-Marks :
      (detail : String) (v : Database F) (s : S) (p : Tried (Unit {0}) × S)
      → session.durable s ≡ v
      → session.visible s
        ≡ set_raw session outage integrity_error env event context (mark_failed detail) v
      → Commits session outage integrity_error s p
      → Marks detail v p
  Commits-Marks detail v s (done u, t) e f h = h.0 ∙ f
  Commits-Marks detail v s (thrown fault, t) e f h = h ∙ e

  commit-Marks :
      (detail : String) (v : Database F) (r : Tried (Unit {0}) × S)
      → Holds session v
          (λ u w.
            w ≡ set_raw session outage integrity_error env event context (mark_failed detail) v)
          r
      → Marks detail v (after (λ u. commit_step session outage integrity_error mark_commit) r)
  commit-Marks detail v (thrown fault, s) h = h
  commit-Marks detail v (done u, s) h =
      Commits-Marks detail v s (commit_step session outage integrity_error mark_commit s) h.0 h.1
        (commit_step-Commits session outage integrity_error mark_commit s)

  get_raw-keeps :
      (v : Database F)
      → Triple session v
          (λ w. w ≡ v)
          (get_raw session outage integrity_error env event context mark_get)
          (λ r w. w ≡ v)
  unfolding get_raw
  get_raw-keeps v =
      bind_rule session v (λ w. w ≡ v) (λ o w. w ≡ v) (λ r w. w ≡ v) _ _
        (execute_rule session outage integrity_error v (λ w. w ≡ v) (λ o w. w ≡ v) mark_get
          (λ w. (w, find_row (λ (r : RawEvent F). r.id) (env.new_id "raw_events") w.raw_events))
          (λ w h. h))
        (λ raw. or_throw_rule session v (λ w. w ≡ v) (λ r w. w ≡ v) disappeared raw (λ r w h. h))

  abbrev set_and_commit : String → Attempt S (Unit {0})
  set_and_commit detail =
      touch session outage integrity_error
        (set_raw session outage integrity_error env event context (mark_failed detail))
      >> commit_step session outage integrity_error mark_commit

  set_and_commit-Marks :
      (detail : String) (v : Database F) (r : Tried (RawEvent F) × S)
      → Holds session v (λ raw w. w ≡ v) r
      → Marks detail v (after (λ raw. set_and_commit detail) r)
  unfolding ◌>>=◌
  set_and_commit-Marks detail v (thrown fault, s) h = h
  set_and_commit-Marks detail v (done raw, s) h =
      let setting = set_raw session outage integrity_error env event context (mark_failed detail) in
      commit-Marks detail v (touch session outage integrity_error setting s) (
        touch_rule session outage integrity_error v (λ w. w ≡ v) (λ u w. w ≡ setting v) setting
          (λ w e. ap setting e) s h.0 h.1)

  -- On a session that was rolled back to the durable tables, marking raises and leaves them, or
  -- changes the preserved event alone.
  pub mark_raw_failed-Marks :
      (detail : String) (v : Database F) (s : S)
      → session.durable s ≡ v
      → session.visible s ≡ v
      → Marks detail v (mark_raw_failed session outage integrity_error env event context detail s)
  unfolding mark_raw_failed ◌>>=◌
  mark_raw_failed-Marks detail v s e f =
      set_and_commit-Marks detail v
        (get_raw session outage integrity_error env event context mark_get s)
        (get_raw-keeps v s e f)
