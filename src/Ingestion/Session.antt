-- ===== src/Ingestion/Session.antt =====
-- The database session of the ingestion service. SQLAlchemy and PostgreSQL are parameters: Session
-- has the calls that the code makes, and the laws that SQLAlchemy documents for one transaction at a
-- time. Any call that reaches the database may fail, its rollbacks too:
-- `outage` says which does, and with what exception.
use aegis_ai_risk_manager.Common.{
  ◌≡◌, ◌==◌, string_eq, true, false, Bool, String, ◌<>◌, Option, none, some,
}
use aegis_ai_risk_manager.Ingestion.Domain.{LogicalEdge}

-- An exception: the name of its class and its text.
pub record Fault : Type 0 where
  pub type_name : String
  pub message : String

-- `f"{type(exc).__name__}: {exc}"`
abbrev pub detail_of : Fault → String
detail_of fault = fault.type_name <> (": " <> fault.message)

-- `except IntegrityError`
abbrev pub is_integrity_error : Fault → Bool
is_integrity_error fault = fault.type_name == "IntegrityError"

-- A session over a database `D`: what is durable, what the open transaction sees, and its changes.
-- `keys_hold` tells whether the unique keys hold.
pub record Session (D : Type 0) (S : Type 0) (keys_hold : D → Bool) : Type 0 where
  pub durable : S → D
  pub visible : S → D
  pub write : (D → D) → S → S
  pub commit : S → Option S
  pub rollback : S → S
  pub durable-write : (f : D → D) (s : S) → durable (write f s) ≡ durable s
  pub visible-write : (f : D → D) (s : S) → visible (write f s) ≡ f (visible s)
  pub durable-rollback : (s : S) → durable (rollback s) ≡ durable s
  pub visible-rollback : (s : S) → visible (rollback s) ≡ durable s
  pub commit_accepts :
      (s : S)
      → keys_hold (visible s) ≡ true
      → (t : S) × (commit s ≡ some t) × (durable t ≡ visible s) × (visible t ≡ visible s)
  pub commit_rejects : (s : S) → keys_hold (visible s) ≡ false → commit s ≡ none

-- What a step of the service does to the session: it returns, or it raises.
pub data Tried (A : Type 0) : Type 0 where
  done : A → Tried A
  thrown : Fault → Tried A

abbrev pub Attempt : Type 0 → Type 0 → Type 0
Attempt S A = S → Tried A × S

module _ {S A B : Type 0} where
  abbrev pub after : (A → Attempt S B) → Tried A × S → Tried B × S
  after next (done a, s) = next a s
  after next (thrown fault, s) = (thrown fault, s)

  infixl 5 ◌>>=◌
  unfoldable pub ◌>>=◌ : Attempt S A → (A → Attempt S B) → Attempt S B
  (m >>= next) s = after next (m s)

unfoldable pub give : {S A : Type 0} → A → Attempt S A
give a s = (done a, s)

unfoldable pub throw : {S A : Type 0} → Fault → Attempt S A
throw fault s = (thrown fault, s)

unfoldable pub or_throw : {S A : Type 0} → Fault → Option A → Attempt S A
unfolding throw give
or_throw fault none = throw fault
or_throw fault (some a) = give a

infixl 5 ◌>>◌
abbrev pub ◌>>◌ : {S A B : Type 0} → Attempt S A → Attempt S B → Attempt S B
first >> second = first >>= λ _. second

-- The calls of the service that reach the database.
pub data Step : Type 0 where
  preserve_commit lock_raw find_run upsert_customer upsert_merchant upsert_instrument upsert_device
        upsert_ip upsert_address final_commit refresh read_back mark_get mark_commit
        preserve_rollback failure_rollback :
      Step
  upsert_edge : LogicalEdge → Step

module _ {D S : Type 0} {keys_hold : D → Bool} (session : Session D S keys_hold)
    (outage : Step → Option Fault) (integrity_error : Fault) where
  abbrev answer : {A : Type 0} → Option Fault → A → S → S → Tried A × S
  answer none a t s = (done a, t)
  answer (some fault) a t s = (thrown fault, s)

  -- A statement that changes the rows and returns some.
  unfoldable pub execute : {A : Type 0} → Step → (D → D × A) → Attempt S A
  execute step run s =
      answer (outage step) (run (session.visible s)).1 (session.write (λ d. (run d).0) s) s

  -- A change of objects of the session, which the next statement or commit sends.
  unfoldable pub touch : (D → D) → Attempt S (Unit {0})
  touch f s = (done tt, session.write f s)

  abbrev committed : Option S → S → Tried (Unit {0}) × S
  committed none s = (thrown integrity_error, s)
  committed (some t) s = (done tt, t)

  abbrev pub committing : Option Fault → Option S → S → Tried (Unit {0}) × S
  committing none c s = committed c s
  committing (some fault) c s = (thrown fault, s)

  unfoldable pub commit_step : Step → Attempt S (Unit {0})
  commit_step step s = committing (outage step) (session.commit s) s
