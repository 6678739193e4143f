-- ===== src/Ingestion/Triples.antt =====
-- Reasoning about statements: before the commit nothing is durable, and what the open transaction
-- sees satisfies an assertion after each statement that does not raise.
use aegis_ai_risk_manager.Common.{
  ◌≡◌, sym, ◌∙◌, inl, inr, subst, Bool, Option, none, some, Option-cases,
}
use aegis_ai_risk_manager.Ingestion.Session.{
  Session, Attempt, Tried, done, thrown, after, ◌>>=◌, give, or_throw, Fault, Step, execute, touch,
}

module _ {D S : Type 0} {keys_hold : D → Bool} (session : Session D S keys_hold) where
  abbrev pub Holds : {A : Type 0} → D → (A → D → Type 0) → Tried A × S → Type 0
  Holds d Q (done a, s) = (session.durable s ≡ d) × Q a (session.visible s)
  Holds d Q (thrown fault, s) = session.durable s ≡ d

  abbrev pub Triple : {A : Type 0} → D → (D → Type 0) → Attempt S A → (A → D → Type 0) → Type 0
  Triple d P m Q = (s : S) → session.durable s ≡ d → P (session.visible s) → Holds d Q (m s)

  after-Holds :
      {A B : Type 0} (d : D) (R : A → D → Type 0) (Q : B → D → Type 0) (next : A → Attempt S B)
      → ((a : A) → Triple d (R a) (next a) Q)
      → (r : Tried A × S) → Holds d R r
      → Holds d Q (after next r)
  after-Holds d R Q next h (done a, s) k = h a s k.0 k.1
  after-Holds d R Q next h (thrown fault, s) k = k

  pub bind_rule :
      {A B : Type 0} (d : D) (P : D → Type 0) (R : A → D → Type 0) (Q : B → D → Type 0)
      (m : Attempt S A) (next : A → Attempt S B)
      → Triple d P m R
      → ((a : A) → Triple d (R a) (next a) Q)
      → Triple d P (m >>= next) Q
  unfolding ◌>>=◌
  bind_rule d P R Q m next h k s e p = after-Holds d R Q next k (m s) (h s e p)

  pub give_rule :
      {A : Type 0} (d : D) (P : D → Type 0) (Q : A → D → Type 0) (a : A)
      → ((v : D) → P v → Q a v)
      → Triple d P (give a) Q
  unfolding give
  give_rule d P Q a h s e p = (e, h (session.visible s) p)

  pub or_throw_rule :
      {A : Type 0} (d : D) (P : D → Type 0) (Q : A → D → Type 0) (fault : Fault) (o : Option A)
      → ((a : A) (v : D) → P v → Q a v)
      → Triple d P (or_throw fault o) Q
  unfolding or_throw
  or_throw_rule d P Q fault none h s e p = e
  or_throw_rule d P Q fault (some a) h s e p = (e, h a (session.visible s) p)

  module _ (outage : Step → Option Fault) (integrity_error : Fault) where
    pub execute_rule :
        {A : Type 0} (d : D) (P : D → Type 0) (Q : A → D → Type 0) (step : Step) (run : D → D × A)
        → ((v : D) → P v → Q (run v).1 (run v).0)
        → Triple d P (execute session outage integrity_error step run) Q
    unfolding execute
    execute_rule d P Q step run h s e p = elim (Option-cases (outage step)) [
      | inl up ↦ rw up (
        session.durable-write (λ v. (run v).0) s ∙ e,
        subst (Q (run (session.visible s)).1) (sym (session.visible-write (λ v. (run v).0) s))
            (h (session.visible s) p),
      )
      | inr (fault, down) ↦ rw down e
    ]

    pub touch_rule :
        (d : D) (P : D → Type 0) (Q : Unit {0} → D → Type 0) (f : D → D)
        → ((v : D) → P v → Q tt (f v))
        → Triple d P (touch session outage integrity_error f) Q
    unfolding touch
    touch_rule d P Q f h s e p = (
      session.durable-write f s ∙ e,
      subst (Q tt) (sym (session.visible-write f s)) (h (session.visible s) p),
    )
