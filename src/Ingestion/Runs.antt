-- ===== src/Ingestion/Runs.antt =====
-- Statements that do not fail: each returns, and what the transaction then sees is known.
use aegis_ai_risk_manager.Common.{
  ◌≡◌, refl, sym, ap, subst, ◌∙◌, Bool, String, List, [], ◌∷◌, ◌++◌, Option, none, some, Bool-cases,
  inl, inr, ◌==◌, string_eq, arith,
}
use aegis_ai_risk_manager.Ingestion.Session.{
  Session, Attempt, done, after, ◌>>=◌, give, or_throw, Fault, Step, execute, touch,
}
use aegis_ai_risk_manager.Ingestion.Rows.{find_row}
use aegis_ai_risk_manager.Ingestion.Upserts.{upsert}

module _ {D S : Type 0} {keys_hold : D → Bool} (session : Session D S keys_hold) where
  abbrev pub Runs : {A : Type 0} → (D → Type 0) → Attempt S A → (A → D → Type 0) → Type 0
  Runs {A} P m Q =
      (s : S)
      → P (session.visible s)
      → (a : A) × (t : S) × (m s ≡ (done a, t)) × Q a (session.visible t)

  pub run_bind :
      {A B : Type 0} (P : D → Type 0) (R : A → D → Type 0) (Q : B → D → Type 0) (m : Attempt S A)
      (next : A → Attempt S B)
      → Runs P m R
      → ((a : A) → Runs (R a) (next a) Q)
      → Runs P (m >>= next) Q
  unfolding ◌>>=◌
  run_bind P R Q m next h k s p =
      let (a, t, e, r) = h s p in let (b, u, f, q) = k a t r in (b, u, ap (after next) e ∙ f, q)

  pub run_give :
      {A : Type 0} (P : D → Type 0) (Q : A → D → Type 0) (a : A)
      → ((v : D) → P v → Q a v)
      → Runs P (give a) Q
  unfolding give
  run_give P Q a h s p = (a, s, refl, h (session.visible s) p)

  pub run_or_throw :
      {A : Type 0} (P : D → Type 0) (Q : A → D → Type 0) (fault : Fault) (o : Option A)
      → ((v : D) → P v → (a : A) × (o ≡ some a) × Q a v)
      → Runs P (or_throw fault o) Q
  unfolding or_throw
  run_or_throw P Q fault o h s p =
      let (a, e, q) = h (session.visible s) p in (a, s, ap (λ o. or_throw fault o s) e, q)

  module _ (outage : Step → Option Fault) (integrity_error : Fault) where
    pub run_execute :
        {A : Type 0} (P : D → Type 0) (Q : A → D → Type 0) (step : Step) (run : D → D × A)
        → outage step ≡ none
        → ((v : D) → P v → Q (run v).1 (run v).0)
        → Runs P (execute session outage integrity_error step run) Q
    unfolding execute
    run_execute P Q step run up h s p =
        let v = session.visible s in
        (
          (run v).1,
          session.write (λ d. (run d).0) s,
          rw up refl,
          subst (Q (run v).1) (sym (session.visible-write (λ d. (run d).0) s)) (h v p),
        )

    pub run_touch :
        (P : D → Type 0) (Q : Unit {0} → D → Type 0) (f : D → D)
        → ((v : D) → P v → Q tt (f v))
        → Runs P (touch session outage integrity_error f) Q
    unfolding touch
    run_touch P Q f h s p = (
      tt,
      session.write f s,
      refl,
      subst (Q tt) (sym (session.visible-write f s)) (h (session.visible s) p),
    )

module _ {R : Type 0} (column : R → String) where
  -- Some row has the value in the column.
  abbrev pub Found : String → List R → Type 0
  Found value rs = (r : R) × (find_row column value rs ≡ some r)

  pub find_row-append :
      (r : R) (rs : List R)
      → find_row column (column r) rs ≡ none
      → find_row column (column r) (rs ++ (r ∷ [])) ≡ some r
  unfolding find_row
  find_row-append r [] h = rw ((string_eq.beq_iff (column r) (column r)).1 refl) refl
  find_row-append r (x ∷ rs) h = elim (Bool-cases (column x == column r)) [
    | inl same ↦ absurd (ground (arith, h, same))
    | inr other ↦ rw other (find_row-append r rs (rw other at h))
  ]

  -- The row that an upsert returns is in the table.
  pub Found-upsert :
      (same : R → Bool) (fresh : R) (update : R → R) (rs : List R)
      → Found (column (upsert same fresh update rs).1) (upsert same fresh update rs).0
  unfolding find_row upsert
  Found-upsert same fresh update [] =
      (fresh, rw ((string_eq.beq_iff (column fresh) (column fresh)).1 refl) refl)
  Found-upsert same fresh update (r ∷ rs) = elim (Bool-cases (same r)) [
    | inl conflict ↦
        rw conflict
          (update r, rw ((string_eq.beq_iff (column (update r)) (column (update r))).1 refl) refl)
    | inr other ↦
        let (found, e) = Found-upsert same fresh update rs in
        rw other (elim (Bool-cases (column r == column (upsert same fresh update rs).1)) [
          | inl earlier ↦ (r, rw earlier refl)
          | inr later ↦ (found, rw later e)
        ])
  ]
