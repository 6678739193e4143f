-- ===== src/Features/History/Past.antt =====
-- The history of a payment is what was observed of its entities before it.
use aegis_ai_risk_manager.Common.{
  ◌≡◌, ◌<◌, ◌↔◌, refl, sym, ap, ◌∙◌, ◌⊎◌, inl, inr, Bool, true, false, Bool-cases, String, List, [],
  ◌∷◌, arith, select, any_of, ◌==◌, string_eq, ltb, leb, subst, some, All,
}
use aegis_ai_risk_manager.Common.Dict.{lookup, insert, lookup-insert}
use aegis_ai_risk_manager.Common.Dict.Filed.{values, All-insert, ∈-lookup}
use aegis_ai_risk_manager.Common.Members.{◌∈◌, All-∈, ∈-sort_by}
use aegis_ai_risk_manager.Common.Members.Select.{
  ∈-select, select-∈, ∈-append_right, append-∈, All-of_∈, sort_by-∈, any_of-∈,
}
use aegis_ai_risk_manager.Common.Members.{∈-append_left}
use aegis_ai_risk_manager.Common.Ascending.{sort_on, before}
use aegis_ai_risk_manager.Features.Domain.{ScoringFeatureTransaction, FeatureTransaction}
use aegis_ai_risk_manager.Features.Engine.{Records, time_of}
use aegis_ai_risk_manager.Features.History.{
  EntityField, entity_fields, provider_of, file_by_id, history_for,
}
use aegis_ai_risk_manager.Features.History.Laws.{
  matches_field, sorted_records, relevant, file_fields_lem,
}

abbrev pub id_of : FeatureTransaction → String
id_of r = r.scoring_context.transaction_public_id

-- No other record of the list has the record's identifier.
abbrev pub HasOwnId : Records → FeatureTransaction → Type 0
HasOwnId rs r = (y : FeatureTransaction) → y ∈ rs → (id_of y == id_of r) ≡ true → y ≡ r

-- A record of one of the payment's entities.
abbrev pub shares : ScoringFeatureTransaction → FeatureTransaction → Bool
shares current r = any_of (λ field. matches_field field current r) entity_fields

All-file_by_id :
    (P : FeatureTransaction → Type 0) (xs : Records) (d : List (String × FeatureTransaction))
    → All P xs
    → All P (values d)
    → All P (values (file_by_id xs d))
unfolding file_by_id
All-file_by_id P [] d h k = k
All-file_by_id P (x ∷ xs) d h k =
    All-file_by_id P xs (insert (id_of x) x d) h.1 (All-insert P (id_of x) x d h.0 k)

lookup-file_by_id :
    (r : FeatureTransaction) (xs : Records) (d : List (String × FeatureTransaction))
    → HasOwnId xs r
    → (r ∈ xs) ⊎ (lookup (id_of r) d ≡ some r)
    → lookup (id_of r) (file_by_id xs d) ≡ some r
unfolding file_by_id
lookup-file_by_id r [] d own (inl m) = absurd m
lookup-file_by_id r [] d own (inr old) = old
lookup-file_by_id r (x ∷ xs) d own h =
    let filed = lookup-insert (id_of x) (id_of r) x d in
    lookup-file_by_id r xs (insert (id_of x) x d) (λ y m. own y (inr m))
      (elim (Bool-cases (id_of x == id_of r)) [
        | inl same ↦ inr (filed ∙ rw same (ap some (own x (inl refl) same)))
        | inr other ↦ elim h [
          | inl m ↦ elim m [
            | inl e ↦
                absurd (ground (arith, other, string_eq.beq_iff (id_of x) (id_of r), ap id_of e))
            | inr n ↦ inl n
          ]
          | inr old ↦ inr (filed ∙ rw other old)
        ]
      ])

relevant-∈ :
    (fields : List EntityField) (rs : Records) (current : ScoringFeatureTransaction)
    (r : FeatureTransaction)
    → r ∈ relevant fields rs current
    → (r ∈ rs)
      × (time_of r < current.event_time)
      × (any_of (λ field. matches_field field current r) fields ≡ true)
unfolding relevant any_of
relevant-∈ [] rs current r m = absurd m
relevant-∈ (field ∷ fields) rs current r m =
    elim (append-∈ r
      (select (before time_of current.event_time)
        (select (matches_field field current) (sorted_records rs)))
      (relevant fields rs current) m) [
        | inl found ↦
            let (early, in_time) =
              select-∈ (before time_of current.event_time) r
                (select (matches_field field current) (sorted_records rs)) found in
            let (listed, same) =
              select-∈ (matches_field field current) r (sorted_records rs) early in
            (
              sort_by-∈ (λ a b. ltb (time_of a) (time_of b)) r rs listed,
              ground (arith, in_time),
              rw same refl,
            )
        | inr later ↦
            let (listed, in_time, same) = relevant-∈ fields rs current r later in
            (listed, in_time, rw same (ground arith))
      ]

∈-relevant :
    (fields : List EntityField) (rs : Records) (current : ScoringFeatureTransaction)
    (r : FeatureTransaction)
    → r ∈ rs
    → time_of r < current.event_time
    → any_of (λ field. matches_field field current r) fields ≡ true
    → r ∈ relevant fields rs current
unfolding relevant any_of
∈-relevant [] rs current r m early h = absurd (ground (arith, h))
∈-relevant (field ∷ fields) rs current r m early h =
    let by_field = select (matches_field field current) (sorted_records rs) in
    elim (Bool-cases (matches_field field current r)) [
      | inl here ↦
          ∈-append_left r (select (before time_of current.event_time) by_field)
            (relevant fields rs current)
            (∈-select (before time_of current.event_time) r by_field
              (∈-select (matches_field field current) r (sorted_records rs)
                (∈-sort_by (λ a b. ltb (time_of a) (time_of b)) r rs m) here)
              (ground (arith, early)))
      | inr there ↦
          ∈-append_right r (select (before time_of current.event_time) by_field)
            (relevant fields rs current) (∈-relevant fields rs current r m early (rw there at h))
    ]

module _ (rs : Records) (current : ScoringFeatureTransaction) where
  abbrev by_id : List (String × FeatureTransaction)
  by_id = file_by_id (relevant entity_fields rs current) []

  history_for_lem : history_for (provider_of rs) current ≡ sort_on time_of (values by_id)
  unfolding history_for
  history_for_lem =
      ap (λ d. sort_on time_of (values d)) (file_fields_lem entity_fields rs current [])

  -- What the provider returns was given to it, is earlier than the payment and shares an entity
  -- with it.
  pub history_for-∈ :
      (r : FeatureTransaction)
      → r ∈ history_for (provider_of rs) current
      → (r ∈ rs) × (time_of r < current.event_time) × (shares current r ≡ true)
  history_for-∈ r m =
      let filed =
        sort_by-∈ (λ a b. ltb (time_of a) (time_of b)) r (values by_id)
          (subst (λ xs. r ∈ xs) history_for_lem m) in
      relevant-∈ entity_fields rs current r (
        All-∈ (λ x. x ∈ relevant entity_fields rs current) (values by_id) r
          (All-file_by_id (λ x. x ∈ relevant entity_fields rs current)
            (relevant entity_fields rs current) []
            (All-of_∈ (λ x. x ∈ relevant entity_fields rs current)
              (relevant entity_fields rs current) (λ x n. n))
            tt)
          filed)

  -- A provider built from records returns, for a payment, exactly those of the records that are
  -- strictly earlier and share an entity with it, as far as their identifiers are their own.
  pub history_for-relevant :
      (r : FeatureTransaction)
      → HasOwnId rs r
      → (r ∈ history_for (provider_of rs) current)
        ↔ ((r ∈ rs) × (time_of r < current.event_time) × (shares current r ≡ true))
  history_for-relevant r own = (
    history_for-∈ r,
    λ (listed, early, same).
        let filed =
          lookup-file_by_id r (relevant entity_fields rs current) []
            (λ y n. own y (relevant-∈ entity_fields rs current y n).0)
            (inl (∈-relevant entity_fields rs current r listed early same)) in
        subst (λ xs. r ∈ xs) (sym history_for_lem)
          (∈-sort_by (λ a b. ltb (time_of a) (time_of b)) r (values by_id)
            (∈-lookup (id_of r) by_id r filed)),
  )

  -- Nothing that the provider returns is as late as the payment.
  pub history_for-past :
      any_of (λ r. leb current.event_time (time_of r)) (history_for (provider_of rs) current)
      ≡ false
  history_for-past =
      elim (Bool-cases
        (any_of (λ r. leb current.event_time (time_of r)) (history_for (provider_of rs) current))) [
          | inl late ↦
              let (r, m, h) =
                any_of-∈ (λ r. leb current.event_time (time_of r))
                  (history_for (provider_of rs) current) late in
              let (listed, early, same) = history_for-∈ r m in absurd (ground (arith, h, early))
          | inr none_late ↦ none_late
        ]
