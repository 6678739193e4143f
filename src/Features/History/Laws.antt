-- ===== src/Features/History/Laws.antt =====
-- What the indexes hold, and which of it is filed for a payment.
use mathlib.Core.List.{append_assoc, append-nil}
use aegis_ai_risk_manager.Common.{
  ◌≡◌, refl, sym, ap, ◌∙◌, inl, inr, Bool, true, false, Bool-cases, String, List, [], ◌∷◌, ◌++◌,
  if◌then◌else◌, select, ◌==◌, string_eq,
}
use aegis_ai_risk_manager.Common.Dict.{insert, lookup-insert}
use aegis_ai_risk_manager.Common.Ascending.{
  sort_on, before, IsAscending-select, sort_on-IsAscending,
}
use aegis_ai_risk_manager.Common.Ascending.Bisect.{cut, cut_lem}
use aegis_ai_risk_manager.Features.Domain.{ScoringFeatureTransaction, FeatureTransaction}
use aegis_ai_risk_manager.Features.Engine.{Records, time_of}
use aegis_ai_risk_manager.Features.History.{
  EntityField, get_field, Index, Indexes, no_indexes, records_of, value_of, observe, observe_many,
  provider_of, file_by_id, file_fields,
}

join :
    (xs : Records) (t : FeatureTransaction) (ys : Records) (b : Bool)
    → (if b then xs ++ (t ∷ []) else xs) ++ ys ≡ xs ++ (if b then t ∷ ys else ys)
join xs t ys true = append_assoc xs (t ∷ []) ys
join xs t ys false = refl

records_of-insert :
    (k v : String) (t : FeatureTransaction) (d : Index)
    → records_of v (insert k (records_of k d ++ (t ∷ [])) d)
      ≡ (if k == v then records_of v d ++ (t ∷ []) else records_of v d)
unfolding records_of
records_of-insert k v t d = elim (Bool-cases (k == v)) [
  | inl same ↦
      rw (lookup-insert k v (records_of k d ++ (t ∷ [])) d, same)
        (ap (λ w. records_of w d ++ (t ∷ [])) ((string_eq.beq_iff k v).0 same))
  | inr other ↦ rw (lookup-insert k v (records_of k d ++ (t ∷ [])) d, other) refl
]

-- The records of a field's value are those observed with it, in order.
pub records_of-observe_many :
    (ts : Records) (indexes : Indexes) (field : EntityField) (value : String)
    → records_of value (observe_many ts indexes field)
      ≡ records_of value (indexes field)
        ++ select (λ (r : FeatureTransaction). value_of field r == value) ts
unfolding observe_many observe select
records_of-observe_many [] indexes field value = sym (append-nil (records_of value (indexes field)))
records_of-observe_many (t ∷ ts) indexes field value =
    let matches = select (λ (r : FeatureTransaction). value_of field r == value) ts in
    let old = records_of value (indexes field) in
    let pushed = records_of-insert (value_of field t) value t (indexes field) in
    records_of-observe_many ts (observe t indexes) field value
    ∙ (ap (λ rs. rs ++ matches) pushed ∙ join old t matches (value_of field t == value))

abbrev pub matches_field : EntityField → ScoringFeatureTransaction → FeatureTransaction → Bool
matches_field field current r = value_of field r == get_field field current

abbrev pub sorted_records : Records → Records
sorted_records = sort_on time_of

provider_of-records :
    (rs : Records) (field : EntityField) (value : String)
    → records_of value (provider_of rs field)
      ≡ select (λ (r : FeatureTransaction). value_of field r == value) (sorted_records rs)
unfolding provider_of records_of
provider_of-records rs field value =
    records_of-observe_many (sorted_records rs) no_indexes field value

-- The cutoff leaves the earlier ones of them.
cut-provider_of :
    (rs : Records) (field : EntityField) (current : ScoringFeatureTransaction)
    → cut time_of current.event_time (records_of (get_field field current) (provider_of rs field))
      ≡ select
          (before time_of current.event_time)
          (select (matches_field field current) (sorted_records rs))
cut-provider_of rs field current = rw (provider_of-records rs field (get_field field current)) (
    cut_lem time_of current.event_time (select (matches_field field current) (sorted_records rs)) (
      IsAscending-select time_of (matches_field field current) (sorted_records rs)
        (sort_on-IsAscending time_of rs)))

-- What is filed, field after field.
unfoldable pub relevant : List EntityField → Records → ScoringFeatureTransaction → Records
relevant [] rs current = []
relevant (field ∷ fields) rs current =
    select (before time_of current.event_time)
      (select (matches_field field current) (sorted_records rs))
    ++ relevant fields rs current

file_by_id-append :
    (xs ys : Records) (d : List (String × FeatureTransaction))
    → file_by_id ys (file_by_id xs d) ≡ file_by_id (xs ++ ys) d
unfolding file_by_id
file_by_id-append [] ys d = refl
file_by_id-append (x ∷ xs) ys d =
    file_by_id-append xs ys (insert x.scoring_context.transaction_public_id x d)

pub file_fields_lem :
    (fields : List EntityField) (rs : Records) (current : ScoringFeatureTransaction)
    (d : List (String × FeatureTransaction))
    → file_fields fields (provider_of rs) current d ≡ file_by_id (relevant fields rs current) d
unfolding file_fields relevant
file_fields_lem [] rs current d = refl
file_fields_lem (field ∷ fields) rs current d =
    let past =
      select (before time_of current.event_time)
        (select (matches_field field current) (sorted_records rs)) in
    file_fields_lem fields rs current (
      file_by_id
        (cut time_of current.event_time
          (records_of (get_field field current) (provider_of rs field)))
        d)
    ∙ (ap (λ xs. file_by_id (relevant fields rs current) (file_by_id xs d))
          (cut-provider_of rs field current)
        ∙ file_by_id-append past (relevant fields rs current) d)
