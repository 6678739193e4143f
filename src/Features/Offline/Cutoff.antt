-- ===== src/Features/Offline/Cutoff.antt =====
-- What is observed at a payment's time or later does not change its history.
use aegis_ai_risk_manager.Common.{
  ◌≡◌, refl, sym, ap, ◌∙◌, String, List, [], ◌∷◌, ◌++◌, select, select-append, ◌==◌, string_eq,
  nat_eq,
}
use mathlib.Core.List.{append-nil}
use aegis_ai_risk_manager.Common.Ascending.{
  IsAscending, NotBefore, before, IsAscending-select, NotBefore-select, select_none_before,
  IsAscending-append,
}
use aegis_ai_risk_manager.Common.Ascending.Bisect.{cut, cut_lem}
use aegis_ai_risk_manager.Features.Domain.{ScoringFeatureTransaction, FeatureTransaction}
use aegis_ai_risk_manager.Features.Engine.{Records, time_of}
use aegis_ai_risk_manager.Features.History.{
  EntityField, entity_fields, no_indexes, get_field, value_of, records_of, observe_many, file_by_id,
  file_fields, history_for,
}
use aegis_ai_risk_manager.Features.History.Laws.{records_of-observe_many}

module _ (pre post : Records) (ascending : IsAscending time_of (pre ++ post))
    (current : ScoringFeatureTransaction) (later : NotBefore time_of current.event_time post) where
  -- What is observed at the payment's time or later does not change the cutoff.
  cut-observe_many :
      (field : EntityField) (value : String)
      → cut time_of current.event_time
          (records_of value (observe_many (pre ++ post) no_indexes field))
        ≡ cut time_of current.event_time (records_of value (observe_many pre no_indexes field))
  unfolding records_of select
  cut-observe_many field value =
      let matches = λ (r : FeatureTransaction). value_of field r == value in
      let early = before time_of current.event_time in
      let split = select-append matches pre post in
      let late =
        select_none_before time_of current.event_time (select matches post)
          (NotBefore-select time_of matches current.event_time post later) in
      rw
        (
          records_of-observe_many (pre ++ post) no_indexes field value,
          records_of-observe_many pre no_indexes field value,
        )
        (cut_lem time_of current.event_time (select matches (pre ++ post))
            (IsAscending-select time_of matches (pre ++ post) ascending)
          ∙ (ap (select early) split
              ∙ (select-append early (select matches pre) (select matches post)
                  ∙ (ap (λ xs. select early (select matches pre) ++ xs) late
                      ∙ (append-nil (select early (select matches pre))
                          ∙ sym (
                              cut_lem time_of current.event_time (select matches pre) (
                                IsAscending-select time_of matches pre
                                  (IsAscending-append time_of pre post ascending))))))))

  file_fields-observe_many :
      (fields : List EntityField) (d : List (String × FeatureTransaction))
      → file_fields fields (observe_many (pre ++ post) no_indexes) current d
        ≡ file_fields fields (observe_many pre no_indexes) current d
  unfolding file_fields
  file_fields-observe_many [] d = refl
  file_fields-observe_many (field ∷ fields) d =
      rw (cut-observe_many field (get_field field current)) (
        file_fields-observe_many fields (
          file_by_id
            (cut time_of current.event_time
              (records_of (get_field field current) (observe_many pre no_indexes field)))
            d))

  pub history_for-observe_many :
      history_for (observe_many (pre ++ post) no_indexes) current
      ≡ history_for (observe_many pre no_indexes) current
  unfolding history_for
  history_for-observe_many = rw (file_fields-observe_many entity_fields []) refl
