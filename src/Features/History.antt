-- ===== src/Features/History.antt =====
-- packages/risk_engine/features/history.py: `InMemoryHistoryProvider`. The dictionary of the five
-- indexes has a fixed set of keys and is a function of them.
pub mod Laws
pub mod Past
use aegis_ai_risk_manager.Common.{ℕ, String, List, [], ◌∷◌, ◌++◌, string_eq, Option, none, some}
use aegis_ai_risk_manager.Common.Dict.{lookup, insert}
use aegis_ai_risk_manager.Common.Ascending.{sort_on}
use aegis_ai_risk_manager.Common.Ascending.Bisect.{cut}
use aegis_ai_risk_manager.Common.Dict.Filed.{values}
use aegis_ai_risk_manager.Features.Domain.{ScoringFeatureTransaction, FeatureTransaction}
use aegis_ai_risk_manager.Features.Engine.{Records, Field, time_of}

-- `ENTITY_FIELDS`
pub data EntityField : Type 0 where
  by_customer by_device by_instrument by_ip by_address : EntityField

abbrev pub entity_fields : List EntityField
entity_fields = by_customer ∷ by_device ∷ by_instrument ∷ by_ip ∷ by_address ∷ []

-- `getattr(transaction, field)`
abbrev pub get_field : EntityField → Field
get_field by_customer t = t.customer_id
get_field by_device t = t.device_id
get_field by_instrument t = t.instrument_id
get_field by_ip t = t.ip_id
get_field by_address t = t.address_id

abbrev pub Index : Type 0
Index = List (String × Records)

abbrev pub or_no_records : Option Records → Records
or_no_records none = []
or_no_records (some records) = records

-- `self._indexes[field].get(value, [])`
unfoldable pub records_of : String → Index → Records
unfolding lookup
records_of value index = or_no_records (lookup value index)

abbrev pub Indexes : Type 0
Indexes = EntityField → Index

abbrev pub no_indexes : Indexes
no_indexes field = []

abbrev pub value_of : EntityField → FeatureTransaction → String
value_of field t = get_field field t.scoring_context

unfoldable pub observe : FeatureTransaction → Indexes → Indexes
unfolding insert records_of
observe t indexes field =
    insert (value_of field t) (records_of (value_of field t) (indexes field) ++ (t ∷ []))
      (indexes field)

unfoldable pub observe_many : Records → Indexes → Indexes
unfolding observe
observe_many [] indexes = indexes
observe_many (t ∷ ts) indexes = observe_many ts (observe t indexes)

-- `InMemoryHistoryProvider(records)`
unfoldable pub provider_of : Records → Indexes
unfolding observe_many
provider_of records = observe_many (sort_on time_of records) no_indexes

-- `by_id[record.transaction_public_id] = record` for each record
unfoldable pub file_by_id :
    Records → List (String × FeatureTransaction) → List (String × FeatureTransaction)
unfolding insert
file_by_id [] by_id = by_id
file_by_id (r ∷ records) by_id =
    file_by_id records (insert r.scoring_context.transaction_public_id r by_id)

unfoldable pub file_fields :
    List EntityField
    → Indexes
    → ScoringFeatureTransaction
    → List (String × FeatureTransaction)
    → List (String × FeatureTransaction)
unfolding file_by_id records_of cut
file_fields [] indexes current by_id = by_id
file_fields (field ∷ fields) indexes current by_id =
    let records = records_of (get_field field current) (indexes field) in
    file_fields fields indexes current (file_by_id (cut time_of current.event_time records) by_id)

unfoldable pub history_for : Indexes → ScoringFeatureTransaction → Records
unfolding file_fields
history_for indexes current =
    sort_on time_of (values (file_fields entity_fields indexes current []))
