-- ===== src/Ingestion/Rows.antt =====
-- apps/api/app/services/transactions.py and apps/api/app/models/events.py: reading and updating rows,
-- the unique key of `raw_events`, and the exceptions that the service itself raises.
use aegis_ai_risk_manager.Common.{
  ℕ, zero, suc, Bool, true, false, String, ◌<>◌, List, [], ◌∷◌, Option, none, some, ◌==◌, string_eq,
  if◌then◌else◌,
}
use aegis_ai_risk_manager.Common.Sets.{contains}
use aegis_ai_risk_manager.Ingestion.Domain.{
  RawEvent, Customer, Merchant, PaymentInstrument, Device, IpAddress, Address, Transaction,
  Database, NormalizedTransaction,
}
use aegis_ai_risk_manager.Ingestion.Session.{Fault}

infixl 5 ◌>>=◌
abbrev ◌>>=◌ : {A B : Type 0} → Option A → (A → Option B) → Option B
none >>= next = none
(some a) >>= next = next a

-- The first row with a given text in a column.
unfoldable pub find_row : {R : Type 0} → (R → String) → String → List R → Option R
find_row column value [] = none
find_row column value (r ∷ rs) = if column r == value then some r else find_row column value rs

unfoldable pub update_row : {R : Type 0} → (R → String) → String → (R → R) → List R → List R
update_row column value f [] = []
update_row column value f (r ∷ rs) =
    if column r == value then f r ∷ rs else r ∷ update_row column value f rs

-- No two texts are equal.
unfoldable pub all_distinct : List String → Bool
unfolding contains
all_distinct [] = true
all_distinct (x ∷ xs) = if contains xs x then false else all_distinct xs

-- The key of `raw_events`.
abbrev pub event_ids : {F : Type 0} → List (RawEvent F) → List String
event_ids [] = []
event_ids (r ∷ rs) = r.event_id ∷ event_ids rs

unfoldable pub event_ids_hold : {F : Type 0} → Database F → Bool
unfolding all_distinct
event_ids_hold d = all_distinct (event_ids d.raw_events)

-- `detail[:n]`
unfoldable pub clip : ℕ → String → String
clip zero s = String.[]
clip (suc n) String.[] = String.[]
clip (suc n) (String.◌∷◌ c s) = String.◌∷◌ c (clip n s)

abbrev pub disappeared : Fault
disappeared = record { type_name = "RuntimeError"; message = "Preserved raw event disappeared" }

abbrev pub unknown_run : String → Fault
unknown_run id = record { type_name = "ValueError"; message = "Unknown scenario_run_id: " <> id }

abbrev pub not_found : Fault
not_found = record {
  type_name = "NoResultFound";
  message = "No row was found when one was required";
}

-- `_transaction_query().where(Transaction.id == id)` and `_row_to_schema`.
abbrev pub to_schema :
    {F : Type 0}
    → Transaction
    → Customer
    → Merchant F
    → PaymentInstrument
    → Device
    → IpAddress
    → Address
    → NormalizedTransaction
to_schema t customer merchant instrument device ip_address address = record {
  transaction_public_id = t.public_id;
  customer_public_id = customer.public_id;
  merchant_public_id = merchant.public_id;
  payment_instrument_public_id = instrument.public_id;
  device_public_id = device.public_id;
  ip_address_public_id = ip_address.public_id;
  address_public_id = address.public_id;
  amount_paise = t.amount_paise;
  currency = t.currency;
  payment_method = t.payment_method;
  event_time = t.event_time;
  status = t.status;
  failure_code = t.failure_code;
  received_at = t.received_at;
  processed_at = t.processed_at;
  created_at = t.created_at;
}

unfoldable pub join_row : {F : Type 0} → Database F → Transaction → Option NormalizedTransaction
unfolding find_row
join_row {F} d t = do
  customer ← find_row (λ (r : Customer). r.id) t.customer_id d.customers
  merchant ← find_row (λ (r : Merchant F). r.id) t.merchant_id d.merchants
  instrument ← find_row (λ (r : PaymentInstrument). r.id) t.payment_instrument_id d.instruments
  device ← find_row (λ (r : Device). r.id) t.device_id d.devices
  ip_address ← find_row (λ (r : IpAddress). r.id) t.ip_address_id d.ip_addresses
  address ← find_row (λ (r : Address). r.id) t.address_id d.addresses
  some (to_schema t customer merchant instrument device ip_address address)

unfoldable pub read_row : {F : Type 0} → String → Database F → Option NormalizedTransaction
unfolding find_row join_row
read_row id d = find_row (λ (r : Transaction). r.id) id d.transactions >>= join_row d

-- `get_transaction`
unfoldable pub get_transaction : {F : Type 0} → String → Database F → Option NormalizedTransaction
unfolding find_row join_row
get_transaction public_id d =
    find_row (λ (r : Transaction). r.public_id) public_id d.transactions >>= join_row d
