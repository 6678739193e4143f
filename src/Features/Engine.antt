-- ===== src/Features/Engine.antt =====
-- packages/risk_engine/features/engine.py: the windows, the matches and the values of a feature
-- vector. The history that the provider returns, the clock, `math.log1p`, `fmean`, `pstdev`, and
-- the hour and weekday of a time are parameters.
pub mod Laws
pub mod Windows
use aegis_ai_risk_manager.Common.{
  ℕ, ◌+◌, ◌-◌, ◌*◌, Bool, true, false, not, ◌&&◌, String, List, [], ◌∷◌, map, length, max, Option,
  none, some, Result, ok, ◌>>◌, ◌>>=◌, value_error, reject_if, ltb, leb, ◌==◌, string_eq, count_of,
  select, any_of, if◌then◌else◌,
}
use aegis_ai_risk_manager.Common.Sets.{unique_from, from_keys}
use aegis_ai_risk_manager.Common.Value.{Value, int, number, flag, Mapping}
use aegis_ai_risk_manager.Common.Float.{Float, of_int, float_max}
use aegis_ai_risk_manager.Enums.{failed, status_eq}
use aegis_ai_risk_manager.Features.Registry.{feature_version}
use aegis_ai_risk_manager.Features.Domain.{ScoringFeatureTransaction, FeatureTransaction}

-- `WINDOWS`, in microseconds.
pub data Window : Type 0 where
  one_minute ten_minutes one_hour one_day thirty_days : Window

abbrev pub window_length : Window → ℕ
window_length one_minute = 60000000
window_length ten_minutes = 600000000
window_length one_hour = 3600000000
window_length one_day = 86400000000
window_length thirty_days = 2592000000000

abbrev pub Records : Type 0
Records = List FeatureTransaction

abbrev pub Field : Type 0
Field = ScoringFeatureTransaction → String

abbrev pub time_of : FeatureTransaction → ℕ
time_of r = r.scoring_context.event_time

abbrev pub is_historical_failure : FeatureTransaction → Bool
is_historical_failure r = r.status == failed

-- `lower <= event_time < current`, without the negative numbers that a lower end may be.
unfoldable pub within : Records → ScoringFeatureTransaction → Window → Records
unfolding select
within records current window =
    select
      (λ r.
        leb current.event_time (time_of r + window_length window)
        && ltb (time_of r) current.event_time)
      records

unfoldable pub matching : Records → Field → String → Records
unfolding select
matching records field value = select (λ r. field r.scoring_context == value) records

unfoldable pub unique : Records → Field → ℕ
unfolding unique_from
unique records field =
    length (from_keys (map (λ (r : FeatureTransaction). field r.scoring_context) records))

unfoldable pub failures : Records → ℕ
unfolding count_of
failures = count_of is_historical_failure

-- `not any(record.f == current.f for record in customer)`
unfoldable pub is_new : Records → Field → ScoringFeatureTransaction → Bool
unfolding any_of
is_new records field current = not (any_of (λ r. field r.scoring_context == field current) records)

abbrev pub amounts : Records → List ℕ
amounts = map (λ (r : FeatureTransaction). r.scoring_context.amount_paise)

pub record FeatureVector (F : Type 0) : Type 0 where
  pub transaction_public_id : String
  pub feature_version : String
  pub values : Mapping F
  pub computed_at : ℕ
  pub max_source_event_time : Option ℕ

abbrev pub later : ℕ → Option ℕ → Option ℕ
later n none = some n
later n (some m) = some (max n m)

unfoldable pub latest_time : Records → Option ℕ
latest_time [] = none
latest_time (r ∷ records) = later (time_of r) (latest_time records)

module _ {F : Type 0} ⦃f : Float F⦄ (log1p : ℕ → F) (fmean : List ℕ → F) (pstdev : List ℕ → F)
    (hour weekday : ℕ → ℕ) (utc_now : ℕ) where
  -- A float is true unless it is zero.
  abbrev pub is_true : F → Bool
  is_true x = not (f.le x (of_int 0) && f.le (of_int 0) x)

  unfoldable pub account_age_hours : ScoringFeatureTransaction → F
  account_age_hours current =
      if leb current.account_created_at current.event_time
      then float_max (of_int 0)
          (f.div (f.ratio (current.event_time - current.account_created_at) 1000000) (of_int 3600))
      else of_int 0

  unfoldable pub values_of : ScoringFeatureTransaction → Records → Mapping F
  unfolding within matching unique failures is_new count_of account_age_hours
  values_of current history =
      let customer = matching history (λ t. t.customer_id) current.customer_id in
      let device = matching history (λ t. t.device_id) current.device_id in
      let ip = matching history (λ t. t.ip_id) current.ip_id in
      let instrument = matching history (λ t. t.instrument_id) current.instrument_id in
      let address = matching history (λ t. t.address_id) current.address_id in
      let customer_1h = within customer current one_hour in
      let customer_24h = within customer current one_day in
      let customer_30d = within customer current thirty_days in
      let device_1m = within device current one_minute in
      let device_10m = within device current ten_minutes in
      let device_1h = within device current one_hour in
      let ip_10m = within ip current ten_minutes in
      let ip_1h = within ip current one_hour in
      let ip_24h = within ip current one_day in
      let instrument_10m = within instrument current ten_minutes in
      let instrument_1h = within instrument current one_hour in
      let instrument_24h = within instrument current one_day in
      let address_1h = within address current one_hour in
      let address_24h = within address current one_day in
      let customers = length customer_30d in
      let amount_mean = if ltb 0 customers then fmean (amounts customer_30d) else of_int 0 in
      let amount_std = if ltb 1 customers then pstdev (amounts customer_30d) else of_int 0 in
      ("amount_paise", int current.amount_paise)
      ∷ ("log_amount", number (log1p current.amount_paise))
      ∷ ("account_age_hours", number (account_age_hours current))
      ∷ ("hour_of_day", int (hour current.event_time))
      ∷ ("day_of_week", int (weekday current.event_time))
      ∷ ("is_weekend", flag (leb 5 (weekday current.event_time)))
      ∷ ("customer_txn_count_1h", int (length customer_1h))
      ∷ ("customer_txn_count_24h", int (length customer_24h))
      ∷ ("customer_txn_count_30d", int customers)
      ∷ ("customer_failed_txn_count_1h", int (failures customer_1h))
      ∷ ("customer_failed_txn_count_24h", int (failures customer_24h))
      ∷ (
        "customer_failure_rate_30d",
        number (if ltb 0 customers then f.ratio (failures customer_30d) customers else of_int 0),
      )
      ∷ ("customer_avg_amount_30d", number amount_mean)
      ∷ ("customer_amount_std_30d", number amount_std)
      ∷ (
        "amount_vs_customer_mean",
        number (
            if is_true amount_mean
            then f.div (of_int current.amount_paise) amount_mean
            else of_int 0),
      )
      ∷ (
        "amount_zscore_customer",
        number (
            if is_true amount_std
            then f.div (f.sub (of_int current.amount_paise) amount_mean) amount_std
            else of_int 0),
      )
      ∷ ("customer_unique_devices_24h", int (unique customer_24h (λ t. t.device_id)))
      ∷ ("customer_unique_instruments_24h", int (unique customer_24h (λ t. t.instrument_id)))
      ∷ ("customer_unique_ips_24h", int (unique customer_24h (λ t. t.ip_id)))
      ∷ ("customer_unique_addresses_30d", int (unique customer_30d (λ t. t.address_id)))
      ∷ (
        "customer_merchant_txn_count_30d",
        int (count_of (λ r. r.scoring_context.merchant_id == current.merchant_id) customer_30d),
      )
      ∷ ("is_new_device_for_customer", flag (is_new customer (λ t. t.device_id) current))
      ∷ ("is_new_instrument_for_customer", flag (is_new customer (λ t. t.instrument_id) current))
      ∷ ("is_new_ip_for_customer", flag (is_new customer (λ t. t.ip_id) current))
      ∷ ("is_new_address_for_customer", flag (is_new customer (λ t. t.address_id) current))
      ∷ ("device_txn_count_1m", int (length device_1m))
      ∷ ("device_txn_count_10m", int (length device_10m))
      ∷ ("device_txn_count_1h", int (length device_1h))
      ∷ ("device_failed_txn_count_10m", int (failures device_10m))
      ∷ ("device_failed_txn_count_1h", int (failures device_1h))
      ∷ ("device_unique_customers_1h", int (unique device_1h (λ t. t.customer_id)))
      ∷ ("device_unique_instruments_1h", int (unique device_1h (λ t. t.instrument_id)))
      ∷ ("ip_txn_count_10m", int (length ip_10m))
      ∷ ("ip_txn_count_1h", int (length ip_1h))
      ∷ ("ip_failed_txn_count_10m", int (failures ip_10m))
      ∷ ("ip_failed_txn_count_1h", int (failures ip_1h))
      ∷ ("ip_unique_customers_1h", int (unique ip_1h (λ t. t.customer_id)))
      ∷ ("ip_unique_customers_24h", int (unique ip_24h (λ t. t.customer_id)))
      ∷ ("instrument_txn_count_10m", int (length instrument_10m))
      ∷ ("instrument_txn_count_1h", int (length instrument_1h))
      ∷ ("instrument_txn_count_24h", int (length instrument_24h))
      ∷ ("instrument_failed_txn_count_1h", int (failures instrument_1h))
      ∷ ("instrument_unique_devices_24h", int (unique instrument_24h (λ t. t.device_id)))
      ∷ ("address_txn_count_1h", int (length address_1h))
      ∷ ("address_txn_count_24h", int (length address_24h))
      ∷ ("address_unique_customers_24h", int (unique address_24h (λ t. t.customer_id)))
      ∷ ("historical_customers_on_current_device", int (unique device (λ t. t.customer_id)))
      ∷ ("historical_instruments_on_current_device", int (unique device (λ t. t.instrument_id)))
      ∷ ("historical_customers_on_current_ip", int (unique ip (λ t. t.customer_id)))
      ∷ ("historical_devices_on_current_ip", int (unique ip (λ t. t.device_id)))
      ∷ ("historical_customers_on_current_address", int (unique address (λ t. t.customer_id)))
      ∷ ("historical_devices_for_current_instrument", int (unique instrument (λ t. t.device_id)))
      ∷ []

  unfoldable pub compute :
      (ScoringFeatureTransaction → Records) → ScoringFeatureTransaction → Result (FeatureVector F)
  unfolding values_of latest_time any_of
  compute history_for current = do
    let history = history_for current
    reject_if (any_of (λ r. leb current.event_time (time_of r)) history)
        (value_error "history provider returned a current or future transaction")
    ok (record {
      transaction_public_id = current.transaction_public_id;
      feature_version = feature_version;
      values = values_of current history;
      computed_at = utc_now;
      max_source_event_time = latest_time history;
    })
