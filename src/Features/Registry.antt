-- ===== src/Features/Registry.antt =====
-- packages/risk_engine/features/registry.py: the 52 inputs of features-v1.
use aegis_ai_risk_manager.Common.{
  Bool, true, false, String, List, [], ◌∷◌, ◌++◌, map, Option, none, some,
}

abbrev pub feature_version : String
feature_version = "features-v1"

pub data FeatureFamily : Type 0 where
  transaction customer velocity relationship : FeatureFamily

pub data ValueType : Type 0 where
  int_type float_type bool_type : ValueType

pub record FeatureSpec : Type 0 where
  pub name : String
  pub family : FeatureFamily
  pub value_type : ValueType
  pub description : String
  pub window : Option String
  pub uses_historical_outcome : Bool

abbrev spec : String → FeatureFamily → ValueType → String → Option String → Bool → FeatureSpec
spec name family value_type description window outcome = record {
  name = name;
  family = family;
  value_type = value_type;
  description = description;
  window = window;
  uses_historical_outcome = outcome;
}

-- The TRANSACTION entries.
abbrev transaction_features : List FeatureSpec
transaction_features =
    spec "amount_paise" transaction int_type "Requested amount in paise." none false
    ∷ spec "log_amount" transaction float_type "Natural log of 1 + amount." none false
    ∷ spec "account_age_hours" transaction float_type "Account age at request." none false
    ∷ spec "hour_of_day" transaction int_type "UTC hour of request." none false
    ∷ spec "day_of_week" transaction int_type "UTC weekday, Monday is zero." none false
    ∷ spec "is_weekend" transaction bool_type "Whether request is on weekend." none false
    ∷ []

-- The CUSTOMER entries.
abbrev customer_features : List FeatureSpec
customer_features =
    spec "customer_txn_count_1h" customer int_type "Prior customer payments." (some "1h") false
    ∷ spec "customer_txn_count_24h" customer int_type "Prior customer payments." (some "24h") false
    ∷ spec "customer_txn_count_30d" customer int_type "Prior customer payments." (some "30d") false
    ∷ spec "customer_failed_txn_count_1h" customer int_type "Prior failed customer payments."
        (some "1h") true
    ∷ spec "customer_failed_txn_count_24h" customer int_type "Prior failed customer payments."
        (some "24h") true
    ∷ spec "customer_failure_rate_30d" customer float_type "Prior customer failure rate."
        (some "30d") true
    ∷ spec "customer_avg_amount_30d" customer float_type "Mean prior customer amount." (some "30d")
        false
    ∷ spec "customer_amount_std_30d" customer float_type
        "Population standard deviation of prior amounts." (some "30d") false
    ∷ spec "amount_vs_customer_mean" customer float_type
        "Current amount divided by prior mean; zero without history." (some "30d") false
    ∷ spec "amount_zscore_customer" customer float_type
        "Current amount z-score; zero without usable variance." (some "30d") false
    ∷ spec "customer_unique_devices_24h" customer int_type "Distinct prior devices." (some "24h")
        false
    ∷ spec "customer_unique_instruments_24h" customer int_type "Distinct prior instruments."
        (some "24h") false
    ∷ spec "customer_unique_ips_24h" customer int_type "Distinct prior networks." (some "24h") false
    ∷ spec "customer_unique_addresses_30d" customer int_type "Distinct prior addresses."
        (some "30d") false
    ∷ spec "customer_merchant_txn_count_30d" customer int_type
        "Prior payments by this customer at this merchant." (some "30d") false
    ∷ spec "is_new_device_for_customer" customer bool_type "Device has no prior use by customer."
        none false
    ∷ spec "is_new_instrument_for_customer" customer bool_type
        "Instrument has no prior use by customer." none false
    ∷ spec "is_new_ip_for_customer" customer bool_type "Network has no prior use by customer." none
        false
    ∷ spec "is_new_address_for_customer" customer bool_type "Address has no prior use by customer."
        none false
    ∷ []

-- The VELOCITY entries.
abbrev velocity_features : List FeatureSpec
velocity_features =
    spec "device_txn_count_1m" velocity int_type "Prior device payments." (some "1m") false
    ∷ spec "device_txn_count_10m" velocity int_type "Prior device payments." (some "10m") false
    ∷ spec "device_txn_count_1h" velocity int_type "Prior device payments." (some "1h") false
    ∷ spec "device_failed_txn_count_10m" velocity int_type "Prior failed device payments."
        (some "10m") true
    ∷ spec "device_failed_txn_count_1h" velocity int_type "Prior failed device payments."
        (some "1h") true
    ∷ spec "device_unique_customers_1h" velocity int_type "Distinct prior customers on device."
        (some "1h") false
    ∷ spec "device_unique_instruments_1h" velocity int_type "Distinct prior instruments on device."
        (some "1h") false
    ∷ spec "ip_txn_count_10m" velocity int_type "Prior network payments." (some "10m") false
    ∷ spec "ip_txn_count_1h" velocity int_type "Prior network payments." (some "1h") false
    ∷ spec "ip_failed_txn_count_10m" velocity int_type "Prior failed network payments." (some "10m")
        true
    ∷ spec "ip_failed_txn_count_1h" velocity int_type "Prior failed network payments." (some "1h")
        true
    ∷ spec "ip_unique_customers_1h" velocity int_type "Distinct prior customers on network."
        (some "1h") false
    ∷ spec "ip_unique_customers_24h" velocity int_type "Distinct prior customers on network."
        (some "24h") false
    ∷ spec "instrument_txn_count_10m" velocity int_type "Prior instrument payments." (some "10m")
        false
    ∷ spec "instrument_txn_count_1h" velocity int_type "Prior instrument payments." (some "1h")
        false
    ∷ spec "instrument_txn_count_24h" velocity int_type "Prior instrument payments." (some "24h")
        false
    ∷ spec "instrument_failed_txn_count_1h" velocity int_type "Prior failed instrument payments."
        (some "1h") true
    ∷ spec "instrument_unique_devices_24h" velocity int_type
        "Distinct prior devices for instrument." (some "24h") false
    ∷ spec "address_txn_count_1h" velocity int_type "Prior address payments." (some "1h") false
    ∷ spec "address_txn_count_24h" velocity int_type "Prior address payments." (some "24h") false
    ∷ spec "address_unique_customers_24h" velocity int_type "Distinct prior customers at address."
        (some "24h") false
    ∷ []

-- The RELATIONSHIP entries.
abbrev relationship_features : List FeatureSpec
relationship_features =
    spec "historical_customers_on_current_device" relationship int_type
      "All prior customers linked to device." none false
    ∷ spec "historical_instruments_on_current_device" relationship int_type
        "All prior instruments linked to device." none false
    ∷ spec "historical_customers_on_current_ip" relationship int_type
        "All prior customers linked to network." none false
    ∷ spec "historical_devices_on_current_ip" relationship int_type
        "All prior devices linked to network." none false
    ∷ spec "historical_customers_on_current_address" relationship int_type
        "All prior customers linked to address." none false
    ∷ spec "historical_devices_for_current_instrument" relationship int_type
        "All prior devices linked to instrument." none false
    ∷ []

-- The table, in the order of the source.
unfoldable pub features_v1 : List FeatureSpec
features_v1 =
    transaction_features ++ customer_features ++ velocity_features ++ relationship_features

unfoldable pub feature_names : List String
unfolding features_v1
feature_names = map (λ (s : FeatureSpec). s.name) features_v1

-- `FEATURE_BY_NAME`
unfoldable pub feature_by_name : List (String × FeatureSpec)
unfolding features_v1
feature_by_name = map (λ (s : FeatureSpec). (s.name, s)) features_v1
