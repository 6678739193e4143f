-- ===== src/Features/Tests.antt =====
-- A customer's short history, and the feature theorems at it.
use aegis_ai_risk_manager.Common.{
  ℕ, ◌≡◌, ◌<◌, refl, String, List, [], ◌∷◌, map, none, some, ok, All, count_of,
}
use aegis_ai_risk_manager.Common.Dict.{lookup}
use aegis_ai_risk_manager.Common.Value.{Value, int}
use aegis_ai_risk_manager.Features.Engine.Windows.{
  Velocity, velocities, counts, values_of-velocities,
}
use aegis_ai_risk_manager.Common.{string_eq}
use aegis_ai_risk_manager.Common.Float.Millionths.{millionths}
use aegis_ai_risk_manager.Enums.{captured, failed}
use aegis_ai_risk_manager.Features.Registry.{feature_names, feature_version}
use aegis_ai_risk_manager.Features.Domain.{ScoringFeatureTransaction}
use aegis_ai_risk_manager.Features.Engine.{Records, FeatureVector, values_of, compute}
use aegis_ai_risk_manager.Features.Engine.Laws.{
  computed, compute-feature_names, compute-max_source_event_time,
}

abbrev payment : String → ℕ → ScoringFeatureTransaction
payment name time = record {
  transaction_public_id = name;
  customer_id = "alice";
  merchant_id = "shop";
  instrument_id = "card";
  device_id = "phone";
  ip_id = "net";
  address_id = "home";
  amount_paise = 50000;
  currency = "INR";
  payment_method = "CARD";
  event_time = time;
  account_created_at = 0;
}

abbrev history : ScoringFeatureTransaction → Records
history current =
    record { scoring_context = payment "t1" 1000; status = captured; failure_code = none }
    ∷ record {
      scoring_context = payment "t2" 4000000000;
      status = failed;
      failure_code = some "CVV";
    }
    ∷ []

abbrev now : ScoringFeatureTransaction
now = payment "t3" 5000000000

abbrev of_amount : ℕ → ℕ
of_amount n = n

abbrev of_amounts : List ℕ → ℕ
of_amounts ns = 50000

abbrev vector : FeatureVector ℕ
vector = record {
  transaction_public_id = "t3";
  feature_version = feature_version;
  values = values_of of_amount of_amounts of_amounts of_amount of_amount 9 now (history now);
  computed_at = 9;
  max_source_event_time = some 4000000000;
}

made : computed ℕ of_amount of_amounts of_amounts of_amount of_amount 9 history now ≡ ok vector
unfolding compute
made = refl

values_of-velocities_example :
    All
      (λ (v : Velocity).
        lookup v.name vector.values ≡ some (int (count_of (counts v now) (history now))))
      velocities
values_of-velocities_example =
    values_of-velocities ℕ of_amount of_amounts of_amounts of_amount of_amount 9 now (history now)

one_in_the_last_hour : lookup "customer_failed_txn_count_1h" vector.values ≡ some (int 1)
unfolding lookup values_of
one_in_the_last_hour = refl

compute-feature_names_example :
    map (λ (entry : String × Value ℕ). entry.0) vector.values ≡ feature_names
compute-feature_names_example =
    compute-feature_names ℕ of_amount of_amounts of_amounts of_amount of_amount 9 history now made

compute-max_source_event_time_example : 4000000000 < 5000000000
compute-max_source_event_time_example =
    compute-max_source_event_time ℕ of_amount of_amounts of_amounts of_amount of_amount 9 history
      now made refl
