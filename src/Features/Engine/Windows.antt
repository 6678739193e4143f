-- ===== src/Features/Engine/Windows.antt =====
-- The velocity features of `FeatureEngine.compute`: what they count of the history.
use aegis_ai_risk_manager.Common.{
  ℕ, ◌+◌, ◌*◌, ◌≡◌, refl, ap, Bool, true, false, ◌&&◌, ◌||◌, not, String, List, [], ◌∷◌, length,
  Option, some, All, arith, ltb, leb, ◌==◌, string_eq, count_of, select,
}
use aegis_ai_risk_manager.Common.Dict.{lookup}
use aegis_ai_risk_manager.Common.Value.{Value, int}
use aegis_ai_risk_manager.Common.Float.{Float}
use aegis_ai_risk_manager.Enums.{failed, status_eq}
use aegis_ai_risk_manager.Features.Domain.{ScoringFeatureTransaction, FeatureTransaction}
use aegis_ai_risk_manager.Features.Engine.{
  Records, Field, Window, one_minute, ten_minutes, one_hour, one_day, thirty_days, window_length,
  time_of, within, matching, failures, values_of,
}

-- A velocity feature: its name, the entity it is about, its window in seconds, and whether it counts
-- failed payments only.
pub record Velocity : Type 0 where
  pub name : String
  pub entity : Field
  pub seconds : ℕ
  pub failed_only : Bool

abbrev velocity : String → Field → ℕ → Bool → Velocity
velocity name entity seconds failed_only = record {
  name = name;
  entity = entity;
  seconds = seconds;
  failed_only = failed_only;
}

abbrev of_customer : Field
of_customer t = t.customer_id

abbrev of_device : Field
of_device t = t.device_id

abbrev of_ip : Field
of_ip t = t.ip_id

abbrev of_instrument : Field
of_instrument t = t.instrument_id

abbrev of_address : Field
of_address t = t.address_id

abbrev pub velocities : List Velocity
velocities =
    velocity "customer_txn_count_1h" of_customer 3600 false
    ∷ velocity "customer_txn_count_24h" of_customer 86400 false
    ∷ velocity "customer_txn_count_30d" of_customer 2592000 false
    ∷ velocity "customer_failed_txn_count_1h" of_customer 3600 true
    ∷ velocity "customer_failed_txn_count_24h" of_customer 86400 true
    ∷ velocity "device_txn_count_1m" of_device 60 false
    ∷ velocity "device_txn_count_10m" of_device 600 false
    ∷ velocity "device_txn_count_1h" of_device 3600 false
    ∷ velocity "device_failed_txn_count_10m" of_device 600 true
    ∷ velocity "device_failed_txn_count_1h" of_device 3600 true
    ∷ velocity "ip_txn_count_10m" of_ip 600 false
    ∷ velocity "ip_txn_count_1h" of_ip 3600 false
    ∷ velocity "ip_failed_txn_count_10m" of_ip 600 true
    ∷ velocity "ip_failed_txn_count_1h" of_ip 3600 true
    ∷ velocity "instrument_txn_count_10m" of_instrument 600 false
    ∷ velocity "instrument_txn_count_1h" of_instrument 3600 false
    ∷ velocity "instrument_txn_count_24h" of_instrument 86400 false
    ∷ velocity "instrument_failed_txn_count_1h" of_instrument 3600 true
    ∷ velocity "address_txn_count_1h" of_address 3600 false
    ∷ velocity "address_txn_count_24h" of_address 86400 false
    ∷ []

-- Whether a record shares the entity of the current payment and lies in the half-open span of so
-- many microseconds before it.
abbrev pub lies_in : Field → ℕ → ScoringFeatureTransaction → FeatureTransaction → Bool
lies_in entity span current r =
    (entity r.scoring_context == entity current)
    && (leb current.event_time (time_of r + span) && ltb (time_of r) current.event_time)

abbrev pub counts : Velocity → ScoringFeatureTransaction → FeatureTransaction → Bool
counts v current r =
    lies_in v.entity (v.seconds * 1000000) current r && (not v.failed_only || r.status == failed)

module _ (entity : Field) (current : ScoringFeatureTransaction) (window : Window) where
  length-within :
      (history : Records)
      → length (within (matching history entity (entity current)) current window)
        ≡ count_of (λ r. lies_in entity (window_length window) current r && true) history
  unfolding within matching select count_of
  length-within [] = refl
  length-within (r ∷ history) = ground (arith, length-within history)

  failures-within :
      (history : Records)
      → failures (within (matching history entity (entity current)) current window)
        ≡ count_of
            (λ r. lies_in entity (window_length window) current r && (r.status == failed))
            history
  unfolding within matching failures select count_of
  failures-within [] = refl
  failures-within (r ∷ history) = ground (arith, failures-within history)

abbrev as_value : (F : Type 0) → ℕ → Option (Value F)
as_value F n = some (int n)

-- Each of the twenty velocity features is the number of the records in the history that share its
-- entity with the current payment and happened in its window, the half-open span of so many seconds
-- before the payment; the failure features count the failed ones among them.
pub values_of-velocities :
    (F : Type 0) ⦃f : Float F⦄ (log1p : ℕ → F) (fmean : List ℕ → F) (pstdev : List ℕ → F)
    (hour weekday : ℕ → ℕ) (utc_now : ℕ) (current : ScoringFeatureTransaction) (history : Records)
    → All
        (λ (v : Velocity).
          lookup v.name (values_of log1p fmean pstdev hour weekday utc_now current history)
          ≡ some (int (count_of (counts v current) history)))
        velocities
unfolding values_of lookup
values_of-velocities F log1p fmean pstdev hour weekday utc_now current history =
    let plain =
      λ (entity : Field) (w : Window). ap (as_value F) (length-within entity current w history) in
    let bad =
      λ (entity : Field) (w : Window). ap (as_value F) (failures-within entity current w history) in
    (
      plain of_customer one_hour,
      (
        plain of_customer one_day,
        (
          plain of_customer thirty_days,
          (
            bad of_customer one_hour,
            (
              bad of_customer one_day,
              (
                plain of_device one_minute,
                (
                  plain of_device ten_minutes,
                  (
                    plain of_device one_hour,
                    (
                      bad of_device ten_minutes,
                      (
                        bad of_device one_hour,
                        (
                          plain of_ip ten_minutes,
                          (
                            plain of_ip one_hour,
                            (
                              bad of_ip ten_minutes,
                              (
                                bad of_ip one_hour,
                                (
                                  plain of_instrument ten_minutes,
                                  (
                                    plain of_instrument one_hour,
                                    (
                                      plain of_instrument one_day,
                                      (
                                        bad of_instrument one_hour,
                                        (plain of_address one_hour, (plain of_address one_day, tt)),
                                      ),
                                    ),
                                  ),
                                ),
                              ),
                            ),
                          ),
                        ),
                      ),
                    ),
                  ),
                ),
              ),
            ),
          ),
        ),
      ),
    )
