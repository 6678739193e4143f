-- ===== src/Features/HistoryTests.antt =====
-- Two customers who share a phone, and the theorems on their history and its replay.
use aegis_ai_risk_manager.Common.{
  ℕ, ◌≡◌, ◌<◌, ◌↔◌, refl, true, String, List, [], ◌∷◌, none, ok, inl, inr, sym, subst, ◌==◌,
  string_eq,
}
use mathlib.Core.Bool.{false≢true}
use aegis_ai_risk_manager.Common.Members.{◌∈◌}
use aegis_ai_risk_manager.Common.Sort.{sort_by}
use aegis_ai_risk_manager.Common.Float.Millionths.{millionths}
use aegis_ai_risk_manager.Enums.{captured}
use aegis_ai_risk_manager.Features.Domain.{ScoringFeatureTransaction, FeatureTransaction}
use aegis_ai_risk_manager.Features.Engine.{Records, compute}
use aegis_ai_risk_manager.Features.Engine.Laws.{computed, vector}
use aegis_ai_risk_manager.Features.History.{no_indexes, observe_many, provider_of, history_for}
use aegis_ai_risk_manager.Features.History.Past.{id_of, shares, HasOwnId, history_for-relevant}
use aegis_ai_risk_manager.Features.Validation.{validate_feature_vector}
use aegis_ai_risk_manager.Features.Validation.Laws.{
  PassesIfFinite, KeepsSmall, compute-PassesIfFinite,
}
use aegis_ai_risk_manager.Features.Offline.{order_lt, build_offline_feature_vectors}
use aegis_ai_risk_manager.Features.Offline.Replay.{scores, build_offline-replay}
use aegis_ai_risk_manager.Features.Offline.Total.{BuildsIfFinite, build_offline-BuildsIfFinite}

abbrev payment : String → String → ℕ → FeatureTransaction
payment name who time = record {
  scoring_context = record {
    transaction_public_id = name;
    customer_id = who;
    merchant_id = "shop";
    instrument_id = who;
    device_id = "phone";
    ip_id = "net";
    address_id = who;
    amount_paise = 50000;
    currency = "INR";
    payment_method = "CARD";
    event_time = time;
    account_created_at = 0;
  };
  status = captured;
  failure_code = none;
}

abbrev observed : Records
observed = payment "t3" "alice" 3000 ∷ payment "t1" "alice" 1000 ∷ payment "t2" "bob" 2000 ∷ []

abbrev now : ScoringFeatureTransaction
now = (payment "t4" "carol" 3000).scoring_context

-- Only the two earlier payments from the phone are returned, in the order of their times.
earlier_two :
    history_for (provider_of observed) now
    ≡ payment "t1" "alice" 1000 ∷ payment "t2" "bob" 2000 ∷ []
unfolding history_for provider_of sort_by
earlier_two = refl

-- Records that are observed out of the order of their times can get past the cutoff.
out_of_order :
    history_for
      (observe_many (payment "t5" "alice" 5000 ∷ payment "t1" "alice" 1000 ∷ []) no_indexes)
      now
    ≡ payment "t1" "alice" 1000 ∷ payment "t5" "alice" 5000 ∷ []
unfolding history_for observe_many sort_by
out_of_order = refl

bob-HasOwnId : HasOwnId observed (payment "t2" "bob" 2000)
bob-HasOwnId y (inl e) same =
    absurd (false≢true (subst (λ t. (id_of t == "t2") ≡ true) (sym e) same))
bob-HasOwnId y (inr (inl e)) same =
    absurd (false≢true (subst (λ t. (id_of t == "t2") ≡ true) (sym e) same))
bob-HasOwnId y (inr (inr (inl e))) same = sym e
bob-HasOwnId y (inr (inr (inr m))) same = absurd m

history_for-relevant_example :
    (payment "t2" "bob" 2000 ∈ history_for (provider_of observed) now) ↔ (
      (payment "t2" "bob" 2000 ∈ observed)
      × (2000 < 3000)
      × (shares now (payment "t2" "bob" 2000) ≡ true))
history_for-relevant_example =
    history_for-relevant observed now (payment "t2" "bob" 2000) bob-HasOwnId

abbrev of_amount : ℕ → ℕ
of_amount n = n

abbrev of_amounts : List ℕ → ℕ
of_amounts ns = 50000

abbrev lower : String → String
lower s = s

lower_lem : KeepsSmall lower
lower_lem s h = refl

abbrev show_names : List String → String
show_names names = "[]"

made :
    computed ℕ of_amount of_amounts of_amounts of_amount of_amount 9
      (history_for (provider_of observed))
      now
    ≡ ok (
        vector ℕ of_amount of_amounts of_amounts of_amount of_amount 9
          (history_for (provider_of observed))
          now)
unfolding compute history_for provider_of sort_by
made = refl

compute-PassesIfFinite_example : PassesIfFinite (
    validate_feature_vector lower show_names
      (vector ℕ of_amount of_amounts of_amounts of_amount of_amount 9
        (history_for (provider_of observed))
        now)
      3000)
compute-PassesIfFinite_example =
    compute-PassesIfFinite lower lower_lem show_names of_amount of_amounts of_amounts of_amount
      of_amount 9 (history_for (provider_of observed)) now
      (vector ℕ of_amount of_amounts of_amounts of_amount of_amount 9
        (history_for (provider_of observed)) now)
      made

build_offline-replay_example :
    build_offline_feature_vectors of_amount of_amounts of_amounts of_amount of_amount 9 lower
      show_names observed
    ≡ scores ℕ of_amount of_amounts of_amounts of_amount of_amount 9 lower show_names
        (provider_of (sort_by order_lt observed))
        (sort_by order_lt observed)
build_offline-replay_example =
    build_offline-replay ℕ of_amount of_amounts of_amounts of_amount of_amount 9 lower show_names
      observed

build_offline-BuildsIfFinite_example : BuildsIfFinite (sort_by order_lt observed) (
    build_offline_feature_vectors of_amount of_amounts of_amounts of_amount of_amount 9 lower
      show_names observed)
build_offline-BuildsIfFinite_example =
    build_offline-BuildsIfFinite ℕ of_amount of_amounts of_amounts of_amount of_amount 9 lower
      lower_lem show_names observed
