-- ===== src/Features/Engine/Laws.antt =====
-- What a computed feature vector promises.
use aegis_ai_risk_manager.Common.{
  ℕ, ◌≡◌, ◌<◌, refl, ap, subst, inl, inr, Option-cases, String, List, [], ◌∷◌, map, Result, ok,
  false, ◌∙◌, reject_if-eq_ok, ok-injective, any_of, leb, arith, some,
}
use aegis_ai_risk_manager.Common.Value.{Value}
use aegis_ai_risk_manager.Common.Float.{Float}
use aegis_ai_risk_manager.Features.Registry.{feature_names, feature_version}
use aegis_ai_risk_manager.Features.Domain.{ScoringFeatureTransaction}
use aegis_ai_risk_manager.Features.Engine.{
  Records, FeatureVector, time_of, values_of, latest_time, compute,
}

pub latest_time-past :
    (n : ℕ) (records : Records) (t : ℕ)
    → any_of (λ r. leb n (time_of r)) records ≡ false
    → latest_time records ≡ some t
    → t < n
unfolding any_of latest_time
latest_time-past n [] t h e = cc
latest_time-past n (r ∷ records) t h e = elim (Option-cases (latest_time records)) [
  | inl last ↦ ground arith
  | inr (u, more) ↦ let rest = latest_time-past n records u (ground arith) more in ground arith
]

module _ (F : Type 0) ⦃f : Float F⦄ (log1p : ℕ → F) (fmean : List ℕ → F) (pstdev : List ℕ → F)
    (hour weekday : ℕ → ℕ) (utc_now : ℕ) (history_for : ScoringFeatureTransaction → Records)
    (current : ScoringFeatureTransaction) where
  abbrev pub computed : Result (FeatureVector F)
  computed = compute log1p fmean pstdev hour weekday utc_now history_for current

  abbrev pub vector : FeatureVector F
  vector = record {
    transaction_public_id = current.transaction_public_id;
    feature_version = feature_version;
    values = values_of log1p fmean pstdev hour weekday utc_now current (history_for current);
    computed_at = utc_now;
    max_source_event_time = latest_time (history_for current);
  }

  pub compute-eq_ok :
      {v : FeatureVector F}
      → computed ≡ ok v
      → (any_of (λ r. leb current.event_time (time_of r)) (history_for current) ≡ false)
        × (vector ≡ v)
  unfolding compute
  compute-eq_ok h =
      let (past, made) =
        reject_if-eq_ok (any_of (λ r. leb current.event_time (time_of r)) (history_for current)) _ _
          h in
      (past, ok-injective made)

  -- A feature vector has the features of the registry, each once and in its order.
  pub compute-feature_names :
      {v : FeatureVector F}
      → computed ≡ ok v
      → map (λ (entry : String × Value F). entry.0) v.values ≡ feature_names
  unfolding values_of feature_names
  compute-feature_names h =
      subst
        (λ (v : FeatureVector F).
          map (λ (entry : String × Value F). entry.0) v.values ≡ feature_names)
        (compute-eq_ok h).1 refl

  -- The latest source time of a feature vector is earlier than the scored transaction.
  pub compute-max_source_event_time :
      {v : FeatureVector F} {t : ℕ}
      → computed ≡ ok v
      → v.max_source_event_time ≡ some t
      → t < current.event_time
  compute-max_source_event_time {v} {t} h e =
      let (past, made) = compute-eq_ok h in
      latest_time-past current.event_time (history_for current) t past
        (ap (λ (v : FeatureVector F). v.max_source_event_time) made ∙ e)
