-- ===== src/Features/Offline/Total.antt =====
-- The offline build returns a vector for every transaction, unless a float is not finite.
use aegis_ai_risk_manager.Common.{
  ℕ, ◌≡◌, ◌⊎◌, refl, ap, inl, inr, String, ◌<>◌, List, [], ◌∷◌, Result, ok, raise, value_error,
  reject_if-passes, map, any_of, leb,
}
use aegis_ai_risk_manager.Common.Sort.{sort_by}
use aegis_ai_risk_manager.Common.Float.{Float}
use aegis_ai_risk_manager.Features.Domain.{FeatureTransaction}
use aegis_ai_risk_manager.Features.Engine.{Records, FeatureVector, time_of, compute}
use aegis_ai_risk_manager.Features.Engine.Laws.{computed, vector}
use aegis_ai_risk_manager.Features.History.{provider_of, history_for}
use aegis_ai_risk_manager.Features.History.Past.{history_for-past}
use aegis_ai_risk_manager.Features.Validation.Laws.{KeepsSmall, compute-PassesIfFinite}
use aegis_ai_risk_manager.Features.Offline.{
  order_lt, score, score_all, build_offline_feature_vectors,
}
use aegis_ai_risk_manager.Features.Offline.Replay.{scores, build_offline-replay}

-- The vectors of the transactions, in their order, or the complaint about a float.
abbrev pub BuildsIfFinite : {F : Type 0} → Records → Result (List (FeatureVector F)) → Type 0
BuildsIfFinite {F} ts r =
    ((vs : List (FeatureVector F)) × (r ≡ ok vs)
      × (map (λ (v : FeatureVector F). v.transaction_public_id) vs
          ≡ map (λ (t : FeatureTransaction). t.scoring_context.transaction_public_id) ts))
    ⊎ ((name : String) × (r ≡ raise (value_error (name <> " must be finite"))))

module _ (F : Type 0) ⦃f : Float F⦄ (log1p : ℕ → F) (fmean : List ℕ → F) (pstdev : List ℕ → F)
    (hour weekday : ℕ → ℕ) (utc_now : ℕ) (lower : String → String) (small : KeepsSmall lower)
    (show_names : List String → String) where
  abbrev vector_of : Records → FeatureTransaction → FeatureVector F
  vector_of rs t =
      vector F log1p fmean pstdev hour weekday utc_now (history_for (provider_of rs))
        t.scoring_context

  -- The guard of `compute` passes, since the provider keeps to the past.
  computes :
      (rs : Records) (t : FeatureTransaction)
      → computed F log1p fmean pstdev hour weekday utc_now
          (history_for (provider_of rs))
          t.scoring_context
        ≡ ok (vector_of rs t)
  unfolding compute
  computes rs t =
      let current = t.scoring_context in
      reject_if-passes
        (any_of (λ r. leb current.event_time (time_of r)) (history_for (provider_of rs) current))
        (value_error "history provider returned a current or future transaction")
        (ok (vector_of rs t)) (history_for-past rs current)

  abbrev score_one : Records → FeatureTransaction → Result (FeatureVector F)
  score_one rs = score log1p fmean pstdev hour weekday utc_now lower show_names (provider_of rs)

  score_lem :
      (rs : Records) (t : FeatureTransaction)
      → (score_one rs t ≡ ok (vector_of rs t))
        ⊎ ((name : String) × (score_one rs t ≡ raise (value_error (name <> " must be finite"))))
  unfolding score
  score_lem rs t =
      elim (compute-PassesIfFinite lower small show_names log1p fmean pstdev hour weekday utc_now
        (history_for (provider_of rs)) t.scoring_context (vector_of rs t) (computes rs t)) [
          | inl passed ↦ inl (rw (computes rs t, passed) refl)
          | inr (name, failed) ↦ inr (name, rw (computes rs t, failed) refl)
        ]

  scores-BuildsIfFinite :
      (rs ts : Records)
      → BuildsIfFinite ts
          (scores F log1p fmean pstdev hour weekday utc_now lower show_names (provider_of rs) ts)
  unfolding score_all
  scores-BuildsIfFinite rs [] = inl ([], refl, refl)
  scores-BuildsIfFinite rs (t ∷ ts) = elim (score_lem rs t) [
    | inr (name, failed) ↦ inr (name, rw failed refl)
    | inl scored ↦ elim (scores-BuildsIfFinite rs ts) [
      | inr (name, failed) ↦ inr (name, rw (scored, failed) refl)
      | inl (vs, built, names) ↦ inl (
        vector_of rs t ∷ vs,
        rw (scored, built) refl,
        ap (◌∷◌ t.scoring_context.transaction_public_id) names,
      )
    ]
  ]

  -- The offline build returns one vector for each transaction, in the order of their times; the only
  -- exception it can raise is that a float of a vector is not finite.
  pub build_offline-BuildsIfFinite :
      (ts : Records)
      → BuildsIfFinite (sort_by order_lt ts) (
          build_offline_feature_vectors log1p fmean pstdev hour weekday utc_now lower show_names ts)
  build_offline-BuildsIfFinite ts =
      rw (build_offline-replay F log1p fmean pstdev hour weekday utc_now lower show_names ts)
        (scores-BuildsIfFinite (sort_by order_lt ts) (sort_by order_lt ts))
