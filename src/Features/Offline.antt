-- ===== src/Features/Offline.antt =====
-- packages/risk_engine/features/offline.py: `build_offline_feature_vectors` replays transactions in
-- the order of their times, and observes those of one time after all of them are scored.
pub mod Laws
pub mod Cutoff
pub mod Replay
pub mod Total
use aegis_ai_risk_manager.Common.{
  ℕ, Bool, true, false, ◌&&◌, ◌||◌, String, List, [], ◌∷◌, ◌++◌, Result, ok, ◌>>◌, ◌>>=◌, ltb, ◌==◌,
  nat_eq, if◌then◌else◌,
}
use aegis_ai_risk_manager.Common.Sort.{sort_by}
use aegis_ai_risk_manager.Common.TextOrder.{str_lt}
use aegis_ai_risk_manager.Common.Float.{Float}
use aegis_ai_risk_manager.Features.Domain.{ScoringFeatureTransaction, FeatureTransaction}
use aegis_ai_risk_manager.Features.Engine.{Records, FeatureVector, time_of, compute}
use aegis_ai_risk_manager.Features.History.{Indexes, no_indexes, observe_many, history_for}
use aegis_ai_risk_manager.Features.Validation.{validate_feature_vector}

-- `(transaction.event_time, transaction.transaction_public_id)`
abbrev pub order_lt : FeatureTransaction → FeatureTransaction → Bool
order_lt a b =
    ltb (time_of a) (time_of b)
    || ((time_of a == time_of b)
        && str_lt a.scoring_context.transaction_public_id b.scoring_context.transaction_public_id)

-- `itertools.groupby` by the event time: runs of neighbors of the same time.
unfoldable pub join_group : FeatureTransaction → List Records → List Records
join_group t [] = (t ∷ []) ∷ []
join_group t ([] ∷ groups) = (t ∷ []) ∷ groups
join_group t ((u ∷ group) ∷ groups) =
    if time_of t == time_of u then (t ∷ u ∷ group) ∷ groups else (t ∷ []) ∷ (u ∷ group) ∷ groups

unfoldable pub groups_by_time : Records → List Records
unfolding join_group
groups_by_time [] = []
groups_by_time (t ∷ ts) = join_group t (groups_by_time ts)

module _ {F : Type 0} ⦃f : Float F⦄ (log1p : ℕ → F) (fmean : List ℕ → F) (pstdev : List ℕ → F)
    (hour weekday : ℕ → ℕ) (utc_now : ℕ) (lower : String → String)
    (show_names : List String → String) where
  -- One round of the inner loop.
  unfoldable pub score : Indexes → FeatureTransaction → Result (FeatureVector F)
  unfolding compute history_for validate_feature_vector
  score history t = do
    vector ← compute log1p fmean pstdev hour weekday utc_now (history_for history) t.scoring_context
    validate_feature_vector lower show_names vector (time_of t)
    ok vector

  unfoldable pub score_all : Indexes → Records → Result (List (FeatureVector F))
  unfolding score
  score_all history [] = ok []
  score_all history (t ∷ ts) = do
    vector ← score history t
    vectors ← score_all history ts
    ok (vector ∷ vectors)

  unfoldable pub replay : Indexes → List Records → Result (List (FeatureVector F))
  unfolding score_all observe_many
  replay history [] = ok []
  replay history (same_time ∷ groups) = do
    scored ← score_all history same_time
    vectors ← replay (observe_many same_time history) groups
    ok (scored ++ vectors)

  unfoldable pub build_offline_feature_vectors : Records → Result (List (FeatureVector F))
  unfolding replay groups_by_time sort_by
  build_offline_feature_vectors transactions =
      replay no_indexes (groups_by_time (sort_by order_lt transactions))
