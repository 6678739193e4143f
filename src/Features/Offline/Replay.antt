-- ===== src/Features/Offline/Replay.antt =====
-- Replaying group by group gives what the provider of all transactions gives at once.
use aegis_ai_risk_manager.Common.{
  ℕ, ◌≤◌, true, false, ◌≡◌, refl, sym, ap, ◌∙◌, String, List, [], ◌∷◌, ◌++◌, All, Result, ok, raise,
  ◌>>=◌, ◌>>◌, string_eq, arith, nat_eq,
}
use mathlib.Core.List.{append_assoc}
use aegis_ai_risk_manager.Common.Sort.{sort_by}
use aegis_ai_risk_manager.Common.Ascending.{
  IsAscending, NotBefore, sort_by-IsAscending, sort_on-IsAscending_id,
}
use aegis_ai_risk_manager.Common.Members.{All-map}
use aegis_ai_risk_manager.Common.Float.{Float}
use aegis_ai_risk_manager.Features.Domain.{ScoringFeatureTransaction, FeatureTransaction}
use aegis_ai_risk_manager.Features.Engine.{Records, FeatureVector, time_of, compute}
use aegis_ai_risk_manager.Features.Validation.{validate_feature_vector}
use mathlib.Core.Path.{ap₂}
use aegis_ai_risk_manager.Features.History.{
  Indexes, no_indexes, observe, observe_many, provider_of, history_for,
}
use aegis_ai_risk_manager.Features.Offline.{
  order_lt, groups_by_time, score, score_all, replay, build_offline_feature_vectors,
}
use aegis_ai_risk_manager.Features.Offline.Cutoff.{history_for-observe_many}
use aegis_ai_risk_manager.Features.Offline.Laws.{
  flatten, flatten-groups_by_time, IsGrouped, groups_by_time-IsGrouped,
}

order_le : (a b : FeatureTransaction) → order_lt a b ≡ true → time_of a ≤ time_of b
order_le a b h = ground (arith, h)

order_ge : (a b : FeatureTransaction) → order_lt a b ≡ false → time_of b ≤ time_of a
order_ge a b h = ground (arith, h)

observe_many-append :
    (xs ys : Records) (p : Indexes)
    → observe_many ys (observe_many xs p) ≡ observe_many (xs ++ ys) p
unfolding observe_many
observe_many-append [] ys p = refl
observe_many-append (x ∷ xs) ys p = observe_many-append xs ys (observe x p)

bind_ok : {V : Type 0} (c : Result (List V)) → (c >>= λ b. ok ([] ++ b)) ≡ c
bind_ok (ok b) = refl
bind_ok (raise e) = refl

bind_join :
    {V : Type 0} (a : Result V) (b c both : Result (List V))
    → both ≡ (b >>= λ l. c >>= λ r. ok (l ++ r))
    → (a >>= λ v. both >>= λ vs. ok (v ∷ vs))
      ≡ ((a >>= λ v. b >>= λ vs. ok (v ∷ vs)) >>= λ l. c >>= λ r. ok (l ++ r))
bind_join (raise e) b c both h = refl
bind_join (ok v) (raise e) c both h = rw h refl
bind_join (ok v) (ok l) (raise e) both h = rw h refl
bind_join (ok v) (ok l) (ok r) both h = rw h refl

module _ (F : Type 0) ⦃f : Float F⦄ (log1p : ℕ → F) (fmean : List ℕ → F) (pstdev : List ℕ → F)
    (hour weekday : ℕ → ℕ) (utc_now : ℕ) (lower : String → String)
    (show_names : List String → String) where
  abbrev pub scores : Indexes → Records → Result (List (FeatureVector F))
  scores = score_all log1p fmean pstdev hour weekday utc_now lower show_names

  abbrev score_one : Indexes → FeatureTransaction → Result (FeatureVector F)
  score_one = score log1p fmean pstdev hour weekday utc_now lower show_names

  abbrev replays : Indexes → List Records → Result (List (FeatureVector F))
  replays = replay log1p fmean pstdev hour weekday utc_now lower show_names

  compute-same :
      (h k : ScoringFeatureTransaction → Records) (current : ScoringFeatureTransaction)
      → h current ≡ k current
      → compute log1p fmean pstdev hour weekday utc_now h current
        ≡ compute log1p fmean pstdev hour weekday utc_now k current
  unfolding compute
  compute-same h k current e =
      ap
        (λ (history : Records).
          compute log1p fmean pstdev hour weekday utc_now (λ c. history) current)
        e

  score-same :
      (p q : Indexes) (t : FeatureTransaction)
      → history_for p t.scoring_context ≡ history_for q t.scoring_context
      → score_one p t ≡ score_one q t
  unfolding score
  score-same p q t e =
      ap
        (λ (c : Result (FeatureVector F)).
          c >>= λ v. validate_feature_vector lower show_names v (time_of t) >> ok v)
        (compute-same (history_for p) (history_for q) t.scoring_context e)

  scores-append :
      (p : Indexes) (xs ys : Records)
      → scores p (xs ++ ys) ≡ (scores p xs >>= λ a. scores p ys >>= λ b. ok (a ++ b))
  unfolding score_all
  scores-append p [] ys = sym (bind_ok (scores p ys))
  scores-append p (x ∷ xs) ys =
      bind_join (score_one p x) (scores p xs) (scores p ys) (scores p (xs ++ ys))
        (scores-append p xs ys)

  scores-same :
      (p q : Indexes) (ts : Records)
      → All
          (λ (t : FeatureTransaction).
            history_for p t.scoring_context ≡ history_for q t.scoring_context)
          ts
      → scores p ts ≡ scores q ts
  unfolding score_all
  scores-same p q [] h = refl
  scores-same p q (t ∷ ts) h =
      ap₂ (λ a b. a >>= λ v. b >>= λ vs. ok (v ∷ vs)) (score-same p q t h.0)
        (scores-same p q ts h.1)

  replay_lem :
      (pre : Records) (gs : List Records)
      → IsAscending time_of (pre ++ flatten gs)
      → IsGrouped gs
      → replays (observe_many pre no_indexes) gs
        ≡ scores (observe_many (pre ++ flatten gs) no_indexes) (flatten gs)
  unfolding replay score_all
  replay_lem pre [] ascending grouped = refl
  replay_lem pre (g ∷ gs) ascending grouped =
      let next = observe_many-append pre g no_indexes in
      let assoc = append_assoc pre g (flatten gs) in
      let now =
        scores-same (observe_many pre no_indexes)
          (observe_many (pre ++ flatten (g ∷ gs)) no_indexes) g
          (All-map (λ t. NotBefore time_of (time_of t) (flatten (g ∷ gs)))
            (λ (t : FeatureTransaction).
              history_for (observe_many pre no_indexes) t.scoring_context
              ≡ history_for (observe_many (pre ++ flatten (g ∷ gs)) no_indexes) t.scoring_context)
            g
            (λ t later.
              sym
                (history_for-observe_many pre (flatten (g ∷ gs)) ascending t.scoring_context later))
            grouped.0) in
      let rest = replay_lem (pre ++ g) gs (rw assoc ascending) grouped.1 in
      ap₂ (λ a b. a >>= λ l. b >>= λ r. ok (l ++ r)) now
        (ap (λ p. replays p gs) next
          ∙ (rest ∙ ap (λ xs. scores (observe_many xs no_indexes) (flatten gs)) assoc))
      ∙ sym (scores-append (observe_many (pre ++ flatten (g ∷ gs)) no_indexes) g (flatten gs))

  -- Replaying transactions in the order of their times, and observing those of one time after they
  -- are scored, gives what scoring each of them against a provider of all of them gives: the same
  -- vectors, or the same exception.
  pub build_offline-replay :
      (ts : Records)
      → build_offline_feature_vectors log1p fmean pstdev hour weekday utc_now lower show_names ts
        ≡ scores (provider_of (sort_by order_lt ts)) (sort_by order_lt ts)
  unfolding build_offline_feature_vectors provider_of observe_many
  build_offline-replay ts =
      let ordered = sort_by order_lt ts in
      let ascending = sort_by-IsAscending time_of order_lt order_le order_ge ts in
      let whole = flatten-groups_by_time ordered in
      replay_lem [] (groups_by_time ordered) (rw whole ascending)
        (groups_by_time-IsGrouped ordered ascending)
      ∙ (ap (λ xs. scores (observe_many xs no_indexes) xs) whole
          ∙ ap (λ xs. scores (observe_many xs no_indexes) ordered)
              (sym (sort_on-IsAscending_id time_of ordered ascending)))
