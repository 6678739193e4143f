-- ===== src/Policy/Optimizer/Best.antt =====
-- What `optimize_thresholds` promises of its result and of its error.
use aegis_ai_risk_manager.Common.{
  ℕ, ◌≡◌, refl, sym, ap, ◌∙◌, false, not, String, List, [], ◌∷◌, length, Option, Result, ok,
  >>=-eq-ok, ok-injective, All, subst, ◌==◌, nat_eq, string_eq,
}
use aegis_ai_risk_manager.Common.Members.{◌∈◌, All-map, All-sort_by, ∈-sort_by, sort_by-least}
use aegis_ai_risk_manager.Common.Dict.{tally}
use aegis_ai_risk_manager.Common.Sort.{lex_lt}
use aegis_ai_risk_manager.Common.Float.{Float, Compares}
use aegis_ai_risk_manager.Common.Float.Keys.{IsFinite, lex_asym, not_lex_trans}
use aegis_ai_risk_manager.Policy.Config.{PolicyConfig, OperatingConstraints}
use aegis_ai_risk_manager.Policy.Costs.{CostProfile}
use aegis_ai_risk_manager.Policy.Backtest.Loop.{BacktestExample}
use aegis_ai_risk_manager.Policy.Backtest.Metrics.{PolicyMetrics}
use aegis_ai_risk_manager.Policy.Backtest.Report.{evaluate_policy}
use aegis_ai_risk_manager.Policy.Optimizer.{no_scores}
use aegis_ai_risk_manager.Policy.Optimizer.Search.{
  Ranked, SearchState, no_search, ranking_key, candidate_policy, violations_of,
}
use aegis_ai_risk_manager.Policy.Optimizer.Choice.{
  Optimization, OptimizationResult, chosen, no_feasible_policy, Diagnostics, optimize_thresholds,
  all_candidates, conclude, generation, by_key,
}
use aegis_ai_risk_manager.Policy.Optimizer.Filed.{IsFeasible}
use aegis_ai_risk_manager.Policy.Optimizer.Optimal.{
  rows, outcome_of, entry_at, IsRanked, rows-IsRanked, rows-add,
}

module _ {F : Type 0} ⦃f : Float F⦄ where
  -- The two ends of the function, and the ranking each comes from.
  conclude-chosen :
      (generated : String) (n : ℕ) (sorted : List (Ranked F)) (s : SearchState F)
      {r : OptimizationResult F}
      → conclude generated n sorted s ≡ chosen r
      → (best : Ranked F) × (others : List (Ranked F)) × (sorted ≡ best ∷ others)
        × (best.policy ≡ r.policy)
        × (best.metrics ≡ r.validation_metrics)
  unfolding conclude
  conclude-chosen generated n [] s h = cc
  conclude-chosen generated n (best ∷ others) s h = (best, others, refl, cc, cc)

  conclude-none :
      (generated : String) (n : ℕ) (sorted : List (Ranked F)) (s : SearchState F)
      {d : Diagnostics F}
      → conclude generated n sorted s ≡ no_feasible_policy d
      → sorted ≡ []
  unfolding conclude
  conclude-none generated n [] s h = refl
  conclude-none generated n (best ∷ others) s h = cc

module _ {F : Type 0} ⦃f : Float F⦄ (show : ℕ → String) (quantile : List F → ℕ → List F)
    (policy_hash : PolicyConfig F → String) (profile_hash : CostProfile F → String)
    (float_sum : List F → F) (examples : List (BacktestExample F)) (base_policy : PolicyConfig F)
    (cost_profile : CostProfile F) (constraints : Option (OperatingConstraints F))
    (quantile_count : ℕ) (additional_thresholds : List F) where
  abbrev pub optimization : Result (Optimization F)
  optimization =
      optimize_thresholds show quantile policy_hash profile_hash float_sum examples base_policy
        cost_profile constraints quantile_count additional_thresholds

  abbrev pub thresholds : Result (List F)
  thresholds =
      all_candidates show quantile policy_hash profile_hash float_sum examples base_policy
        quantile_count additional_thresholds

  abbrev pub metrics_at : F → F → Result (PolicyMetrics F)
  metrics_at =
      outcome_of constraints policy_hash profile_hash float_sum examples base_policy cost_profile

  abbrev all_rows : List F → List F → SearchState F → Result (SearchState F)
  all_rows = rows constraints policy_hash profile_hash float_sum examples base_policy cost_profile

  abbrev ranked_at : F → F → PolicyMetrics F → Ranked F
  ranked_at =
      entry_at constraints policy_hash profile_hash float_sum examples base_policy cost_profile

  abbrev key_at : PolicyConfig F → PolicyMetrics F → List F
  key_at = ranking_key examples

  optimization-parts :
      {o : Optimization F}
      → optimization ≡ ok o
      → (cs : List F) × (t : SearchState F) × (thresholds ≡ ok cs)
        × (all_rows cs cs no_search ≡ ok t)
        × (conclude
              (generation show quantile_count (not (no_scores additional_thresholds)))
              (length cs)
              (by_key t.ranked)
              t
            ≡ o)
  unfolding optimize_thresholds
  optimization-parts h =
      let (cs, first, rest) = >>=-eq-ok thresholds _ h in
      let (t, second, last) = >>=-eq-ok (all_rows cs cs no_search) _ rest in
      (cs, t, first, second, ok-injective last)

  abbrev IsRankedHere : List F → Ranked F → Type 0
  IsRankedHere =
      IsRanked constraints policy_hash profile_hash float_sum examples base_policy cost_profile

  by_key-IsRanked :
      (cs : List F) (t : SearchState F)
      → all_rows cs cs no_search ≡ ok t
      → All (IsRankedHere cs) (by_key t.ranked)
  unfolding by_key
  by_key-IsRanked cs t ran =
      All-sort_by (λ (a b : Ranked F). lex_lt f.lt a.key b.key) (IsRankedHere cs) t.ranked
        (rows-IsRanked constraints policy_hash profile_hash float_sum examples base_policy
          cost_profile cs t ran)

  -- A chosen policy is the base policy with two of the candidate thresholds, the verify threshold
  -- not at or above the hold threshold; its metrics are those of its backtest, with a populated verify
  -- band and no violated constraint.
  pub chosen-IsFeasible :
      {r : OptimizationResult F}
      → optimization ≡ ok (chosen r)
      → (cs : List F) × (v : F) × (h : F) × (thresholds ≡ ok cs)
        × (v ∈ cs)
        × (h ∈ cs)
        × (candidate_policy base_policy cost_profile v h ≡ r.policy)
        × (f.le h v ≡ false)
        × (evaluate_policy policy_hash profile_hash examples r.policy cost_profile
            ≡ ok r.validation_metrics)
        × ((tally "VERIFY" r.validation_metrics.action_counts == 0) ≡ false)
        × (violations_of constraints r.validation_metrics ≡ [])
  chosen-IsFeasible {r} e =
      let (cs, t, found, ran, last) = optimization-parts e in
      let (best, others, split, policy, metrics) = conclude-chosen _ _ (by_key t.ranked) t last in
      let all = by_key-IsRanked cs t ran in
      let head : IsRankedHere cs best = (subst (All (IsRankedHere cs)) split all).0 in
      let (v, h, m, i, j, less, ran_m, good, same) = head in
      let same_policy = ap (λ (x : Ranked F). x.policy) same ∙ policy in
      let same_metrics = ap (λ (x : Ranked F). x.metrics) same ∙ metrics in
      (
        cs,
        v,
        h,
        found,
        i,
        j,
        same_policy,
        less,
        subst
            (λ p.
              evaluate_policy policy_hash profile_hash examples p cost_profile
              ≡ ok r.validation_metrics)
            same_policy (subst (λ n. metrics_at v h ≡ ok n) same_metrics ran_m),
        (subst (IsFeasible constraints) same_metrics good).0,
        (subst (IsFeasible constraints) same_metrics good).1,
      )

  -- The error is raised only when no pair of candidate thresholds is feasible.
  pub no_feasible_policy_sound :
      {d : Diagnostics F} (cs : List F) (v h : F) (m : PolicyMetrics F)
      → optimization ≡ ok (no_feasible_policy d)
      → thresholds ≡ ok cs
      → v ∈ cs
      → h ∈ cs
      → f.le h v ≡ false
      → metrics_at v h ≡ ok m
      → ¬ IsFeasible constraints m
  unfolding by_key
  no_feasible_policy_sound cs v h m e found i j less ran good =
      let (ds, t, found_too, all, last) = optimization-parts e in
      let same : ds ≡ cs = ok-injective (sym found_too ∙ found) in
      let none_ranked = conclude-none _ _ (by_key t.ranked) t last in
      let here =
        rows-add constraints policy_hash profile_hash float_sum examples base_policy cost_profile v
          h m less ran good ds ds no_search t all (subst (λ cs. v ∈ cs) (sym same) i)
          (subst (λ cs. h ∈ cs) (sym same) j) in
      let sorted =
        ∈-sort_by (λ (a b : Ranked F). lex_lt f.lt a.key b.key) (ranked_at v h m) t.ranked here in
      subst (λ xs. ranked_at v h m ∈ xs) none_ranked sorted

  -- No feasible pair of candidates has a smaller key than the chosen policy, when the keys of the
  -- pairs of candidates that the search evaluates are finite: the expected cost counts first, then the tie breaks.
  pub chosen-least :
      ⦃laws : Compares F⦄ {r : OptimizationResult F} (cs : List F) (v h : F) (m : PolicyMetrics F)
      → optimization ≡ ok (chosen r)
      → thresholds ≡ ok cs
      → v ∈ cs
      → h ∈ cs
      → f.le h v ≡ false
      → metrics_at v h ≡ ok m
      → IsFeasible constraints m
      → ((v h : F) (m : PolicyMetrics F)
          → v ∈ cs
          → h ∈ cs
          → f.le h v ≡ false
          → metrics_at v h ≡ ok m
          → IsFinite (key_at (candidate_policy base_policy cost_profile v h) m))
      → lex_lt f.lt
          (key_at (candidate_policy base_policy cost_profile v h) m)
          (key_at r.policy r.validation_metrics)
        ≡ false
  unfolding by_key
  chosen-least {r} cs v h m e found i j less ran good finite =
      let (ds, t, found_too, all, last) = optimization-parts e in
      let (best, others, split, policy, metrics) = conclude-chosen _ _ (by_key t.ranked) t last in
      let same : ds ≡ cs = ok-injective (sym found_too ∙ found) in
      let here =
        rows-add constraints policy_hash profile_hash float_sum examples base_policy cost_profile v
          h m less ran good ds ds no_search t all (subst (λ cs. v ∈ cs) (sym same) i)
          (subst (λ cs. h ∈ cs) (sym same) j) in
      let finite_keys : All (λ (x : Ranked F). IsFinite x.key) t.ranked =
        All-map (IsRankedHere ds) (λ (x : Ranked F). IsFinite x.key) t.ranked
          (λ x (v, h, m, a, b, l, ran, _, entry).
            subst (λ (x : Ranked F). IsFinite x.key) entry
              (finite v h m (subst (λ cs. v ∈ cs) same a) (subst (λ cs. h ∈ cs) same b) l ran))
          (rows-IsRanked constraints policy_hash profile_hash float_sum examples base_policy
            cost_profile ds t all) in
      let least =
        sort_by-least (λ (a b : Ranked F). lex_lt f.lt a.key b.key)
          (λ (x : Ranked F). IsFinite x.key) (λ x y. lex_asym x.key y.key)
          (λ x y z. not_lex_trans x.key y.key z.key) t.ranked finite_keys split (ranked_at v h m)
          here in
      let (w, k, n, _, _, _, _, _, entry) =
        (subst (All (IsRankedHere ds)) split (by_key-IsRanked ds t all)).0 in
      let key : best.key ≡ key_at r.policy r.validation_metrics =
        ap (λ (x : Ranked F). x.key) (sym entry) ∙ (λ i.
          key_at ((ap (λ (x : Ranked F). x.policy) entry ∙ policy) i)
            ((ap (λ (x : Ranked F). x.metrics) entry ∙ metrics) i)) in
      rw (sym key) least
