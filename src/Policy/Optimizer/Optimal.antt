-- ===== src/Policy/Optimizer/Optimal.antt =====
-- What the search finds: the chosen policy is feasible and ranks first among all pairs of
-- candidates; without a choice no pair is feasible.
use aegis_ai_risk_manager.Common.{
  ◌≡◌, refl, sym, ◌∙◌, inl, inr, false, String, List, [], ◌∷◌, ◌++◌, Option, Result, ok, >>=-eq-ok,
  ok-injective, All, subst,
}
use aegis_ai_risk_manager.Common.Members.{◌∈◌, ∈-append_left, ∈-append_last, All-append}
use aegis_ai_risk_manager.Common.Members.Select.{All-of_∈}
use aegis_ai_risk_manager.Common.Float.{Float}
use aegis_ai_risk_manager.Policy.Config.{PolicyConfig, OperatingConstraints}
use aegis_ai_risk_manager.Policy.Costs.{CostProfile}
use aegis_ai_risk_manager.Policy.Backtest.Loop.{BacktestExample}
use aegis_ai_risk_manager.Policy.Backtest.Metrics.{PolicyMetrics}
use aegis_ai_risk_manager.Policy.Optimizer.Search.{
  Ranked, SearchState, no_search, consider, try_holds, try_pairs,
}
use aegis_ai_risk_manager.Common.Dict.{tally}
use aegis_ai_risk_manager.Common.{nat_eq, string_eq}
use aegis_ai_risk_manager.Policy.Optimizer.Filed.{
  IsFeasible, filed, evaluated, entry, consider-ranked, consider-filed,
}

module _ {F : Type 0} ⦃f : Float F⦄ (constraints : Option (OperatingConstraints F))
    (policy_hash : PolicyConfig F → String) (profile_hash : CostProfile F → String)
    (float_sum : List F → F) (examples : List (BacktestExample F)) (base_policy : PolicyConfig F)
    (cost_profile : CostProfile F) where
  abbrev step : F → F → SearchState F → Result (SearchState F)
  step = consider policy_hash profile_hash float_sum examples base_policy cost_profile constraints

  abbrev row : F → List F → SearchState F → Result (SearchState F)
  row = try_holds policy_hash profile_hash float_sum examples base_policy cost_profile constraints

  abbrev pub rows : List F → List F → SearchState F → Result (SearchState F)
  rows = try_pairs policy_hash profile_hash float_sum examples base_policy cost_profile constraints

  abbrev pub outcome_of : F → F → Result (PolicyMetrics F)
  outcome_of =
      evaluated constraints policy_hash profile_hash float_sum examples base_policy cost_profile

  abbrev pub entry_at : F → F → PolicyMetrics F → Ranked F
  entry_at = entry constraints policy_hash profile_hash float_sum examples base_policy cost_profile

  -- What a step keeps, the loops keep.
  module _ (P : F → Type 0) (I : SearchState F → Type 0)
      (kept : (v h : F) → P v → P h → (s t : SearchState F) → step v h s ≡ ok t → I s → I t) where
    row-keeps_at :
        (v : F) (hs : List F) (s t : SearchState F) → P v → All P hs → row v hs s ≡ ok t → I s → I t
    unfolding try_holds
    row-keeps_at v [] s t p q e i = subst I (ok-injective e) i
    row-keeps_at v (h ∷ hs) s t p q e i =
        let (u, first, rest) = >>=-eq-ok (step v h s) _ e in
        row-keeps_at v hs u t p q.1 rest (kept v h p q.0 s u first i)

    rows-keep_at :
        (cs vs : List F) (s t : SearchState F)
        → All P cs
        → All P vs
        → rows cs vs s ≡ ok t
        → I s
        → I t
    unfolding try_pairs
    rows-keep_at cs [] s t q p e i = subst I (ok-injective e) i
    rows-keep_at cs (v ∷ vs) s t q p e i =
        let (u, first, rest) = >>=-eq-ok (row v cs s) _ e in
        rows-keep_at cs vs u t q p.1 rest (row-keeps_at v cs s u p.0 q first i)

  everywhere : (xs : List F) → All (λ x. Unit {0}) xs
  everywhere xs = All-of_∈ (λ x. Unit {0}) xs (λ x m. tt)

  module _ (I : SearchState F → Type 0)
      (kept : (v h : F) (s t : SearchState F) → step v h s ≡ ok t → I s → I t) where
    row-keeps : (v : F) (hs : List F) (s t : SearchState F) → row v hs s ≡ ok t → I s → I t
    row-keeps v hs s t =
        row-keeps_at (λ x. Unit {0}) I (λ v h _ _. kept v h) v hs s t tt (everywhere hs)

    rows-keep : (cs vs : List F) (s t : SearchState F) → rows cs vs s ≡ ok t → I s → I t
    rows-keep cs vs s t =
        rows-keep_at (λ x. Unit {0}) I (λ v h _ _. kept v h) cs vs s t (everywhere cs)
          (everywhere vs)

  -- Every ranked policy is a feasible pair of candidates.
  abbrev pub IsRanked : List F → Ranked F → Type 0
  IsRanked cs r =
      (v : F) × (h : F) × (m : PolicyMetrics F) × (v ∈ cs)
      × (h ∈ cs)
      × (f.le h v ≡ false)
      × (outcome_of v h ≡ ok m)
      × IsFeasible constraints m
      × (entry_at v h m ≡ r)

  step-IsRanked :
      (cs : List F) (v h : F)
      → v ∈ cs
      → h ∈ cs
      → (s t : SearchState F) → step v h s ≡ ok t
      → All (IsRanked cs) s.ranked
      → All (IsRanked cs) t.ranked
  step-IsRanked cs v h i j s t e all =
      elim (consider-ranked constraints policy_hash profile_hash float_sum examples base_policy
        cost_profile v h s t e) [
          | inl (same, _) ↦ subst (All (IsRanked cs)) (sym same) all
          | inr (m, less, ran, good, same) ↦ subst (All (IsRanked cs)) (sym same) (
              All-append (IsRanked cs) s.ranked (entry_at v h m) all
                (v, h, m, i, j, less, ran, good, refl))
        ]

  pub rows-IsRanked :
      (cs : List F) (t : SearchState F) → rows cs cs no_search ≡ ok t → All (IsRanked cs) t.ranked
  rows-IsRanked cs t e =
      let within = All-of_∈ (λ x. x ∈ cs) cs (λ x m. m) in
      rows-keep_at (λ x. x ∈ cs) (λ s. All (IsRanked cs) s.ranked) (step-IsRanked cs) cs cs
        no_search t within within e tt

  -- A feasible pair is ranked, and stays so.
  step-keeps-∈ :
      (x : Ranked F) (v h : F) (s t : SearchState F)
      → step v h s ≡ ok t
      → x ∈ s.ranked
      → x ∈ t.ranked
  step-keeps-∈ x v h s t e m =
      elim (consider-ranked constraints policy_hash profile_hash float_sum examples base_policy
        cost_profile v h s t e) [
          | inl (same, _) ↦ subst (λ xs. x ∈ xs) (sym same) m
          | inr (n, _, _, _, same) ↦
              subst (λ xs. x ∈ xs) (sym same) (∈-append_left x s.ranked (entry_at v h n ∷ []) m)
        ]

  module _ (v h : F) (m : PolicyMetrics F) (less : f.le h v ≡ false) (ran : outcome_of v h ≡ ok m)
      (good : IsFeasible constraints m) where
    step-adds : (s t : SearchState F) → step v h s ≡ ok t → entry_at v h m ∈ t.ranked
    step-adds s t e =
        elim (consider-ranked constraints policy_hash profile_hash float_sum examples base_policy
          cost_profile v h s t e) [
            | inl (_, bad) ↦ absurd (bad m less ran good)
            | inr (n, _, again, _, same) ↦
                subst (λ xs. entry_at v h m ∈ xs) (sym same)
                  (subst (λ n. entry_at v h m ∈ (s.ranked ++ (entry_at v h n ∷ [])))
                    (ok-injective (sym ran ∙ again)) (∈-append_last (entry_at v h m) s.ranked))
          ]

    row-adds :
        (hs : List F) (s t : SearchState F) → row v hs s ≡ ok t → h ∈ hs → entry_at v h m ∈ t.ranked
    unfolding try_holds
    row-adds [] s t e i = absurd i
    row-adds (k ∷ hs) s t e (inl here) =
        let (u, first, rest) = >>=-eq-ok (step v k s) _ e in
        row-keeps (λ s. entry_at v h m ∈ s.ranked) (step-keeps-∈ (entry_at v h m)) v hs u t rest
          (step-adds s u (subst (λ k. step v k s ≡ ok u) here first))
    row-adds (k ∷ hs) s t e (inr there) =
        let (u, first, rest) = >>=-eq-ok (step v k s) _ e in row-adds hs u t rest there

    pub rows-add :
        (cs vs : List F) (s t : SearchState F)
        → rows cs vs s ≡ ok t
        → v ∈ vs
        → h ∈ cs
        → entry_at v h m ∈ t.ranked
    unfolding try_pairs
    rows-add cs [] s t e i j = absurd i
    rows-add cs (w ∷ vs) s t e (inl here) j =
        let (u, first, rest) = >>=-eq-ok (row w cs s) _ e in
        rows-keep (λ s. entry_at v h m ∈ s.ranked) (step-keeps-∈ (entry_at v h m)) cs vs u t rest
          (row-adds cs s u (subst (λ w. row w cs s ≡ ok u) here first) j)
    rows-add cs (w ∷ vs) s t e (inr there) j =
        let (u, first, rest) = >>=-eq-ok (row w cs s) _ e in rows-add cs vs u t rest there j

  -- Every evaluated pair is counted once: it has no verified payment, it violates a constraint, or
  -- it is ranked.
  pub try_pairs-filed :
      (candidates : List F) {t : SearchState F}
      → rows candidates candidates no_search ≡ ok t
      → filed constraints t ≡ t.evaluated_pair_count
  unfolding tally
  try_pairs-filed candidates {t} e =
      rows-keep (λ s. filed constraints s ≡ s.evaluated_pair_count)
        (consider-filed constraints policy_hash profile_hash float_sum examples base_policy
          cost_profile)
        candidates candidates no_search t e refl
