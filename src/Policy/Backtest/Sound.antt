-- ===== src/Policy/Backtest/Sound.antt =====
-- What the metrics of `evaluate_policy` promise, and when they are returned.
use aegis_ai_risk_manager.Common.{
  ℕ, ◌+◌, ◌≤◌, ◌<◌, ◌≡◌, refl, ap, sym, Bool, true, not, String, List, [], ◌∷◌, map, length,
  length-map, Result, ok, >>=-eq-ok, ok-injective, reject_if, value_error, ◌==◌, ◌!=◌, string_eq,
  eq_iff, count_of, sum_of, All, arith, if◌then◌else◌,
}
use aegis_ai_risk_manager.Common.Dict.{tally}
use aegis_ai_risk_manager.Common.Sets.{contains}
use aegis_ai_risk_manager.Common.Float.{Float, Compares, Rounds}
use aegis_ai_risk_manager.Enums.{
  PolicyAction, allow, verify, hold, escalate, recommend_block, action_eq, action_value,
}
use aegis_ai_risk_manager.Policy.Config.{PolicyConfig, validate_policy}
use aegis_ai_risk_manager.Policy.Domain.{scores_in_range}
use aegis_ai_risk_manager.Policy.Engine.{versions_match, verdict_of}
use aegis_ai_risk_manager.Policy.Engine.Decision.{
  assess_total, ReviewsSevere, validate_policy-ReviewsSevere,
}
use aegis_ai_risk_manager.Policy.Costs.{CostProfile, validate_profile}
use aegis_ai_risk_manager.Policy.Costs.Laws.{expected_cost-IsBounded}
use aegis_ai_risk_manager.Policy.Backtest.Loop.{
  BacktestExample, Totals, no_totals, is_abuse, account, tally_example, tally_all,
}
use aegis_ai_risk_manager.Policy.Backtest.Metrics.{Confusion, PolicyMetrics}
use aegis_ai_risk_manager.Policy.Backtest.Report.{
  severe_actions, confusion, classification, by_action, report, evaluate_policy,
}
use aegis_ai_risk_manager.Policy.Backtest.Totals.{IsBalanced, tally_all-IsBalanced, tally_all_adds}
use aegis_ai_risk_manager.Policy.Backtest.Matrix.{
  confusion-Splits, confusion_total, actions_partition,
}

pub count_of-map {ℓ κ} :
    {A : Type ℓ} {B : Type κ} (g : A → B) (p : B → Bool) (xs : List A)
    → count_of p (map g xs) ≡ count_of (λ x. p (g x)) xs
unfolding count_of
count_of-map g p [] = refl
count_of-map g p (x ∷ xs) = ap (λ (n : ℕ). (if p (g x) then 1 else 0) + n) (count_of-map g p xs)

-- Every action either allows or intervenes; a severe one intervenes.
interventions :
    (actions : List PolicyAction)
    → (count_of (λ b. b) (map (λ (a : PolicyAction). a != allow) actions)
          + count_of (λ a. a == allow) actions
        ≡ length actions)
      × (count_of (λ b. b) (map (contains severe_actions) actions)
          ≤ count_of (λ b. b) (map (λ (a : PolicyAction). a != allow) actions))
unfolding count_of contains
interventions [] = (refl, omega arith)
interventions (allow ∷ actions) = ground (arith, interventions actions)
interventions (_ ∷ actions) = ground (arith, interventions actions)

module _ {F : Type 0} ⦃f : Float F⦄ (policy : PolicyConfig F) where
  -- An example that the policy can decide and the profile can price.
  abbrev pub IsDecidable : BacktestExample F → Type 0
  IsDecidable e =
      (versions_match policy e.policy_input ≡ true)
      × (scores_in_range e.policy_input ≡ true)
      × (e.amount_paise < 18446744073709551616)

module _ {F : Type 0} ⦃f : Float F⦄ (policy_hash : PolicyConfig F → String)
    (profile_hash : CostProfile F → String) (examples : List (BacktestExample F))
    (policy : PolicyConfig F) (cost_profile : CostProfile F) where
  abbrev pub evaluation : Result (PolicyMetrics F)
  evaluation = evaluate_policy policy_hash profile_hash examples policy cost_profile

  -- The parts of a successful evaluation.
  record Parts (m : PolicyMetrics F) : Type 0 where
    s : Totals
    intervened : Confusion
    severe : Confusion
    run : tally_all policy cost_profile examples no_totals ≡ ok s
    first :
        confusion (map (λ (a : PolicyAction). a != allow) s.actions) (map is_abuse examples)
        ≡ ok intervened
    second : confusion (map (contains severe_actions) s.actions) (map is_abuse examples) ≡ ok severe
    figures : m ≡ report policy_hash profile_hash examples policy cost_profile s intervened severe

  evaluate_policy-parts : {m : PolicyMetrics F} → evaluation ≡ ok m → Parts m
  unfolding evaluate_policy
  evaluate_policy-parts h =
      let (_, _, h1) =
        >>=-eq-ok
          (reject_if (policy.cost_profile != cost_profile.cost_profile_version)
            (value_error "policy and cost-profile versions do not match"))
          _ h in
      let (s, run, h2) = >>=-eq-ok (tally_all policy cost_profile examples no_totals) _ h1 in
      let (i, first, h3) =
        >>=-eq-ok
          (confusion (map (λ (a : PolicyAction). a != allow) s.actions) (map is_abuse examples)) _
          h2 in
      let (v, second, h4) =
        >>=-eq-ok (confusion (map (contains severe_actions) s.actions) (map is_abuse examples)) _
          h3 in
      record {
        s = s;
        intervened = i;
        severe = v;
        run = run;
        first = first;
        second = second;
        figures = sym (ok-injective h4);
      }

  -- The counters of a balanced run count the examples.
  counters :
      (s : Totals)
      → IsBalanced s
      → (sum_of (λ (entry : String × ℕ). entry.1) (by_action s.action_counts) ≡ length s.actions)
        × (tally (action_value allow) (by_action s.action_counts)
            ≡ count_of (λ a. a == allow) s.actions)
  unfolding by_action sum_of tally
  counters s h = (
    omega (
      arith,
      actions_partition s.actions,
      h.counts allow,
      h.counts verify,
      h.counts hold,
      h.counts escalate,
      h.counts recommend_block,
    ),
    h.counts allow,
  )

  module _ {m : PolicyMetrics F} (returned : evaluation ≡ ok m) where
    abbrev parts : Parts m
    parts = evaluate_policy-parts returned

    figure_counts :
        (m.action_counts ≡ by_action parts.s.action_counts)
        × (m.intervention.counts ≡ parts.intervened)
        × (m.severe_intervention.counts ≡ parts.severe)
        × (m.operating_metrics.abuse_count ≡ count_of is_abuse examples)
        × (m.operating_metrics.legitimate_count
            ≡ count_of (λ (e : BacktestExample F). not (is_abuse e)) examples)
    unfolding report classification
    figure_counts = (
      ap (λ (m : PolicyMetrics F). m.action_counts) parts.figures,
      ap (λ (m : PolicyMetrics F). m.intervention.counts) parts.figures,
      ap (λ (m : PolicyMetrics F). m.severe_intervention.counts) parts.figures,
      ap (λ (m : PolicyMetrics F). m.operating_metrics.abuse_count) parts.figures,
      ap (λ (m : PolicyMetrics F). m.operating_metrics.legitimate_count) parts.figures,
    )

    -- The five action counts add up to the number of examples; each confusion matrix splits the
    -- examples, and its rows are the abusive and the legitimate ones; the interventions are the
    -- examples that were not allowed, and the severe ones are among them.
    pub metrics_count :
        (sum_of (λ (entry : String × ℕ). entry.1) m.action_counts ≡ length examples)
        × (m.intervention.counts.tp + m.intervention.counts.fn ≡ m.operating_metrics.abuse_count)
        × (m.intervention.counts.fp + m.intervention.counts.tn
            ≡ m.operating_metrics.legitimate_count)
        × (m.severe_intervention.counts.tp + m.severe_intervention.counts.fn
            ≡ m.operating_metrics.abuse_count)
        × (m.severe_intervention.counts.fp + m.severe_intervention.counts.tn
            ≡ m.operating_metrics.legitimate_count)
        × (m.operating_metrics.abuse_count + m.operating_metrics.legitimate_count ≡ length examples)
        × (m.intervention.counts.tp
              + m.intervention.counts.fp
              + tally (action_value allow) m.action_counts
            ≡ length examples)
        × (m.severe_intervention.counts.tp + m.severe_intervention.counts.fp
            ≤ m.intervention.counts.tp + m.intervention.counts.fp)
    metrics_count =
        let run = tally_all-IsBalanced policy cost_profile examples parts.run in
        let adds = tally_all_adds policy cost_profile examples parts.run in
        let (all, allowed) = counters parts.s run in
        let i = confusion-Splits _ _ parts.first in
        let v = confusion-Splits _ _ parts.second in
        let abusive = count_of-map is_abuse (λ b. b) examples in
        let honest = count_of-map is_abuse not examples in
        let size = length-map is_abuse examples in
        let acts = interventions parts.s.actions in
        rw (figure_counts.0, figure_counts.1, figure_counts.2, figure_counts.3, figure_counts.4)
          (omega arith)

    -- The total is the sum of all amounts, and splits into the legitimate and the abusive part; the
    -- abusive part is the sum over the abusive examples, and splits into what was touched and what
    -- was allowed; the legitimate amount touched is at most the legitimate total.
    pub metrics_amounts :
        (m.amounts_paise.total_transaction_amount
          ≡ sum_of (λ (e : BacktestExample F). e.amount_paise) examples)
        × (m.amounts_paise.total_transaction_amount
            ≡ m.amounts_paise.total_legitimate_amount + m.amounts_paise.total_abuse_amount)
        × (m.amounts_paise.total_abuse_amount
            ≡ sum_of (λ (e : BacktestExample F). if is_abuse e then e.amount_paise else 0) examples)
        × (m.amounts_paise.total_abuse_amount
            ≡ m.amounts_paise.abuse_amount_touched + m.amounts_paise.abuse_amount_allowed)
        × (m.amounts_paise.legitimate_amount_touched ≤ m.amounts_paise.total_legitimate_amount)
    unfolding report
    metrics_amounts =
        let run = tally_all-IsBalanced policy cost_profile examples parts.run in
        let adds = tally_all_adds policy cost_profile examples parts.run in
        rw parts.figures (adds.1, run.labels, adds.2, run.abuse, run.legitimate)

  module _ ⦃cmp : Compares F⦄ ⦃round : Rounds F⦄ (reviews : ReviewsSevere policy)
      (profile_valid : validate_profile cost_profile ≡ ok tt) where
    tally_example_total :
        (e : BacktestExample F) (s : Totals)
        → IsDecidable policy e
        → (t : Totals) × (tally_example policy cost_profile e s ≡ ok t)
    unfolding tally_example
    tally_example_total e s h =
        let v = verdict_of policy e.policy_input in
        let (c, priced, _) =
          expected_cost-IsBounded cost_profile profile_valid e.amount_paise h.2 (is_abuse e)
            v.action in
        (account e v.action c s, rw (assess_total policy e.policy_input reviews h.1 h.0, priced))

    tally_all_total :
        (es : List (BacktestExample F)) (s : Totals)
        → All (IsDecidable policy) es
        → (t : Totals) × (tally_all policy cost_profile es s ≡ ok t)
    unfolding tally_all
    tally_all_total [] s h = (s, refl)
    tally_all_total (e ∷ es) s h =
        let (u, round_ok) = tally_example_total e s h.0 in
        let (t, rest_ok) = tally_all_total es u h.1 in (t, rw round_ok rest_ok)

    pub evaluate_policy_returns :
        policy.cost_profile ≡ cost_profile.cost_profile_version
        → All (IsDecidable policy) examples
        → (m : PolicyMetrics F) × (evaluation ≡ ok m)
    unfolding evaluate_policy
    evaluate_policy_returns same h =
        let (s, run) = tally_all_total examples no_totals h in
        let adds = tally_all_adds policy cost_profile examples run in
        let labels = length-map is_abuse examples in
        let (i, first) =
          confusion_total (map (λ (a : PolicyAction). a != allow) s.actions) (map is_abuse examples)
            (omega (arith, length-map (λ (a : PolicyAction). a != allow) s.actions)) in
        let (v, second) =
          confusion_total (map (contains severe_actions) s.actions) (map is_abuse examples)
            (omega (arith, length-map (contains severe_actions) s.actions)) in
        (
          report policy_hash profile_hash examples policy cost_profile s i v,
          ground (arith, eq_iff policy.cost_profile cost_profile.cost_profile_version),
        )

  -- With a validated policy and profile that name the same cost version, every list of decidable
  -- examples, the empty one included, has metrics.
  pub evaluate_policy_total :
      ⦃cmp : Compares F⦄ ⦃round : Rounds F⦄
      → validate_policy policy ≡ ok tt
      → validate_profile cost_profile ≡ ok tt
      → policy.cost_profile ≡ cost_profile.cost_profile_version
      → All (IsDecidable policy) examples
      → (m : PolicyMetrics F) × (evaluation ≡ ok m)
  evaluate_policy_total policy_valid profile_valid same h =
      evaluate_policy_returns (validate_policy-ReviewsSevere policy policy_valid) profile_valid same
        h
