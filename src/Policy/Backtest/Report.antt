-- ===== src/Policy/Backtest/Report.antt =====
-- What `evaluate_policy` computes after its loop. The two configuration hashes are parameters.
use aegis_ai_risk_manager.Common.{
  ℕ, ◌+◌, ◌-◌, Bool, not, ◌&&◌, ◌||◌, String, List, [], ◌∷◌, map, length, Option, none, some,
  Result, ok, raise, ◌>>=◌, ◌>>◌, value_error, reject_if, ◌!=◌, string_eq, nat_eq, count_of, sum_of,
  if◌then◌else◌,
}
use aegis_ai_risk_manager.Policy.Backtest.Metrics.{
  Confusion, Classification, SliceRow, PolicyMetrics,
}
use aegis_ai_risk_manager.Common.Int.{sub_ℕ}
use aegis_ai_risk_manager.Common.Dict.{lookup, tally}
use aegis_ai_risk_manager.Common.Sets.{contains, sorted_set, sorted_set_by}
use aegis_ai_risk_manager.Common.TextOrder.{string_ord, str_lt}
use aegis_ai_risk_manager.Common.Float.{Float, of_int}
use aegis_ai_risk_manager.Enums.{
  PolicyAction, allow, hold, escalate, recommend_block, action_eq, action_value,
}
use aegis_ai_risk_manager.Policy.Config.{PolicyConfig}
use aegis_ai_risk_manager.Policy.Costs.{CostProfile, all_actions}
use aegis_ai_risk_manager.Policy.Backtest.Loop.{
  BacktestExample, Counter, Totals, no_totals, or_empty, is_abuse, tally_all,
}

abbrev pub severe_actions : List PolicyAction
severe_actions = hold ∷ escalate ∷ recommend_block ∷ []

abbrev pub human_review_actions : List PolicyAction
human_review_actions = escalate ∷ recommend_block ∷ []

-- `zip(predictions, labels, strict=True)`
unfoldable pub zip_strict {ℓ κ} :
    {A : Type ℓ} {B : Type κ} → List A → List B → Result (List (A × B))
zip_strict [] [] = ok []
zip_strict (x ∷ xs) (y ∷ ys) = do rest ← zip_strict xs ys; ok ((x, y) ∷ rest)
zip_strict [] (y ∷ ys) = raise (value_error "zip() argument 2 is longer than argument 1")
zip_strict (x ∷ xs) [] = raise (value_error "zip() argument 2 is shorter than argument 1")

unfoldable pub confusion_of : List (Bool × Bool) → Confusion
unfolding count_of
confusion_of pairs = record {
  tp = count_of (λ (prediction, label). prediction && label) pairs;
  fp = count_of (λ (prediction, label). prediction && not label) pairs;
  tn = count_of (λ (prediction, label). not prediction && not label) pairs;
  fn = count_of (λ (prediction, label). not prediction && label) pairs;
}

unfoldable pub confusion : List Bool → List Bool → Result Confusion
unfolding zip_strict confusion_of
confusion predictions labels = do pairs ← zip_strict predictions labels; ok (confusion_of pairs)

-- `{action.value: counts[action.value] for action in PolicyAction}`
unfoldable pub by_action : Counter → Counter
unfolding tally
by_action counts =
    map (λ (a : PolicyAction). (action_value a, tally (action_value a) counts)) all_actions

module _ {F : Type 0} ⦃f : Float F⦄ where
  -- `n / d if d else 0.0`
  abbrev pub rate : ℕ → ℕ → F
  rate n d = if d != 0 then f.ratio n d else of_int 0

  unfoldable pub classification : Confusion → Classification F
  classification c =
      let precision = rate c.tp (c.tp + c.fp) in
      let recall = rate c.tp (c.tp + c.fn) in
      let total = f.add precision recall in
      record {
        precision = precision;
        recall = recall;
        f1 =
            if f.lt total (of_int 0) || f.lt (of_int 0) total
            then f.div (f.mul (f.mul (of_int 2) precision) recall) total
            else of_int 0;
        counts = c;
      }

  -- One group of `slice_report`.
  unfoldable pub slice_row : Counter → SliceRow F
  unfolding tally sum_of by_action
  slice_row counts =
      let total = sum_of (λ (entry : String × ℕ). entry.1) counts in
      let severe_count =
        sum_of (λ (a : PolicyAction). tally (action_value a) counts) severe_actions in
      record {
        transactions = total;
        by_action = by_action counts;
        severe_intervention_rate = rate severe_count total;
        intervention_rate = rate (total - tally (action_value allow) counts) total;
      }

  unfoldable pub slice_report : List (String × Counter) → List (String × SliceRow F)
  unfolding slice_row lookup sorted_set_by
  slice_report groups =
      map (λ (group : String). (group, slice_row (or_empty (lookup group groups))))
        (sorted_set (map (λ (entry : String × Counter). entry.0) groups))

  -- `max(..., key=lambda item: (item[1], item[0]), default=(None, 0.0))`: the later entry replaces
  -- the best one only if its key is greater.
  unfoldable pub best_persona : Option String × F → List (String × SliceRow F) → Option String × F
  best_persona best [] = best
  best_persona (none, r) ((persona, row) ∷ rest) =
      best_persona (some persona, row.severe_intervention_rate) rest
  best_persona (some name, r) ((persona, row) ∷ rest) =
      best_persona
        (if f.lt r row.severe_intervention_rate
            || (not (f.lt row.severe_intervention_rate r) && str_lt name persona)
          then (some persona, row.severe_intervention_rate)
          else (some name, r))
        rest

  module _ (policy_hash : PolicyConfig F → String) (profile_hash : CostProfile F → String) where
    -- The figures, from the totals and the two confusion matrices.
    unfoldable pub report :
        List (BacktestExample F)
        → PolicyConfig F
        → CostProfile F
        → Totals
        → Confusion
        → Confusion
        → PolicyMetrics F
    unfolding classification slice_report best_persona by_action sub_ℕ contains count_of
    report examples policy cost_profile s intervened severe =
        let legitimate_count = count_of (λ (e : BacktestExample F). not (is_abuse e)) examples in
        let human_review_count = count_of (contains human_review_actions) s.actions in
        let baseline_loss =
          f.round_int (f.mul (of_int s.abuse_amount) cost_profile.abuse_loss_fraction) in
        let policy_cost = s.remaining_abuse_loss + s.legitimate_friction + s.operational_cost in
        let persona_report = slice_report s.persona_actions in
        let (max_persona_name, max_persona_rate) = best_persona (none, of_int 0) persona_report in
        record {
          policy_version = policy.policy_version;
          policy_config_hash = policy_hash policy;
          cost_profile_version = cost_profile.cost_profile_version;
          cost_profile_hash = profile_hash cost_profile;
          assumptions_label = cost_profile.assumptions_label;
          verify_threshold = policy.verify_threshold;
          hold_threshold = policy.hold_threshold;
          action_counts = by_action s.action_counts;
          intervention = classification intervened;
          severe_intervention = classification severe;
          operating_metrics = record {
            abuse_intervention_recall = (classification intervened).recall;
            legitimate_intervention_rate = rate intervened.fp legitimate_count;
            legitimate_severe_intervention_rate = rate severe.fp legitimate_count;
            total_human_review_rate = rate human_review_count (length examples);
            human_review_count = human_review_count;
            legitimate_count = legitimate_count;
            abuse_count = count_of is_abuse examples;
            maximum_legitimate_persona_severe_intervention_rate = max_persona_rate;
            maximum_legitimate_persona = max_persona_name;
          };
          amounts_paise = record {
            total_transaction_amount = s.total_amount;
            total_legitimate_amount = s.legitimate_amount;
            total_abuse_amount = s.abuse_amount;
            legitimate_amount_touched = s.legitimate_touched;
            abuse_amount_touched = s.abuse_touched;
            abuse_amount_allowed = s.abuse_allowed;
            amount_weighted_abuse_intervention_rate = rate s.abuse_touched s.abuse_amount;
          };
          costs_paise = record {
            allow_all_baseline_expected_loss = baseline_loss;
            remaining_abuse_loss = s.remaining_abuse_loss;
            legitimate_intervention_friction_cost = s.legitimate_friction;
            operational_action_cost = s.operational_cost;
            total_policy_expected_cost = policy_cost;
            estimated_net_protected_value = sub_ℕ baseline_loss policy_cost;
          };
          legitimate_intervention_by_action = s.legitimate_action_details;
          persona_actions = persona_report;
          scenario_actions = slice_report s.scenario_actions;
        }

    unfoldable pub evaluate_policy :
        List (BacktestExample F) → PolicyConfig F → CostProfile F → Result (PolicyMetrics F)
    unfolding tally_all confusion report
    evaluate_policy examples policy cost_profile = do
      reject_if (policy.cost_profile != cost_profile.cost_profile_version)
          (value_error "policy and cost-profile versions do not match")
      s ← tally_all policy cost_profile examples no_totals
      let labels = map is_abuse examples
      intervened ← confusion (map (λ (a : PolicyAction). a != allow) s.actions) labels
      severe ← confusion (map (contains severe_actions) s.actions) labels
      ok (report examples policy cost_profile s intervened severe)
