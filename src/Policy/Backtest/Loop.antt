-- ===== src/Policy/Backtest/Loop.antt =====
-- The loop of `evaluate_policy`: one decision and one cost for each example, and the running totals.
use aegis_ai_risk_manager.Common.{
  ℕ, ◌+◌, Bool, not, ◌&&◌, String, List, [], ◌∷◌, ◌++◌, map, Option, none, some, Result, ok, ◌>>=◌,
  ◌==◌, ◌!=◌, string_eq, nat_eq, if◌then◌else◌,
}
use aegis_ai_risk_manager.Common.Dict.{lookup, insert, bump_by}
use aegis_ai_risk_manager.Common.Float.{Float}
use aegis_ai_risk_manager.Enums.{
  PolicyAction, allow, verify, hold, escalate, recommend_block, action_eq, action_value,
}
use aegis_ai_risk_manager.Policy.Config.{PolicyConfig}
use aegis_ai_risk_manager.Policy.Domain.{PolicyInput}
use aegis_ai_risk_manager.Policy.Engine.{assess, truthy}
use aegis_ai_risk_manager.Policy.Costs.{CostProfile, Cost, expected_cost_paise}

pub record BacktestExample (F : Type 0) : Type 0 where
  pub policy_input : PolicyInput F
  pub amount_paise : ℕ
  pub label : ℕ
  pub persona : Option String
  pub scenario : Option String

abbrev pub Counter : Type 0
Counter = List (String × ℕ)

pub record Detail : Type 0 where
  pub transaction_count : ℕ
  pub amount_paise : ℕ
  pub friction_cost_paise : ℕ
  pub operational_cost_paise : ℕ

-- The local variables of the loop.
pub record Totals : Type 0 where
  pub actions : List PolicyAction
  pub action_counts : Counter
  pub legitimate_action_details : List (String × Detail)
  pub persona_actions : List (String × Counter)
  pub scenario_actions : List (String × Counter)
  pub total_amount : ℕ
  pub legitimate_amount : ℕ
  pub abuse_amount : ℕ
  pub legitimate_touched : ℕ
  pub abuse_touched : ℕ
  pub abuse_allowed : ℕ
  pub remaining_abuse_loss : ℕ
  pub legitimate_friction : ℕ
  pub operational_cost : ℕ

abbrev pub no_detail : Detail
no_detail = record {
  transaction_count = 0;
  amount_paise = 0;
  friction_cost_paise = 0;
  operational_cost_paise = 0;
}

abbrev pub no_totals : Totals
no_totals = record {
  actions = [];
  action_counts = [];
  legitimate_action_details =
      map (λ (a : PolicyAction). (action_value a, no_detail))
        (verify ∷ hold ∷ escalate ∷ recommend_block ∷ []);
  persona_actions = [];
  scenario_actions = [];
  total_amount = 0;
  legitimate_amount = 0;
  abuse_amount = 0;
  legitimate_touched = 0;
  abuse_touched = 0;
  abuse_allowed = 0;
  remaining_abuse_loss = 0;
  legitimate_friction = 0;
  operational_cost = 0;
}

abbrev pub or_empty : Option Counter → Counter
or_empty none = []
or_empty (some c) = c

-- `groups[group][action.value] += 1` on a `defaultdict(Counter)`
abbrev pub bump_group : Option String → String → List (String × Counter) → List (String × Counter)
bump_group none action groups = groups
bump_group (some group) action groups =
    insert group (bump_by action 1 (or_empty (lookup group groups))) groups

abbrev pub or_no_detail : Option Detail → Detail
or_no_detail none = no_detail
or_no_detail (some d) = d

-- The costs.
unfoldable pub add_costs : Cost → Totals → Totals
add_costs c s = record s {
  remaining_abuse_loss = s.remaining_abuse_loss + c.remaining;
  legitimate_friction = s.legitimate_friction + c.friction;
  operational_cost = s.operational_cost + c.operational;
}

module _ {F : Type 0} where
  abbrev pub is_abuse : BacktestExample F → Bool
  is_abuse e = e.label != 0

  -- The counters by action, persona and scenario.
  unfoldable pub count_action : BacktestExample F → PolicyAction → Totals → Totals
  unfolding lookup insert bump_by
  count_action e action s = record s {
    actions = s.actions ++ action ∷ [];
    action_counts = bump_by (action_value action) 1 s.action_counts;
    persona_actions =
        if truthy e.persona && not (is_abuse e)
        then bump_group e.persona (action_value action) s.persona_actions
        else s.persona_actions;
    scenario_actions =
        if is_abuse e && truthy e.scenario
        then bump_group e.scenario (action_value action) s.scenario_actions
        else s.scenario_actions;
  }

  -- The amounts, by label and by whether the action intervenes.
  unfoldable pub add_amounts : BacktestExample F → PolicyAction → Totals → Totals
  add_amounts e action s =
      let t = record s { total_amount = s.total_amount + e.amount_paise } in
      if is_abuse e
      then (if action == allow
          then record t {
            abuse_amount = t.abuse_amount + e.amount_paise;
            abuse_allowed = t.abuse_allowed + e.amount_paise;
          }
          else record t {
            abuse_amount = t.abuse_amount + e.amount_paise;
            abuse_touched = t.abuse_touched + e.amount_paise;
          })
      else (if action != allow
          then record t {
            legitimate_amount = t.legitimate_amount + e.amount_paise;
            legitimate_touched = t.legitimate_touched + e.amount_paise;
          }
          else record t { legitimate_amount = t.legitimate_amount + e.amount_paise })

  -- The detail of an intervention on legitimate traffic. The key is always there.
  unfoldable pub add_detail : BacktestExample F → PolicyAction → Cost → Totals → Totals
  unfolding lookup insert
  add_detail e action c s =
      if not (is_abuse e) && action != allow
      then (let d = or_no_detail (lookup (action_value action) s.legitimate_action_details) in
          record s {
            legitimate_action_details =
                insert (action_value action)
                  (record {
                    transaction_count = d.transaction_count + 1;
                    amount_paise = d.amount_paise + e.amount_paise;
                    friction_cost_paise = d.friction_cost_paise + c.friction;
                    operational_cost_paise = d.operational_cost_paise + c.operational;
                  })
                  s.legitimate_action_details;
          })
      else s

  unfoldable pub account : BacktestExample F → PolicyAction → Cost → Totals → Totals
  unfolding count_action add_amounts add_costs add_detail
  account e action c s =
      add_detail e action c (add_costs c (add_amounts e action (count_action e action s)))

  module _ ⦃f : Float F⦄ (policy : PolicyConfig F) (cost_profile : CostProfile F) where
    -- The body of the loop.
    unfoldable pub tally_example : BacktestExample F → Totals → Result Totals
    tally_example e s = do
      (_, decision) ← assess policy e.policy_input
      c ← expected_cost_paise e.amount_paise (is_abuse e) decision.action cost_profile
      ok (account e decision.action c s)

    unfoldable pub tally_all : List (BacktestExample F) → Totals → Result Totals
    unfolding tally_example
    tally_all [] s = ok s
    tally_all (e ∷ examples) s = do t ← tally_example e s; tally_all examples t
