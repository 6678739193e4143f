-- ===== src/Policy/Costs.antt =====
-- packages/policy_engine/costs.py and validation.py: the cost profile, its validator, and the
-- expected cost of one decision. Hashing, JSON and the YAML file are not modelled.
pub mod Laws
use aegis_ai_risk_manager.Common.{
  ℕ, ◌+◌, Bool, true, false, not, ◌&&◌, ◌||◌, String, List, [], ◌∷◌, Option, none, some, Result, ok,
  raise, ◌>>=◌, ◌>>◌, value_error, key_error, out_of_range, reject_if, ◌!=◌, string_eq, nat_eq,
  all_of, if◌then◌else◌,
}
use aegis_ai_risk_manager.Common.Dict.{lookup, has_key}
use aegis_ai_risk_manager.Common.Float.{Float, in_unit, of_int}
use aegis_ai_risk_manager.Enums.{
  PolicyAction, allow, verify, hold, escalate, recommend_block, action_eq, action_value,
}
use aegis_ai_risk_manager.Policy.Config.{PolicyConfig}

pub record ActionCost (F : Type 0) : Type 0 where
  pub legitimate_fixed_cost_paise : ℕ
  pub legitimate_friction_fraction : F
  pub operational_cost_paise : ℕ
  pub abuse_intervention_effectiveness : F

pub record CostProfile (F : Type 0) : Type 0 where
  pub cost_profile_version : String
  pub assumptions_label : String
  pub currency : String
  pub abuse_loss_fraction : F
  pub actions : List (PolicyAction × ActionCost F)

-- `tuple(PolicyAction)`
abbrev pub all_actions : List PolicyAction
all_actions = allow ∷ verify ∷ hold ∷ escalate ∷ recommend_block ∷ []

-- What the program computes for one decision: remaining loss, friction, operational cost.
pub record Cost : Type 0 where
  pub remaining : ℕ
  pub friction : ℕ
  pub operational : ℕ

module _ {F : Type 0} ⦃f : Float F⦄ where
  -- `profile.actions[action]`
  unfoldable pub assumptions_for : CostProfile F → PolicyAction → Result (ActionCost F)
  unfolding lookup
  assumptions_for profile action = elim (lookup action profile.actions) [
    | none ↦ raise (key_error (action_value action))
    | some c ↦ ok c
  ]

  -- The truth value of a float.
  abbrev pub nonzero : F → Bool
  nonzero x = f.lt x (of_int 0) || f.lt (of_int 0) x

  -- `any((...))` over the four entries of ALLOW: an `int` is true unless it is 0.
  unfoldable pub intervenes : ActionCost F → Bool
  intervenes c =
      c.legitimate_fixed_cost_paise != 0
      || nonzero c.legitimate_friction_fraction
      || c.operational_cost_paise != 0
      || nonzero c.abuse_intervention_effectiveness

  -- The field constraints of one `ActionCost`; an amount in paise is a natural number.
  unfoldable pub fractions_in_range : PolicyAction × ActionCost F → Bool
  fractions_in_range (action, c) =
      in_unit c.legitimate_friction_fraction && in_unit c.abuse_intervention_effectiveness

  abbrev pub fractions_finite : PolicyAction × ActionCost F → Bool
  fractions_finite (action, c) =
      f.is_finite c.legitimate_friction_fraction && f.is_finite c.abuse_intervention_effectiveness

  -- The field constraints, then `valid_profile`.
  unfoldable pub validate_profile : CostProfile F → Result (Unit {0})
  unfolding has_key assumptions_for all_of
  validate_profile p = do
    reject_if (not (in_unit p.abuse_loss_fraction && all_of fractions_in_range p.actions))
        out_of_range
    reject_if (p.assumptions_label != "ILLUSTRATIVE SYNTHETIC POLICY ASSUMPTIONS")
        (value_error "cost profile must explicitly identify synthetic assumptions")
    reject_if (p.currency != "INR") (value_error "policy-v1 cost reporting supports INR only")
    reject_if (not (all_of (λ (a : PolicyAction). has_key a p.actions) all_actions))
        (value_error "cost profile must define every policy action")
    allow_cost ← assumptions_for p allow
    reject_if (intervenes allow_cost)
        (value_error "ALLOW must have zero intervention cost and effectiveness")
    reject_if (not (f.is_finite p.abuse_loss_fraction && all_of fractions_finite p.actions))
        (value_error "cost fractions must be finite")

  -- `baseline_loss * (1 - effectiveness)`, rounded.
  abbrev pub remaining_loss : ℕ → F → F → ℕ
  remaining_loss amount_paise loss effectiveness =
      f.round_int (f.mul (f.mul (of_int amount_paise) loss) (f.sub (of_int 1) effectiveness))

  -- Remaining abuse loss, legitimate friction, and operational cost, from the row of the action.
  unfoldable pub cost_of : ℕ → Bool → PolicyAction → F → ActionCost F → Cost
  cost_of amount_paise is_abuse action loss assumptions =
      let operational = if action != allow then assumptions.operational_cost_paise else 0 in
      if is_abuse
      then record {
        remaining = remaining_loss amount_paise loss assumptions.abuse_intervention_effectiveness;
        friction = 0;
        operational = operational;
      }
      else record {
        remaining = 0;
        friction =
            assumptions.legitimate_fixed_cost_paise
            + f.round_int (f.mul (of_int amount_paise) assumptions.legitimate_friction_fraction);
        operational = operational;
      }

  unfoldable pub expected_cost_paise : ℕ → Bool → PolicyAction → CostProfile F → Result Cost
  unfolding assumptions_for cost_of
  expected_cost_paise amount_paise is_abuse action profile = do
    assumptions ← assumptions_for profile action
    ok (cost_of amount_paise is_abuse action profile.abuse_loss_fraction assumptions)

  -- `validate_policy_bundle`
  unfoldable pub validate_policy_bundle : PolicyConfig F → CostProfile F → Result (Unit {0})
  validate_policy_bundle policy cost_profile = do
    reject_if (policy.cost_profile != cost_profile.cost_profile_version)
        (value_error "policy cost-profile reference mismatch")
    reject_if (f.lt policy.hold_threshold policy.verify_threshold)
        (value_error "invalid policy threshold order")
