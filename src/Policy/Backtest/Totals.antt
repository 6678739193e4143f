-- ===== src/Policy/Backtest/Totals.antt =====
-- The running totals of a backtest stay balanced.
use aegis_ai_risk_manager.Common.{
  ◌+◌, ◌≤◌, ◌≡◌, refl, Bool, List, [], ◌∷◌, ◌++◌, length, length-append, ok, ◌==◌, string_eq,
  sum_of, count_of, subst, sym, ok-injective, >>=-eq-ok, arith, if◌then◌else◌,
}
use aegis_ai_risk_manager.Common.Dict.{tally, bump_by, tally-bump_by}
use aegis_ai_risk_manager.Common.Float.{Float}
use aegis_ai_risk_manager.Enums.{
  PolicyAction, allow, verify, hold, escalate, recommend_block, action_eq, action_value,
}
use aegis_ai_risk_manager.Policy.Config.{PolicyConfig}
use aegis_ai_risk_manager.Policy.Costs.{CostProfile, Cost, expected_cost_paise}
use aegis_ai_risk_manager.Policy.Engine.{assess}
use aegis_ai_risk_manager.Policy.Backtest.Loop.{
  BacktestExample, Totals, no_totals, is_abuse, account, tally_example, tally_all,
}

-- The texts of two actions are equal exactly when the actions are.
pub action_value-eq : (a b : PolicyAction) → (action_value a == action_value b) ≡ (a == b)
action_value-eq allow allow = refl
action_value-eq verify allow = refl
action_value-eq hold allow = refl
action_value-eq escalate allow = refl
action_value-eq recommend_block allow = refl
action_value-eq _ _ = refl

pub count_of-append {ℓ} :
    {A : Type ℓ} (p : A → Bool) (xs ys : List A)
    → count_of p (xs ++ ys) ≡ count_of p xs + count_of p ys
unfolding count_of
count_of-append p [] ys = omega arith
count_of-append p (x ∷ xs) ys = omega (arith, count_of-append p xs ys)

pub record IsBalanced (s : Totals) : Type 0 where
  pub labels : s.total_amount ≡ s.legitimate_amount + s.abuse_amount
  pub abuse : s.abuse_amount ≡ s.abuse_touched + s.abuse_allowed
  pub legitimate : s.legitimate_touched ≤ s.legitimate_amount
  pub counts :
      (a : PolicyAction) → tally (action_value a) s.action_counts ≡ count_of (λ b. b == a) s.actions

pub no_totals-IsBalanced : IsBalanced no_totals
unfolding tally count_of
no_totals-IsBalanced = record {
  labels = refl;
  abuse = refl;
  legitimate = omega arith;
  counts = λ a. refl;
}

module _ {F : Type 0} (e : BacktestExample F) (action : PolicyAction) (c : Cost) (s : Totals) where
  -- What one example adds.
  pub account_adds :
      ((account e action c s).actions ≡ s.actions ++ action ∷ [])
      × ((account e action c s).action_counts ≡ bump_by (action_value action) 1 s.action_counts)
      × ((account e action c s).total_amount ≡ s.total_amount + e.amount_paise)
      × ((account e action c s).abuse_amount
          ≡ s.abuse_amount + (if is_abuse e then e.amount_paise else 0))
  unfolding account
  account_adds = ground arith

  counts_after :
      IsBalanced s
      → (a : PolicyAction)
      → tally (action_value a) (account e action c s).action_counts
        ≡ count_of (λ b. b == a) (account e action c s).actions
  counts_after h a =
      rw (account_adds.0, account_adds.1, count_of-append, tally-bump_by, action_value-eq)
        (unfold count_of in ground (arith, h.counts a))

  pub account-IsBalanced : IsBalanced s → IsBalanced (account e action c s)
  unfolding account
  account-IsBalanced h = record {
    labels = ground arith;
    abuse = ground arith;
    legitimate = ground arith;
    counts = counts_after h;
  }

module _ {F : Type 0} ⦃f : Float F⦄ (policy : PolicyConfig F) (cost_profile : CostProfile F) where
  -- A successful round accounts for some action and cost.
  pub tally_example-eq_ok :
      (e : BacktestExample F) (s : Totals) {t : Totals}
      → tally_example policy cost_profile e s ≡ ok t
      → (action : PolicyAction) × (c : Cost) × (t ≡ account e action c s)
  unfolding tally_example
  tally_example-eq_ok e s h =
      let (r, decided, more) = >>=-eq-ok (assess policy e.policy_input) _ h in
      let (c, priced, done) =
        >>=-eq-ok (expected_cost_paise e.amount_paise (is_abuse e) r.1.action cost_profile) _
          more in
      (r.1.action, c, sym (ok-injective done))

  -- A property that every round keeps holds of the totals at the end.
  pub tally_all_rule {ℓ} :
      (P : List (BacktestExample F) → Totals → Type ℓ)
      → ((e : BacktestExample F) (rest : List (BacktestExample F)) (action : PolicyAction)
            (c : Cost) (s : Totals)
          → P (e ∷ rest) s
          → P rest (account e action c s))
      → (examples : List (BacktestExample F)) (s : Totals) {t : Totals} → P examples s
      → tally_all policy cost_profile examples s ≡ ok t
      → P [] t
  unfolding tally_all
  tally_all_rule P keep [] s start h = subst (P []) (ok-injective h) start
  tally_all_rule P keep (e ∷ rest) s {t} start h =
      let (u, round, rest_ok) = >>=-eq-ok (tally_example policy cost_profile e s) _ h in
      let (action, c, same) = tally_example-eq_ok e s round in
      tally_all_rule P keep rest u (subst (P rest) (sym same) (keep e rest action c s start))
        rest_ok

  module _ (examples : List (BacktestExample F)) {t : Totals}
      (run : tally_all policy cost_profile examples no_totals ≡ ok t) where
    pub tally_all-IsBalanced : IsBalanced t
    tally_all-IsBalanced =
        tally_all_rule (λ _ s. IsBalanced s)
          (λ e rest action c s h. account-IsBalanced e action c s h) examples no_totals
          no_totals-IsBalanced run

    -- What is left to do and what is done add up to the whole.
    abbrev Adds : List (BacktestExample F) → Totals → Type 0
    Adds rest s =
        (length s.actions + length rest ≡ length examples)
        × (s.total_amount + sum_of (λ (e : BacktestExample F). e.amount_paise) rest
            ≡ sum_of (λ (e : BacktestExample F). e.amount_paise) examples)
        × (s.abuse_amount
              + sum_of (λ (e : BacktestExample F). if is_abuse e then e.amount_paise else 0) rest
            ≡ sum_of (λ (e : BacktestExample F). if is_abuse e then e.amount_paise else 0) examples)

    Adds-account :
        (e : BacktestExample F) (rest : List (BacktestExample F)) (action : PolicyAction) (c : Cost)
        (s : Totals)
        → Adds (e ∷ rest) s
        → Adds rest (account e action c s)
    unfolding sum_of
    Adds-account e rest action c s h =
        ground (arith, account_adds e action c s, length-append s.actions (action ∷ []))

    -- Every example gets one action; the amounts are the sums over all, and over the abusive ones.
    pub tally_all_adds :
        (length t.actions ≡ length examples)
        × (t.total_amount ≡ sum_of (λ (e : BacktestExample F). e.amount_paise) examples)
        × (t.abuse_amount
            ≡ sum_of (λ (e : BacktestExample F). if is_abuse e then e.amount_paise else 0) examples)
    unfolding sum_of
    tally_all_adds =
        let (a, b, c) =
          tally_all_rule Adds Adds-account examples no_totals
            (omega arith, omega arith, omega arith) run in
        (omega arith, omega arith, omega arith)
