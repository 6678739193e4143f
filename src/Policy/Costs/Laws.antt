-- ===== src/Policy/Costs/Laws.antt =====
-- What a validated profile promises of the cost of a decision.
use aegis_ai_risk_manager.Common.{
  if◌then◌else◌, ◌==◌, ℕ, ◌+◌, ◌≤◌, ◌<◌, ◌≡◌, sym, Bool, true, false, all_of, ok, some, arith,
}
use aegis_ai_risk_manager.Common.Dict.{lookup, has_key, lookup_of_has_key, all_of-lookup}
use aegis_ai_risk_manager.Common.Float.{Float, Compares, Rounds, in_unit, of_int}
use aegis_ai_risk_manager.Enums.{
  PolicyAction, allow, verify, hold, escalate, recommend_block, action_eq,
}
use aegis_ai_risk_manager.Policy.Costs.{
  ActionCost, CostProfile, Cost, intervenes, fractions_in_range, fractions_finite, validate_profile,
  cost_of, remaining_loss, expected_cost_paise, nonzero,
}

module _ {F : Type 0} ⦃f : Float F⦄ (p : CostProfile F) where
  -- What the validator has established.
  pub record IsProfile : Type 0 where
    pub loss_in_unit : in_unit p.abuse_loss_fraction ≡ true
    pub rows_in_unit : all_of fractions_in_range p.actions ≡ true
    pub keys :
        (has_key allow p.actions ≡ true)
        × (has_key verify p.actions ≡ true)
        × (has_key hold p.actions ≡ true)
        × (has_key escalate p.actions ≡ true)
        × (has_key recommend_block p.actions ≡ true)
    pub allow_free : (c : ActionCost F) → lookup allow p.actions ≡ some c → intervenes c ≡ false
    pub loss_finite : f.is_finite p.abuse_loss_fraction ≡ true
    pub rows_finite : all_of fractions_finite p.actions ≡ true

  pub validate_profile-IsProfile : validate_profile p ≡ ok tt → IsProfile
  unfolding validate_profile
  validate_profile-IsProfile h = record {
    loss_in_unit = ground arith;
    rows_in_unit = ground arith;
    keys = ground arith;
    allow_free = λ c e. ground arith;
    loss_finite = ground arith;
    rows_finite = ground arith;
  }

  pub has_row : IsProfile → (a : PolicyAction) → has_key a p.actions ≡ true
  has_row v allow = v.keys.0
  has_row v verify = v.keys.1
  has_row v hold = v.keys.2
  has_row v escalate = v.keys.3
  has_row v recommend_block = v.keys.4

-- A finite float at least 0.
abbrev IsAmount : {F : Type 0} ⦃f : Float F⦄ → F → Type 0
IsAmount ⦃f⦄ a = (f.is_finite a ≡ true) × (f.le (f.ratio 0 1) a ≡ true)

module _ (F : Type 0) ⦃f : Float F⦄ ⦃round : Rounds F⦄ where
  zero_finite : f.is_finite (f.ratio 0 1) ≡ true
  zero_finite = round.ratio_finite 0 1 (omega arith) (omega arith)

  one_finite : f.is_finite (f.ratio 1 1) ≡ true
  one_finite = round.ratio_finite 1 1 (omega arith) (omega arith)

  of_int-IsAmount : (n : ℕ) → n < 18446744073709551616 → IsAmount (f.ratio n 1)
  of_int-IsAmount n small =
      let finite = round.ratio_finite n 1 small (omega arith) in
      (finite, round.ratio_mono 0 n 1 1 (omega arith) (omega arith) finite (omega arith))

module _ {F : Type 0} ⦃f : Float F⦄ ⦃cmp : Compares F⦄ ⦃round : Rounds F⦄ where
  -- A fraction of an amount is an amount, and no larger.
  mul-fraction :
      (a x : F)
      → IsAmount a
      → f.is_finite x ≡ true
      → in_unit x ≡ true
      → IsAmount (f.mul a x) × (f.le (f.mul a x) a ≡ true)
  mul-fraction a x (finite, positive) x_finite unit =
      let up =
        round.mul_mono a x (f.ratio 1 1) finite x_finite (one_finite F) positive (ground arith) in
      let down =
        round.mul_mono a (f.ratio 0 1) x finite (zero_finite F) x_finite positive (ground arith) in
      let below : f.le (f.mul a x) a ≡ true = rw (round.mul_one a finite) at up in
      let above = cmp.le_trans _ _ _ (round.mul_zero a finite).0 down in
      ((round.finite_between _ _ _ (zero_finite F) finite above below, above), below)

  -- An effective intervention leaves at most the loss of none.
  pub remaining_loss-le :
      (amount : ℕ) (loss eff : F)
      → amount < 18446744073709551616
      → f.is_finite loss ≡ true
      → f.is_finite eff ≡ true
      → in_unit loss ≡ true
      → in_unit eff ≡ true
      → remaining_loss amount loss eff ≤ f.round_int (f.mul (of_int amount) loss)
  remaining_loss-le amount loss eff small loss_finite eff_finite l e =
      let rest = round.one_sub_unit eff eff_finite (ground arith) (ground arith) in
      let rest_finite = round.finite_between _ _ _ (zero_finite F) (one_finite F) rest.0 rest.1 in
      let base =
        mul-fraction (f.ratio amount 1) loss (of_int-IsAmount F amount small) loss_finite l in
      let left =
        mul-fraction (f.mul (f.ratio amount 1) loss) (f.sub (f.ratio 1 1) eff) base.0 rest_finite
          (ground (arith, rest)) in
      round.round_mono _ _ left.0.0 base.0.0 left.0.1 left.1

  -- A fraction that is not nonzero takes nothing.
  pub round_of_zero :
      (amount : ℕ) (x : F)
      → amount < 18446744073709551616
      → f.is_finite x ≡ true
      → in_unit x ≡ true
      → nonzero x ≡ false
      → f.round_int (f.mul (of_int amount) x) ≡ 0
  round_of_zero amount x small finite unit h =
      let paid = of_int-IsAmount F amount small in
      let below = cmp.le_of_not_lt (f.ratio 0 1) x (zero_finite F) finite (ground arith) in
      let taken = mul-fraction (f.ratio amount 1) x paid finite unit in
      let less =
        round.mul_mono (f.ratio amount 1) x (f.ratio 0 1) paid.0 finite (zero_finite F) paid.1
          below in
      let none_left = cmp.le_trans _ _ _ less (round.mul_zero (f.ratio amount 1) paid.0).1 in
      omega (
        arith,
        round.round_zero,
        round.round_mono _ _ taken.0.0 (zero_finite F) taken.0.1 none_left,
      )

module _ {F : Type 0} ⦃f : Float F⦄ (p : CostProfile F) (amount : ℕ) where
  -- What one decision costs, whatever the action: abuse leaves at most the loss of not intervening
  -- and no friction, legitimate traffic no loss.
  abbrev pub IsBounded : Bool → PolicyAction → Cost → Type 0
  IsBounded is_abuse action c =
      ((if is_abuse then c.friction else 0) ≡ 0)
      × (c.remaining
          ≤ (if is_abuse then f.round_int (f.mul (of_int amount) p.abuse_loss_fraction) else 0))
      × ((if action == allow then c.friction + c.operational else 0) ≡ 0)

module _ {F : Type 0} ⦃f : Float F⦄ ⦃cmp : Compares F⦄ ⦃round : Rounds F⦄ (p : CostProfile F)
    (valid : validate_profile p ≡ ok tt) (amount : ℕ) (small : amount < 18446744073709551616) where
  cost_of-IsBounded :
      (is_abuse : Bool) (action : PolicyAction) (row : ActionCost F)
      → lookup action p.actions ≡ some row
      → IsBounded p amount is_abuse action
          (cost_of amount is_abuse action p.abuse_loss_fraction row)
  unfolding cost_of fractions_in_range intervenes
  cost_of-IsBounded is_abuse action row found =
      let v = validate_profile-IsProfile p valid in
      let in_range = all_of-lookup fractions_in_range action p.actions row v.rows_in_unit found in
      let finite = all_of-lookup fractions_finite action p.actions row v.rows_finite found in
      let less =
        remaining_loss-le amount p.abuse_loss_fraction row.abuse_intervention_effectiveness small
          v.loss_finite (ground arith) v.loss_in_unit (ground arith) in
      let free = λ (a : action ≡ allow). v.allow_free row (rw (sym a) found) in
      let nothing =
        round_of_zero amount row.legitimate_friction_fraction small (ground arith) (ground arith) in
      ground arith

  -- With a validated profile every decision has a cost, for every action and every amount that fits
  -- 64 bits. An abusive payment costs no friction, and at most the loss of not intervening; a
  -- legitimate payment costs no abuse loss; ALLOW costs no friction and no operation.
  pub expected_cost-IsBounded :
      (is_abuse : Bool) (action : PolicyAction)
      → (c : Cost) × (expected_cost_paise amount is_abuse action p ≡ ok c)
        × IsBounded p amount is_abuse action c
  unfolding expected_cost_paise
  expected_cost-IsBounded is_abuse action =
      let v = validate_profile-IsProfile p valid in
      let (row, found) = lookup_of_has_key action p.actions (has_row p v action) in
      (
        cost_of amount is_abuse action p.abuse_loss_fraction row,
        ground arith,
        cost_of-IsBounded is_abuse action row found,
      )
