-- ===== src/Policy/Backtest/Matrix.antt =====
-- The confusion matrices of a backtest, and the counts by action.
use aegis_ai_risk_manager.Common.{
  ◌+◌, ◌≡◌, refl, Bool, not, List, [], ◌∷◌, length, ok, >>=-eq-ok, ok-injective, subst, ◌==◌,
  string_eq, count_of, sum_of, arith,
}
use aegis_ai_risk_manager.Enums.{PolicyAction, allow, action_eq}
use aegis_ai_risk_manager.Policy.Costs.{all_actions}
use aegis_ai_risk_manager.Policy.Backtest.Metrics.{Confusion}
use aegis_ai_risk_manager.Policy.Backtest.Report.{zip_strict, confusion_of, confusion}

-- A matrix that splits the labels, the predictions and all the pairs.
pub record Splits (predictions labels : List Bool) (c : Confusion) : Type 0 where
  pub positives : c.tp + c.fn ≡ count_of (λ b. b) labels
  pub negatives : c.fp + c.tn ≡ count_of not labels
  pub predicted : c.tp + c.fp ≡ count_of (λ b. b) predictions
  pub all : c.tp + c.fp + c.tn + c.fn ≡ length labels

zip_strict-Splits :
    (ps ls : List Bool) (pairs : List (Bool × Bool))
    → zip_strict ps ls ≡ ok pairs
    → Splits ps ls (confusion_of pairs)
unfolding zip_strict confusion_of count_of
zip_strict-Splits [] [] pairs h = ground arith
zip_strict-Splits (p ∷ ps) (l ∷ ls) pairs h =
    let (rest, zipped, done) = >>=-eq-ok (zip_strict ps ls) _ h in
    let same = ok-injective done in
    subst (λ (r : List (Bool × Bool)). Splits (p ∷ ps) (l ∷ ls) (confusion_of r)) same
      (ground (arith, zip_strict-Splits ps ls rest zipped))
zip_strict-Splits [] (l ∷ ls) pairs h = cc
zip_strict-Splits (p ∷ ps) [] pairs h = cc

pub confusion-Splits : (ps ls : List Bool) {c : Confusion} → confusion ps ls ≡ ok c → Splits ps ls c
unfolding confusion
confusion-Splits ps ls h =
    let (pairs, zipped, done) = >>=-eq-ok (zip_strict ps ls) _ h in
    subst (Splits ps ls) (ok-injective done) (zip_strict-Splits ps ls pairs zipped)

zip_strict_total :
    (ps ls : List Bool)
    → length ps ≡ length ls
    → (pairs : List (Bool × Bool)) × (zip_strict ps ls ≡ ok pairs)
unfolding zip_strict
zip_strict_total [] [] h = ([], refl)
zip_strict_total (p ∷ ps) (l ∷ ls) h =
    let (rest, zipped) = zip_strict_total ps ls (omega arith) in ((p, l) ∷ rest, ground arith)
zip_strict_total [] (l ∷ ls) h = absurd (omega arith)
zip_strict_total (p ∷ ps) [] h = absurd (omega arith)

-- Lists of one length always have a matrix.
pub confusion_total :
    (ps ls : List Bool) → length ps ≡ length ls → (c : Confusion) × (confusion ps ls ≡ ok c)
unfolding confusion
confusion_total ps ls h =
    let (pairs, zipped) = zip_strict_total ps ls h in (confusion_of pairs, ground arith)

-- Every action is one of the five.
pub actions_partition :
    (actions : List PolicyAction)
    → sum_of (λ (a : PolicyAction). count_of (λ b. b == a) actions) all_actions ≡ length actions
unfolding sum_of count_of
actions_partition [] = refl
actions_partition (allow ∷ actions) = ground (arith, actions_partition actions)
actions_partition (_ ∷ actions) = ground (arith, actions_partition actions)
