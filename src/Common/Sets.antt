-- ===== src/Common/Sets.antt =====
-- Python's sets of ordered values, as the program uses them: `x in s` and `sorted({...})`.
pub mod Laws
pub mod Size
pub mod Filter
use aegis_ai_risk_manager.Common.Tests.{if◌then◌else◌}
use aegis_ai_risk_manager.Common.Text.{Eq, ◌==◌}
use mathlib.Core.Path.{◌≡◌}
use mathlib.Core.Bool.{Bool, true, false, ◌||◌}
use mathlib.Core.List.{List, [], ◌∷◌}

-- A strict total order.
pub record Ord {ℓ} (A : Type ℓ) : Type ℓ where
  pub lt : A → A → Bool
  pub lt_irrefl : (a : A) → lt a a ≡ false
  pub lt_trans : (a b c : A) → lt a b ≡ true → lt b c ≡ true → lt a c ≡ true
  pub lt_total : (a b : A) → lt a b ≡ false → lt b a ≡ false → a ≡ b

module _ {ℓ} {A : Type ℓ} ⦃e : Eq A⦄ where
  -- `a in xs`
  unfoldable pub contains : List A → A → Bool
  contains [] a = false
  contains (x ∷ xs) a = (x == a) || contains xs a

  -- `list(dict.fromkeys(xs))`: the first occurrence of each value, in order.
  unfoldable pub unique_from : List A → List A → List A
  unfolding contains
  unique_from seen [] = []
  unique_from seen (x ∷ xs) =
      let rest = unique_from (x ∷ seen) xs in
      let skip = unique_from seen xs in if contains seen x then skip else x ∷ rest

  abbrev pub from_keys : List A → List A
  from_keys = unique_from []

module _ {ℓ} {A : Type ℓ} (lt : A → A → Bool) where
  unfoldable pub set_insert_by : A → List A → List A
  set_insert_by a [] = a ∷ []
  set_insert_by a (x ∷ xs) =
      let rest = set_insert_by a xs in
      if lt a x then a ∷ x ∷ xs else if lt x a then x ∷ rest else x ∷ xs

  -- `sorted({x for x in xs})`
  unfoldable pub sorted_set_by : List A → List A
  unfolding set_insert_by
  sorted_set_by [] = []
  sorted_set_by (x ∷ xs) = set_insert_by x (sorted_set_by xs)

module _ {ℓ} {A : Type ℓ} ⦃o : Ord A⦄ where
  abbrev pub set_insert : A → List A → List A
  set_insert = set_insert_by o.lt

  abbrev pub sorted_set : List A → List A
  sorted_set = sorted_set_by o.lt
