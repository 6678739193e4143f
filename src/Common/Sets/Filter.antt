-- ===== src/Common/Sets/Filter.antt =====
-- Membership in lists that a comprehension filters, maps or concatenates.
use aegis_ai_risk_manager.Common.Text.{Eq}
use aegis_ai_risk_manager.Common.Lists.{select}
use aegis_ai_risk_manager.Common.Sets.{Ord, contains}
use aegis_ai_risk_manager.Common.Sets.Laws.{Below, IsSorted}
use mathlib.Core.Path.{◌≡◌, refl}
use mathlib.Core.Bool.{Bool, ◌&&◌, ◌||◌}
use mathlib.Core.List.{List, [], ◌∷◌, ◌++◌}
use native.Mathlib.Omega.{arith}

module _ {ℓ} {A : Type ℓ} ⦃e : Eq A⦄ where
  pub contains-select :
      (p : A → Bool) (xs : List A) (a : A) → contains (select p xs) a ≡ (contains xs a && p a)
  unfolding select contains
  contains-select p [] a = refl
  contains-select p (x ∷ xs) a = ground (arith, contains-select p xs a, e.beq_iff x a)

  pub contains-append :
      (xs ys : List A) (a : A) → contains (xs ++ ys) a ≡ (contains xs a || contains ys a)
  unfolding contains
  contains-append [] ys a = refl
  contains-append (x ∷ xs) ys a = ground (arith, contains-append xs ys a)

-- What a filter keeps of a sorted set is a sorted set.
module _ {ℓ} {A : Type ℓ} ⦃o : Ord A⦄ where
  Below-select : (p : A → Bool) (a : A) (xs : List A) → Below a xs → Below a (select p xs)
  unfolding select
  Below-select p a [] h = tt
  Below-select p a (x ∷ xs) h = ground (arith, Below-select p a xs h.1)

  pub select-IsSorted : (p : A → Bool) (xs : List A) → IsSorted xs → IsSorted (select p xs)
  unfolding select
  select-IsSorted p [] h = tt
  select-IsSorted p (x ∷ xs) h = ground (arith, select-IsSorted p xs h.1, Below-select p x xs h.0)
