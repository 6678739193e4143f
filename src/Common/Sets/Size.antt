-- ===== src/Common/Sets/Size.antt =====
-- The size of a set: a subset has no more elements.
use aegis_ai_risk_manager.Common.Text.{Eq}
use aegis_ai_risk_manager.Common.Lists.{length}
use aegis_ai_risk_manager.Common.Sets.{
  Ord, contains, sorted_set, set_insert, set_insert_by, sorted_set_by,
}
use aegis_ai_risk_manager.Common.Sets.Laws.{
  Below, IsSorted, lt_of_contains, contains-sorted_set, sorted_set-IsSorted,
}
use Prim.Native.Nat.{suc, ◌≤◌}
use mathlib.Core.Path.{◌≡◌, ◌∙◌, sym}
use mathlib.Core.Bool.{true}
use mathlib.Core.List.{List, [], ◌∷◌}
use native.Mathlib.Omega.{arith}

module _ {ℓ} {A : Type ℓ} ⦃e : Eq A⦄ where
  abbrev pub IsSubset : List A → List A → Type ℓ
  IsSubset xs ys = (a : A) → contains xs a ≡ true → contains ys a ≡ true

module _ {ℓ} {A : Type ℓ} ⦃e : Eq A⦄ ⦃o : Ord A⦄ where
  -- The smallest element of the smaller set is at least that of the larger one, and what is left
  -- of both after it is a subset again.
  drop_smallest :
      (x : A) (xs : List A) (y : A) (ys : List A)
      → Below x xs
      → Below y ys
      → IsSubset (x ∷ xs) (y ∷ ys)
      → o.lt y x ≡ true
      → IsSubset (x ∷ xs) ys
  unfolding contains
  drop_smallest x xs y ys s t h k a c = ground (
    arith,
    h a c,
    e.beq_iff x a,
    e.beq_iff y a,
    lt_of_contains x a xs s,
    o.lt_irrefl y,
    o.lt_trans y x a,
  )

  drop_both :
      (x : A) (xs : List A) (y : A) (ys : List A)
      → Below x xs
      → IsSubset (x ∷ xs) (y ∷ ys)
      → x ≡ y
      → IsSubset xs ys
  unfolding contains
  drop_both x xs y ys s h k a c =
      ground (arith, h a, e.beq_iff x a, e.beq_iff y a, lt_of_contains x a xs s c, o.lt_irrefl x)

  not_smaller :
      (x : A) (xs : List A) (y : A) (ys : List A)
      → Below y ys
      → IsSubset (x ∷ xs) (y ∷ ys)
      → o.lt x y ≡ true
      → ⊥
  unfolding contains
  not_smaller x xs y ys t h k = ground (
    arith,
    h x,
    e.beq_iff x x,
    e.beq_iff y x,
    lt_of_contains y x ys t,
    o.lt_irrefl x,
    o.lt_trans x y x,
  )

  IsSorted-length-le :
      (xs ys : List A) → IsSorted xs → IsSorted ys → IsSubset xs ys → length xs ≤ length ys
  unfolding contains
  IsSorted-length-le [] ys s t h = omega arith
  IsSorted-length-le (x ∷ xs) [] s t h = ground (arith, h x, e.beq_iff x x)
  IsSorted-length-le (x ∷ xs) (y ∷ ys) s t h = ground (
    arith,
    not_smaller x xs y ys t.0 h,
    o.lt_total x y,
    λ (k : o.lt y x ≡ true).
        IsSorted-length-le (x ∷ xs) ys s t.1 (drop_smallest x xs y ys s.0 t.0 h k),
    λ (k : x ≡ y). IsSorted-length-le xs ys s.1 t.1 (drop_both x xs y ys s.0 h k),
  )

  pub sorted_set-length-le :
      (xs ys : List A) → IsSubset xs ys → length (sorted_set xs) ≤ length (sorted_set ys)
  sorted_set-length-le xs ys h =
      IsSorted-length-le (sorted_set xs) (sorted_set ys) (sorted_set-IsSorted xs)
        (sorted_set-IsSorted ys)
        (λ a c. contains-sorted_set ys a ∙ h a (sym (contains-sorted_set xs a) ∙ c))

module _ {ℓ} {A : Type ℓ} ⦃o : Ord A⦄ where
  length-set_insert-le : (a : A) (xs : List A) → length (set_insert a xs) ≤ suc (length xs)
  unfolding set_insert_by
  length-set_insert-le a [] = omega arith
  length-set_insert-le a (x ∷ xs) = ground (arith, length-set_insert-le a xs)

  pub length-sorted_set-le : (xs : List A) → length (sorted_set xs) ≤ length xs
  unfolding sorted_set_by
  length-sorted_set-le [] = omega arith
  length-sorted_set-le (x ∷ xs) =
      omega (arith, length-set_insert-le x (sorted_set xs), length-sorted_set-le xs)
