-- ===== src/Common/Sets/Laws.antt =====
-- `sorted({...})` holds exactly the members of its argument, in strictly increasing order, and is
-- therefore determined by the set of members.
use aegis_ai_risk_manager.Common.Text.{Eq, ◌==◌}
use aegis_ai_risk_manager.Common.Lists.{All}
use aegis_ai_risk_manager.Common.Sets.{
  Ord, contains, set_insert_by, sorted_set_by, set_insert, sorted_set,
}
use mathlib.Core.Path.{◌≡◌, refl, sym, ap, ap₂, ◌∙◌}
use mathlib.Core.Bool.{true, false, ◌||◌}
use mathlib.Core.List.{List, [], ◌∷◌}
use native.Mathlib.Omega.{arith}

module _ {ℓ} {A : Type ℓ} ⦃o : Ord A⦄ where
  abbrev pub Below : A → List A → Type 0
  Below a = All (λ x. o.lt a x ≡ true)

  -- Strictly increasing.
  abbrev pub IsSorted : List A → Type 0
  IsSorted [] = Unit
  IsSorted (x ∷ xs) = Below x xs × IsSorted xs

  Below-weaken : (a x : A) (xs : List A) → o.lt a x ≡ true → Below x xs → Below a xs
  Below-weaken a x [] h b = tt
  Below-weaken a x (y ∷ ys) h b = (o.lt_trans a x y h b.0, Below-weaken a x ys h b.1)

  Below-set_insert :
      (b a : A) (xs : List A) → o.lt b a ≡ true → Below b xs → Below b (set_insert a xs)
  unfolding set_insert_by
  Below-set_insert b a [] h k = (h, tt)
  Below-set_insert b a (x ∷ xs) h k = ground (arith, Below-set_insert b a xs)

  pub set_insert-IsSorted : (a : A) (xs : List A) → IsSorted xs → IsSorted (set_insert a xs)
  unfolding set_insert_by
  set_insert-IsSorted a [] s = (tt, tt)
  set_insert-IsSorted a (x ∷ xs) s =
      ground (arith, Below-weaken a x xs, Below-set_insert x a xs, set_insert-IsSorted a xs)

  pub sorted_set-IsSorted : (xs : List A) → IsSorted (sorted_set xs)
  unfolding sorted_set_by
  sorted_set-IsSorted [] = tt
  sorted_set-IsSorted (x ∷ xs) = set_insert-IsSorted x (sorted_set xs) (sorted_set-IsSorted xs)

module _ {ℓ} {A : Type ℓ} ⦃e : Eq A⦄ ⦃o : Ord A⦄ where
  pub contains-set_insert :
      (a : A) (xs : List A) (b : A) → contains (set_insert a xs) b ≡ ((a == b) || contains xs b)
  unfolding set_insert_by contains
  contains-set_insert a [] b = refl
  contains-set_insert a (x ∷ xs) b =
      ground (arith, contains-set_insert a xs b, e.beq_iff a b, e.beq_iff x b, o.lt_total a x)

  pub contains-sorted_set : (xs : List A) (b : A) → contains (sorted_set xs) b ≡ contains xs b
  unfolding sorted_set_by contains
  contains-sorted_set [] b = refl
  contains-sorted_set (x ∷ xs) b =
      contains-set_insert x (sorted_set xs) b ∙ ap (λ t. (x == b) || t) (contains-sorted_set xs b)

  pub lt_of_contains : (a b : A) (xs : List A) → Below a xs → contains xs b ≡ true → o.lt a b ≡ true
  unfolding contains
  lt_of_contains a b [] h c = cc
  lt_of_contains a b (x ∷ xs) h c = ground (arith, e.beq_iff x b, lt_of_contains a b xs)

  -- The head of a sorted list is not among its tail.
  head_absent : (a : A) (xs : List A) → Below a xs → contains xs a ≡ false
  head_absent a xs h = ground (arith, lt_of_contains a a xs h, o.lt_irrefl a)

  heads_agree :
      (x : A) (xs : List A) (y : A) (ys : List A)
      → IsSorted (x ∷ xs)
      → IsSorted (y ∷ ys)
      → ((a : A) → contains (x ∷ xs) a ≡ contains (y ∷ ys) a)
      → x ≡ y
  unfolding contains
  heads_agree x xs y ys s t h = ground (
    arith,
    h x,
    h y,
    e.beq_iff x x,
    e.beq_iff y y,
    e.beq_iff x y,
    e.beq_iff y x,
    lt_of_contains x y xs s.0,
    lt_of_contains y x ys t.0,
    o.lt_irrefl x,
    o.lt_trans x y x,
  )

  tails_agree :
      (x : A) (xs ys : List A)
      → Below x xs
      → Below x ys
      → ((a : A) → contains (x ∷ xs) a ≡ contains (x ∷ ys) a)
      → (a : A) → contains xs a ≡ contains ys a
  unfolding contains
  tails_agree x xs ys s t h a =
      ground (arith, h a, e.beq_iff x a, head_absent x xs s, head_absent x ys t)

  -- Strictly increasing lists with the same members are equal.
  pub IsSorted-ext :
      (xs ys : List A)
      → IsSorted xs
      → IsSorted ys
      → ((a : A) → contains xs a ≡ contains ys a)
      → xs ≡ ys
  unfolding contains
  IsSorted-ext [] [] s t h = refl
  IsSorted-ext [] (y ∷ ys) s t h = ground (arith, h y, e.beq_iff y y)
  IsSorted-ext (x ∷ xs) [] s t h = ground (arith, h x, e.beq_iff x x)
  IsSorted-ext (x ∷ xs) (y ∷ ys) s t h =
      let p = heads_agree x xs y ys s t h in
      let t' : Below x ys = rw p t.0 in
      ap₂ (◌∷◌) p (IsSorted-ext xs ys s.1 t.1 (tails_agree x xs ys s.0 t' (λ a. h a ∙ rw p)))

  pub sorted_set_congr :
      (xs ys : List A) → ((a : A) → contains xs a ≡ contains ys a) → sorted_set xs ≡ sorted_set ys
  sorted_set_congr xs ys h =
      IsSorted-ext (sorted_set xs) (sorted_set ys) (sorted_set-IsSorted xs) (sorted_set-IsSorted ys)
        (λ a. contains-sorted_set xs a ∙ h a ∙ sym (contains-sorted_set ys a))
