-- ===== src/Common/Members/Select.antt =====
-- Membership in what a comprehension keeps, in a concatenation and in a sorted list.
use aegis_ai_risk_manager.Common.{
  ◌≡◌, refl, ◌⊎◌, inl, inr, subst, Bool, true, Bool-cases, List, [], ◌∷◌, ◌++◌, All, select, arith,
  any_of,
}
use aegis_ai_risk_manager.Common.Members.{◌∈◌, All-∈, All-sort_by}
use aegis_ai_risk_manager.Common.Sort.{sort_by}

module _ {A : Type 0} where
  pub ∈-select : (p : A → Bool) (x : A) (xs : List A) → x ∈ xs → p x ≡ true → x ∈ select p xs
  unfolding select
  ∈-select p x [] m h = absurd m
  ∈-select p x (y ∷ xs) (inl e) h = rw (e, h) (inl refl)
  ∈-select p x (y ∷ xs) (inr m) h = elim (Bool-cases (p y)) [
    | inl kept ↦ rw kept (inr (∈-select p x xs m h))
    | inr left ↦ rw left (∈-select p x xs m h)
  ]

  pub select-∈ : (p : A → Bool) (x : A) (xs : List A) → x ∈ select p xs → (x ∈ xs) × (p x ≡ true)
  unfolding select
  select-∈ p x [] m = absurd m
  select-∈ p x (y ∷ xs) m = elim (Bool-cases (p y)) [
    | inl kept ↦ elim (rw kept at m) [
      | inl e ↦ (inl e, subst (λ t. p t ≡ true) e kept)
      | inr n ↦ let rest = select-∈ p x xs n in (inr rest.0, rest.1)
    ]
    | inr left ↦ let rest = select-∈ p x xs (rw left at m) in (inr rest.0, rest.1)
  ]

  pub ∈-append_right : (x : A) (xs ys : List A) → x ∈ ys → x ∈ (xs ++ ys)
  ∈-append_right x [] ys m = m
  ∈-append_right x (y ∷ xs) ys m = inr (∈-append_right x xs ys m)

  pub append-∈ : (x : A) (xs ys : List A) → x ∈ (xs ++ ys) → (x ∈ xs) ⊎ (x ∈ ys)
  append-∈ x [] ys m = inr m
  append-∈ x (y ∷ xs) ys (inl e) = inl (inl e)
  append-∈ x (y ∷ xs) ys (inr m) = elim (append-∈ x xs ys m) [ inl l ↦ inl (inr l) | inr r ↦ inr r ]

  pub All-of_∈ : (P : A → Type 0) (xs : List A) → ((x : A) → x ∈ xs → P x) → All P xs
  All-of_∈ P [] f = tt
  All-of_∈ P (x ∷ xs) f = (f x (inl refl), All-of_∈ P xs (λ y m. f y (inr m)))

  pub sort_by-∈ : (lt : A → A → Bool) (x : A) (xs : List A) → x ∈ sort_by lt xs → x ∈ xs
  sort_by-∈ lt x xs m =
      All-∈ (λ y. y ∈ xs) (sort_by lt xs) x
        (All-sort_by lt (λ y. y ∈ xs) xs (All-of_∈ (λ y. y ∈ xs) xs (λ y n. n))) m

  pub any_of-∈ :
      (p : A → Bool) (xs : List A) → any_of p xs ≡ true → (x : A) × (x ∈ xs) × (p x ≡ true)
  unfolding any_of
  any_of-∈ p [] h = absurd (ground (arith, h))
  any_of-∈ p (x ∷ xs) h = elim (Bool-cases (p x)) [
    | inl here ↦ (x, inl refl, here)
    | inr there ↦ let (y, m, k) = any_of-∈ p xs (rw there at h) in (y, inr m, k)
  ]

  pub ∈-any_of : (p : A → Bool) (x : A) (xs : List A) → x ∈ xs → p x ≡ true → any_of p xs ≡ true
  unfolding any_of
  ∈-any_of p x [] m h = absurd m
  ∈-any_of p x (y ∷ xs) (inl e) h = rw (e, h) refl
  ∈-any_of p x (y ∷ xs) (inr m) h = ground (arith, ∈-any_of p x xs m h)
