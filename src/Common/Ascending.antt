-- ===== src/Common/Ascending.antt =====
-- Lists in the order of a number that each element has: `sorted(xs, key=...)`.
pub mod Bisect
use aegis_ai_risk_manager.Common.{
  ℕ, zero, suc, ◌+◌, ◌/◌, ◌≤◌, ◌<◌, ◌≡◌, refl, sym, ap, ◌∙◌, inl, inr, Bool, true, false,
  Bool-cases, List, [], ◌++◌, ◌∷◌, arith, if◌then◌else◌, length, select, count_of, All, map, ltb,
}
use aegis_ai_risk_manager.Common.Sort.{sort_insert, sort_by, take}

module _ {A : Type 0} (key : A → ℕ) where
  -- `sorted(xs, key=key)`
  abbrev pub sort_on : List A → List A
  sort_on = sort_by (λ a b. ltb (key a) (key b))

  abbrev pub NotBefore : ℕ → List A → Type 0
  NotBefore n = All (λ a. n ≤ key a)

  abbrev pub IsAscending : List A → Type 0
  IsAscending [] = Unit
  IsAscending (x ∷ xs) = NotBefore (key x) xs × IsAscending xs

  pub NotBefore-weaken : (m n : ℕ) (xs : List A) → m ≤ n → NotBefore n xs → NotBefore m xs
  NotBefore-weaken m n [] h b = tt
  NotBefore-weaken m n (x ∷ xs) h b =
      (let first = b.0 in omega arith, NotBefore-weaken m n xs h b.1)

  -- A comparison that never contradicts the key sorts by it.
  module _ (lt : A → A → Bool) (first_le : (a b : A) → lt a b ≡ true → key a ≤ key b)
      (other_le : (a b : A) → lt a b ≡ false → key b ≤ key a) where
    NotBefore-sort_insert :
        (n : ℕ) (a : A) (xs : List A)
        → n ≤ key a
        → NotBefore n xs
        → NotBefore n (sort_insert lt a xs)
    unfolding sort_insert
    NotBefore-sort_insert n a [] h b = (h, tt)
    NotBefore-sort_insert n a (x ∷ xs) h b = ground (arith, NotBefore-sort_insert n a xs h b.1)

    sort_insert-IsAscending :
        (a : A) (xs : List A) → IsAscending xs → IsAscending (sort_insert lt a xs)
    unfolding sort_insert
    sort_insert-IsAscending a [] h = (tt, tt)
    sort_insert-IsAscending a (x ∷ xs) h = ground (
      arith,
      first_le x a,
      other_le x a,
      sort_insert-IsAscending a xs h.1,
      NotBefore-sort_insert (key x) a xs,
      NotBefore-weaken (key a) (key x) xs,
    )

    pub sort_by-IsAscending : (xs : List A) → IsAscending (sort_by lt xs)
    unfolding sort_by
    sort_by-IsAscending [] = tt
    sort_by-IsAscending (x ∷ xs) =
        sort_insert-IsAscending x (sort_by lt xs) (sort_by-IsAscending xs)

  pub sort_on-IsAscending : (xs : List A) → IsAscending (sort_on xs)
  sort_on-IsAscending =
      sort_by-IsAscending (λ a b. ltb (key a) (key b)) (λ a b h. ground (arith, h))
        (λ a b h. ground (arith, h))

  -- An ascending list is sorted already.
  sort_insert-first :
      (a : A) (xs : List A)
      → NotBefore (key a) xs
      → sort_insert (λ a b. ltb (key a) (key b)) a xs ≡ a ∷ xs
  unfolding sort_insert
  sort_insert-first a [] h = refl
  sort_insert-first a (x ∷ xs) h = let later = h.0 in ground arith

  pub sort_on-IsAscending_id : (xs : List A) → IsAscending xs → sort_on xs ≡ xs
  unfolding sort_by
  sort_on-IsAscending_id [] h = refl
  sort_on-IsAscending_id (x ∷ xs) h =
      ap (sort_insert (λ a b. ltb (key a) (key b)) x) (sort_on-IsAscending_id xs h.1)
      ∙ sort_insert-first x xs h.0

  pub NotBefore-select :
      (p : A → Bool) (n : ℕ) (xs : List A) → NotBefore n xs → NotBefore n (select p xs)
  unfolding select
  NotBefore-select p n [] b = tt
  NotBefore-select p n (x ∷ xs) b = ground (arith, NotBefore-select p n xs b.1)

  pub IsAscending-select : (p : A → Bool) (xs : List A) → IsAscending xs → IsAscending (select p xs)
  unfolding select
  IsAscending-select p [] h = tt
  IsAscending-select p (x ∷ xs) h =
      ground (arith, IsAscending-select p xs h.1, NotBefore-select p (key x) xs h.0)

  NotBefore-append : (n : ℕ) (xs ys : List A) → NotBefore n (xs ++ ys) → NotBefore n xs
  NotBefore-append n [] ys b = tt
  NotBefore-append n (x ∷ xs) ys b = (b.0, NotBefore-append n xs ys b.1)

  pub IsAscending-append : (xs ys : List A) → IsAscending (xs ++ ys) → IsAscending xs
  IsAscending-append [] ys h = tt
  IsAscending-append (x ∷ xs) ys h =
      (NotBefore-append (key x) xs ys h.0, IsAscending-append xs ys h.1)

  -- How many elements come before a number, and the first so many elements.
  abbrev pub before : ℕ → A → Bool
  before n a = ltb (key a) n

  pub none_before : (n : ℕ) (xs : List A) → NotBefore n xs → count_of (before n) xs ≡ 0
  unfolding count_of
  none_before n [] b = refl
  none_before n (x ∷ xs) b = ground (arith, none_before n xs b.1)

  pub select_none_before : (n : ℕ) (xs : List A) → NotBefore n xs → select (before n) xs ≡ []
  unfolding select
  select_none_before n [] b = refl
  select_none_before n (x ∷ xs) b = ground (arith, select_none_before n xs b.1)

  take-add_one : (n : ℕ) (x : A) (xs : List A) → take (1 + n) (x ∷ xs) ≡ x ∷ take n xs
  take-add_one n x xs = let e : 1 + n ≡ suc n = omega arith in ap (λ m. take m (x ∷ xs)) e

  pub take-before :
      (n : ℕ) (xs : List A)
      → IsAscending xs
      → take (count_of (before n) xs) xs ≡ select (before n) xs
  unfolding count_of select
  take-before n [] h = refl
  take-before n (x ∷ xs) h = elim (Bool-cases (before n x)) [
    | inl early ↦
        rw early (take-add_one (count_of (before n) xs) x xs ∙ ap (◌∷◌ x) (take-before n xs h.1))
    | inr late ↦
        let rest = NotBefore-weaken n (key x) xs (ground (arith, late)) h.0 in
        rw (late, none_before n xs rest) (sym (select_none_before n xs rest))
  ]
