-- ===== src/Common/Members.antt =====
-- Membership in a list, taken apart by cases, and what it shares with sorting.
pub mod Select
use aegis_ai_risk_manager.Common.{
  suc, length, List, [], ◌∷◌, ◌++◌, ◌≡◌, refl, ◌⊎◌, inl, inr, All, Bool, true, false, Bool-cases,
  subst, arith, Eq,
}
use aegis_ai_risk_manager.Common.Sets.{contains}
use aegis_ai_risk_manager.Common.Sort.{sort_insert, sort_by}

infix 50 ◌∈◌
abbrev pub ◌∈◌ : {A : Type 0} → A → List A → Type 0
x ∈ [] = ⊥
x ∈ (y ∷ ys) = (y ≡ x) ⊎ (x ∈ ys)

pub contains_of_∈ : {A : Type 0} ⦃e : Eq A⦄ (x : A) (xs : List A) → x ∈ xs → contains xs x ≡ true
unfolding contains
contains_of_∈ x [] m = absurd m
contains_of_∈ ⦃e⦄ x (y ∷ ys) (inl same) = rw ((e.beq_iff y x).1 same) refl
contains_of_∈ ⦃e⦄ x (y ∷ ys) (inr m) = ground (arith, contains_of_∈ x ys m)

pub List-cases {ℓ} :
    {A : Type ℓ} (xs : List A) → (xs ≡ []) ⊎ ((y : A) × (ys : List A) × (xs ≡ y ∷ ys))
List-cases [] = inl refl
List-cases (y ∷ ys) = inr (y, ys, refl)

module _ {A : Type 0} where
  pub ∈-append_left : (x : A) (xs ys : List A) → x ∈ xs → x ∈ (xs ++ ys)
  ∈-append_left x [] ys h = absurd h
  ∈-append_left x (y ∷ xs) ys (inl e) = inl e
  ∈-append_left x (y ∷ xs) ys (inr h) = inr (∈-append_left x xs ys h)

  pub ∈-append_last : (x : A) (xs : List A) → x ∈ (xs ++ (x ∷ []))
  ∈-append_last x [] = inl refl
  ∈-append_last x (y ∷ xs) = inr (∈-append_last x xs)

  pub ∈-behind :
      (x a y : A) (xs zs : List A) → x ∈ (a ∷ y ∷ xs) → (x ∈ (a ∷ xs) → x ∈ zs) → x ∈ (y ∷ zs)
  ∈-behind x a y xs zs (inl e) f = inr (f (inl e))
  ∈-behind x a y xs zs (inr (inl e)) f = inl e
  ∈-behind x a y xs zs (inr (inr m)) f = inr (f (inr m))

module _ {A : Type 0} (P : A → Type 0) where
  pub All-append : (xs : List A) (x : A) → All P xs → P x → All P (xs ++ (x ∷ []))
  All-append [] x h p = (p, tt)
  All-append (y ∷ xs) x h p = (h.0, All-append xs x h.1 p)

  pub All-∈ : (xs : List A) (x : A) → All P xs → x ∈ xs → P x
  All-∈ [] x h m = absurd m
  All-∈ (y ∷ xs) x h (inl e) = subst P e h.0
  All-∈ (y ∷ xs) x h (inr m) = All-∈ xs x h.1 m

  pub All-map : (Q : A → Type 0) (xs : List A) → ((x : A) → P x → Q x) → All P xs → All Q xs
  All-map Q [] f h = tt
  All-map Q (x ∷ xs) f h = (f x h.0, All-map Q xs f h.1)

module _ {A : Type 0} (lt : A → A → Bool) where
  pub All-sort_insert :
      (P : A → Type 0) (a : A) (xs : List A) → P a → All P xs → All P (sort_insert lt a xs)
  unfolding sort_insert
  All-sort_insert P a [] p h = (p, tt)
  All-sort_insert P a (x ∷ xs) p h = elim (Bool-cases (lt x a)) [
    | inl e ↦ rw e (h.0, All-sort_insert P a xs p h.1)
    | inr e ↦ rw e (p, h)
  ]

  pub All-sort_by : (P : A → Type 0) (xs : List A) → All P xs → All P (sort_by lt xs)
  unfolding sort_by
  All-sort_by P [] h = tt
  All-sort_by P (x ∷ xs) h = All-sort_insert P x (sort_by lt xs) h.0 (All-sort_by P xs h.1)

  ∈-sort_insert : (x a : A) (xs : List A) → x ∈ (a ∷ xs) → x ∈ sort_insert lt a xs
  unfolding sort_insert
  ∈-sort_insert x a [] h = h
  ∈-sort_insert x a (y ∷ xs) h = elim (Bool-cases (lt y a)) [
    | inl e ↦ rw e (∈-behind x a y xs (sort_insert lt a xs) h (∈-sort_insert x a xs))
    | inr e ↦ rw e h
  ]

  pub ∈-sort_by : (x : A) (xs : List A) → x ∈ xs → x ∈ sort_by lt xs
  unfolding sort_by
  ∈-sort_by x [] h = h
  ∈-sort_by x (y ∷ xs) (inl e) = ∈-sort_insert x y (sort_by lt xs) (inl e)
  ∈-sort_by x (y ∷ xs) (inr m) = ∈-sort_insert x y (sort_by lt xs) (inr (∈-sort_by x xs m))

  pub length-sort_insert : (a : A) (xs : List A) → length (sort_insert lt a xs) ≡ suc (length xs)
  unfolding sort_insert
  length-sort_insert a [] = refl
  length-sort_insert a (x ∷ xs) = ground (arith, length-sort_insert a xs)

  pub length-sort_by : (xs : List A) → length (sort_by lt xs) ≡ length xs
  unfolding sort_by
  length-sort_by [] = refl
  length-sort_by (x ∷ xs) = omega (arith, length-sort_insert x (sort_by lt xs), length-sort_by xs)

-- Among elements that the comparison orders, a sorted list starts with a least one.
module _ {A : Type 0} (lt : A → A → Bool) (P : A → Type 0)
    (asym : (x y : A) → lt x y ≡ true → lt y x ≡ false)
    (not_lt_trans : (x y z : A)
      → P x
      → P y
      → P z
      → lt x y ≡ false
      → lt y z ≡ false
      → lt x z ≡ false) where
  abbrev IsHeaded : List A → Type 0
  IsHeaded [] = Unit
  IsHeaded (x ∷ xs) = All (λ y. lt y x ≡ false) (x ∷ xs)

  irrefl : (x : A) → lt x x ≡ false
  irrefl x = elim (Bool-cases (lt x x)) [ inl e ↦ asym x x e | inr e ↦ e ]

  after :
      (x y : A) (ys : List A)
      → P x
      → P y
      → lt y x ≡ false
      → All P ys
      → All (λ z. lt z y ≡ false) ys
      → All (λ z. lt z x ≡ false) ys
  after x y [] p q h ps hs = tt
  after x y (z ∷ ys) p q h ps hs =
      (not_lt_trans z y x ps.0 q p hs.0 h, after x y ys p q h ps.1 hs.1)

  sort_insert-IsHeaded :
      (a : A) (xs : List A) → P a → All P xs → IsHeaded xs → IsHeaded (sort_insert lt a xs)
  unfolding sort_insert
  sort_insert-IsHeaded a [] p ps h = (irrefl a, tt)
  sort_insert-IsHeaded a (x ∷ xs) p ps h = elim (Bool-cases (lt x a)) [
    | inl e ↦ rw e (h.0, All-sort_insert lt (λ z. lt z x ≡ false) a xs (asym x a e) h.1)
    | inr e ↦ rw e (irrefl a, (e, after a x xs p ps.0 e ps.1 h.1))
  ]

  sort_by-IsHeaded : (xs : List A) → All P xs → IsHeaded (sort_by lt xs)
  unfolding sort_by
  sort_by-IsHeaded [] ps = tt
  sort_by-IsHeaded (x ∷ xs) ps =
      sort_insert-IsHeaded x (sort_by lt xs) ps.0 (All-sort_by lt P xs ps.1)
        (sort_by-IsHeaded xs ps.1)

  pub sort_by-least :
      (xs : List A) {best : A} {others : List A}
      → All P xs
      → sort_by lt xs ≡ best ∷ others
      → (x : A) → x ∈ xs
      → lt x best ≡ false
  sort_by-least xs {best} {others} ps e x m =
      let headed : IsHeaded (best ∷ others) = subst IsHeaded e (sort_by-IsHeaded xs ps) in
      let here : x ∈ (best ∷ others) = subst (λ ys. x ∈ ys) e (∈-sort_by lt x xs m) in
      All-∈ (λ z. lt z best ≡ false) (best ∷ others) x headed here
