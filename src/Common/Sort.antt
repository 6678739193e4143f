-- ===== src/Common/Sort.antt =====
-- `list.sort` and `sorted`: stable, by a strict comparison of keys.
use aegis_ai_risk_manager.Common.{ℕ, zero, suc, Bool, true, false, List, [], ◌∷◌, if◌then◌else◌}

module _ {ℓ} {A : Type ℓ} (lt : A → A → Bool) where
  -- In front of the first element that is not smaller.
  unfoldable pub sort_insert : A → List A → List A
  sort_insert a [] = a ∷ []
  sort_insert a (x ∷ xs) = let rest = sort_insert a xs in if lt x a then x ∷ rest else a ∷ x ∷ xs

  unfoldable pub sort_by : List A → List A
  unfolding sort_insert
  sort_by [] = []
  sort_by (x ∷ xs) = sort_insert x (sort_by xs)

-- Tuples compare at the first place where they differ, a prefix before what it starts.
unfoldable pub lex_lt {ℓ} : {A : Type ℓ} → (A → A → Bool) → List A → List A → Bool
lex_lt lt [] [] = false
lex_lt lt [] (y ∷ ys) = true
lex_lt lt (x ∷ xs) [] = false
lex_lt lt (x ∷ xs) (y ∷ ys) = if lt x y then true else if lt y x then false else lex_lt lt xs ys

-- `xs[:n]`
abbrev pub take {ℓ} : {A : Type ℓ} → ℕ → List A → List A
take zero xs = []
take (suc n) [] = []
take (suc n) (x ∷ xs) = x ∷ take n xs
