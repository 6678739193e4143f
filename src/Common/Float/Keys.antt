-- ===== src/Common/Float/Keys.antt =====
-- Tuples of finite floats as sort keys: their order is a strict weak one.
use aegis_ai_risk_manager.Common.{
  ◌≡◌, refl, inl, inr, true, false, Bool-cases, List, [], ◌∷◌, All, arith,
}
use aegis_ai_risk_manager.Common.Float.{Float, Compares}
use aegis_ai_risk_manager.Common.Sort.{lex_lt}

module _ {F : Type 0} ⦃f : Float F⦄ where
  abbrev pub IsFinite : List F → Type 0
  IsFinite = All (λ x. f.is_finite x ≡ true)

  module _ ⦃laws : Compares F⦄ where
    lt_asym : (x y : F) → f.lt x y ≡ true → f.lt y x ≡ false
    lt_asym x y h = elim (Bool-cases (f.lt y x)) [
      | inl g ↦ ground (arith, laws.lt_trans x y x h g, laws.lt_irrefl x)
      | inr g ↦ g
    ]

    not_lt_trans :
        (x y z : F)
        → f.is_finite x ≡ true
        → f.is_finite y ≡ true
        → f.is_finite z ≡ true
        → f.lt x y ≡ false
        → f.lt y z ≡ false
        → f.lt x z ≡ false
    not_lt_trans x y z fx fy fz h g = elim (Bool-cases (f.lt x z)) [
      | inl e ↦
          let back = laws.le_of_not_lt x y fx fy h in
          let less = laws.le_lt_trans y x z back e in ground arith
      | inr e ↦ e
    ]

    pub lex_asym : (xs ys : List F) → lex_lt f.lt xs ys ≡ true → lex_lt f.lt ys xs ≡ false
    unfolding lex_lt
    lex_asym [] [] h = refl
    lex_asym [] (y ∷ ys) h = refl
    lex_asym (x ∷ xs) [] h = ground arith
    lex_asym (x ∷ xs) (y ∷ ys) h = ground (arith, lt_asym x y, lt_asym y x, lex_asym xs ys)

    pub not_lex_trans :
        (xs ys zs : List F)
        → IsFinite xs
        → IsFinite ys
        → IsFinite zs
        → lex_lt f.lt xs ys ≡ false
        → lex_lt f.lt ys zs ≡ false
        → lex_lt f.lt xs zs ≡ false
    unfolding lex_lt
    not_lex_trans xs [] [] p q r h g = ground arith
    not_lex_trans [] (y ∷ ys) zs p q r h g = ground arith
    not_lex_trans xs [] (z ∷ zs) p q r h g = ground arith
    not_lex_trans (x ∷ xs) (y ∷ ys) [] p q r h g = refl
    not_lex_trans (x ∷ xs) (y ∷ ys) (z ∷ zs) p q r h g =
        let xyz = not_lt_trans x y z p.0 q.0 r.0 in
        let yzx = not_lt_trans y z x q.0 r.0 p.0 in
        let zxy = not_lt_trans z x y r.0 p.0 q.0 in
        ground (arith, not_lex_trans xs ys zs p.1 q.1 r.1)
