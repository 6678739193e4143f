-- ===== src/Common/Float/Extended.antt =====
-- Millionths with an infinity and a NaN: the facts assumed of floats hold where there are both.
use Prim.Native.Nat.{ℕ, ◌+◌, ◌-◌, ◌*◌, ◌/◌, ◌≤◌, zero, suc}
use mathlib.Core.Path.{◌≡◌, refl, ap}
use mathlib.Core.Bool.{Bool, true, false}
use native.Mathlib.Omega.{arith}
use aegis_ai_risk_manager.Common.Tests.{ltb, leb}
use aegis_ai_risk_manager.Common.Float.{Float, Compares, Rounds}
use aegis_ai_risk_manager.Common.Float.Millionths.{
  millionths_ratio_mono, millionths_le_refl, millionths_mul_mono, millionths_mul_one,
  millionths_mul_zero, millionths_one_sub, millionths_round_mono,
}

data Extended : Type 0 where
  finite : ℕ → Extended
  infinity nan : Extended

abbrev lift : (ℕ → ℕ → ℕ) → Extended → Extended → Extended
lift op (finite a) (finite b) = finite (op a b)
lift op (finite a) infinity = infinity
lift op infinity (finite b) = infinity
lift op infinity infinity = infinity
lift op _ _ = nan

-- 0 times infinity is not a number, nor is what is less than 0.
abbrev product : Extended → Extended → Extended
product (finite a) (finite b) = finite (a * b / 1000000)
product (finite zero) infinity = nan
product (finite (suc a)) infinity = infinity
product infinity (finite zero) = nan
product infinity (finite (suc b)) = infinity
product infinity infinity = infinity
product _ _ = nan

abbrev difference : Extended → Extended → Extended
difference (finite a) (finite b) = finite (a - b)
difference infinity (finite b) = infinity
difference _ _ = nan

abbrev opposite : Extended → Extended
opposite (finite a) = finite (1000000000000000 - a)
opposite _ = nan

abbrev less : Extended → Extended → Bool
less (finite a) (finite b) = ltb a b
less (finite a) infinity = true
less _ _ = false

abbrev at_most : Extended → Extended → Bool
at_most (finite a) (finite b) = leb a b
at_most (finite a) infinity = true
at_most infinity infinity = true
at_most _ _ = false

abbrev finite_one : Extended → Bool
finite_one (finite a) = true
finite_one _ = false

abbrev rounded : Extended → ℕ
rounded (finite a) = (a + 500000) / 1000000
rounded _ = 0

instance abbrev extended : Float Extended
extended = record {
  ratio = λ n d. finite (n * 1000000 / d);
  add = lift (λ a b. a + b);
  sub = difference;
  mul = product;
  div = lift (λ a b. a * 1000000 / b);
  neg = opposite;
  lt = less;
  le = at_most;
  is_finite = finite_one;
  round_int = rounded;
  round_digits = λ a digits. a;
}

Extended-Compares : Compares Extended
Extended-Compares = ground arith

mul_mono :
    (a b c : Extended)
    → finite_one a ≡ true
    → finite_one b ≡ true
    → finite_one c ≡ true
    → at_most b c ≡ true
    → at_most (product a b) (product a c) ≡ true
mul_mono (finite a) (finite b) (finite c) p q r h = millionths_mul_mono a b c h
mul_mono infinity b c p q r h = ground (arith, p)
mul_mono nan b c p q r h = ground (arith, p)
mul_mono (finite a) infinity c p q r h = ground (arith, q)
mul_mono (finite a) nan c p q r h = ground (arith, q)
mul_mono (finite a) (finite b) infinity p q r h = ground (arith, r)
mul_mono (finite a) (finite b) nan p q r h = ground (arith, r)

mul_one : (a : Extended) → finite_one a ≡ true → product a (finite (1 * 1000000 / 1)) ≡ a
mul_one (finite a) p = ap finite (millionths_mul_one a)
mul_one infinity p = ground (arith, p)
mul_one nan p = ground (arith, p)

mul_zero :
    (a : Extended)
    → finite_one a ≡ true
    → (at_most (finite 0) (product a (finite 0)) ≡ true)
      × (at_most (product a (finite 0)) (finite 0) ≡ true)
mul_zero (finite a) p = millionths_mul_zero a
mul_zero infinity p = absurd (ground (arith, p))
mul_zero nan p = absurd (ground (arith, p))

one_sub_unit :
    (a : Extended)
    → finite_one a ≡ true
    → (at_most (finite 0) (difference (finite 1000000) a) ≡ true)
      × (at_most (difference (finite 1000000) a) (finite 1000000) ≡ true)
one_sub_unit (finite a) p = millionths_one_sub a
one_sub_unit infinity p = absurd (ground (arith, p))
one_sub_unit nan p = absurd (ground (arith, p))

round_mono :
    (a b : Extended)
    → finite_one a ≡ true
    → finite_one b ≡ true
    → at_most a b ≡ true
    → rounded a ≤ rounded b
round_mono (finite a) (finite b) p q h = millionths_round_mono a b h
round_mono infinity b p q h = absurd (ground (arith, p))
round_mono nan b p q h = absurd (ground (arith, p))
round_mono (finite a) infinity p q h = absurd (ground (arith, q))
round_mono (finite a) nan p q h = absurd (ground (arith, q))

le_refl : (a : Extended) → finite_one a ≡ true → at_most a a ≡ true
le_refl (finite a) p = millionths_le_refl a
le_refl infinity p = refl
le_refl nan p = ground (arith, p)

finite_between :
    (a b c : Extended)
    → finite_one a ≡ true
    → finite_one c ≡ true
    → at_most a b ≡ true
    → at_most b c ≡ true
    → finite_one b ≡ true
finite_between a b c = ground arith

Extended-Rounds : Rounds Extended
Extended-Rounds = record {
  le_refl = le_refl;
  finite_between = finite_between;
  ratio_finite = λ _ _ _ _. refl;
  ratio_mono = λ m n d e p q _ h. millionths_ratio_mono m n d e p q h;
  mul_mono = λ a b c p q r _ h. mul_mono a b c p q r h;
  mul_one = mul_one;
  mul_zero = mul_zero;
  one_sub_unit = λ a p _ _. one_sub_unit a p;
  round_mono = λ a b p q _ h. round_mono a b p q h;
  round_zero = refl;
}
