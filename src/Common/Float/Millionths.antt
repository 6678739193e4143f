-- ===== src/Common/Float/Millionths.antt =====
-- A fixed-point type that meets the facts assumed of floats, for examples.
use Prim.Native.Nat.{ℕ, ◌+◌, ◌-◌, ◌*◌, ◌/◌, ◌≤◌, ◌<◌}
use mathlib.Core.Path.{◌≡◌, refl}
use mathlib.Core.Bool.{true, false}
use native.Mathlib.Omega.{arith}
use native.Mathlib.Nat.{
  le-div_iff_mul-le, le_of_mul-le-mul_right, mul-le-mul_right, div-mul-le_self,
}
use aegis_ai_risk_manager.Common.Tests.{ltb, leb, le→leb, leb→le}
use aegis_ai_risk_manager.Common.Float.{Float, Compares, Rounds}

-- Millionths, for examples: every value is finite and none is negative. The opposite of a value is
-- its distance to a bound, which orders opposites as they should be.
instance abbrev pub millionths : Float ℕ
millionths = record {
  ratio = λ n d. n * 1000000 / d;
  add = λ a b. a + b;
  sub = λ a b. a - b;
  mul = λ a b. a * b / 1000000;
  div = λ a b. a * 1000000 / b;
  neg = λ a. 1000000000000000 - a;
  lt = ltb;
  le = leb;
  is_finite = λ a. true;
  round_int = λ a. (a + 500000) / 1000000;
  round_digits = λ a digits. a;
}

pub millionths_lt_trans : (a b c : ℕ) → ltb a b ≡ true → ltb b c ≡ true → ltb a c ≡ true
millionths_lt_trans a b c h k = ground arith

pub millionths_le_lt_trans : (a b c : ℕ) → leb a b ≡ true → ltb b c ≡ true → ltb a c ≡ true
millionths_le_lt_trans a b c h k = ground arith

pub millionths_lt_le_trans : (a b c : ℕ) → ltb a b ≡ true → leb b c ≡ true → ltb a c ≡ true
millionths_lt_le_trans a b c h k = ground arith

pub millionths_le_trans : (a b c : ℕ) → leb a b ≡ true → leb b c ≡ true → leb a c ≡ true
millionths_le_trans a b c h k = ground arith

pub millionths_le_of_lt : (a b : ℕ) → ltb a b ≡ true → leb a b ≡ true
millionths_le_of_lt a b h = ground arith

pub millionths_le_of_not_lt : (a b : ℕ) → ltb a b ≡ false → leb b a ≡ true
millionths_le_of_not_lt a b h = ground arith

pub millionths_lt_irrefl : (a : ℕ) → ltb a a ≡ false
millionths_lt_irrefl a = ground arith

instance abbrev pub millionths_compare : Compares ℕ
millionths_compare = record {
  lt_irrefl = millionths_lt_irrefl;
  lt_trans = millionths_lt_trans;
  le_lt_trans = millionths_le_lt_trans;
  lt_le_trans = millionths_lt_le_trans;
  le_trans = millionths_le_trans;
  le_of_lt = millionths_le_of_lt;
  le_of_not_lt = λ a b _ _. millionths_le_of_not_lt a b;
}

millionths_div_mono : (m n d e : ℕ) → 0 < d → 0 < e → m * e ≤ n * d → m / d ≤ n / e
millionths_div_mono m n d e p q h =
    (le-div_iff_mul-le q).1
      (le_of_mul-le-mul_right (grind (arith, mul-le-mul_right e (div-mul-le_self m d))) p)

pub millionths_ratio_mono :
    (m n d e : ℕ) → 0 < d → 0 < e → m * e ≤ n * d → leb (m * 1000000 / d) (n * 1000000 / e) ≡ true
millionths_ratio_mono m n d e p q h =
    le→leb _ _ (millionths_div_mono (m * 1000000) (n * 1000000) d e p q (omega arith))

pub millionths_le_refl : (a : ℕ) → leb a a ≡ true
millionths_le_refl a = ground arith

pub millionths_mul_mono :
    (a b c : ℕ) → leb b c ≡ true → leb (a * b / 1000000) (a * c / 1000000) ≡ true
millionths_mul_mono a b c h = le→leb _ _ (
    millionths_div_mono (a * b) (a * c) 1000000 1000000 (omega arith) (omega arith)
      (grind (arith, leb→le b c h)))

pub millionths_mul_one : (a : ℕ) → a * 1000000 / 1000000 ≡ a
millionths_mul_one a = omega arith

pub millionths_mul_zero :
    (a : ℕ) → (leb 0 (a * 0 / 1000000) ≡ true) × (leb (a * 0 / 1000000) 0 ≡ true)
millionths_mul_zero a = ground arith

pub millionths_one_sub : (a : ℕ) → (leb 0 (1000000 - a) ≡ true) × (leb (1000000 - a) 1000000 ≡ true)
millionths_one_sub a = ground arith

pub millionths_round_mono :
    (a b : ℕ) → leb a b ≡ true → (a + 500000) / 1000000 ≤ (b + 500000) / 1000000
millionths_round_mono a b h = omega (arith, leb→le a b h)

instance abbrev pub millionths_round : Rounds ℕ
millionths_round = record {
  le_refl = λ a _. millionths_le_refl a;
  finite_between = λ _ _ _ _ _ _ _. refl;
  ratio_finite = λ _ _ _ _. refl;
  ratio_mono = λ m n d e p q _ h. millionths_ratio_mono m n d e p q h;
  mul_mono = λ a b c _ _ _ _ h. millionths_mul_mono a b c h;
  mul_one = λ a _. millionths_mul_one a;
  mul_zero = λ a _. millionths_mul_zero a;
  one_sub_unit = λ a _ _ _. millionths_one_sub a;
  round_mono = λ a b _ _ _ h. millionths_round_mono a b h;
  round_zero = refl;
}
