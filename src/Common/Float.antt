-- ===== src/Common/Float.antt =====
-- Python's `float`, which the language does not have: its operations as an interface, the facts of
-- IEEE 754 that theorems rely on as records, and, in the child, a fixed-point type that meets them.
pub mod Millionths
pub mod Keys
pub mod Extended
use Prim.Native.Nat.{ℕ, ◌+◌, ◌-◌, ◌*◌, ◌/◌, ◌≤◌, ◌<◌}
use mathlib.Core.Path.{◌≡◌}
use mathlib.Core.Bool.{Bool, true, false, ◌&&◌}
use native.Mathlib.Omega.{arith}
use native.Mathlib.Nat.{
  le-div_iff_mul-le, le_of_mul-le-mul_right, mul-le-mul_right, div-mul-le_self,
}
use aegis_ai_risk_manager.Common.Tests.{ltb, leb, le→leb, leb→le, if◌then◌else◌}

-- `ratio n d` is the float nearest to n / d: a decimal literal, an `int` made a float (d = 1), and
-- the true division of two `int`s, which Python rounds correctly, are all of this form.
pub record Float (F : Type 0) : Type 0 where
  pub ratio : ℕ → ℕ → F
  pub add : F → F → F
  pub sub : F → F → F
  pub mul : F → F → F
  pub div : F → F → F
  pub neg : F → F
  pub lt : F → F → Bool
  pub le : F → F → Bool
  pub is_finite : F → Bool
  -- `round(x)`, for x at least 0
  pub round_int : F → ℕ
  -- `round(x, digits)`
  pub round_digits : F → ℕ → F

-- Comparison as IEEE 754 has it: the first six hold at NaN too.
pub record Compares (F : Type 0) ⦃f : Float F⦄ : Type 0 where
  pub lt_irrefl : (a : F) → f.lt a a ≡ false
  pub lt_trans : (a b c : F) → f.lt a b ≡ true → f.lt b c ≡ true → f.lt a c ≡ true
  pub le_lt_trans : (a b c : F) → f.le a b ≡ true → f.lt b c ≡ true → f.lt a c ≡ true
  pub lt_le_trans : (a b c : F) → f.lt a b ≡ true → f.le b c ≡ true → f.lt a c ≡ true
  pub le_trans : (a b c : F) → f.le a b ≡ true → f.le b c ≡ true → f.le a c ≡ true
  pub le_of_lt : (a b : F) → f.lt a b ≡ true → f.le a b ≡ true
  pub le_of_not_lt :
      (a b : F) → f.is_finite a ≡ true → f.is_finite b ≡ true → f.lt a b ≡ false → f.le b a ≡ true

-- Rounding as IEEE 754 has it: the exact result, rounded monotonically. Each fact is about finite
-- operands; zeros of either sign compare as equal, so what is known of a zero product is its order.
pub record Rounds (F : Type 0) ⦃f : Float F⦄ : Type 0 where
  pub le_refl : (a : F) → f.is_finite a ≡ true → f.le a a ≡ true
  pub finite_between :
      (a b c : F)
      → f.is_finite a ≡ true
      → f.is_finite c ≡ true
      → f.le a b ≡ true
      → f.le b c ≡ true
      → f.is_finite b ≡ true
  pub ratio_finite : (n d : ℕ) → n < 18446744073709551616 → 0 < d → f.is_finite (f.ratio n d) ≡ true
  pub ratio_mono :
      (m n d e : ℕ)
      → 0 < d
      → 0 < e
      → f.is_finite (f.ratio n e) ≡ true
      → m * e ≤ n * d
      → f.le (f.ratio m d) (f.ratio n e) ≡ true
  pub mul_mono :
      (a b c : F)
      → f.is_finite a ≡ true
      → f.is_finite b ≡ true
      → f.is_finite c ≡ true
      → f.le (f.ratio 0 1) a ≡ true
      → f.le b c ≡ true
      → f.le (f.mul a b) (f.mul a c) ≡ true
  pub mul_one : (a : F) → f.is_finite a ≡ true → f.mul a (f.ratio 1 1) ≡ a
  pub mul_zero :
      (a : F)
      → f.is_finite a ≡ true
      → (f.le (f.ratio 0 1) (f.mul a (f.ratio 0 1)) ≡ true)
        × (f.le (f.mul a (f.ratio 0 1)) (f.ratio 0 1) ≡ true)
  pub one_sub_unit :
      (a : F)
      → f.is_finite a ≡ true
      → f.le (f.ratio 0 1) a ≡ true
      → f.le a (f.ratio 1 1) ≡ true
      → (f.le (f.ratio 0 1) (f.sub (f.ratio 1 1) a) ≡ true)
        × (f.le (f.sub (f.ratio 1 1) a) (f.ratio 1 1) ≡ true)
  pub round_mono :
      (a b : F)
      → f.is_finite a ≡ true
      → f.is_finite b ≡ true
      → f.le (f.ratio 0 1) a ≡ true
      → f.le a b ≡ true
      → f.round_int a ≤ f.round_int b
  pub round_zero : f.round_int (f.ratio 0 1) ≡ 0

module _ {F : Type 0} ⦃f : Float F⦄ where
  abbrev pub of_int : ℕ → F
  of_int n = f.ratio n 1

  -- Python's `min(a, b)` and `max(a, b)`: the first, unless the second is strictly better.
  abbrev pub float_min : F → F → F
  float_min a b = if f.lt b a then b else a

  abbrev pub float_max : F → F → F
  float_max a b = if f.lt a b then b else a

  -- `Field(ge=0, le=1)`
  abbrev pub in_unit : F → Bool
  in_unit a = f.le (of_int 0) a && f.le a (of_int 1)
