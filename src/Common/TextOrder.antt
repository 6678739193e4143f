-- ===== src/Common/TextOrder.antt =====
-- The order of Python's `str`: lexicographic by code points, which is the native `compare`.
use Prim.Native.Nat.{ℕ, Ordering, compare as compare_ℕ}
use Prim.Native.Char.{code}
use Prim.Native.String.{String, compare, then}
use Prim.Native.String.compare
use text.Mathlib.TextEquality.{path_by_compare}
use text.Mathlib.TextPositions.{compare_refl}
use aegis_ai_risk_manager.Common.Sets.{Ord}
use mathlib.Core.Path.{◌≡◌, refl}
use mathlib.Core.Bool.{Bool, true, false}
use native.Mathlib.Omega.{arith}

abbrev pub is_lt : Ordering → Bool
is_lt Ordering.lt = true
is_lt Ordering.eq = false
is_lt Ordering.gt = false

abbrev pub str_lt : String → String → Bool
str_lt s t = is_lt (compare s t)

pub str_lt_irrefl : (s : String) → str_lt s s ≡ false
str_lt_irrefl s = rw (compare_refl s)

-- What `then` makes of three comparisons of code points.
then_trans :
    (a b c : ℕ) (p q r : Ordering)
    → (is_lt p ≡ true → is_lt q ≡ true → is_lt r ≡ true)
    → is_lt (then (compare_ℕ a b) p) ≡ true
    → is_lt (then (compare_ℕ b c) q) ≡ true
    → is_lt (then (compare_ℕ a c) r) ≡ true
then_trans a b c p q r f h k = ground arith

pub str_lt_trans : (s t u : String) → str_lt s t ≡ true → str_lt t u ≡ true → str_lt s u ≡ true
str_lt_trans String.[] String.[] u h k = k
str_lt_trans String.[] (String.◌∷◌ d t) String.[] h k = cc (compare.cons-nil d t)
str_lt_trans String.[] (String.◌∷◌ d t) (String.◌∷◌ e u) h k = rw (compare.nil-cons e u)
str_lt_trans (String.◌∷◌ c s) String.[] u h k = cc (compare.cons-nil c s)
str_lt_trans (String.◌∷◌ c s) (String.◌∷◌ d t) String.[] h k = cc (compare.cons-nil d t)
str_lt_trans (String.◌∷◌ c s) (String.◌∷◌ d t) (String.◌∷◌ e u) h k =
    rw (compare.cons-cons c e s u) (
      then_trans (code c) (code d) (code e) (compare s t) (compare t u) (compare s u)
        (str_lt_trans s t u) (rw (compare.cons-cons c d s t) at h)
        (rw (compare.cons-cons d e t u) at k))

-- Neither way of comparing finds the first smaller.
then_total :
    (a b : ℕ) (p q : Ordering)
    → (is_lt p ≡ false → is_lt q ≡ false → p ≡ Ordering.eq)
    → is_lt (then (compare_ℕ a b) p) ≡ false
    → is_lt (then (compare_ℕ b a) q) ≡ false
    → then (compare_ℕ a b) p ≡ Ordering.eq
then_total a b p q f h k = ground arith

compare-eq : (s t : String) → str_lt s t ≡ false → str_lt t s ≡ false → compare s t ≡ Ordering.eq
compare-eq String.[] String.[] h k = refl
compare-eq String.[] (String.◌∷◌ d t) h k = cc (compare.nil-cons d t)
compare-eq (String.◌∷◌ c s) String.[] h k = cc (compare.nil-cons c s)
compare-eq (String.◌∷◌ c s) (String.◌∷◌ d t) h k = rw (compare.cons-cons c d s t) (
    then_total (code c) (code d) (compare s t) (compare t s) (compare-eq s t)
      (rw (compare.cons-cons c d s t) at h) (rw (compare.cons-cons d c t s) at k))

pub str_lt_total : (s t : String) → str_lt s t ≡ false → str_lt t s ≡ false → s ≡ t
str_lt_total s t h k = path_by_compare s t (compare-eq s t h k)

instance abbrev pub string_ord : Ord String
string_ord = record {
  lt = str_lt;
  lt_irrefl = str_lt_irrefl;
  lt_trans = str_lt_trans;
  lt_total = str_lt_total;
}
