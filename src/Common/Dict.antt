-- ===== src/Common/Dict.antt =====
-- Python's `dict` and `Counter` as association lists in insertion order, with the laws of lookup.
pub mod Filed
use aegis_ai_risk_manager.Common.Tests.{Bool-cases, if◌then◌else◌}
use aegis_ai_risk_manager.Common.Text.{Eq, ◌==◌}
use aegis_ai_risk_manager.Common.Lists.{all_of}
use Prim.Native.Nat.{ℕ, ◌+◌}
use mathlib.Core.Path.{◌≡◌, refl, subst}
use mathlib.Core.Bool.{Bool, true, false, false≢true}
use mathlib.Core.Logic.{inl, inr}
use mathlib.Core.Option.{Option, none, some}
use mathlib.Core.List.{List, [], ◌∷◌}
use native.Mathlib.Omega.{arith}

module _ {ℓ κ} {K : Type ℓ} {V : Type κ} ⦃e : Eq K⦄ where
  -- `d.get(k)`
  unfoldable pub lookup : K → List (K × V) → Option V
  lookup k [] = none
  lookup k ((j, v) ∷ d) = if j == k then some v else lookup k d

  -- `d[k] = v`: in place, or at the end.
  unfoldable pub insert : K → V → List (K × V) → List (K × V)
  insert k v [] = (k, v) ∷ []
  insert k v ((j, w) ∷ d) = if j == k then (j, v) ∷ d else (j, w) ∷ insert k v d

  -- `k in d`
  unfoldable pub has_key : K → List (K × V) → Bool
  has_key k [] = false
  has_key k ((j, v) ∷ d) = if j == k then true else has_key k d

  pub lookup-insert :
      (k j : K) (v : V) (d : List (K × V))
      → lookup j (insert k v d) ≡ (if k == j then some v else lookup j d)
  unfolding lookup insert
  lookup-insert k j v [] = refl
  lookup-insert k j v ((i, w) ∷ d) =
      ground (arith, e.beq_iff i k, e.beq_iff i j, e.beq_iff k j, lookup-insert k j v d)

  pub has_key-insert :
      (k j : K) (v : V) (d : List (K × V))
      → has_key j (insert k v d) ≡ (if k == j then true else has_key j d)
  unfolding has_key insert
  has_key-insert k j v [] = refl
  has_key-insert k j v ((i, w) ∷ d) =
      ground (arith, e.beq_iff i k, e.beq_iff i j, e.beq_iff k j, has_key-insert k j v d)

abbrev pub or_zero : Option ℕ → ℕ
or_zero none = 0
or_zero (some n) = n

module _ {ℓ} {K : Type ℓ} ⦃e : Eq K⦄ where
  -- `counter[k]`
  unfoldable pub tally : K → List (K × ℕ) → ℕ
  unfolding lookup
  tally k c = or_zero (lookup k c)

  -- `counter[k] += n`
  unfoldable pub bump_by : K → ℕ → List (K × ℕ) → List (K × ℕ)
  unfolding tally insert
  bump_by k n c = insert k (tally k c + n) c

  pub tally-bump_by :
      (k j : K) (n : ℕ) (c : List (K × ℕ))
      → tally j (bump_by k n c) ≡ (if k == j then tally j c + n else tally j c)
  unfolding tally bump_by
  tally-bump_by k j n c = rw lookup-insert (ground (arith, e.beq_iff k j))

module _ {ℓ κ} {K : Type ℓ} {V : Type κ} ⦃e : Eq K⦄ where
  pub lookup_of_has_key :
      (k : K) (d : List (K × V)) → has_key k d ≡ true → (v : V) × (lookup k d ≡ some v)
  unfolding has_key lookup
  lookup_of_has_key k [] h = absurd (false≢true h)
  lookup_of_has_key k ((j, v) ∷ d) h = elim (Bool-cases (j == k)) [
    | inl here ↦ (v, rw here)
    | inr there ↦ rw there (lookup_of_has_key k d (rw there at h))
  ]

  -- What holds of every item holds of the one found.
  pub all_of-lookup :
      (p : K × V → Bool) (k : K) (d : List (K × V)) (v : V)
      → all_of p d ≡ true
      → lookup k d ≡ some v
      → p (k, v) ≡ true
  unfolding all_of lookup
  all_of-lookup p k [] v all h = cc
  all_of-lookup p k ((j, w) ∷ d) v all h = elim (Bool-cases (j == k)) [
    | inl here ↦
        let found : w ≡ v = ground arith in
        subst (λ t. p t ≡ true) (λ i. ((e.beq_iff j k).0 here i, found i)) (ground arith)
    | inr there ↦ all_of-lookup p k d v (ground arith) (rw there at h)
  ]

-- The two ways of asking for a key agree.
pub lookup_of_no_key :
    {K V : Type 0} ⦃e : Eq K⦄ (k : K) (d : List (K × V)) → has_key k d ≡ false → lookup k d ≡ none
unfolding has_key lookup
lookup_of_no_key k [] h = refl
lookup_of_no_key k ((j, v) ∷ d) h = ground (arith, lookup_of_no_key k d)

pub has_key_of_lookup :
    {K V : Type 0} ⦃e : Eq K⦄ (k : K) (d : List (K × V)) (v : V)
    → lookup k d ≡ some v
    → has_key k d ≡ true
unfolding has_key lookup
has_key_of_lookup k [] v h = cc
has_key_of_lookup k ((j, w) ∷ d) v h = ground (arith, has_key_of_lookup k d v)
