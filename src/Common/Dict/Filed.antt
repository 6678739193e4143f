-- ===== src/Common/Dict/Filed.antt =====
-- The values of a dictionary.
use aegis_ai_risk_manager.Common.{
  ◌≡◌, inl, inr, Bool-cases, List, [], ◌∷◌, All, Eq, ◌==◌, arith, some,
}
use aegis_ai_risk_manager.Common.Dict.{lookup, insert}
use aegis_ai_risk_manager.Common.Members.{◌∈◌}

-- `d.values()`
abbrev pub values {ℓ κ} : {K : Type ℓ} {V : Type κ} → List (K × V) → List V
values [] = []
values ((k, v) ∷ d) = v ∷ values d

module _ {K V : Type 0} ⦃e : Eq K⦄ where
  pub All-insert :
      (P : V → Type 0) (k : K) (v : V) (d : List (K × V))
      → P v
      → All P (values d)
      → All P (values (insert k v d))
  unfolding insert
  All-insert P k v [] p h = (p, tt)
  All-insert P k v ((j, w) ∷ d) p h = elim (Bool-cases (j == k)) [
    | inl same ↦ rw same (p, h.1)
    | inr other ↦ rw other (h.0, All-insert P k v d p h.1)
  ]

  pub ∈-lookup : (k : K) (d : List (K × V)) (v : V) → lookup k d ≡ some v → v ∈ values d
  unfolding lookup
  ∈-lookup k [] v h = cc
  ∈-lookup k ((j, w) ∷ d) v h = elim (Bool-cases (j == k)) [
    | inl same ↦ inl (ground (arith, h, same))
    | inr other ↦ inr (∈-lookup k d v (rw other at h))
  ]
