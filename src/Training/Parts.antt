-- ===== src/Training/Parts.antt =====
-- ml/training/splitting.py: the parts between two boundaries, read back from the metadata.
use aegis_ai_risk_manager.Common.{
  ℕ, suc, ◌≤◌, Bool, Bool-cases, [], ◌∷◌, ◌≡◌, refl, ◌⊎◌, inl, inr, ok, select, arith,
}
use aegis_ai_risk_manager.Common.Members.{◌∈◌}
use aegis_ai_risk_manager.Common.Members.Select.{∈-select, select-∈}
use aegis_ai_risk_manager.Training.Members.{IsBefore}
use aegis_ai_risk_manager.Training.Splitting.{
  EvaluationMetadata, Items, item_at, items_at, indices_where, in_train, in_validation, in_test,
  parts_between,
}

-- Indices beyond the first item read the rest.
items_at-shift :
    (p : EvaluationMetadata → Bool) (item : EvaluationMetadata) (metadata items : Items) (n : ℕ)
    → items_at (item ∷ metadata) (indices_where p (suc n) items)
      ≡ items_at metadata (indices_where p n items)
unfolding items_at indices_where item_at
items_at-shift p item metadata [] n = refl
items_at-shift p item metadata (x ∷ items) n = elim (Bool-cases (p x)) [
  | inl e ↦ rw (e, items_at-shift p item metadata items (suc n)) refl
  | inr e ↦ rw (e, items_at-shift p item metadata items (suc n)) refl
]

-- Gathering at the indices of a comprehension is filtering.
items_at-indices_where :
    (p : EvaluationMetadata → Bool) (metadata : Items)
    → items_at metadata (indices_where p 0 metadata) ≡ ok (select p metadata)
unfolding items_at indices_where item_at select
items_at-indices_where p [] = refl
items_at-indices_where p (x ∷ metadata) = elim (Bool-cases (p x)) [
  | inl e ↦ rw (e, items_at-shift p x metadata metadata 0, items_at-indices_where p metadata) refl
  | inr e ↦ rw (e, items_at-shift p x metadata metadata 0, items_at-indices_where p metadata) refl
]

in_a_part :
    (first_validation first_test : ℕ) (metadata : Items) (x : EvaluationMetadata)
    → x ∈ metadata
    → (x ∈ select (in_train first_validation) metadata)
      ⊎ ((x ∈ select (in_validation first_validation first_test) metadata)
          ⊎ (x ∈ select (in_test first_test) metadata))
in_a_part first_validation first_test metadata x m =
    let p = in_train first_validation in
    let q = in_validation first_validation first_test in
    let r = in_test first_test in
    elim (Bool-cases (p x)) [
      | inl e ↦ inl (∈-select p x metadata m e)
      | inr e ↦ elim (Bool-cases (q x)) [
        | inl f ↦ inr (inl (∈-select q x metadata m f))
        | inr f ↦ inr (inr (∈-select r x metadata m (ground (arith, e, f))))
      ]
    ]

-- For boundaries in order, the indices of the three parts read items of the metadata; training
-- items are strictly earlier than validation items and than test items, validation items than test
-- items; and every item of the metadata is in one of the parts.
pub parts_between-IsSplit :
    (first_validation first_test : ℕ) (metadata : Items)
    → first_validation ≤ first_test
    → (train validation test : Items) × (items_at metadata
          (parts_between first_validation first_test metadata).train
        ≡ ok train)
      × (items_at metadata (parts_between first_validation first_test metadata).validation
          ≡ ok validation)
      × (items_at metadata (parts_between first_validation first_test metadata).test ≡ ok test)
      × IsBefore train validation
      × IsBefore train test
      × IsBefore validation test
      × ((x : EvaluationMetadata) → x ∈ metadata → (x ∈ train) ⊎ ((x ∈ validation) ⊎ (x ∈ test)))
unfolding parts_between
parts_between-IsSplit first_validation first_test metadata ordered = (
  select (in_train first_validation) metadata,
  select (in_validation first_validation first_test) metadata,
  select (in_test first_test) metadata,
  items_at-indices_where (in_train first_validation) metadata,
  items_at-indices_where (in_validation first_validation first_test) metadata,
  items_at-indices_where (in_test first_test) metadata,
  (λ x y m n. ground (
    arith,
    (select-∈ (in_train first_validation) x metadata m).1,
    (select-∈ (in_validation first_validation first_test) y metadata n).1,
  )),
  (λ x y m n. ground (
    arith,
    ordered,
    (select-∈ (in_train first_validation) x metadata m).1,
    (select-∈ (in_test first_test) y metadata n).1,
  )),
  (λ x y m n. ground (
    arith,
    (select-∈ (in_validation first_validation first_test) x metadata m).1,
    (select-∈ (in_test first_test) y metadata n).1,
  )),
  in_a_part first_validation first_test metadata,
)
