-- ===== src/Training/Sound.antt =====
-- ml/training/splitting.py: what holds of a split that `validate_split` accepts.
use aegis_ai_risk_manager.Common.{
  ℕ, Bool, true, ◌&&◌, ◌!=◌, nat_eq, String, List, [], ◌∷◌, ◌≡◌, refl, subst, some, ok,
  ok-injective, >>=-eq-ok, reject_if-eq_ok, string_eq, ltb,
}
use aegis_ai_risk_manager.Common.Dict.{lookup}
use aegis_ai_risk_manager.Common.ListEq.{list_eq}
use aegis_ai_risk_manager.Common.Members.{◌∈◌, contains_of_∈}
use aegis_ai_risk_manager.Common.Sets.{contains, sorted_set, sorted_set_by}
use aegis_ai_risk_manager.Common.Sets.Laws.{contains-sorted_set}
use aegis_ai_risk_manager.Common.TextOrder.{string_ord}
use aegis_ai_risk_manager.Training.Splitting.{
  EvaluationMetadata, Items, Parts, PartSets, items_at, rings_of, groups_of, ids_of, overlap,
  check_pair, check_order, is_empty, labels_of, scenarios_of, abuse_scenarios, check_part,
  validate_split,
}
use aegis_ai_risk_manager.Training.Members.{
  IsNamed, IsBefore, ∈-ids_of, ∈-rings_of, ∈-groups_of, apart, ∈_of_contains, check_order-IsBefore,
  reject_if-false,
}

-- No identifier, ring or supergroup is shared between the two lists.
abbrev pub IsApart : List (String × String) → Items → Items → Type 0
IsApart table left right =
    (x y : EvaluationMetadata)
    → x ∈ left
    → y ∈ right
    → (x.transaction_id ≡ y.transaction_id → ⊥)
      × ((ring : String) → IsNamed x ring → IsNamed y ring → ⊥)
      × ((r s group : String)
          → IsNamed x r
          → IsNamed y s
          → lookup r table ≡ some group
          → lookup s table ≡ some group
          → ⊥)

contains_sorted : (v : String) (xs : List String) → v ∈ xs → contains (sorted_set xs) v ≡ true
contains_sorted v xs m = rw (contains-sorted_set xs v) (contains_of_∈ v xs m)

-- The sets of a part are those of its items.
record Describes (table : List (String × String)) (part : PartSets) : Type 0 where
  ids_are : part.ids ≡ sorted_set (ids_of part.items)
  rings_are : part.rings ≡ sorted_set (rings_of part.items)
  groups : List String
  groups_found : groups_of table part.rings ≡ ok groups
  groups_are : part.groups ≡ sorted_set groups

module _ (table : List (String × String)) (part : PartSets) (d : Describes table part)
    (x : EvaluationMetadata) (m : x ∈ part.items) where
  id_in : contains part.ids x.transaction_id ≡ true
  id_in =
      rw d.ids_are (contains_sorted x.transaction_id (ids_of part.items) (∈-ids_of x part.items m))

  ring_in : (ring : String) → IsNamed x ring → contains part.rings ring ≡ true
  ring_in ring named =
      rw d.rings_are
        (contains_sorted ring (rings_of part.items) (∈-rings_of x part.items ring m named))

  group_in :
      (ring group : String)
      → IsNamed x ring
      → lookup ring table ≡ some group
      → contains part.groups group ≡ true
  group_in ring group named found = rw d.groups_are (
      contains_sorted group d.groups (
        ∈-groups_of table part.rings ring d.groups_found
          (∈_of_contains ring part.rings (ring_in ring named)) found))

check_pair-IsApart :
    (table : List (String × String)) (left right : PartSets)
    → Describes table left
    → Describes table right
    → check_pair left right ≡ ok tt
    → IsApart table left.items right.items
unfolding check_pair
check_pair-IsApart table left right d e accepted x y m n =
    let (ids_free, h1) = reject_if-eq_ok (overlap left.ids right.ids) _ _ accepted in
    let (rings_free, h2) = reject_if-eq_ok (overlap left.rings right.rings) _ _ h1 in
    let groups_free = reject_if-false (overlap left.groups right.groups) _ h2 in
    (
      λ same.
          apart left.ids right.ids x.transaction_id ids_free (id_in table left d x m)
            (rw same (id_in table right e y n)),
      λ ring p q.
          apart left.rings right.rings ring rings_free (ring_in table left d x m ring p)
            (ring_in table right e y n ring q),
      λ r s group p q f g.
          apart left.groups right.groups group groups_free (group_in table left d x m r group p f)
            (group_in table right e y n s group q g),
    )

module _ (show_set : List String → String) (metadata : Items) (table : List (String × String))
    (all : Bool) where
  check_part-eq_ok :
      (name : String) (indices : List ℕ) (part : PartSets)
      → check_part show_set metadata table all name indices ≡ ok part
      → (items_at metadata indices ≡ ok part.items) × Describes table part
  unfolding check_part
  check_part-eq_ok name indices part h =
      let (items, e, h1) = >>=-eq-ok (items_at metadata indices) _ h in
      let (filled, h2) = reject_if-eq_ok (is_empty items) _ _ h1 in
      let (both, h3) =
        reject_if-eq_ok (sorted_set_by ltb (labels_of items) != (0 ∷ 1 ∷ [])) _ _ h2 in
      let (complete, h4) =
        reject_if-eq_ok (all && (scenarios_of items != abuse_scenarios)) _ _ h3 in
      let (groups, f, h5) = >>=-eq-ok (groups_of table (sorted_set (rings_of items))) _ h4 in
      subst (λ (p : PartSets). (items_at metadata indices ≡ ok p.items) × Describes table p)
        (ok-injective h5)
        (
          e,
          record {
            ids_are = refl;
            rings_are = refl;
            groups = groups;
            groups_found = f;
            groups_are = refl;
          },
        )

  -- When `validate_split` accepts three parts, their indices all read an item of the metadata; no
  -- transaction identifier, no ring and no supergroup of a ring is shared between two parts; every
  -- training item is strictly earlier than every validation item, and those than every test item.
  pub validate_split-IsApart :
      (parts : Parts)
      → validate_split show_set metadata table all parts ≡ ok tt
      → (train validation test : Items) × (items_at metadata parts.train ≡ ok train)
        × (items_at metadata parts.validation ≡ ok validation)
        × (items_at metadata parts.test ≡ ok test)
        × IsApart table train validation
        × IsApart table train test
        × IsApart table validation test
        × IsBefore train validation
        × IsBefore validation test
  unfolding validate_split
  validate_split-IsApart parts h =
      let (train, e, h1) =
        >>=-eq-ok (check_part show_set metadata table all "train" parts.train) _ h in
      let (validation, f, h2) =
        >>=-eq-ok (check_part show_set metadata table all "validation" parts.validation) _ h1 in
      let (test, g, h3) =
        >>=-eq-ok (check_part show_set metadata table all "test" parts.test) _ h2 in
      let (_, k1, h4) = >>=-eq-ok (check_pair train validation) _ h3 in
      let (_, k2, h5) = >>=-eq-ok (check_pair train test) _ h4 in
      let (_, k3, h6) = >>=-eq-ok (check_pair validation test) _ h5 in
      let (_, k4, k5) =
        >>=-eq-ok
          (check_order "train and validation are not strictly chronological" train.items
            validation.items)
          _ h6 in
      let a = check_part-eq_ok "train" parts.train train e in
      let b = check_part-eq_ok "validation" parts.validation validation f in
      let c = check_part-eq_ok "test" parts.test test g in
      (
        train.items,
        validation.items,
        test.items,
        a.0,
        b.0,
        c.0,
        check_pair-IsApart table train validation a.1 b.1 k1,
        check_pair-IsApart table train test a.1 c.1 k2,
        check_pair-IsApart table validation test b.1 c.1 k3,
        check_order-IsBefore _ train.items validation.items k4,
        check_order-IsBefore _ validation.items test.items k5,
      )
