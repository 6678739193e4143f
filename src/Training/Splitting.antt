-- ===== src/Training/Splitting.antt =====
-- ml/training/splitting.py: the three parts between two boundaries, and `validate_split`. The text
-- of a set of scenarios is a parameter.
use aegis_ai_risk_manager.Common.{
  ℕ, zero, suc, max, min, Bool, true, false, not, ◌&&◌, String, ◌<>◌, List, [], ◌∷◌, map, Option,
  none, some, Result, ok, raise, ◌>>=◌, ◌>>◌, reject_if, value_error, key_error, index_error, ltb,
  leb, ◌==◌, ◌!=◌, string_eq, nat_eq, any_of, select, if◌then◌else◌,
}
use aegis_ai_risk_manager.Common.Dict.{lookup}
use aegis_ai_risk_manager.Common.ListEq.{list_eq}
use aegis_ai_risk_manager.Common.Sets.{contains, sorted_set_by}
use aegis_ai_risk_manager.Common.TextOrder.{str_lt}

-- `ml.training.dataset.EvaluationMetadata`
pub record EvaluationMetadata : Type 0 where
  pub transaction_id : String
  pub event_time : ℕ
  pub label : ℕ
  pub scenario : String
  pub ring_id : Option String
  pub persona : Option String
  pub abuse_entities : List String

abbrev pub Items : Type 0
Items = List EvaluationMetadata

-- `ABUSE_SCENARIOS`, as a sorted set.
abbrev pub abuse_scenarios : List String
abuse_scenarios = "ACCOUNT_FARM" ∷ "CARD_TESTING" ∷ "COLLUSIVE_RING" ∷ "IDENTITY_ROTATION" ∷ []

-- `[index for index, item in enumerate(metadata) if p(item)]`, from an index on.
unfoldable pub indices_where : (EvaluationMetadata → Bool) → ℕ → Items → List ℕ
indices_where p n [] = []
indices_where p n (item ∷ items) =
    let rest = indices_where p (suc n) items in if p item then n ∷ rest else rest

-- `metadata[index]`
unfoldable pub item_at : Items → ℕ → Result EvaluationMetadata
item_at [] n = raise (index_error "tuple index out of range")
item_at (item ∷ items) zero = ok item
item_at (item ∷ items) (suc n) = item_at items n

unfoldable pub items_at : Items → List ℕ → Result Items
unfolding item_at
items_at metadata [] = ok []
items_at metadata (n ∷ ns) = do
  item ← item_at metadata n
  items ← items_at metadata ns
  ok (item ∷ items)

pub record Parts : Type 0 where
  pub train : List ℕ
  pub validation : List ℕ
  pub test : List ℕ

-- The parts of `split_chronologically`, before the first boundary, between them, and after.
abbrev pub in_train : ℕ → EvaluationMetadata → Bool
in_train first_validation item = ltb item.event_time first_validation

abbrev pub in_validation : ℕ → ℕ → EvaluationMetadata → Bool
in_validation first_validation first_test item =
    leb first_validation item.event_time && ltb item.event_time first_test

abbrev pub in_test : ℕ → EvaluationMetadata → Bool
in_test first_test item = leb first_test item.event_time

unfoldable pub parts_between : ℕ → ℕ → Items → Parts
unfolding indices_where
parts_between first_validation first_test metadata = record {
  train = indices_where (in_train first_validation) 0 metadata;
  validation = indices_where (in_validation first_validation first_test) 0 metadata;
  test = indices_where (in_test first_test) 0 metadata;
}

-- The truthy ring identifiers.
unfoldable pub rings_of : Items → List String
rings_of [] = []
rings_of (item ∷ items) =
    let rest = rings_of items in
    elim item.ring_id [ none ↦ rest | some ring ↦ if ring == "" then rest else ring ∷ rest ]

abbrev pub or_key_error : String → Option String → Result String
or_key_error key none = raise (key_error key)
or_key_error key (some value) = ok value

-- `supergroup_by_ring[ring]` for each ring
unfoldable pub groups_of : List (String × String) → List String → Result (List String)
unfolding lookup
groups_of supergroup_by_ring [] = ok []
groups_of supergroup_by_ring (ring ∷ rings) = do
  group ← or_key_error ring (lookup ring supergroup_by_ring)
  groups ← groups_of supergroup_by_ring rings
  ok (group ∷ groups)

-- What the first loop of `validate_split` keeps of a part; the items, which the source reads again
-- for the last checks, are kept with it.
pub record PartSets : Type 0 where
  pub items : Items
  pub ids : List String
  pub rings : List String
  pub groups : List String

abbrev pub is_empty : Items → Bool
is_empty [] = true
is_empty (item ∷ items) = false

abbrev pub labels_of : Items → List ℕ
labels_of = map (λ (i : EvaluationMetadata). i.label)

abbrev pub ids_of : Items → List String
ids_of = map (λ (i : EvaluationMetadata). i.transaction_id)

unfoldable pub scenarios_of : Items → List String
unfolding sorted_set_by select
scenarios_of items = sorted_set_by str_lt (
    map (λ (i : EvaluationMetadata). i.scenario)
      (select (λ (i : EvaluationMetadata). i.label != 0) items))

unfoldable pub overlap : List String → List String → Bool
unfolding any_of contains
overlap left right = any_of (contains right) left

unfoldable pub check_pair : PartSets → PartSets → Result (Unit {0})
unfolding overlap
check_pair left right = do
  reject_if (overlap left.ids right.ids) (value_error "transaction IDs overlap across splits")
  reject_if (overlap left.rings right.rings) (value_error "abuse rings overlap across splits")
  reject_if (overlap left.groups right.groups)
      (value_error "abuse supergroups overlap across splits")

unfoldable pub latest : Items → Result ℕ
latest [] = raise (value_error "max() iterable argument is empty")
latest (item ∷ []) = ok item.event_time
latest (item ∷ next ∷ items) = do time ← latest (next ∷ items); ok (max item.event_time time)

unfoldable pub earliest : Items → Result ℕ
earliest [] = raise (value_error "min() iterable argument is empty")
earliest (item ∷ []) = ok item.event_time
earliest (item ∷ next ∷ items) = do time ← earliest (next ∷ items); ok (min item.event_time time)

unfoldable pub check_order : String → Items → Items → Result (Unit {0})
unfolding latest earliest
check_order message left right = do
  last ← latest left
  first ← earliest right
  reject_if (not (ltb last first)) (value_error message)

module _ (show_set : List String → String) (metadata : Items)
    (supergroup_by_ring : List (String × String)) (require_all_scenarios : Bool) where
  unfoldable pub check_part : String → List ℕ → Result PartSets
  unfolding items_at groups_of rings_of scenarios_of sorted_set_by contains select
  check_part name indices = do
    items ← items_at metadata indices
    reject_if (is_empty items) (value_error (name <> " split is empty"))
    reject_if (sorted_set_by ltb (labels_of items) != (0 ∷ 1 ∷ []))
        (value_error (name <> " must contain both classes"))
    reject_if (require_all_scenarios && (scenarios_of items != abuse_scenarios)) (
        value_error (
          name
          <> (" is missing abuse scenarios: "
              <> show_set (select (λ s. not (contains (scenarios_of items) s)) abuse_scenarios))))
    let rings = sorted_set_by str_lt (rings_of items)
    groups ← groups_of supergroup_by_ring rings
    ok (record {
      items = items;
      ids = sorted_set_by str_lt (ids_of items);
      rings = rings;
      groups = sorted_set_by str_lt groups;
    })

  unfoldable pub validate_split : Parts → Result (Unit {0})
  unfolding check_part check_pair check_order
  validate_split parts = do
    train ← check_part "train" parts.train
    validation ← check_part "validation" parts.validation
    test ← check_part "test" parts.test
    check_pair train validation
    check_pair train test
    check_pair validation test
    check_order "train and validation are not strictly chronological" train.items validation.items
    check_order "validation and test are not strictly chronological" validation.items test.items
