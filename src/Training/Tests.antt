-- ===== src/Training/Tests.antt =====
-- ml/training/splitting.py on six items, two in each part.
use aegis_ai_risk_manager.Common.{
  ℕ, String, List, [], ◌∷◌, ◌≡◌, refl, some, none, ok, raise, value_error, false, true, arith, ◌⊎◌,
}
use aegis_ai_risk_manager.Common.Members.{◌∈◌}
use aegis_ai_risk_manager.Training.Members.{IsBefore}
use aegis_ai_risk_manager.Training.Parts.{parts_between-IsSplit}
use aegis_ai_risk_manager.Training.Sound.{IsApart, validate_split-IsApart}
use aegis_ai_risk_manager.Training.Splitting.{
  EvaluationMetadata, Items, items_at, parts_between, validate_split,
}

abbrev normal_item : String → ℕ → EvaluationMetadata
normal_item name time = record {
  transaction_id = name;
  event_time = time;
  label = 0;
  scenario = "NORMAL_TRAFFIC";
  ring_id = none;
  persona = none;
  abuse_entities = [];
}

abbrev abuse_item : String → ℕ → String → EvaluationMetadata
abuse_item name time ring = record {
  transaction_id = name;
  event_time = time;
  label = 1;
  scenario = "CARD_TESTING";
  ring_id = some ring;
  persona = none;
  abuse_entities = [];
}

abbrev six_items : Items
six_items =
    normal_item "t1" 10
    ∷ abuse_item "t2" 11 "r1"
    ∷ normal_item "t3" 20
    ∷ abuse_item "t4" 21 "r2"
    ∷ normal_item "t5" 30
    ∷ abuse_item "t6" 31 "r3"
    ∷ []

abbrev three_groups : List (String × String)
three_groups = ("r1", "g1") ∷ ("r2", "g2") ∷ ("r3", "g3") ∷ []

abbrev two_groups : List (String × String)
two_groups = ("r1", "g1") ∷ ("r2", "g1") ∷ ("r3", "g3") ∷ []

abbrev no_names : List String → String
no_names names = ""

six_items-accepted :
    validate_split no_names six_items three_groups false (parts_between 15 25 six_items) ≡ ok tt
unfolding validate_split parts_between
six_items-accepted = refl

shared_group-rejected :
    validate_split no_names six_items two_groups false (parts_between 15 25 six_items)
    ≡ raise (value_error "abuse supergroups overlap across splits")
unfolding validate_split parts_between
shared_group-rejected = refl

missing_scenarios-rejected :
    validate_split no_names six_items three_groups true (parts_between 15 25 six_items)
    ≡ raise (value_error "train is missing abuse scenarios: ")
unfolding validate_split parts_between
missing_scenarios-rejected = refl

empty_validation-rejected :
    validate_split no_names six_items three_groups false (parts_between 15 15 six_items)
    ≡ raise (value_error "validation split is empty")
unfolding validate_split parts_between
empty_validation-rejected = refl

validate_split-IsApart_example :
    (train validation test : Items) × (items_at six_items (parts_between 15 25 six_items).train
      ≡ ok train)
    × (items_at six_items (parts_between 15 25 six_items).validation ≡ ok validation)
    × (items_at six_items (parts_between 15 25 six_items).test ≡ ok test)
    × IsApart three_groups train validation
    × IsApart three_groups train test
    × IsApart three_groups validation test
    × IsBefore train validation
    × IsBefore validation test
validate_split-IsApart_example =
    validate_split-IsApart no_names six_items three_groups false (parts_between 15 25 six_items)
      six_items-accepted

parts_between-IsSplit_example :
    (train validation test : Items) × (items_at six_items (parts_between 15 25 six_items).train
      ≡ ok train)
    × (items_at six_items (parts_between 15 25 six_items).validation ≡ ok validation)
    × (items_at six_items (parts_between 15 25 six_items).test ≡ ok test)
    × IsBefore train validation
    × IsBefore train test
    × IsBefore validation test
    × ((x : EvaluationMetadata) → x ∈ six_items → (x ∈ train) ⊎ ((x ∈ validation) ⊎ (x ∈ test)))
parts_between-IsSplit_example = parts_between-IsSplit 15 25 six_items (omega (arith))
