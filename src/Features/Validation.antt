-- ===== src/Features/Validation.antt =====
-- packages/risk_engine/features/validation.py: the checks on a feature vector. `str.lower` and the
-- text of a list of names are parameters.
pub mod Laws
use aegis_ai_risk_manager.Common.{
  ℕ, ◌≡◌, Bool, true, false, not, String, ◌<>◌, List, [], ◌∷◌, map, Option, none, some, Result, ok,
  raise, ◌>>◌, ◌>>=◌, reject_if, value_error, key_error, ◌==◌, ◌!=◌, string_eq, any_of, select, leb,
}
use package.text.Mathlib.Text.{find?}
use aegis_ai_risk_manager.Common.Dict.{lookup}
use aegis_ai_risk_manager.Common.ListEq.{list_eq}
use aegis_ai_risk_manager.Common.Sets.{contains, sorted_set_by}
use aegis_ai_risk_manager.Common.TextOrder.{str_lt}
use aegis_ai_risk_manager.Common.Value.{Value, text, int, number, flag, Mapping}
use aegis_ai_risk_manager.Common.Float.{Float}
use aegis_ai_risk_manager.Features.Registry.{
  ValueType, int_type, float_type, bool_type, FeatureSpec, feature_version, feature_names,
  feature_by_name,
}
use aegis_ai_risk_manager.Features.Engine.{FeatureVector}

abbrev pub forbidden_fragments : List String
forbidden_fragments =
    "ground_truth" ∷ "scenario" ∷ "ring_id" ∷ "persona" ∷ "scenario_run" ∷ "dataset_version"
    ∷ "current_status" ∷ "current_failure" ∷ []

abbrev pub is_found : Option ℕ → Bool
is_found none = false
is_found (some position) = true

-- `fragment in name` for some forbidden fragment
unfoldable pub is_forbidden : String → Bool
unfolding any_of
is_forbidden name = any_of (λ fragment. is_found (find? name fragment)) forbidden_fragments

-- The three tests of the type of a value.
abbrev pub has_type : {F : Type 0} → ValueType → Value F → Bool
has_type int_type (int n) = true
has_type int_type (text s) = false
has_type int_type (number x) = false
has_type int_type (flag b) = false
has_type float_type (int n) = true
has_type float_type (text s) = false
has_type float_type (number x) = true
has_type float_type (flag b) = false
has_type bool_type (int n) = false
has_type bool_type (text s) = false
has_type bool_type (number x) = false
has_type bool_type (flag b) = true

abbrev pub type_message : ValueType → String
type_message int_type = " must be int"
type_message float_type = " must be numeric"
type_message bool_type = " must be bool"

-- `max_source_event_time is not None and max_source_event_time >= current`
abbrev pub is_late : Option ℕ → ℕ → Bool
is_late none current = false
is_late (some time) current = leb current time

-- `FEATURE_BY_NAME[name]`
abbrev pub spec_or_key_error : String → Option FeatureSpec → Result FeatureSpec
spec_or_key_error name none = raise (key_error name)
spec_or_key_error name (some expected) = ok expected

abbrev pub schema_message : (List String → String) → List String → String
schema_message show_names actual =
    "feature schema mismatch; missing="
    <> (show_names (sorted_set_by str_lt (select (λ n. not (contains actual n)) feature_names))
        <> (", unexpected="
            <> show_names
                (sorted_set_by str_lt (select (λ n. not (contains feature_names n)) actual))))

module _ {F : Type 0} ⦃f : Float F⦄ where
  -- `math.isfinite`, which holds of every int.
  abbrev pub is_finite_value : Value F → Bool
  is_finite_value (text s) = true
  is_finite_value (int n) = true
  is_finite_value (number x) = f.is_finite x
  is_finite_value (flag b) = true

  unfoldable pub check_value : String → FeatureSpec → Value F → Result (Unit {0})
  check_value name expected value = do
    reject_if (not (has_type expected.value_type value))
        (value_error (name <> type_message expected.value_type))
    reject_if (not (is_finite_value value)) (value_error (name <> " must be finite"))

  module _ (lower : String → String) (show_names : List String → String) where
    unfoldable pub check_entry : String × Value F → Result (Unit {0})
    unfolding is_forbidden lookup feature_by_name check_value
    check_entry (name, value) = do
      reject_if (is_forbidden (lower name)) (value_error ("forbidden feature name: " <> name))
      expected ← spec_or_key_error name (lookup name feature_by_name)
      check_value name expected value

    unfoldable pub check_entries : Mapping F → Result (Unit {0})
    unfolding check_entry
    check_entries [] = ok tt
    check_entries (entry ∷ entries) = check_entry entry >> check_entries entries

    unfoldable pub validate_feature_vector : FeatureVector F → ℕ → Result (Unit {0})
    unfolding check_entries feature_names select contains sorted_set_by
    validate_feature_vector vector current = do
      reject_if (vector.feature_version != feature_version)
          (value_error ("unsupported feature version: " <> vector.feature_version))
      let actual = map (λ (entry : String × Value F). entry.0) vector.values
      reject_if (actual != feature_names) (value_error (schema_message show_names actual))
      check_entries vector.values
      reject_if (is_late vector.max_source_event_time current)
          (value_error "max_source_event_time must be strictly earlier than current event")
