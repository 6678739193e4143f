-- ===== src/Features/Validation/Laws.antt =====
-- A computed feature vector passes the checks, unless one of its floats is not finite.
use Prim.Native.Char.{code}
use aegis_ai_risk_manager.Common.{
  ℕ, ◌≡◌, ◌⊎◌, inl, inr, refl, sym, ap, Bool, true, false, not, ◌&&◌, Bool-cases, String, ◌<>◌,
  List, [], ◌∷◌, map, Option, none, some, Option-cases, Result, ok, raise, ◌>>◌, reject_if,
  value_error, ◌!=◌, Error, string_eq, all_of, any_of, ltb, leb, subst, arith,
}
use aegis_ai_risk_manager.Common.Dict.{lookup}
use aegis_ai_risk_manager.Common.Value.{Value, Mapping}
use aegis_ai_risk_manager.Common.Float.{Float}
use aegis_ai_risk_manager.Features.Registry.{
  FeatureSpec, feature_version, feature_by_name, feature_names,
}
use aegis_ai_risk_manager.Features.Domain.{ScoringFeatureTransaction}
use aegis_ai_risk_manager.Features.Engine.{Records, FeatureVector, time_of, values_of, latest_time}
use aegis_ai_risk_manager.Features.Engine.Laws.{
  computed, compute-eq_ok, compute-feature_names, latest_time-past,
}
use aegis_ai_risk_manager.Features.Validation.{
  is_forbidden, has_type, is_finite_value, check_value, check_entry, check_entries,
  validate_feature_vector, is_late, schema_message,
}
use aegis_ai_risk_manager.Common.ListEq.{list_eq, list_beq_iff}

-- The only complaint is about a float that is not finite.
abbrev pub PassesIfFinite : Result (Unit {0}) → Type 0
PassesIfFinite r =
    (r ≡ ok tt) ⊎ ((name : String) × (r ≡ raise (value_error (name <> " must be finite"))))

abbrev fits_spec : {F : Type 0} → Value F → Option FeatureSpec → Bool
fits_spec value none = false
fits_spec value (some expected) = has_type expected.value_type value

-- A named value that the registry has, with its type, under a name that is not forbidden.
unfoldable pub fits : {F : Type 0} → String × Value F → Bool
unfolding is_forbidden lookup feature_by_name
fits entry = not (is_forbidden entry.0) && fits_spec entry.1 (lookup entry.0 feature_by_name)

module _ {F : Type 0} ⦃f : Float F⦄ (lower : String → String)
    (show_names : List String → String) where
  check_value-PassesIfFinite :
      (name : String) (expected : FeatureSpec) (value : Value F)
      → has_type expected.value_type value ≡ true
      → PassesIfFinite (check_value name expected value)
  unfolding check_value
  check_value-PassesIfFinite name expected value h = elim (Bool-cases (is_finite_value value)) [
    | inl finite ↦ rw (h, finite) (inl refl)
    | inr infinite ↦ rw (h, infinite) (inr (name, refl))
  ]

  check_entry-PassesIfFinite :
      (entry : String × Value F)
      → lower entry.0 ≡ entry.0
      → fits entry ≡ true
      → PassesIfFinite (check_entry lower show_names entry)
  unfolding check_entry fits
  check_entry-PassesIfFinite (name, value) small h =
      elim (Option-cases (lookup name feature_by_name)) [
        | inl missing ↦ absurd (ground (arith, missing, h))
        | inr (expected, known) ↦
            let allowed : is_forbidden name ≡ false = ground (arith, h) in
            let typed : has_type expected.value_type value ≡ true = ground (arith, h, known) in
            rw (small, known, allowed) (check_value-PassesIfFinite name expected value typed)
      ]

-- An ASCII text with no upper-case letter.
unfoldable pub is_small : String → Bool
is_small String.[] = true
is_small (String.◌∷◌ c s) =
    let rest = is_small s in ltb (code c) 128 && (not (leb 65 (code c) && leb (code c) 90) && rest)

-- `str.lower` leaves such a text as it is.
abbrev pub KeepsSmall : (String → String) → Type 0
KeepsSmall lower = (s : String) → is_small s ≡ true → lower s ≡ s

-- Every entry may be checked: its name is in lower case, and it fits its specification.
abbrev is_checkable : {F : Type 0} → String × Value F → Bool
is_checkable entry = is_small entry.0 && fits entry

values_of-is_checkable :
    (F : Type 0) ⦃f : Float F⦄ (log1p : ℕ → F) (fmean : List ℕ → F) (pstdev : List ℕ → F)
    (hour weekday : ℕ → ℕ) (utc_now : ℕ) (current : ScoringFeatureTransaction) (history : Records)
    → all_of is_checkable (values_of log1p fmean pstdev hour weekday utc_now current history) ≡ true
unfolding all_of is_small fits values_of
values_of-is_checkable F log1p fmean pstdev hour weekday utc_now current history = refl

guarded :
    (a b c : Bool) (d e g : Error) (checks : Result (Unit {0}))
    → a ≡ false
    → b ≡ false
    → c ≡ false
    → PassesIfFinite checks
    → PassesIfFinite (reject_if a d >> (reject_if b e >> (checks >> reject_if c g)))
guarded a b c d e g checks p q r (inl passed) = rw (p, q, r, passed) (inl refl)
guarded a b c d e g checks p q r (inr (name, failed)) = rw (p, q, r, failed) (inr (name, refl))

latest_time-not_late :
    (now : ℕ) (history : Records)
    → any_of (λ r. leb now (time_of r)) history ≡ false
    → is_late (latest_time history) now ≡ false
latest_time-not_late now history past = elim (Option-cases (latest_time history)) [
  | inl nothing ↦ rw nothing refl
  | inr (time, last) ↦
      let early = latest_time-past now history time past last in rw last (ground (arith, early))
]

module _ {F : Type 0} ⦃f : Float F⦄ (lower : String → String) (small : KeepsSmall lower)
    (show_names : List String → String) where
  check_entries-PassesIfFinite :
      (entries : Mapping F)
      → all_of is_checkable entries ≡ true
      → PassesIfFinite (check_entries lower show_names entries)
  unfolding check_entries all_of
  check_entries-PassesIfFinite [] h = inl refl
  check_entries-PassesIfFinite (entry ∷ entries) h =
      elim (check_entry-PassesIfFinite lower show_names entry (small entry.0 (ground (arith, h)))
        (ground (arith, h))) [
          | inl passed ↦ rw passed (check_entries-PassesIfFinite entries (ground (arith, h)))
          | inr (name, failed) ↦ rw failed (inr (name, refl))
        ]

  validate-PassesIfFinite :
      (v : FeatureVector F) (time : ℕ)
      → v.feature_version ≡ feature_version
      → map (λ (entry : String × Value F). entry.0) v.values ≡ feature_names
      → PassesIfFinite (check_entries lower show_names v.values)
      → is_late v.max_source_event_time time ≡ false
      → PassesIfFinite (validate_feature_vector lower show_names v time)
  unfolding validate_feature_vector
  validate-PassesIfFinite v time version names entries in_time =
      let actual = map (λ (entry : String × Value F). entry.0) v.values in
      guarded (v.feature_version != feature_version) (actual != feature_names)
        (is_late v.max_source_event_time time)
        (value_error ("unsupported feature version: " <> v.feature_version))
        (value_error (schema_message show_names actual))
        (value_error "max_source_event_time must be strictly earlier than current event")
        (check_entries lower show_names v.values)
        (ap not ((string_eq.beq_iff v.feature_version feature_version).1 version))
        (ap not ((list_beq_iff actual feature_names).1 names)) in_time entries

  -- A computed feature vector, checked at the time of its payment, passes every check unless one of
  -- its floats is not finite.
  pub compute-PassesIfFinite :
      (log1p : ℕ → F) (fmean : List ℕ → F) (pstdev : List ℕ → F) (hour weekday : ℕ → ℕ)
      (utc_now : ℕ) (history_for : ScoringFeatureTransaction → Records)
      (current : ScoringFeatureTransaction) (v : FeatureVector F)
      → computed F log1p fmean pstdev hour weekday utc_now history_for current ≡ ok v
      → PassesIfFinite (validate_feature_vector lower show_names v current.event_time)
  compute-PassesIfFinite log1p fmean pstdev hour weekday utc_now history_for current v h =
      let history = history_for current in
      let values = values_of log1p fmean pstdev hour weekday utc_now current history in
      let (past, made) =
        compute-eq_ok F log1p fmean pstdev hour weekday utc_now history_for current h in
      validate-PassesIfFinite v current.event_time
        (ap (λ (w : FeatureVector F). w.feature_version) (sym made))
        (compute-feature_names F log1p fmean pstdev hour weekday utc_now history_for current h)
        (subst (λ (w : FeatureVector F). PassesIfFinite (check_entries lower show_names w.values))
          made
          (check_entries-PassesIfFinite values
            (values_of-is_checkable F log1p fmean pstdev hour weekday utc_now current history)))
        (subst (λ (w : FeatureVector F). is_late w.max_source_event_time current.event_time ≡ false)
          made (latest_time-not_late current.event_time history past))
