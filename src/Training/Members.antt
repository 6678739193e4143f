-- ===== src/Training/Members.antt =====
-- ml/training/splitting.py: what the sets and the times that `validate_split` computes say of the items.
use aegis_ai_risk_manager.Common.{
  ℕ, Bool, true, false, Bool-cases, not, String, List, [], ◌∷◌, ◌≡◌, refl, sym, subst, inl, inr,
  Option, none, some, ok, string_eq, ◌≤◌, Option-cases, reject_if, value_error, Error, ◌<◌,
  ok-injective, >>=-eq-ok, ltb, ◌==◌, arith, any_of,
}
use aegis_ai_risk_manager.Common.TextOrder.{string_ord}
use aegis_ai_risk_manager.Common.Dict.{lookup}
use aegis_ai_risk_manager.Common.Members.{◌∈◌}
use aegis_ai_risk_manager.Common.Members.Select.{∈-any_of}
use aegis_ai_risk_manager.Common.Sets.{contains}
use aegis_ai_risk_manager.Training.Splitting.{
  EvaluationMetadata, Items, rings_of, groups_of, or_key_error, ids_of, overlap, latest, earliest,
  check_order,
}

pub ∈-ids_of : (x : EvaluationMetadata) (xs : Items) → x ∈ xs → x.transaction_id ∈ ids_of xs
∈-ids_of x [] m = absurd m
∈-ids_of x (y ∷ xs) (inl e) = inl (cc)
∈-ids_of x (y ∷ xs) (inr m) = inr (∈-ids_of x xs m)

abbrev pub IsNamed : EvaluationMetadata → String → Type 0
IsNamed x ring = (x.ring_id ≡ some ring) × ((ring == "") ≡ false)

rings_of-behind :
    (y : EvaluationMetadata) (xs : Items) (ring : String)
    → ring ∈ rings_of xs
    → ring ∈ rings_of (y ∷ xs)
unfolding rings_of
rings_of-behind y xs ring m = elim (Option-cases y.ring_id) [
  | inl e ↦ rw e m
  | inr (r, e) ↦ elim (Bool-cases (r == "")) [ inl f ↦ rw (e, f) m | inr f ↦ rw (e, f) (inr m) ]
]

pub ∈-rings_of :
    (x : EvaluationMetadata) (xs : Items) (ring : String)
    → x ∈ xs
    → IsNamed x ring
    → ring ∈ rings_of xs
unfolding rings_of
∈-rings_of x [] ring m h = absurd m
∈-rings_of x (y ∷ xs) ring (inl e) h =
    let here : y.ring_id ≡ some ring =
      subst (λ (t : EvaluationMetadata). t.ring_id ≡ some ring) (sym e) h.0 in
    rw (here, h.1) (inl refl)
∈-rings_of x (y ∷ xs) ring (inr m) h = rings_of-behind y xs ring (∈-rings_of x xs ring m h)

or_key_error-eq_ok :
    (key : String) (found : Option String) {value : String}
    → or_key_error key found ≡ ok value
    → found ≡ some value
or_key_error-eq_ok key none h = cc
or_key_error-eq_ok key (some v) h = cc

pub ∈-groups_of :
    (table : List (String × String)) (rings : List String) {groups : List String} {group : String}
    (ring : String)
    → groups_of table rings ≡ ok groups
    → ring ∈ rings
    → lookup ring table ≡ some group
    → group ∈ groups
unfolding groups_of
∈-groups_of table [] ring h m found = absurd m
∈-groups_of table (r ∷ rings) {groups} {group} ring h m found =
    let (first, e, h1) = >>=-eq-ok (or_key_error r (lookup r table)) _ h in
    let (others, f, h2) = >>=-eq-ok (groups_of table rings) _ h1 in
    subst (λ gs. group ∈ gs) (ok-injective h2)
      (elim m [
        | inl same ↦
            let there : lookup r table ≡ some group = rw same found in
            let here = or_key_error-eq_ok r (lookup r table) e in inl (cc)
        | inr n ↦ inr (∈-groups_of table rings ring f n found)
      ])

pub latest-bounds :
    (xs : Items) {t : ℕ} → latest xs ≡ ok t → (x : EvaluationMetadata) → x ∈ xs → x.event_time ≤ t
unfolding latest
latest-bounds [] h x m = absurd m
latest-bounds (y ∷ []) {t} h x (inl e) =
    subst (λ (z : EvaluationMetadata). z.event_time ≤ t) e (omega (arith, ok-injective h))
latest-bounds (y ∷ []) h x (inr m) = absurd m
latest-bounds (y ∷ z ∷ xs) {t} h x m =
    let (s, e, h1) = >>=-eq-ok (latest (z ∷ xs)) _ h in
    let rest = latest-bounds (z ∷ xs) e x in
    elim m [
      | inl same ↦
          subst (λ (z : EvaluationMetadata). z.event_time ≤ t) same (omega (arith, ok-injective h1))
      | inr n ↦ omega (arith, ok-injective h1, rest n)
    ]

pub earliest-bounds :
    (xs : Items) {t : ℕ} → earliest xs ≡ ok t → (x : EvaluationMetadata) → x ∈ xs → t ≤ x.event_time
unfolding earliest
earliest-bounds [] h x m = absurd m
earliest-bounds (y ∷ []) {t} h x (inl e) =
    subst (λ (z : EvaluationMetadata). t ≤ z.event_time) e (omega (arith, ok-injective h))
earliest-bounds (y ∷ []) h x (inr m) = absurd m
earliest-bounds (y ∷ z ∷ xs) {t} h x m =
    let (s, e, h1) = >>=-eq-ok (earliest (z ∷ xs)) _ h in
    let rest = earliest-bounds (z ∷ xs) e x in
    elim m [
      | inl same ↦
          subst (λ (z : EvaluationMetadata). t ≤ z.event_time) same (omega (arith, ok-injective h1))
      | inr n ↦ omega (arith, ok-injective h1, rest n)
    ]

pub ∈_of_contains : (v : String) (xs : List String) → contains xs v ≡ true → v ∈ xs
unfolding contains
∈_of_contains v [] h = absurd (ground (arith, h))
∈_of_contains v (x ∷ xs) h = elim (Bool-cases (x == v)) [
  | inl e ↦ inl ((string_eq.beq_iff x v).0 e)
  | inr e ↦ inr (∈_of_contains v xs (rw e at h))
]

pub reject_if-false : (bad : Bool) (e : Error) → reject_if bad e ≡ ok tt → bad ≡ false
reject_if-false true e h = cc
reject_if-false false e h = refl

-- A value in both sets makes them overlap.
contains-overlap :
    (left right : List String) (v : String)
    → contains left v ≡ true
    → contains right v ≡ true
    → overlap left right ≡ true
unfolding overlap any_of contains
contains-overlap left right v h k = ∈-any_of (contains right) v left (∈_of_contains v left h) k

pub apart :
    (left right : List String) (v : String)
    → overlap left right ≡ false
    → contains left v ≡ true
    → contains right v ≡ true
    → ⊥
apart left right v h k l = absurd (ground (arith, h, contains-overlap left right v k l))

abbrev pub IsBefore : Items → Items → Type 0
IsBefore left right =
    (x y : EvaluationMetadata) → x ∈ left → y ∈ right → x.event_time < y.event_time

pub check_order-IsBefore :
    (message : String) (left right : Items)
    → check_order message left right ≡ ok tt
    → IsBefore left right
unfolding check_order
check_order-IsBefore message left right h x y m n =
    let (last, e, h1) = >>=-eq-ok (latest left) _ h in
    let (first, f, h2) = >>=-eq-ok (earliest right) _ h1 in
    let in_order = reject_if-false (not (ltb last first)) (value_error message) h2 in
    ground (arith, latest-bounds left e x m, earliest-bounds right f y n, in_order)
