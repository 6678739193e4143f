-- ===== src/Common/Errors.antt =====
-- Python's exceptions as values: the exception classes that the modelled code raises.
use Prim.Native.String.{String}
use mathlib.Core.Path.{◌≡◌, refl}
use mathlib.Core.Logic.{◌⊎◌, inl, inr}
use mathlib.Core.Bool.{Bool, true, false}

pub data Error : Type 0 where
  value_error runtime_error key_error index_error : String → Error

pub data Result {ℓ} (A : Type ℓ) : Type ℓ where
  ok : A → Result A
  raise : Error → Result A

-- The statements after a call run on its value; an exception skips them.
infixl 5 ◌>>=◌
abbrev pub ◌>>=◌ {ℓ κ} : {B : Type κ} {A : Type ℓ} → Result A → (A → Result B) → Result B
raise error >>= continue = raise error
ok value >>= continue = continue value

infixl 5 ◌>>◌
abbrev pub ◌>>◌ {κ} : {B : Type κ} → Result (Unit {0}) → Result B → Result B
check >> rest = check >>= λ _. rest

-- `if bad: raise e`
abbrev pub reject_if : Bool → Error → Result (Unit {0})
reject_if false error = ok tt
reject_if true error = raise error

pub Result-cases {ℓ} :
    {A : Type ℓ} (r : Result A) → ((a : A) × (r ≡ ok a)) ⊎ ((e : Error) × (r ≡ raise e))
Result-cases (ok a) = inl (a, refl)
Result-cases (raise e) = inr (e, refl)

-- A value outside its declared range: pydantic's `ValidationError`, which is a `ValueError`.
abbrev pub out_of_range : Error
out_of_range = value_error "field constraint"

-- What follows a successful guard, and what a passed guard leaves.
pub reject_if-eq_ok {ℓ} :
    {B : Type ℓ} (bad : Bool) (e : Error) (k : Result B) {b : B}
    → (reject_if bad e >> k) ≡ ok b
    → (bad ≡ false) × (k ≡ ok b)
reject_if-eq_ok true e k h = cc
reject_if-eq_ok false e k h = (refl, h)

pub reject_if-passes {ℓ} :
    {B : Type ℓ} (bad : Bool) (e : Error) (k : Result B) → bad ≡ false → (reject_if bad e >> k) ≡ k
reject_if-passes true e k h = cc
reject_if-passes false e k h = refl

pub ok-injective {ℓ} : {A : Type ℓ} {a b : A} → ok a ≡ ok b → a ≡ b
ok-injective h = cc

-- A returned result comes from a returned first step.
pub >>=-eq-ok {ℓ κ} :
    {B : Type κ} {A : Type ℓ} (step : Result A) (next : A → Result B) {final : B}
    → (step >>= next) ≡ ok final
    → (value : A) × (step ≡ ok value) × (next value ≡ ok final)
>>=-eq-ok (raise error) next returned = cc
>>=-eq-ok (ok value) next returned = (value, refl, returned)
