-- ===== src/Errors.antt =====
-- Exceptions as values: models/exceptions.py, the exception classes declared beside their users
-- (`ProviderError`, `NoDataError`), and the builtin and library classes that the code raises,
-- catches or registers handlers for.
use stock_trader.Prelude.{
  ℕ, String, ◌≡◌, refl, ◌⊎◌, inl, inr, Bool, true, false, ◌||◌, List, [], ◌∷◌, all, str_eq, ◌==◌,
}

-- An f-string before formatting: its literal parts and the values between them.
pub data Piece : Type 0 where
  text : String → Piece
  number : ℕ → Piece
  day : ℕ → Piece

abbrev pub Message : Type 0
Message = List Piece

-- Numbers and dates never format to the empty string.
abbrev pub is_empty_piece : Piece → Bool
is_empty_piece (text s) = str_eq s ""
is_empty_piece (number _) = false
is_empty_piece (day _) = false

-- The formatted message is the empty string, which is falsy.
abbrev pub is_empty_message : Message → Bool
is_empty_message = all is_empty_piece

pub data Class : Type 0 where
  exception value_error no_data_error validation_error key_error index_error zero_division_error :
      Class
  runtime_error not_implemented_error : Class
  job_not_found_error job_already_running_error range_validation_error : Class
  provider_error redis_error celery_timeout_error database_error : Class

-- `cls.__mro__` as far down as `Exception`, the intermediate classes without a role left out.
abbrev pub mro : Class → List Class
mro exception = exception ∷ []
mro value_error = value_error ∷ exception ∷ []
mro no_data_error = no_data_error ∷ value_error ∷ exception ∷ []
mro validation_error = validation_error ∷ value_error ∷ exception ∷ []
mro key_error = key_error ∷ exception ∷ []
mro index_error = index_error ∷ exception ∷ []
mro zero_division_error = zero_division_error ∷ exception ∷ []
mro runtime_error = runtime_error ∷ exception ∷ []
mro not_implemented_error = not_implemented_error ∷ runtime_error ∷ exception ∷ []
mro job_not_found_error = job_not_found_error ∷ exception ∷ []
mro job_already_running_error = job_already_running_error ∷ exception ∷ []
mro range_validation_error = range_validation_error ∷ exception ∷ []
mro provider_error = provider_error ∷ exception ∷ []
mro redis_error = redis_error ∷ exception ∷ []
mro celery_timeout_error = celery_timeout_error ∷ exception ∷ []
mro database_error = database_error ∷ exception ∷ []

-- A number for each class, and equality of classes as a test that computes.
abbrev pub class_number : Class → ℕ
class_number exception = 0
class_number value_error = 1
class_number no_data_error = 2
class_number validation_error = 3
class_number key_error = 4
class_number index_error = 5
class_number runtime_error = 6
class_number not_implemented_error = 7
class_number job_not_found_error = 8
class_number job_already_running_error = 9
class_number range_validation_error = 10
class_number provider_error = 11
class_number redis_error = 12
class_number celery_timeout_error = 13
class_number database_error = 14
class_number zero_division_error = 15

abbrev pub class_eq : Class → Class → Bool
class_eq a b = class_number a == class_number b

abbrev contains_class : Class → List Class → Bool
contains_class c [] = false
contains_class c (d ∷ ds) = class_eq c d || contains_class c ds

pub record Exception : Type 0 where
  pub class_of : Class
  pub message : Message

-- `isinstance(exc, cls)`
abbrev pub is_instance : Exception → Class → Bool
is_instance exc cls = contains_class cls (mro exc.class_of)

pub data Result {ℓ} (A : Type ℓ) : Type ℓ where
  ok : A → Result A
  err : Exception → Result A

abbrev pub raise {ℓ} : {A : Type ℓ} → Class → Message → Result A
raise cls msg = err (record { class_of = cls; message = msg })

-- An exception ends the chain.
infixl 5 ◌>>=◌
abbrev pub ◌>>=◌ {ℓ κ} : {A : Type ℓ} {B : Type κ} → Result A → (A → Result B) → Result B
err exc >>= next = err exc
ok value >>= next = next value

abbrev pub is_ok {ℓ} : {A : Type ℓ} → Result A → Bool
is_ok (ok _) = true
is_ok (err _) = false

-- A chain that did not raise: neither did its first part, whose value the rest took.
pub >>=-eq-ok {ℓ κ} :
    {A : Type ℓ} {B : Type κ} (first : Result A) (next : A → Result B) {b : B}
    → (first >>= next) ≡ ok b
    → (value : A) × (first ≡ ok value) × (next value ≡ ok b)
>>=-eq-ok (err exc) next h = absurd (cc)
>>=-eq-ok (ok value) next h = (value, refl, h)

pub Result-cases {ℓ} :
    {A : Type ℓ} (m : Result A) → ((a : A) × (m ≡ ok a)) ⊎ ((e : Exception) × (m ≡ err e))
Result-cases (ok a) = inl (a, refl)
Result-cases (err e) = inr (e, refl)
