-- ===== src/Strategy/Params.antt =====
-- `BollingerParams` of core/strategies/bollinger_reversion.py, as pydantic builds it from the
-- parameters of a job. pydantic's conversion of one value to a type is a parameter.
pub mod Bounds
use stock_trader.Prelude.{
  ℕ, ◌&&◌, Bool, true, false, Option, none, some, List, [], ◌∷◌, String, contains, str_eq, map,
  if◌then◌else◌,
}
use stock_trader.Prelude.Int.{ℤ, pos, leb_ℤ, pos_part}
use stock_trader.Errors.{Result, ok, err, raise, validation_error, text, ◌>>=◌}
use stock_trader.Strategy.Floats.{Floats}
use stock_trader.Strategy.Bollinger.{ExitBand, middle, upper, BollingerParams}

-- A value of the JSON object `parameters`, and what pydantic makes of it: nothing where it refuses.
pub record Values (floats : Floats) : Type 1 where
  pub Value : Type 0
  pub as_int : Value → Option ℤ
  pub as_float : Value → Option floats.Float
  pub as_text : Value → Option String

module _ (floats : Floats) (values : Values floats) where
  open floats use {Float, lt, le, from_nat}
  open values use {Value, as_int, as_float, as_text}

  abbrev pub Parameters : Type 0
  Parameters = List (String × Value)

  abbrev pub lookup_value : String → Parameters → Option Value
  lookup_value name [] = none
  lookup_value name ((key, v) ∷ rest) =
      let later = lookup_value name rest in if str_eq key name then some v else later

  abbrev pub refused {ℓ} : {A : Type ℓ} → String → Result A
  refused name = raise validation_error (text name ∷ text ": invalid" ∷ [])

  abbrev pub converted {ℓ} : {A : Type ℓ} → String → Option A → Result A
  converted name none = refused name
  converted name (some a) = ok a

  -- A field: its default, which pydantic does not check, where the key is missing.
  abbrev pub field_value {ℓ κ} :
      {A : Type ℓ} {B : Type κ}
      → String
      → (Value → Option A)
      → (A → Result B)
      → B
      → Option Value
      → Result B
  field_value name convert check default none = ok default
  field_value name convert check default (some v) = converted name (convert v) >>= check

  abbrev pub known_fields : List String
  known_fields = "length" ∷ "std_dev" ∷ "exit_at" ∷ "initial_capital" ∷ []

  -- `extra="forbid"`
  unfoldable pub no_extra : Parameters → Result (Unit {0})
  no_extra [] = ok tt
  no_extra ((key, v) ∷ rest) =
      let later = no_extra rest in if contains key known_fields then later else refused key

  -- `Field(default=20, ge=5, le=200)`
  abbrev pub check_length : ℤ → Result ℕ
  check_length n =
      if leb_ℤ (pos 5) n && leb_ℤ n (pos 200) then ok (pos_part n) else refused "length"

  unfoldable pub length_field : Parameters → Result ℕ
  length_field p = field_value "length" as_int check_length 20 (lookup_value "length" p)

  -- `Field(default=2.0, gt=0, le=5.0)`
  abbrev pub check_std_dev : Float → Result Float
  check_std_dev x = if lt (from_nat 0) x && le x (from_nat 5) then ok x else refused "std_dev"

  unfoldable pub std_dev_field : Parameters → Result Float
  std_dev_field p =
      field_value "std_dev" as_float check_std_dev (from_nat 2) (lookup_value "std_dev" p)

  -- `Literal["middle", "upper"]`
  abbrev pub check_exit_at : String → Result ExitBand
  check_exit_at name =
      if str_eq name "middle"
      then ok middle
      else if str_eq name "upper"
      then ok upper
      else refused "exit_at"

  unfoldable pub exit_at_field : Parameters → Result ExitBand
  exit_at_field p = field_value "exit_at" as_text check_exit_at middle (lookup_value "exit_at" p)

  -- `Field(default=10000.0, gt=0)`
  abbrev pub check_initial_capital : Float → Result Float
  check_initial_capital x = if lt (from_nat 0) x then ok x else refused "initial_capital"

  unfoldable pub initial_capital_field : Parameters → Result Float
  initial_capital_field p =
      field_value "initial_capital" as_float check_initial_capital (from_nat 10000)
        (lookup_value "initial_capital" p)

  -- `BollingerParams(**kwargs)`. An error lists all that is wrong; here it is the first.
  unfoldable pub bollinger_params : Parameters → Result (BollingerParams floats)
  bollinger_params p = do
    length ← length_field p
    std_dev ← std_dev_field p
    exit_at ← exit_at_field p
    initial_capital ← initial_capital_field p
    _ ← no_extra p
    ok (record {
      length = length;
      std_dev = std_dev;
      exit_at = exit_at;
      initial_capital = initial_capital;
    })
