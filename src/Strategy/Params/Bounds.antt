-- ===== src/Strategy/Params/Bounds.antt =====
-- What the constraints of the parameters guarantee.
use stock_trader.Prelude.{
  ℕ, ◌≤◌, ◌≡◌, ◌⊎◌, inl, inr, subst, true, Option, none, some, [], ◌∷◌, String, arith, All,
  contains, Bool-cases,
}
use stock_trader.Prelude.Int.{ℤ, pos, negsuc}
use stock_trader.Errors.{Result, ok, >>=-eq-ok}
use stock_trader.Strategy.Floats.{Floats}
use stock_trader.Strategy.Bollinger.{BollingerParams}
use stock_trader.Strategy.Params.{
  Values, Parameters, lookup_value, converted, field_value, known_fields, no_extra, check_length,
  length_field, check_std_dev, std_dev_field, check_initial_capital, exit_at_field,
  initial_capital_field, bollinger_params,
}

-- Parameters that the constraints allow; a default is not checked.
pub record IsValid (floats : Floats) (p : BollingerParams floats) : Type 0 where
  pub length_low : 5 ≤ p.length
  pub length_high : p.length ≤ 200
  pub std_dev_in :
      (p.std_dev ≡ floats.from_nat 2)
      ⊎ ((floats.lt (floats.from_nat 0) p.std_dev ≡ true)
          × (floats.le p.std_dev (floats.from_nat 5) ≡ true))
  pub capital_in :
      (p.initial_capital ≡ floats.from_nat 10000)
      ⊎ (floats.lt (floats.from_nat 0) p.initial_capital ≡ true)

module _ (floats : Floats) (values : Values floats) where
  -- A field that is accepted is its default, or has passed its check.
  field_value-ok :
      {A B : Type 0} (name : String) (convert : values.Value → Option A) (check : A → Result B)
      (default : B) (v : Option values.Value) {b : B}
      → field_value floats values name convert check default v ≡ ok b
      → (b ≡ default) ⊎ ((a : A) × (check a ≡ ok b))
  field_value-ok name convert check default none h = inl (cc)
  field_value-ok name convert check default (some v) h =
      let (a, _, checked) = >>=-eq-ok (converted floats values name (convert v)) check h in
      inr (a, checked)

  check_length-ok : (n : ℤ) {k : ℕ} → check_length floats values n ≡ ok k → (5 ≤ k) × (k ≤ 200)
  check_length-ok (pos n) h = ground arith
  check_length-ok (negsuc n) h = ground arith

  length_field-ok :
      (p : Parameters floats values) {k : ℕ}
      → length_field floats values p ≡ ok k
      → (5 ≤ k) × (k ≤ 200)
  unfolding length_field
  length_field-ok p h =
      elim (field_value-ok "length" values.as_int (check_length floats values) 20
        (lookup_value floats values "length" p) h) [
          | inl e ↦ (omega (arith, e), omega (arith, e))
          | inr (n, e) ↦ check_length-ok n e
        ]

  check_std_dev-ok :
      (x : floats.Float) {y : floats.Float}
      → check_std_dev floats values x ≡ ok y
      → (floats.lt (floats.from_nat 0) y ≡ true) × (floats.le y (floats.from_nat 5) ≡ true)
  check_std_dev-ok x h = ground arith

  check_initial_capital-ok :
      (x : floats.Float) {y : floats.Float}
      → check_initial_capital floats values x ≡ ok y
      → floats.lt (floats.from_nat 0) y ≡ true
  check_initial_capital-ok x h = ground arith

  -- The chain of the four fields and the check of the keys.
  bollinger_params-fields :
      (p : Parameters floats values) {r : BollingerParams floats}
      → bollinger_params floats values p ≡ ok r
      → (length_field floats values p ≡ ok r.length)
        × (std_dev_field floats values p ≡ ok r.std_dev)
        × (initial_capital_field floats values p ≡ ok r.initial_capital)
        × (no_extra floats values p ≡ ok tt)
  unfolding bollinger_params
  bollinger_params-fields p {r = r} h =
      let (n, e1, h1) = >>=-eq-ok (length_field floats values p) _ h in
      let (x, e2, h2) = >>=-eq-ok (std_dev_field floats values p) _ h1 in
      let (b, e3, h3) = >>=-eq-ok (exit_at_field floats values p) _ h2 in
      let (c, e4, h4) = >>=-eq-ok (initial_capital_field floats values p) _ h3 in
      let (u, e5, h5) = >>=-eq-ok (no_extra floats values p) _ h4 in
      let built : BollingerParams floats = record {
        length = n;
        std_dev = x;
        exit_at = b;
        initial_capital = c;
      } in
      let same : built ≡ r = cc in
      subst
        (λ (z : BollingerParams floats).
          (length_field floats values p ≡ ok z.length)
          × (std_dev_field floats values p ≡ ok z.std_dev)
          × (initial_capital_field floats values p ≡ ok z.initial_capital)
          × (no_extra floats values p ≡ ok tt))
        same (e1, e2, e4, e5)

  no_extra-ok :
      (p : Parameters floats values)
      → no_extra floats values p ≡ ok tt
      → All (λ (e : String × values.Value). contains e.0 (known_fields floats values) ≡ true) p
  unfolding no_extra
  no_extra-ok [] h = tt
  no_extra-ok ((key, v) ∷ rest) h = elim (Bool-cases (contains key (known_fields floats values))) [
    | inl known ↦ (known, no_extra-ok rest (rw known at h))
    | inr extra ↦ absurd (let k = rw extra at h in cc)
  ]

-- Parameters that pydantic accepts have no key but the four of the model; the lookback is between 5
-- and 200, and a deviation or a capital that is not the default has passed its constraint.
pub bollinger_params-IsValid :
    (floats : Floats) (values : Values floats) (p : Parameters floats values)
    {r : BollingerParams floats}
    → bollinger_params floats values p ≡ ok r
    → IsValid floats r
      × All (λ (e : String × values.Value). contains e.0 (known_fields floats values) ≡ true) p
unfolding std_dev_field initial_capital_field
bollinger_params-IsValid floats values p {r = r} h =
    let (length, std_dev, capital, keys) = bollinger_params-fields floats values p h in
    let (low, high) = length_field-ok floats values p length in
    (
      record {
        length_low = low;
        length_high = high;
        std_dev_in =
            elim (field_value-ok floats values "std_dev" values.as_float
              (check_std_dev floats values) (floats.from_nat 2)
              (lookup_value floats values "std_dev" p) std_dev) [
                | inl e ↦ inl e
                | inr (x, e) ↦ inr (check_std_dev-ok floats values x e)
              ];
        capital_in =
            elim (field_value-ok floats values "initial_capital" values.as_float
              (check_initial_capital floats values) (floats.from_nat 10000)
              (lookup_value floats values "initial_capital" p) capital) [
                | inl e ↦ inl e
                | inr (x, e) ↦ inr (check_initial_capital-ok floats values x e)
              ];
      },
      no_extra-ok floats values p keys,
    )
