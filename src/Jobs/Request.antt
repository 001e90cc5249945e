-- ===== src/Jobs/Request.antt =====
-- models/backtest_create_request.py: which requests are accepted. pydantic's check of the parameters
-- against a params model is an argument, and so is the length of a text in characters. An error
-- lists all that is wrong; here it is one of them.
use stock_trader.Prelude.{
  ℕ, ◌≤◌, ◌≡◌, ◌≢◌, sym, subst, ◌∙◌, Bool, true, false, inl, inr, List, [], ◌∷◌, String, contains,
  ltb, Bool-cases, arith, if◌then◌else◌,
}
use stock_trader.Errors.{Result, ok, err, raise, is_ok, Result-cases, ◌>>=◌, validation_error, text}
use stock_trader.Jobs.Table.{JobTypes, JobTables}
use stock_trader.Jobs.Repository.{BacktestCreateRequest, from_request, create_backtest_job}
use stock_trader.Strategy.Registry.{
  ParamsModel, get_strategy, get_params_model, get_strategies, params_model_of, registry_consistent,
}

module _ (types : JobTypes) (characters : String → ℕ)
    (accepts : ParamsModel → types.Parameters → Bool) where
  abbrev pub has_symbols : List String → Bool
  has_symbols [] = false
  has_symbols (s ∷ ss) = true

  -- The validators in the order in which they are declared, after the constraints of the fields.
  -- `v not in STRATEGY_REGISTRY` goes by the names of the registry.
  unfoldable pub validate_date_range :
      BacktestCreateRequest types → Result (BacktestCreateRequest types)
  validate_date_range r =
      if ltb r.end_date r.start_date
      then raise validation_error (text "end_date cannot be before start_date" ∷ [])
      else ok r

  unfoldable pub validate_strategy : String → Result String
  validate_strategy v =
      if contains v get_strategies
      then ok v
      else raise validation_error (text "Unknown strategy '" ∷ text v ∷ text "'. Available: " ∷ [])

  abbrev pub check_parameters :
      BacktestCreateRequest types → Result ParamsModel → Result (BacktestCreateRequest types)
  check_parameters r (err _) = ok r
  check_parameters r (ok model) =
      if accepts model r.parameters then ok r else raise validation_error (text "parameters" ∷ [])

  unfoldable pub validate_parameters :
      BacktestCreateRequest types → Result (BacktestCreateRequest types)
  validate_parameters r = check_parameters r (get_params_model r.strategy_name)

  unfoldable pub run_validators : BacktestCreateRequest types → Result (BacktestCreateRequest types)
  run_validators r = do
    _ ← validate_strategy r.strategy_name
    dated ← validate_date_range r
    validate_parameters dated

  -- `BacktestCreateRequest(**data)`
  unfoldable pub validate_request :
      BacktestCreateRequest types → Result (BacktestCreateRequest types)
  validate_request r =
      if ltb 50 (characters r.strategy_name)
      then raise validation_error (text "strategy_name" ∷ [])
      else if has_symbols r.symbols
      then run_validators r
      else raise validation_error (text "symbols" ∷ [])

-- What the validators have found when they accept; they change nothing.
module _ (types : JobTypes) (characters : String → ℕ)
    (accepts : ParamsModel → types.Parameters → Bool) where
  has_symbols-ne :
      (symbols : List String) → has_symbols types characters accepts symbols ≡ true → symbols ≢ []
  has_symbols-ne [] h = absurd (cc)
  has_symbols-ne (s ∷ ss) h = λ e. absurd (cc)

  parameters_ok :
      (raw : BacktestCreateRequest types) {r : BacktestCreateRequest types}
      → contains raw.strategy_name get_strategies ≡ true
      → validate_parameters types characters accepts raw ≡ ok r
      → (raw ≡ r)
        × (model : ParamsModel) × (get_params_model raw.strategy_name ≡ ok model)
        × (accepts model raw.parameters ≡ true)
  unfolding validate_parameters
  parameters_ok raw {r = r} known h = elim (Result-cases (get_strategy raw.strategy_name)) [
    | inr (e, q) ↦
        absurd (
          let k = sym (registry_consistent raw.strategy_name).0 in
          let k' = rw (known, q) at k in cc)
    | inl (cls, q) ↦
        let found : get_params_model raw.strategy_name ≡ ok (params_model_of cls) =
          sym (rw q at ((registry_consistent raw.strategy_name).1)) in
        elim (Bool-cases (accepts (params_model_of cls) raw.parameters)) [
          | inr refused ↦ absurd (let k = rw (found, refused) at h in cc)
          | inl fine ↦
              let k = rw (found, fine) at h in
              let same : raw ≡ r = cc in (same, params_model_of cls, found, fine)
        ]
  ]

  validators_ok :
      (raw : BacktestCreateRequest types) {r : BacktestCreateRequest types}
      → run_validators types characters accepts raw ≡ ok r
      → (raw ≡ r)
        × (contains raw.strategy_name get_strategies ≡ true)
        × (raw.start_date ≤ raw.end_date)
        × (model : ParamsModel) × (get_params_model raw.strategy_name ≡ ok model)
        × (accepts model raw.parameters ≡ true)
  unfolding run_validators validate_strategy validate_date_range
  validators_ok raw {r = r} h = elim (Bool-cases (contains raw.strategy_name get_strategies)) [
    | inr unknown ↦ absurd (let k = rw unknown at h in cc)
    | inl known ↦ elim (Bool-cases (ltb raw.end_date raw.start_date)) [
      | inl backwards ↦ absurd (let k = rw (known, backwards) at h in cc)
      | inr ordered ↦
          let (same, model, found, fine) = parameters_ok raw known (rw (known, ordered) at h) in
          (same, known, ground arith, model, found, fine)
    ]
  ]

  fields_ok :
      (raw : BacktestCreateRequest types) {r : BacktestCreateRequest types}
      → validate_request types characters accepts raw ≡ ok r
      → (raw.symbols ≢ []) × (run_validators types characters accepts raw ≡ ok r)
  unfolding validate_request
  fields_ok raw h = elim (Bool-cases (ltb 50 (characters raw.strategy_name))) [
    | inl long ↦ absurd (let k = rw long at h in cc)
    | inr short ↦ elim (Bool-cases (has_symbols types characters accepts raw.symbols)) [
      | inr nothing ↦ absurd (let k = rw (short, nothing) at h in cc)
      | inl some_symbols ↦ (has_symbols-ne raw.symbols some_symbols, rw (short, some_symbols) at h)
    ]
  ]

-- A job created from an accepted request has at least one symbol and dates in order, its strategy is
-- one that the workers' lookup finds, and the params model of that strategy accepts its parameters.
-- So the lookup in a worker does not fail on what the API has let in.
pub accepted_job :
    (types : JobTypes) (tables : JobTables types) (characters : String → ℕ)
    (accepts : ParamsModel → types.Parameters → Bool) (raw : BacktestCreateRequest types)
    {r : BacktestCreateRequest types} (uuid now : ℕ) (t : tables.Table)
    → validate_request types characters accepts raw ≡ ok r
    → let j = (create_backtest_job types tables uuid now r t).0 in
      (j.symbols ≢ [])
      × (j.start_date ≤ j.end_date)
      × (is_ok (get_strategy j.strategy_name) ≡ true)
      × (model : ParamsModel) × (get_params_model j.strategy_name ≡ ok model)
      × (accepts model j.parameters ≡ true)
unfolding create_backtest_job from_request
accepted_job types tables characters accepts raw {r = r} uuid now t h =
    let (symbols, validated) = fields_ok types characters accepts raw h in
    let (same, known, dates, model, found, accepted) =
      validators_ok types characters accepts raw validated in
    subst
      (λ (z : BacktestCreateRequest types).
        (z.symbols ≢ [])
        × (z.start_date ≤ z.end_date)
        × (is_ok (get_strategy z.strategy_name) ≡ true)
        × (model : ParamsModel) × (get_params_model z.strategy_name ≡ ok model)
        × (accepts model z.parameters ≡ true))
      same
      (symbols, dates, (registry_consistent raw.strategy_name).0 ∙ known, model, found, accepted)
