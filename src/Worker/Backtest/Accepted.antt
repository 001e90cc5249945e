-- ===== src/Worker/Backtest/Accepted.antt =====
-- A request from the API to a worker: validation, the new row, and what `run_backtest` builds from it.
use stock_trader.Prelude.{ℕ, ◌≤◌, ◌≡◌, ◌≢◌, refl, inl, inr, Bool, true, none, [], String, ==_refl}
use stock_trader.Errors.{ok, is_ok, Result-cases}
use stock_trader.Jobs.Repository.{
  BacktestCreateRequest, from_request, create_backtest_job, get_backtest_job,
}
use stock_trader.Jobs.Request.{validate_request, accepted_job}
use stock_trader.Strategy.Bollinger.{BollingerParams}
use stock_trader.Strategy.Floats.{Floats}
use stock_trader.Strategy.Registry.{
  ParamsModel, StrategyClass, bollinger_params as bollinger_model, get_strategy,
}
use stock_trader.Strategy.Params.{Values, Parameters, bollinger_params}
use stock_trader.Strategy.Params.Bounds.{IsValid, bollinger_params-IsValid}
use stock_trader.Worker.Externals.{Externals, JobOf, json_types}

-- `model(**self.parameters)` in a validator: whether it raises.
abbrev pub accepts_params :
    (floats : Floats) (values : Values floats) → ParamsModel → Parameters floats values → Bool
accepts_params floats values bollinger_model p = is_ok (bollinger_params floats values p)

params_accepted :
    (floats : Floats) (values : Values floats) (model : ParamsModel) (p : Parameters floats values)
    → accepts_params floats values model p ≡ true
    → (params : BollingerParams floats) × (bollinger_params floats values p ≡ ok params)
params_accepted floats values bollinger_model p h =
    elim (Result-cases (bollinger_params floats values p)) [
      | inl built ↦ built
      | inr (e, refused) ↦ absurd (let k = rw refused at h in cc)
    ]

strategy_found :
    (name : String)
    → is_ok (get_strategy name) ≡ true
    → (cls : StrategyClass) × (get_strategy name ≡ ok cls)
strategy_found name h = elim (Result-cases (get_strategy name)) [
  | inl found ↦ found
  | inr (e, missing) ↦ absurd (let k = rw missing at h in cc)
]

-- Let a request be accepted and its job be created with a UUID that no row has. A worker then finds the
-- job, with at least one symbol and its dates in order; the strategy lookup succeeds, and the
-- parameters of the strategy are built from the job and within their bounds.
pub accepted_builds :
    (ext : Externals) (characters : String → ℕ)
    (raw : BacktestCreateRequest (json_types ext.floats ext.values))
    {r : BacktestCreateRequest (json_types ext.floats ext.values)} (uuid now : ℕ)
    (t : ext.jobs.Table)
    → ext.jobs.select_by_uuid uuid t ≡ none
    → validate_request
        (json_types ext.floats ext.values)
        characters
        (accepts_params ext.floats ext.values)
        raw
      ≡ ok r
    → let types = json_types ext.floats ext.values in
      let (_, t') = create_backtest_job types ext.jobs uuid now r t in
      (j : JobOf ext) × (cls : StrategyClass) × (params : BollingerParams ext.floats)
      × (get_backtest_job types ext.jobs uuid t' ≡ ok j)
      × (j.symbols ≢ [])
      × (j.start_date ≤ j.end_date)
      × (get_strategy j.strategy_name ≡ ok cls)
      × (bollinger_params ext.floats ext.values j.parameters ≡ ok params)
      × IsValid ext.floats params
unfolding create_backtest_job get_backtest_job from_request
accepted_builds ext characters raw {r = r} uuid now t fresh h =
    let types = json_types ext.floats ext.values in
    let (symbols, dates, known, model, _, accepted) =
      accepted_job types ext.jobs characters (accepts_params ext.floats ext.values) raw uuid now t
        h in
    let (cls, found) = strategy_found r.strategy_name known in
    let (params, built) = params_accepted ext.floats ext.values model r.parameters accepted in
    (
      from_request types uuid now r,
      cls,
      params,
      rw (ext.jobs.select_by_uuid-insert uuid (from_request types uuid now r) t fresh, ==_refl uuid)
          refl,
      symbols,
      dates,
      found,
      built,
      (bollinger_params-IsValid ext.floats ext.values r.parameters built).0,
    )
