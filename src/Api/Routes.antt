-- ===== src/Api/Routes.antt =====
-- api/routes/backtest.py, market_data.py and strategy.py: the routes on arguments that FastAPI has
-- parsed and validated.
pub mod Statuses
pub mod Pages
use stock_trader.Prelude.{
  ℕ, Bool, true, false, ◌&&◌, Option, none, some, List, [], ◌∷◌, map, String, leb, if◌then◌else◌,
}
use stock_trader.Errors.{
  Message, Exception, Result, ok, err, is_instance, job_already_running_error, text, ◌>>=◌,
}
use stock_trader.Models.{Interval, BacktestStatus}
use stock_trader.Jobs.Table.{JobTypes, Job, JobTables}
use stock_trader.Jobs.Repository.{BacktestCreateRequest}
use stock_trader.Jobs.Service.{
  World, dispatch_backtest_job, create_backtest_job, get_backtest_job, list_backtest_jobs,
}
use stock_trader.MarketData.Fetcher.{Task, fetch}
use stock_trader.Strategy.Registry.{get_strategies, get_params_model, ParamsModel}
use stock_trader.Api.Handlers.{Response, WebFramework, respond}
use stock_trader.Api.Responses.{BacktestCreateResponse, BacktestResponse, from_job}

-- How a route ends: with a body, with an `HTTPException`, which has its own response, or with another
-- exception.
pub data Ended {ℓ} (A : Type ℓ) : Type ℓ where
  returned : A → Ended A
  http_exception : ℕ → Message → Ended A
  raised : Exception → Ended A

abbrev pub ended {ℓ} : {A : Type ℓ} → Result A → Ended A
ended (ok a) = returned a
ended (err e) = raised e

-- The status code of the response, where a route that returns has the code `success`.
unfoldable pub status_code {ℓ} : {A : Type ℓ} → WebFramework → ℕ → Ended A → ℕ
status_code web success (returned a) = success
status_code web success (http_exception code detail) = code
status_code web success (raised e) = (respond web e).status_code

-- `Query(default=20, ge=1, le=100)`; an offset is never negative here.
abbrev pub is_page_size : ℕ → Bool
is_page_size limit = leb 1 limit && leb limit 100

module _ (types : JobTypes) (tables : JobTables types) where
  -- POST /backtests, with the UUID and the time of the new row.
  unfoldable pub create_backtest :
      ℕ
      → ℕ
      → BacktestCreateRequest types
      → tables.Table
      → Ended BacktestCreateResponse × tables.Table
  create_backtest uuid now request t =
      let (job, t') = create_backtest_job types tables uuid now request t in
      (returned (record { uuid = job.uuid; status = job.status }), t')

  -- GET /backtests/{job_id}
  unfoldable pub get_backtest : ℕ → tables.Table → Ended (BacktestResponse types)
  get_backtest job_id t =
      ended (get_backtest_job types tables job_id t >>= λ job. ok (from_job types job))

  -- The `except JobAlreadyRunningError` of the next route.
  abbrev pub conflict : Result (Unit {0}) → Ended (Unit {0})
  conflict (ok _) = returned tt
  conflict (err e) =
      if is_instance e job_already_running_error then http_exception 409 e.message else raised e

  -- PUT /backtests/{job_id}/run
  unfoldable pub dispatch_backtest :
      Bool → ℕ → ℕ → World types tables → Ended (Unit {0}) × World types tables
  dispatch_backtest broker_up now job_id w =
      let (result, w') = dispatch_backtest_job types tables broker_up now job_id w in
      (conflict result, w')

  -- GET /backtests; FastAPI answers 422 where a query parameter is out of bounds.
  unfoldable pub list_backtests :
      tables.Ties
      → Option BacktestStatus
      → ℕ
      → ℕ
      → tables.Table
      → Ended (List (BacktestResponse types))
  list_backtests ties status_filter offset limit t =
      if is_page_size limit
      then returned
          (map (from_job types) (list_backtest_jobs types tables ties status_filter offset limit t))
      else http_exception 422 (text "limit" ∷ [])

-- GET /market-data/{symbol}, with the normalization of texts and the worker's answer.
unfoldable pub get_market_data {ℓ} :
    {A : Type ℓ} → (String → String) → (Task → Result A) → String → ℕ → ℕ → Interval → Ended A
get_market_data normalize worker symbol start_date end_date interval =
    ended (fetch normalize worker symbol interval start_date end_date).0

-- GET /strategies/available
unfoldable pub get_available_strategies : List String
get_available_strategies = get_strategies

-- `get_strategy_schema` and GET /strategies/{strategy_name}/schema; pydantic makes the schema of a
-- model.
unfoldable pub get_strategy_schema {ℓ} : {A : Type ℓ} → (ParamsModel → A) → String → Result A
get_strategy_schema model_json_schema name =
    get_params_model name >>= λ model. ok (model_json_schema model)

unfoldable pub get_strategy_parameter_schema {ℓ} :
    {A : Type ℓ} → (ParamsModel → A) → String → Ended A
get_strategy_parameter_schema model_json_schema name =
    ended (get_strategy_schema model_json_schema name)

-- The comprehension of the next route: the first name that has no schema ends it.
abbrev pub schemas_of {ℓ} :
    {A : Type ℓ} → (ParamsModel → A) → List String → Result (List (String × A))
schemas_of model_json_schema [] = ok []
schemas_of model_json_schema (name ∷ names) = do
  schema ← get_strategy_schema model_json_schema name
  rest ← schemas_of model_json_schema names
  ok ((name, schema) ∷ rest)

-- GET /strategies/all_strategies_all_parameters
unfoldable pub get_all_strategies_and_parameters {ℓ} :
    {A : Type ℓ} → (ParamsModel → A) → Ended (List (String × A))
get_all_strategies_and_parameters model_json_schema =
    ended (schemas_of model_json_schema get_strategies)
