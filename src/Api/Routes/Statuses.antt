-- ===== src/Api/Routes/Statuses.antt =====
-- What a client of the routes on jobs sees.
use stock_trader.Prelude.{
  ℕ, ◌≡◌, refl, inl, inr, Bool, true, false, Option, none, some, Option-cases, Bool-cases, ◌==◌,
  if◌then◌else◌,
}
use stock_trader.Models.{created, is_running}
use stock_trader.Jobs.Table.{JobTypes, Job, JobTables}
use stock_trader.Jobs.Service
use stock_trader.Jobs.Repository.{
  BacktestCreateRequest, from_request, create_backtest_job, get_backtest_job, update_job_status,
}
use stock_trader.Jobs.Service.{
  World, dispatch_backtest as send_pipeline, dispatch_backtest_job, check_dispatch, commit_dispatch,
}
use stock_trader.Api.Handlers.{WebFramework, respond-status}
use stock_trader.Api.Responses.{from_job}
use stock_trader.Api.Routes.{
  returned, status_code, create_backtest, get_backtest, dispatch_backtest,
}

-- What PUT /backtests/{job_id}/run should answer.
abbrev pub meant_dispatch : {types : JobTypes} → Bool → Option (Job types) → ℕ
meant_dispatch broker_up none = 404
meant_dispatch broker_up (some j) =
    if is_running j.status then 409 else if broker_up then 200 else 500

module _ (types : JobTypes) (tables : JobTables types) (web : WebFramework) (now u : ℕ) where
  dispatch_missing :
      (broker_up : Bool) (w : World types tables)
      → tables.select_by_uuid u w.table ≡ none
      → status_code web 200 (dispatch_backtest types tables broker_up now u w).0 ≡ 404
  unfolding dispatch_backtest dispatch_backtest_job check_dispatch get_backtest_job status_code
  dispatch_missing broker_up w h = rw h (respond-status web _)

  dispatch_busy :
      (broker_up : Bool) (w : World types tables) (j : Job types)
      → tables.select_by_uuid u w.table ≡ some j
      → is_running j.status ≡ true
      → status_code web 200 (dispatch_backtest types tables broker_up now u w).0 ≡ 409
  unfolding dispatch_backtest dispatch_backtest_job check_dispatch get_backtest_job status_code
  dispatch_busy broker_up w j h busy = rw h (rw busy refl)

  dispatch_idle :
      (broker_up : Bool) (w : World types tables) (j : Job types)
      → tables.select_by_uuid u w.table ≡ some j
      → is_running j.status ≡ false
      → status_code web 200 (dispatch_backtest types tables broker_up now u w).0
        ≡ (if broker_up then 200 else 500)
  unfolding dispatch_backtest dispatch_backtest_job check_dispatch get_backtest_job status_code
      commit_dispatch send_pipeline update_job_status
  dispatch_idle true w j h idle = rw h (rw idle (rw h refl))
  dispatch_idle false w j h idle = rw h (rw idle (rw h (respond-status web _)))

-- The status code of PUT /backtests/{job_id}/run is 404 if there is no such job, 409 if it runs, and
-- otherwise 200 if the broker is up and 500 if it is down.
pub dispatch_status :
    (types : JobTypes) (tables : JobTables types) (web : WebFramework) (broker_up : Bool)
    (now u : ℕ) (w : World types tables)
    → status_code web 200 (dispatch_backtest types tables broker_up now u w).0
      ≡ meant_dispatch broker_up (tables.select_by_uuid u w.table)
dispatch_status types tables web broker_up now u w =
    elim (Option-cases (tables.select_by_uuid u w.table)) [
      | inl h ↦ rw h (dispatch_missing types tables web now u broker_up w h)
      | inr (j, h) ↦ elim (Bool-cases (is_running j.status)) [
        | inl busy ↦ rw h (rw busy (dispatch_busy types tables web now u broker_up w j h busy))
        | inr idle ↦ rw h (rw idle (dispatch_idle types tables web now u broker_up w j h idle))
      ]
    ]

-- A client that posts a request gets the UUID of the new row and the status CREATED. If no row had
-- that UUID, GET /backtests/{job_id} then answers with that UUID, that status, and the strategy,
-- symbols and parameters of the request, with no error and no start or end; and for every other
-- UUID it answers as before.
pub create_get :
    (types : JobTypes) (tables : JobTables types) (uuid now v : ℕ) (r : BacktestCreateRequest types)
    (t : tables.Table)
    → tables.select_by_uuid uuid t ≡ none
    → let (created_response, t') = create_backtest types tables uuid now r t in
      (created_response ≡ returned (record { uuid = uuid; status = created }))
      × (get_backtest types tables v t' ≡ (
          if uuid == v
          then returned (record {
            uuid = uuid;
            status = created;
            strategy_name = r.strategy_name;
            symbols = r.symbols;
            parameters = r.parameters;
            error = none;
            create_time = now;
            start_time = none;
            end_time = none;
          })
          else get_backtest types tables v t))
unfolding create_backtest get_backtest Service.create_backtest_job Service.get_backtest_job
    create_backtest_job from_request get_backtest_job from_job
create_get types tables uuid now v r t fresh = (
  refl,
  rw (tables.select_by_uuid-insert v (from_request types uuid now r) t fresh)
      (elim (Bool-cases (uuid == v)) [ inl same ↦ rw same refl | inr other ↦ rw other refl ]),
)
