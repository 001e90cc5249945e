-- ===== src/Jobs/Repository.antt =====
-- `BacktestRepository` (async, of the API) and `BacktestRepositorySync` (of the workers). The
-- current time is an argument of what reads it, and so are the UUID and the creation time that a new
-- row gets.
pub mod Update
use stock_trader.Prelude.{
  ℕ, take, drop, ◌≡◌, Bool, true, false, Option, none, some, List, [], ◌∷◌, String, if◌then◌else◌,
  ◌||◌,
}
use stock_trader.Errors.{Message, Result, ok, err, raise, job_not_found_error, text, number, ◌>>=◌}
use stock_trader.Models.{BacktestStatus, created, running, completed, failed, is_running}
use stock_trader.Jobs.Table.{JobTypes, Job, JobTables}

abbrev pub is_finished : BacktestStatus → Bool
is_finished completed = true
is_finished failed = true
is_finished _ = false

module _ (types : JobTypes) where
  -- A validated `BacktestCreateRequest`.
  pub record BacktestCreateRequest : Type 0 where
    pub strategy_name : String
    pub symbols : List String
    pub parameters : types.Parameters
    pub start_date : ℕ
    pub end_date : ℕ

  -- `BacktestJobTableSchema.from_request`, with the status that `create_backtest_job` sets and the
  -- defaults of the columns.
  unfoldable pub from_request : ℕ → ℕ → BacktestCreateRequest → Job types
  from_request uuid now r = record {
    uuid = uuid;
    status = created;
    strategy_name = r.strategy_name;
    symbols = r.symbols;
    parameters = r.parameters;
    start_date = r.start_date;
    end_date = r.end_date;
    error = none;
    create_time = now;
    start_time = none;
    end_time = none;
  }

  -- The assignments of `update_job_status`.
  unfoldable pub set_status : BacktestStatus → Option Message → ℕ → Job types → Job types
  set_status status error now j =
      let j' = record j { status = status; error = error } in
      if is_running status
      then record j' { start_time = some now }
      else if is_finished status
      then record j' { end_time = some now }
      else j'

  module _ (tables : JobTables types) where
    open tables use {Table, select_by_uuid, insert, write_back}

    abbrev pub not_found {ℓ} : {A : Type ℓ} → ℕ → Result A
    not_found u =
        raise job_not_found_error (text "Backtest job with ID " ∷ number u ∷ text " not found" ∷ [])

    abbrev pub found_or_raise : ℕ → Option (Job types) → Result (Job types)
    found_or_raise u none = not_found u
    found_or_raise u (some j) = ok j

    -- `BacktestRepository.create_backtest_job`
    unfoldable pub create_backtest_job : ℕ → ℕ → BacktestCreateRequest → Table → Job types × Table
    create_backtest_job uuid now request t =
        let j = from_request uuid now request in (j, insert j t)

    -- `get_backtest_job` of either repository
    unfoldable pub get_backtest_job : ℕ → Table → Result (Job types)
    get_backtest_job u t = found_or_raise u (select_by_uuid u t)

    -- `list_backtest_jobs`, with `offset` and `limit` of the query; each execution settles the order
    -- of rows with the same `create_time` anew
    unfoldable pub list_backtest_jobs :
        tables.Ties → Option BacktestStatus → ℕ → ℕ → Table → List (Job types)
    list_backtest_jobs ties status_filter offset limit t =
        take limit (drop offset (tables.select_jobs ties status_filter t))

    -- `BacktestRepository.update_job_status`
    unfoldable pub update_job_status :
        ℕ → BacktestStatus → Option Message → ℕ → Table → Result (Job types × Table)
    update_job_status u status error now t = do
      j ← found_or_raise u (select_by_uuid u t)
      let j' = set_status status error now j
      ok (j', write_back j' t)

    -- `BacktestRepositorySync.update_job_status`. The first argument is how the database answers
    -- `execute` and `commit`: when one of them raises, the session rolls back.
    unfoldable pub update_job_status_sync :
        Result (Unit {0}) → ℕ → BacktestStatus → Option Message → ℕ → Table → Result Table
    update_job_status_sync answer u status error now t = do
      _ ← answer
      j ← found_or_raise u (select_by_uuid u t)
      ok (write_back (set_status status error now j) t)
