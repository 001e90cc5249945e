-- ===== src/Jobs/Service.antt =====
-- `BacktestService` of api/services/backtest_service.py.
pub mod Dispatch
pub mod Race
use stock_trader.Prelude.{
  ℕ, ◌≡◌, Bool, true, false, Option, none, some, List, [], ◌∷◌, ◌++◌, String, if◌then◌else◌,
}
use stock_trader.Errors.{
  Message, Result, ok, err, raise, job_already_running_error, exception, text, number, ◌>>=◌,
}
use stock_trader.Models.{BacktestStatus, running, is_running}
use stock_trader.Jobs.Table.{JobTypes, Job, JobTables}
use stock_trader.Jobs.Repository.{BacktestCreateRequest, update_job_status}
use stock_trader.Jobs.Repository

module _ (types : JobTypes) (tables : JobTables types) where
  open tables use {Table}

  -- What a dispatch changes: the table, and the pipelines sent to the broker, oldest first.
  pub record World : Type 0 where
    pub table : Table
    pub dispatched : List (ℕ × List String)

  -- `task_dispatcher.dispatch_backtest`, which raises if the broker cannot be reached.
  unfoldable pub dispatch_backtest : Bool → ℕ → List String → World → Result (Unit {0}) × World
  dispatch_backtest broker_up u symbols w =
      if broker_up
      then (ok tt, record w { dispatched = w.dispatched ++ (u, symbols) ∷ [] })
      else (raise exception (text "broker connection failed" ∷ []), w)

  -- The part of `dispatch_backtest_job` before the first write: the job, unless it runs already.
  unfoldable pub check_dispatch : ℕ → World → Result (Job types)
  check_dispatch u w = do
    j ← Repository.get_backtest_job types tables u w.table
    if is_running j.status
        then raise job_already_running_error
            (text "Job " ∷ number u ∷ text " is already running" ∷ [])
        else ok j

  abbrev send :
      Bool → ℕ → Job types → World → Result (Job types × Table) → Result (Unit {0}) × World
  send broker_up u j w (err e) = (err e, w)
  send broker_up u j w (ok (_, table)) =
      dispatch_backtest broker_up u j.symbols (record w { table = table })

  -- The part from the write on, with the job that the check has loaded.
  unfoldable pub commit_dispatch : Bool → ℕ → ℕ → Job types → World → Result (Unit {0}) × World
  commit_dispatch broker_up now u j w =
      send broker_up u j w (update_job_status types tables u running none now w.table)

  abbrev dispatch_checked : Bool → ℕ → ℕ → World → Result (Job types) → Result (Unit {0}) × World
  dispatch_checked broker_up now u w (err e) = (err e, w)
  dispatch_checked broker_up now u w (ok j) = commit_dispatch broker_up now u j w

  -- `dispatch_backtest_job` with no other request in between.
  unfoldable pub dispatch_backtest_job : Bool → ℕ → ℕ → World → Result (Unit {0}) × World
  dispatch_backtest_job broker_up now u w = dispatch_checked broker_up now u w (check_dispatch u w)

  -- The other operations, which the repository does.
  unfoldable pub create_backtest_job :
      ℕ → ℕ → BacktestCreateRequest types → Table → Job types × Table
  create_backtest_job uuid now backtest_request t =
      Repository.create_backtest_job types tables uuid now backtest_request t

  unfoldable pub get_backtest_job : ℕ → Table → Result (Job types)
  get_backtest_job job_id t = Repository.get_backtest_job types tables job_id t

  unfoldable pub list_backtest_jobs :
      tables.Ties → Option BacktestStatus → ℕ → ℕ → Table → List (Job types)
  list_backtest_jobs ties status_filter offset limit t =
      Repository.list_backtest_jobs types tables ties status_filter offset limit t
