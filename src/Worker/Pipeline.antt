-- ===== src/Worker/Pipeline.antt =====
-- The pipeline of one job, which `CeleryTaskDispatcher.dispatch_backtest` of
-- api/services/celery_task_dispatcher.py sends: the market data task, then a chord of one
-- `run_backtest` for each symbol with `finalize_backtest_job` as its callback. Celery is not part of
-- the repository. A step is one thing that it is documented to do: run an attempt of the first task and
-- retry it or call its failure handler, start the chord after a success, run the tasks of the
-- chord in any order, and call back with their results in the order of the header. What the
-- environment chooses in a step, the network, the clock and the answers of the tables of market data
-- and of results, are the arguments of its constructor. The job table answers: the statements that
-- read a job and that write its final status do not raise here.
pub mod Saved
pub mod Invariant
pub mod Refinement
pub mod Progress
pub mod Lifecycle
pub mod Budget
pub mod Once
use stock_trader.Prelude.{
  ℕ, zero, suc, ◌≡◌, Bool, true, false, Option, none, some, List, [], ◌∷◌, ◌++◌, map, String,
  if◌then◌else◌,
}
use stock_trader.Errors.{Exception, Result, ok, err}
use stock_trader.Jobs.Finalize.{TaskResult, finalize_backtest_job}
use stock_trader.MarketData.Service.{World}
use stock_trader.Worker.Externals.{Externals, json_types, Network}
use stock_trader.Worker.Backtest.{SavedResult, run_backtest}
use stock_trader.Worker.Fetch.{Stored, ensure_market_data_for_job, is_retried, on_fetch_failure}

-- A chord's header: its tasks, with the result of each that has finished.
abbrev pub Header : Type 0
Header = List (String × Option TaskResult)

-- `[run_backtest.si(job_id, symbol) for symbol in symbols]`
abbrev pub task_group : List String → Header
task_group symbols = map (λ (s : String). (s, none)) symbols

-- How far the pipeline is: before an attempt of the first task with the retries so far, in the
-- chord, at the end after the callback, or at the end after the first task has failed for good.
pub data Stage : Type 0 where
  fetching : ℕ → Stage
  charting : Header → Stage
  finalized : Header → Stage
  abandoned : Exception → Stage

-- The results that the callback gets, once all tasks have finished.
abbrev pub all_results : Header → Option (List TaskResult)
all_results [] = some []
all_results ((s, none) ∷ rest) = none
all_results ((s, some r) ∷ rest) = elim (all_results rest) [ none ↦ none | some rs ↦ some (r ∷ rs) ]

module _ (ext : Externals) where
  open ext use {floats, values, jobs, market}

  pub record Cluster : Type 0 where
    pub table : jobs.Table
    pub stored : Stored ext
    pub saved : List (SavedResult ext)
    pub stage : Stage

  -- A callback or handler that raises changes nothing.
  abbrev pub updated : jobs.Table → Result jobs.Table → jobs.Table
  updated t (err e) = t
  updated t (ok t') = t'

  module _ (u : ℕ) (symbols : List String) where
    abbrev pub fetch_ended : ℕ → ℕ → Cluster → Result (Unit {0}) × Stored ext → Cluster
    fetch_ended now retries c (ok _, w) = record c {
      stored = w;
      stage = charting (task_group symbols);
    }
    fetch_ended now retries c (err e, w) =
        if is_retried retries e
        then record c { stored = w; stage = fetching (suc retries) }
        else record c {
          stored = w;
          table = updated c.table (on_fetch_failure ext (ok tt) u now e c.table);
          stage = abandoned e;
        }

    unfoldable pub after_fetch : Network ext → ℕ → ℕ → Cluster → Cluster
    after_fetch net now retries c =
        fetch_ended now retries c (ensure_market_data_for_job ext net u c.table c.stored)

    unfoldable pub after_backtest : Result (Unit {0}) → Header → String → Header → Cluster → Cluster
    after_backtest answer before symbol after c =
        let (result, saved) = run_backtest ext answer u symbol c.table c.stored.table c.saved in
        record c { saved = saved; stage = charting (before ++ ((symbol, some result) ∷ after)) }

    unfoldable pub after_callback : ℕ → Header → List TaskResult → Cluster → Cluster
    after_callback now header results c = record c {
      table =
          updated c.table
            (finalize_backtest_job (json_types floats values) jobs (ok tt) results u now c.table);
      stage = finalized header;
    }

    pub data Step : Cluster → Cluster → Type 0 where
      fetch :
          {c : Cluster} {retries : ℕ} (net : Network ext) (now : ℕ)
          → c.stage ≡ fetching retries
          → Step c (after_fetch net now retries c)
      backtest :
          {c : Cluster} (before : Header) (symbol : String) (after : Header)
          (answer : Result (Unit {0}))
          → c.stage ≡ charting (before ++ ((symbol, none) ∷ after))
          → Step c (after_backtest answer before symbol after c)
      callback :
          {c : Cluster} (header : Header) (results : List TaskResult) (now : ℕ)
          → c.stage ≡ charting header
          → all_results header ≡ some results
          → Step c (after_callback now header results c)

    -- Runs of the pipeline, with the number of their steps.
    pub data Reach (start : Cluster) : ℕ → Cluster → Type 0 where
      here : Reach start zero start
      next : {n : ℕ} {c d : Cluster} → Reach start n c → Step c d → Reach start (suc n) d
