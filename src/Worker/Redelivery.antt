-- ===== src/Worker/Redelivery.antt =====
-- The pipeline of one job where workers can be lost. worker/celery_app.py has a task acknowledged
-- after it has run (`task_acks_late`), so a task whose worker is lost before that is documented to be
-- delivered again, and runs again from its start. A delivery is a step of Worker/Pipeline, or a run of a
-- task whose worker is lost before it has passed on how the task ended.
pub mod Life
pub mod Results
use stock_trader.Prelude.{ℕ, zero, suc, ◌≡◌, none, some, List, ◌∷◌, ◌++◌, String, take}
use stock_trader.Errors.{Result, ok, err}
use stock_trader.Jobs.Finalize.{TaskResult}
use stock_trader.Jobs.Repository.{get_backtest_job}
use stock_trader.Worker.Externals.{Externals, JobOf, json_types, Network}
use stock_trader.Worker.Fetch.{Stored, ensure_symbols}
use stock_trader.Worker.Pipeline.{
  Header, fetching, charting, all_results, Cluster, after_fetch, after_backtest, after_callback,
  Step,
}

module _ (ext : Externals) where
  open ext use {floats, values, jobs}

  -- What is stored when an attempt of the first task is cut short after `n` symbols.
  abbrev pub cut_short : Network ext → ℕ → Stored ext → Result (JobOf ext) → Stored ext
  cut_short net n w (err e) = w
  cut_short net n w (ok job) = (ensure_symbols ext net job 0 (take n job.symbols) w).1

  -- A task that has run to its end, but whose message is delivered again.
  abbrev pub unacknowledged : Cluster ext → Cluster ext → Cluster ext
  unacknowledged c d = record d { stage = c.stage }

  module _ (u : ℕ) (symbols : List String) where
    pub data Delivery : Cluster ext → Cluster ext → Type 0 where
      acknowledged : {c d : Cluster ext} → Step ext u symbols c d → Delivery c d
      fetch_cut :
          {c : Cluster ext} {retries : ℕ} (net : Network ext) (n : ℕ)
          → c.stage ≡ fetching retries
          → Delivery c (record c {
            stored =
                cut_short net n c.stored
                  (get_backtest_job (json_types floats values) jobs u c.table);
          })
      fetch_lost :
          {c : Cluster ext} {retries : ℕ} (net : Network ext) (now : ℕ)
          → c.stage ≡ fetching retries
          → Delivery c (unacknowledged c (after_fetch ext u symbols net now retries c))
      backtest_lost :
          {c : Cluster ext} (before : Header) (symbol : String) (after : Header)
          (answer : Result (Unit {0}))
          → c.stage ≡ charting (before ++ ((symbol, none) ∷ after))
          → Delivery c
              (unacknowledged c (after_backtest ext u symbols answer before symbol after c))
      callback_lost :
          {c : Cluster ext} (header : Header) (results : List TaskResult) (now : ℕ)
          → c.stage ≡ charting header
          → all_results header ≡ some results
          → Delivery c (unacknowledged c (after_callback ext u symbols now header results c))

    -- Runs of the pipeline, with the number of deliveries.
    pub data Delivered (start : Cluster ext) : ℕ → Cluster ext → Type 0 where
      sent : Delivered start zero start
      delivered :
          {n : ℕ} {c d : Cluster ext}
          → Delivered start n c
          → Delivery c d
          → Delivered start (suc n) d
