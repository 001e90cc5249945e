-- ===== src/Worker/Fetch.antt =====
-- `ensure_market_data_for_job` of core/market_data/market_data_tasks.py, its retries and its failure
-- callback.
pub mod Calls
pub mod Found
use stock_trader.Prelude.{ℕ, suc, Bool, ◌&&◌, ◌||◌, some, List, [], ◌∷◌, String, ltb}
use stock_trader.Errors.{
  Message, Exception, Result, ok, err, is_instance, provider_error, redis_error, text,
}
use stock_trader.Models.{one_minute, failed}
use stock_trader.Jobs.Repository.{get_backtest_job, update_job_status_sync}
use stock_trader.MarketData.Service.{World, ensure_data}
use stock_trader.Worker.Externals.{Externals, JobOf, json_types, Network}

abbrev pub max_retries : ℕ
max_retries = 3

-- `autoretry_for=(ProviderError, RedisError)` and `max_retries`, after `retries` retries.
unfoldable pub is_retried : ℕ → Exception → Bool
is_retried retries e =
    (is_instance e provider_error || is_instance e redis_error) && ltb retries max_retries

abbrev pub failure_error : Exception → Message
failure_error e = text "Market data fetch failed: " ∷ e.message

module _ (ext : Externals) where
  open ext use {floats, values, jobs, truncate, market, midnight}

  abbrev pub Stored : Type 0
  Stored = World floats.Float truncate market

  abbrev pub next_symbol :
      (Stored → Result (Unit {0}) × Stored)
      → Result (Unit {0}) × Stored
      → Result (Unit {0}) × Stored
  next_symbol rest (err e, w) = (err e, w)
  next_symbol rest (ok _, w) = rest w

  abbrev pub forget {ℓ} : {A : Type ℓ} → Result A × Stored → Result (Unit {0}) × Stored
  forget (err e, w) = (err e, w)
  forget (ok _, w) = (ok tt, w)

  -- The loop over the symbols; `i` numbers the calls of the limiter.
  unfoldable pub ensure_symbols :
      Network ext → JobOf ext → ℕ → List String → Stored → Result (Unit {0}) × Stored
  ensure_symbols net job i [] w = (ok tt, w)
  ensure_symbols net job i (s ∷ symbols) w = next_symbol (ensure_symbols net job (suc i) symbols) (
      forget (
        ensure_data floats.Float truncate market midnight net.list_aggs (some (net.limiter i))
          (record {
            symbol = s;
            interval = one_minute;
            start_date = job.start_date;
            end_date = job.end_date;
          })
          w))

  abbrev pub with_job : Network ext → Stored → Result (JobOf ext) → Result (Unit {0}) × Stored
  with_job net w (err e) = (err e, w)
  with_job net w (ok job) = ensure_symbols net job 0 job.symbols w

  -- One attempt of the task.
  unfoldable pub ensure_market_data_for_job :
      Network ext → ℕ → jobs.Table → Stored → Result (Unit {0}) × Stored
  ensure_market_data_for_job net u t w =
      with_job net w (get_backtest_job (json_types floats values) jobs u t)

  -- `_on_fetch_failure` of a task with its argument, and the answer of the database.
  unfoldable pub on_fetch_failure :
      Result (Unit {0}) → ℕ → ℕ → Exception → jobs.Table → Result jobs.Table
  on_fetch_failure answer u now e t =
      update_job_status_sync (json_types floats values) jobs answer u failed
        (some (failure_error e)) now t
