-- ===== src/Worker/Backtest.antt =====
-- `run_backtest` of core/backtest.py: one symbol of a job.
pub mod Accepted
pub mod Chronology
use stock_trader.Prelude.{
  ℕ, ◌≡◌, Bool, true, false, Option, none, some, List, [], ◌∷◌, ◌++◌, map, String, ltb,
  if◌then◌else◌,
}
use stock_trader.Errors.{Result, ok, err, raise, value_error, key_error, text, day, ◌>>=◌}
use stock_trader.Models.{one_minute}
use stock_trader.Strategy.Bollinger.{BollingerParams, Row, DataFrame, BacktestResult, run}
use stock_trader.Strategy.Registry.{StrategyClass, bollinger_reversion_strategy, get_strategy}
use stock_trader.Strategy.Params.{bollinger_params}
use stock_trader.Strategy.Report.{Summary, to_summary, Raw, to_raw}
use stock_trader.Jobs.Repository.{get_backtest_job}
use stock_trader.Jobs.Finalize.{TaskResult, report}
use stock_trader.MarketData.Bars.{Ohlcv, OhlcvSeries, has_bars}
use stock_trader.MarketData.Rows.{get_ohlcv_data}
use stock_trader.Worker.Externals.{Externals, JobOf, json_types}

module _ (ext : Externals) where
  open ext use {floats, values, jobs, truncate, market, midnight, bbands, local_time}

  abbrev Float : Type 0
  Float = floats.Float

  -- `sort_index`, stable; a table gives no two bars of one time.
  abbrev pub insert_by_time : Row floats → List (Row floats) → List (Row floats)
  insert_by_time r [] = r ∷ []
  insert_by_time r (s ∷ rows) =
      let later = s ∷ insert_by_time r rows in
      if ltb s.timestamp r.timestamp then later else r ∷ s ∷ rows

  unfoldable pub sort_index : List (Row floats) → List (Row floats)
  sort_index [] = []
  sort_index (r ∷ rows) = insert_by_time r (sort_index rows)

  -- `OHLCVSeries.to_dataframe`, the index and the column `close`; no strategy reads the other columns.
  -- The DataFrame of no bars has no column `timestamp`.
  unfoldable pub to_dataframe : List (Ohlcv Float truncate) → Result (DataFrame floats)
  to_dataframe [] = raise key_error (text "None of ['timestamp'] are in the columns" ∷ [])
  to_dataframe (b ∷ bs) = ok (record {
    aware = true;
    rows = sort_index (
        map (λ (z : Ohlcv Float truncate). record { timestamp = z.timestamp; close = z.close })
          (b ∷ bs));
  })

  abbrev pub no_market_data {ℓ} : {A : Type ℓ} → String → JobOf ext → Result A
  no_market_data symbol job = raise value_error (
      text "No market data found for "
      ∷ text symbol
      ∷ text " between "
      ∷ day job.start_date
      ∷ text " and "
      ∷ day job.end_date
      ∷ [])

  -- `if not ohlcv: raise ...`
  abbrev pub loaded :
      String → JobOf ext → Option (OhlcvSeries Float truncate) → Result (OhlcvSeries Float truncate)
  loaded symbol job none = no_market_data symbol job
  loaded symbol job (some s) = if has_bars Float truncate s then ok s else no_market_data symbol job

  -- `strategy_cls(**strategy_params)` and `strategy.run(df)`. `__init__` takes the fields over from the
  -- validated params.
  unfoldable pub run_strategy :
      StrategyClass → JobOf ext → DataFrame floats → Result (BacktestResult floats)
  run_strategy bollinger_reversion_strategy job df = do
    params ← bollinger_params floats values job.parameters
    run floats bbands local_time params df

  -- A row of the table of results, without its own identifier and time of creation.
  pub record SavedResult : Type 0 where
    pub job_id : ℕ
    pub symbol : String
    pub summary : Summary floats
    pub raw : Raw floats

  -- `save_job_result`. `answer` is what the database says to the insertion.
  unfoldable pub save_job_result :
      Result (Unit {0}) → SavedResult → List SavedResult → Result (Unit {0}) × List SavedResult
  save_job_result (ok _) row saved = (ok tt, saved ++ row ∷ [])
  save_job_result (err e) row saved = (err e, saved)

  -- The body of the `try` before the result is saved.
  unfoldable pub backtest_result :
      ℕ → String → jobs.Table → market.Table → Result (BacktestResult floats)
  backtest_result u symbol job_table market_table = do
    job ← get_backtest_job (json_types floats values) jobs u job_table
    found ←
        get_ohlcv_data Float truncate market midnight
          (record {
            symbol = symbol;
            interval = one_minute;
            start_date = job.start_date;
            end_date = job.end_date;
          })
          market_table
    series ← loaded symbol job found
    df ← to_dataframe series.bars
    cls ← get_strategy job.strategy_name
    run_strategy cls job df

  abbrev pub saved_result : ℕ → String → BacktestResult floats → SavedResult
  saved_result u symbol r = record {
    job_id = u;
    symbol = symbol;
    summary = to_summary floats "bollinger_reversion" r;
    raw = to_raw floats r;
  }

  abbrev pub save_if_ok :
      Result (Unit {0})
      → ℕ
      → String
      → List SavedResult
      → Result (BacktestResult floats)
      → Result (Unit {0}) × List SavedResult
  save_if_ok answer u symbol saved (err e) = (err e, saved)
  save_if_ok answer u symbol saved (ok r) = save_job_result answer (saved_result u symbol r) saved

  -- `run_backtest`: what the task returns, and the saved results afterwards.
  unfoldable pub run_backtest :
      Result (Unit {0})
      → ℕ
      → String
      → jobs.Table
      → market.Table
      → List SavedResult
      → TaskResult × List SavedResult
  run_backtest answer u symbol job_table market_table saved =
      let (ended, saved') =
        save_if_ok answer u symbol saved (backtest_result u symbol job_table market_table) in
      (report symbol ended, saved')
