-- ===== src/Worker/Backtest/Chronology.antt =====
-- The order of what `run_backtest` saves.
use stock_trader.Prelude.{
  ℕ, ◌≤◌, ◌≡◌, subst, inl, inr, List, [], ◌∷◌, map, String, arith, not, ltb, All, All-map,
  Bool-cases,
}
use stock_trader.Prelude.Sorted.{IsSorted}
use stock_trader.Errors.{ok, >>=-eq-ok}
use stock_trader.Strategy.Bollinger.{Row, Bar, DataFrame, BacktestResult}
use stock_trader.Strategy.Bollinger.Times.{bar_times, filter-IsSorted}
use stock_trader.Strategy.Bollinger.Chronology.{trade_times, run-IsSorted}
use stock_trader.Strategy.Params.{bollinger_params}
use stock_trader.Strategy.Registry.{StrategyClass, bollinger_reversion_strategy, get_strategy}
use stock_trader.Strategy.Report.{to_raw, has_nan}
use stock_trader.Models.{one_minute}
use stock_trader.Jobs.Repository.{get_backtest_job}
use stock_trader.MarketData.Bars.{Ohlcv}
use stock_trader.MarketData.Rows.{get_ohlcv_data}
use stock_trader.Worker.Externals.{Externals, JobOf, json_types}
use stock_trader.Worker.Backtest.{
  insert_by_time, sort_index, to_dataframe, loaded, run_strategy, backtest_result, saved_result,
}

ok_injective : {A : Type 0} {a b : A} → ok a ≡ ok b → a ≡ b
ok_injective h = cc

module _ (ext : Externals) where
  open ext use {floats, values, jobs, truncate, market, midnight, bbands, local_time}

  abbrev row_times : List (Row floats) → List ℕ
  row_times rows = map (λ (z : Row floats). z.timestamp) rows

  All-insert_by_time :
      (P : ℕ → Type 0) (r : Row floats) (rows : List (Row floats))
      → P r.timestamp
      → All P (row_times rows)
      → All P (row_times (insert_by_time ext r rows))
  All-insert_by_time P r [] p h = (p, tt)
  All-insert_by_time P r (s ∷ rows) p h = elim (Bool-cases (ltb s.timestamp r.timestamp)) [
    | inl later ↦ rw later (h.0, All-insert_by_time P r rows p h.1)
    | inr here ↦ rw here (p, h)
  ]

  insert_by_time-IsSorted :
      (r : Row floats) (rows : List (Row floats))
      → IsSorted (row_times rows)
      → IsSorted (row_times (insert_by_time ext r rows))
  insert_by_time-IsSorted r [] h = (tt, tt)
  insert_by_time-IsSorted r (s ∷ rows) h = elim (Bool-cases (ltb s.timestamp r.timestamp)) [
    | inl later ↦ rw later (
      All-insert_by_time (λ t. s.timestamp ≤ t) r rows (ground arith) h.0,
      insert_by_time-IsSorted r rows h.1,
    )
    | inr here ↦
        let le : r.timestamp ≤ s.timestamp = ground arith in
        rw here (
          (
            le,
            All-map (λ t. s.timestamp ≤ t) (λ t. r.timestamp ≤ t) (λ t k. omega arith)
                (row_times rows) h.0,
          ),
          h,
        )
  ]

  sort_index-IsSorted : (rows : List (Row floats)) → IsSorted (row_times (sort_index ext rows))
  unfolding sort_index
  sort_index-IsSorted [] = tt
  sort_index-IsSorted (r ∷ rows) =
      insert_by_time-IsSorted r (sort_index ext rows) (sort_index-IsSorted rows)

  to_dataframe-IsSorted :
      (bars : List (Ohlcv floats.Float truncate)) {df : DataFrame floats}
      → to_dataframe ext bars ≡ ok df
      → IsSorted (row_times df.rows)
  unfolding to_dataframe
  to_dataframe-IsSorted [] h = absurd (cc)
  to_dataframe-IsSorted (b ∷ bs) h =
      subst (λ (z : DataFrame floats). IsSorted (row_times z.rows)) (ok_injective h)
        (sort_index-IsSorted _)

  run_strategy-IsSorted :
      (cls : StrategyClass) (job : JobOf ext) (df : DataFrame floats) {r : BacktestResult floats}
      → IsSorted (row_times df.rows)
      → run_strategy ext cls job df ≡ ok r
      → IsSorted (trade_times floats r.trades) × IsSorted (bar_times floats r.chart_data)
  unfolding run_strategy
  run_strategy-IsSorted bollinger_reversion_strategy job df sorted h =
      let (params, _, ran) = >>=-eq-ok (bollinger_params floats values job.parameters) _ h in
      run-IsSorted floats bbands local_time params df sorted ran

-- In whatever order the table of market data gives its rows, if the task of a symbol computes a result,
-- then in the row that it saves the trades and the index of the chart are in time order.
pub saved_result-IsSorted :
    (ext : Externals) (u : ℕ) (symbol : String) (job_table : ext.jobs.Table)
    (market_table : ext.market.Table) {r : BacktestResult ext.floats}
    → backtest_result ext u symbol job_table market_table ≡ ok r
    → let raw = (saved_result ext u symbol r).raw in
      IsSorted (trade_times ext.floats raw.trades) × IsSorted raw.index
unfolding backtest_result to_raw
saved_result-IsSorted ext u symbol job_table market_table {r = r} h =
    let types = json_types ext.floats ext.values in
    let (job, _, h1) = >>=-eq-ok (get_backtest_job types ext.jobs u job_table) _ h in
    let (found, _, h2) =
      >>=-eq-ok
        (get_ohlcv_data ext.floats.Float ext.truncate ext.market ext.midnight
          (record {
            symbol = symbol;
            interval = one_minute;
            start_date = job.start_date;
            end_date = job.end_date;
          })
          market_table)
        _ h1 in
    let (series, _, h3) = >>=-eq-ok (loaded ext symbol job found) _ h2 in
    let (df, frame, h4) = >>=-eq-ok (to_dataframe ext series.bars) _ h3 in
    let (cls, _, h5) = >>=-eq-ok (get_strategy job.strategy_name) _ h4 in
    let (trades, chart) =
      run_strategy-IsSorted ext cls job df (to_dataframe-IsSorted ext series.bars frame) h5 in
    (
      trades,
      filter-IsSorted ext.floats (λ (b : Bar ext.floats). not (has_nan ext.floats b)) r.chart_data
          chart,
    )
