-- ===== src/MarketData/Service.antt =====
-- `MarketDataService` of core/market_data/market_data_service.py, and the task of one symbol in
-- core/market_data/market_data_tasks.py. What the limiter answers is an argument.
pub mod Cache
pub mod Repeat
pub mod Partial
pub mod Found
pub mod NoData
use stock_trader.Prelude.{ℕ, Bool, Option, none, some, List, [], ◌∷◌, ◌++◌, String, if◌then◌else◌}
use stock_trader.Errors.{Exception, Result, ok, err, raise, is_instance, no_data_error, text, day}
use stock_trader.MarketData.Intervals.{Params}
use stock_trader.MarketData.Bars.{Request, Agg, OhlcvSeries, has_bars, fetch_ohlcv}
use stock_trader.MarketData.Rows.{MarketTables, get_ohlcv_data, bulk_insert_market_data}

-- The calls that leave the process, apart from the database's.
pub data Effect : Type 0 where
  acquired : Effect
  fetched : Request → Effect

-- The stored bars, and the effects so far, oldest first.
pub record World (Price : Type 0) (truncate : Price → ℕ) (tables : MarketTables Price truncate)
    : Type 0 where
  pub table : tables.Table
  pub effects : List Effect

module _ (Price : Type 0) (truncate : Price → ℕ) (tables : MarketTables Price truncate)
    (midnight : ℕ → ℕ)
    (list_aggs : String → Params → ℕ → ℕ → Result (List (Agg Price truncate))) where
  open tables use {Table}

  abbrev LocalWorld : Type 0
  LocalWorld = World Price truncate tables

  abbrev Answer : Type 0
  Answer = Result (OhlcvSeries Price truncate) × LocalWorld

  -- From the provider's answer on.
  abbrev pub stored : OhlcvSeries Price truncate → LocalWorld → Result Table → Answer
  stored series w (err e) = (err e, w)
  stored series w (ok t) = (ok series, record w { table = t })

  unfoldable pub save : Request → LocalWorld → Result (OhlcvSeries Price truncate) → Answer
  save r w (err e) = (err e, w)
  save r w (ok series) =
      if has_bars Price truncate series
      then stored series w (bulk_insert_market_data Price truncate tables midnight series w.table)
      else (
        raise no_data_error (
            text "No data returned for "
            ∷ text r.symbol
            ∷ text " ("
            ∷ day r.start_date
            ∷ text " to "
            ∷ day r.end_date
            ∷ text ")"
            ∷ []),
        w,
      )

  unfoldable pub fetch_and_save : Request → LocalWorld → Answer
  fetch_and_save r w =
      save r (record w { effects = w.effects ++ fetched r ∷ [] })
        (fetch_ohlcv Price truncate list_aggs r)

  abbrev pub after_acquire : Request → LocalWorld → Result (Unit {0}) → Answer
  after_acquire r w (err e) = (err e, w)
  after_acquire r w (ok _) = fetch_and_save r w

  -- From the miss on. A service may have no limiter.
  unfoldable pub fetch_missing : Option (Result (Unit {0})) → Request → LocalWorld → Answer
  fetch_missing none r w = fetch_and_save r w
  fetch_missing (some answer) r w =
      after_acquire r (record w { effects = w.effects ++ acquired ∷ [] }) answer

  abbrev pub after_lookup :
      Option (Result (Unit {0}))
      → Request
      → LocalWorld
      → Result (Option (OhlcvSeries Price truncate))
      → Answer
  after_lookup limiter r w (err e) = (err e, w)
  after_lookup limiter r w (ok none) = fetch_missing limiter r w
  after_lookup limiter r w (ok (some existing)) =
      if has_bars Price truncate existing then (ok existing, w) else fetch_missing limiter r w

  unfoldable pub ensure_data : Option (Result (Unit {0})) → Request → LocalWorld → Answer
  ensure_data limiter r w =
      after_lookup limiter r w (get_ohlcv_data Price truncate tables midnight r w.table)

  -- The `except NoDataError` of `ensure_market_data_for_symbol`.
  abbrev pub no_data_is_empty :
      Request → Result (OhlcvSeries Price truncate) → Result (OhlcvSeries Price truncate)
  no_data_is_empty r (ok series) = ok series
  no_data_is_empty r (err e) =
      if is_instance e no_data_error
      then ok (record { symbol = r.symbol; interval = r.interval; bars = [] })
      else err e

  -- `ensure_market_data_for_symbol` on arguments that have been parsed, without the retries.
  unfoldable pub ensure_market_data_for_symbol :
      Option (Result (Unit {0})) → Request → LocalWorld → Answer
  ensure_market_data_for_symbol limiter r w =
      let (result, w') = ensure_data limiter r w in (no_data_is_empty r result, w')
