-- ===== src/MarketData/Rows.antt =====
-- Stored bars: db/models/market_data.py and db/repositories/market_data_repo.py. PostgreSQL is a
-- parameter, with laws on what its statements are documented to do.
pub mod RoundTrip
use stock_trader.Prelude.{
  ℕ, suc, ◌≤◌, ◌<◌, ◌≡◌, ◌≢◌, Bool, true, Option, none, some, List, [], ◌∷◌, String, map, All,
  str_eq, if◌then◌else◌,
}
use stock_trader.Errors.{Result, ok, raise, value_error, text, ◌>>=◌}
use stock_trader.Models.{Interval}
use stock_trader.MarketData.Bars.{Request, Ohlcv, OhlcvSeries}

module _ (Price : Type 0) (truncate : Price → ℕ) where
  -- `MarketDataTableSchema`, without its own identifier and time of creation.
  pub record Row : Type 0 where
    pub symbol : String
    pub interval : Interval
    pub timestamp : ℕ
    pub open_price : Price
    pub high : Price
    pub low : Price
    pub close : Price
    pub volume : ℕ

  pub record MarketTables : Type 1 where
    pub Table : Type 0
    -- the query: rows of a symbol and an interval from one instant to before another, by time
    pub select_range : String → Interval → ℕ → ℕ → Table → List Row
    -- `INSERT ... ON CONFLICT DO NOTHING`, which fails on a value that the columns do not take
    pub insert_ignoring : List Row → Table → Result Table
    -- whether a row with this unique key is there
    pub has_key : String → Interval → ℕ → Table → Bool
    pub select_range-symbol :
        (s : String) (i : Interval) (lo hi : ℕ) (t : Table)
        → All (λ (r : Row). r.symbol ≡ s) (select_range s i lo hi t)
    pub select_range-has_key :
        (s : String) (i : Interval) (lo hi at : ℕ) (t : Table)
        → has_key s i at t ≡ true
        → lo ≤ at
        → at < hi
        → select_range s i lo hi t ≢ []
    pub has_key-insert_ignoring :
        (rows : List Row) (t t' : Table)
        → insert_ignoring rows t ≡ ok t'
        → All (λ (r : Row). has_key r.symbol r.interval r.timestamp t' ≡ true) rows
    -- an insertion removes no row
    pub select_range-insert_ignoring :
        (rows : List Row) (t t' : Table) (s : String) (i : Interval) (lo hi : ℕ)
        → insert_ignoring rows t ≡ ok t'
        → select_range s i lo hi t ≢ []
        → select_range s i lo hi t' ≢ []

  unfoldable pub from_record : Row → Ohlcv Price truncate
  from_record r = record {
    timestamp = r.timestamp;
    open_price = r.open_price;
    high = r.high;
    low = r.low;
    close = r.close;
    volume = r.volume;
    vwap = none;
    transactions = none;
  }

  -- An interval is never false; the first row's symbol may be.
  unfoldable pub from_records : List Row → Result (OhlcvSeries Price truncate)
  from_records [] = raise value_error (text "No records to convert to OHLCVSeries" ∷ [])
  from_records (r ∷ rs) =
      if str_eq r.symbol ""
      then raise value_error
          (text "Records must have symbol and interval to convert to OHLCVSeries" ∷ [])
      else ok (record { symbol = r.symbol; interval = r.interval; bars = map from_record (r ∷ rs) })

  unfoldable pub to_record : Ohlcv Price truncate → String → Interval → Row
  to_record ohlcv symbol interval = record {
    symbol = symbol;
    interval = interval;
    timestamp = ohlcv.timestamp;
    open_price = ohlcv.open_price;
    high = ohlcv.high;
    low = ohlcv.low;
    close = ohlcv.close;
    volume = ohlcv.volume;
  }

  -- The values of `bulk_insert_market_data`.
  unfoldable pub records : OhlcvSeries Price truncate → List Row
  records data_ =
      map
        (λ (bar : Ohlcv Price truncate). record {
          symbol = data_.symbol;
          interval = data_.interval;
          timestamp = bar.timestamp;
          open_price = bar.open_price;
          high = bar.high;
          low = bar.low;
          close = bar.close;
          volume = bar.volume;
        })
        data_.bars

  abbrev pub none_or_series : List Row → Result (Option (OhlcvSeries Price truncate))
  none_or_series [] = ok none
  none_or_series (r ∷ rs) = from_records (r ∷ rs) >>= λ s. ok (some s)

  -- `midnight` gives the instant at which a date starts in the database's time zone.
  module _ (tables : MarketTables) (midnight : ℕ → ℕ) where
    open tables use {Table, select_range, insert_ignoring}

    unfoldable pub get_ohlcv_data : Request → Table → Result (Option (OhlcvSeries Price truncate))
    get_ohlcv_data r t =
        none_or_series
          (select_range r.symbol r.interval (midnight r.start_date) (midnight (suc r.end_date)) t)

    unfoldable pub bulk_insert_market_data : OhlcvSeries Price truncate → Table → Result Table
    bulk_insert_market_data data_ t = insert_ignoring (records data_) t
