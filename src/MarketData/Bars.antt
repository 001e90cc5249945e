-- ===== src/MarketData/Bars.antt =====
-- OHLCV bars (core/models/ohlcv_series.py), and how the provider builds them
-- (core/market_data/providers/massive/mapper.py and provider.py). The REST client is an argument.
use stock_trader.Prelude.{ℕ, ◌*◌, ◌≡◌, refl, Bool, Option, List, ◌∷◌, String, map, length, ltb}
use stock_trader.Errors.{Result, ok, err, raise, provider_error, text, ◌>>=◌}
use stock_trader.Models.{
  Interval, one_minute, five_minute, fifteen_minute, thirty_minute, one_hour, daily,
}
use stock_trader.MarketData.Intervals.{Params, resolve_interval, provider_params}

-- The arguments of a fetch. Dates are ordinals.
pub record Request : Type 0 where
  pub symbol : String
  pub interval : Interval
  pub start_date : ℕ
  pub end_date : ℕ

-- `Price` stands for a float, and `truncate` for `int` of one.
module _ (Price : Type 0) (truncate : Price → ℕ) where
  -- Instants are microseconds.
  pub record Ohlcv : Type 0 where
    pub timestamp : ℕ
    pub open_price : Price
    pub high : Price
    pub low : Price
    pub close : Price
    pub volume : ℕ
    pub vwap : Option Price
    pub transactions : Option ℕ

  pub record OhlcvSeries : Type 0 where
    pub symbol : String
    pub interval : Interval
    pub bars : List Ohlcv

  -- `__bool__`
  unfoldable pub has_bars : OhlcvSeries → Bool
  has_bars s = ltb 0 (length s.bars)

  -- The client's `Agg`, one with all of its prices and its volume; its time is in milliseconds.
  pub record Agg : Type 0 where
    pub timestamp : ℕ
    pub open_price : Price
    pub high : Price
    pub low : Price
    pub close : Price
    pub volume : Price
    pub vwap : Option Price
    pub transactions : Option ℕ

  unfoldable pub agg_to_ohlcv : Agg → Ohlcv
  agg_to_ohlcv agg = record {
    timestamp = agg.timestamp * 1000;
    open_price = agg.open_price;
    high = agg.high;
    low = agg.low;
    close = agg.close;
    volume = truncate agg.volume;
    vwap = agg.vwap;
    transactions = agg.transactions;
  }

  unfoldable pub aggs_to_ohlcv_series : List Agg → String → ℕ → String → Result OhlcvSeries
  aggs_to_ohlcv_series aggs symbol multiplier timespan = do
    interval ← resolve_interval multiplier timespan
    ok (record { symbol = symbol; interval = interval; bars = map agg_to_ohlcv aggs })

  -- `except Exception as exc: raise ProviderError(...) from exc`
  abbrev pub wrap : String → Result OhlcvSeries → Result OhlcvSeries
  wrap symbol (ok series) = ok series
  wrap symbol (err exc) =
      raise provider_error
        (text "[massive] Failed to fetch " ∷ text symbol ∷ text ": " ∷ exc.message)

  module _ (list_aggs : String → Params → ℕ → ℕ → Result (List Agg)) where
    unfoldable pub fetch_ohlcv : Request → Result OhlcvSeries
    fetch_ohlcv r = do
      params ← provider_params r.interval
      wrap r.symbol (
          list_aggs r.symbol params r.start_date r.end_date >>= λ aggs.
          aggs_to_ohlcv_series aggs r.symbol params.0 params.1)

params_of :
    (i : Interval)
    → (params : Params) × (provider_params i ≡ ok params)
      × (resolve_interval params.0 params.1 ≡ ok i)
unfolding provider_params resolve_interval
params_of one_minute = ((1, "minute"), refl, refl)
params_of five_minute = ((5, "minute"), refl, refl)
params_of fifteen_minute = ((15, "minute"), refl, refl)
params_of thirty_minute = ((30, "minute"), refl, refl)
params_of one_hour = ((1, "hour"), refl, refl)
params_of daily = ((1, "day"), refl, refl)

wrapped :
    (Price : Type 0) (truncate : Price → ℕ) (symbol : String) (i : Interval) (params : Params)
    (answer : Result (List (Agg Price truncate)))
    → resolve_interval params.0 params.1 ≡ ok i
    → wrap Price truncate symbol
        (answer >>= λ aggs. aggs_to_ohlcv_series Price truncate aggs symbol params.0 params.1)
      ≡ (elim answer [
        | ok aggs ↦ ok (record {
          symbol = symbol;
          interval = i;
          bars = map (agg_to_ohlcv Price truncate) aggs;
        })
        | err exc ↦
            raise provider_error
              (text "[massive] Failed to fetch " ∷ text symbol ∷ text ": " ∷ exc.message)
      ])
unfolding aggs_to_ohlcv_series
wrapped Price truncate symbol i params (ok aggs) e = rw e refl
wrapped Price truncate symbol i params (err exc) e = refl

-- Whatever the client does, `fetch_ohlcv` raises a ProviderError exactly when the client raises, with
-- the client's message behind the symbol; else it gives one bar for each of the client's, in order,
-- under the symbol and the interval of the request.
pub fetch_ohlcv_lem :
    (Price : Type 0) (truncate : Price → ℕ)
    (list_aggs : String → Params → ℕ → ℕ → Result (List (Agg Price truncate))) (r : Request)
    → (params : Params) × (provider_params r.interval ≡ ok params)
      × (fetch_ohlcv Price truncate list_aggs r
          ≡ (elim (list_aggs r.symbol params r.start_date r.end_date) [
            | ok aggs ↦ ok (record {
              symbol = r.symbol;
              interval = r.interval;
              bars = map (agg_to_ohlcv Price truncate) aggs;
            })
            | err exc ↦
                raise provider_error
                  (text "[massive] Failed to fetch " ∷ text r.symbol ∷ text ": " ∷ exc.message)
          ]))
unfolding fetch_ohlcv
fetch_ohlcv_lem Price truncate list_aggs r =
    let (params, sent, back) = params_of r.interval in
    (
      params,
      sent,
      rw sent (
          wrapped Price truncate r.symbol r.interval params
            (list_aggs r.symbol params r.start_date r.end_date) back),
    )
