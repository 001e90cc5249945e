-- ===== src/Strategy/Report.antt =====
-- `to_summary` and `to_raw` of core/strategies/models.py: what is stored of a result. JSON texts are
-- kept as the values that they show.
use stock_trader.Prelude.{ℕ, Bool, not, ◌||◌, List, map, filter, String}
use stock_trader.Strategy.Floats.{Floats}
use stock_trader.Strategy.Trades.{Trade}
use stock_trader.Strategy.Metrics.{BacktestMetrics}
use stock_trader.Strategy.Bollinger.{BollingerParams, Bar, BacktestResult}

module _ (floats : Floats) where
  open floats use {Float, le}

  pub record Summary : Type 0 where
    pub strategy : String
    pub params : BollingerParams floats
    pub start_date : ℕ
    pub end_date : ℕ
    pub metrics : BacktestMetrics floats

  unfoldable pub to_summary : String → BacktestResult floats → Summary
  to_summary name r = record {
    strategy = name;
    params = r.params;
    start_date = r.start_date;
    end_date = r.end_date;
    metrics = r.metrics;
  }

  -- A float that is not a number is the one that is not at most itself.
  abbrev pub is_nan : Float → Bool
  is_nan x = not (le x x)

  -- The stored columns `close`, `bb_lower`, `bb_middle` and `bb_upper`, and `dropna`.
  abbrev pub has_nan : Bar floats → Bool
  has_nan b = is_nan b.close || (is_nan b.bb_lower || (is_nan b.bb_middle || is_nan b.bb_upper))

  pub record RawRow : Type 0 where
    pub close : Float
    pub bb_lower : Float
    pub bb_middle : Float
    pub bb_upper : Float

  -- `orient="split"`: the index beside the rows.
  pub record Raw : Type 0 where
    pub index : List ℕ
    pub rows : List RawRow
    pub trades : List (Trade floats)

  unfoldable pub to_raw : BacktestResult floats → Raw
  to_raw r =
      let kept = filter (λ (b : Bar floats). not (has_nan b)) r.chart_data in
      record {
        index = map (λ (b : Bar floats). b.timestamp) kept;
        rows =
            map
              (λ (b : Bar floats). record {
                close = b.close;
                bb_lower = b.bb_lower;
                bb_middle = b.bb_middle;
                bb_upper = b.bb_upper;
              })
              kept;
        trades = r.trades;
      }
