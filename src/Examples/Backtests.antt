-- ===== src/Examples/Backtests.antt =====
-- The theorems on the strategy, on a run over seven rows.
use stock_trader.Prelude.{
  map, ℕ, ◌≡◌, ◌*◌, refl, Bool, true, false, Option, some, List, [], ◌∷◌, ◌++◌, drop, length, All,
}
use stock_trader.Errors.{ok, is_ok}
use stock_trader.Strategy.Trades.{
  Trade, make_trade, buy, sell, below_lower, at_exit_band, end_of_data,
}
use stock_trader.Strategy.Session.{regular_session_mask}
use stock_trader.Strategy.Metrics.{
  pair_up, metrics_of, make_metrics, trade_step, equity_curve, calculate_metrics,
}
use stock_trader.Strategy.Metrics.Reference.{last, equities, described, run-described}
use stock_trader.Strategy.Metrics.Counts.{unpair, run-num_trades}
use stock_trader.Strategy.Metrics.Drawdown.{metrics_of-is_ok}
use stock_trader.Strategy.Bollinger.{
  middle, BollingerParams, Row, DataFrame, Columns, find_column, apply_bands, Bar, bars_from, State,
  start, emit, step, scan, force_exit, BacktestResult, trade_bars, run,
}
use stock_trader.Strategy.Bollinger.Alternation.{Alternates, run-Alternates}
use stock_trader.Strategy.Bollinger.Provenance.{IsFirstColumn}
use stock_trader.Strategy.Bollinger.Grounded.{IsGrounded, exit_prefix, run-IsGrounded}
use stock_trader.Strategy.Bollinger.Gating.{scan-filter_session, signals_succeed}
use stock_trader.Examples.Naturals.{naturals, naturals-FloatLaws}

-- Constant bands, as pandas-ta names them.
abbrev pub constant_bands : ℕ → ℕ → List ℕ → Option (Columns naturals)
constant_bands length std_dev closes =
    some (("BBL_2_2.0", λ i. 15) ∷ ("BBM_2_2.0", λ i. 20) ∷ ("BBU_2_2.0", λ i. 25) ∷ [])

abbrev params : BollingerParams naturals
params = record { length = 2; std_dev = 2; exit_at = middle; initial_capital = 1000 }

abbrev row : ℕ → ℕ → Row naturals
row t close = record { timestamp = t; close = close }

-- The fourth row and the last are outside the session, which is from 34200000000 on.
abbrev frame : DataFrame naturals
frame = record {
  aware = true;
  rows =
      row 34200000001 20
      ∷ row 34200000002 12
      ∷ row 34200000003 10
      ∷ row 5 40
      ∷ row 34200000005 20
      ∷ row 34200000006 11
      ∷ row 34200000007 12
      ∷ row 6 30
      ∷ [];
}

abbrev bar : ℕ → ℕ → Bool → Bar naturals
bar t close in_session = record {
  timestamp = t;
  close = close;
  bb_lower = 15;
  bb_middle = 20;
  bb_upper = 25;
  in_session = in_session;
}

abbrev late_bars : List (Bar naturals)
late_bars = bar 34200000006 11 true ∷ bar 34200000007 12 true ∷ bar 6 30 false ∷ []

abbrev early_bars : List (Bar naturals)
early_bars = bar 34200000003 10 true ∷ bar 5 40 false ∷ bar 34200000005 20 true ∷ []

abbrev bars : List (Bar naturals)
bars = bar 34200000001 20 true ∷ bar 34200000002 12 true ∷ early_bars ++ late_bars

abbrev first_trade : Trade naturals
first_trade = record {
  timestamp = 34200000003;
  signal = buy;
  price = 10;
  reason = below_lower 10 15;
}

abbrev second_trade : Trade naturals
second_trade = record {
  timestamp = 34200000005;
  signal = sell;
  price = 20;
  reason = at_exit_band 20 20;
}

abbrev third_trade : Trade naturals
third_trade = record {
  timestamp = 34200000006;
  signal = buy;
  price = 11;
  reason = below_lower 11 15;
}

abbrev fourth_trade : Trade naturals
fourth_trade = record { timestamp = 34200000007; signal = sell; price = 12; reason = end_of_data }

abbrev result : BacktestResult naturals
result = record {
  params = params;
  start_date = 34200000001;
  end_date = 6;
  trades = first_trade ∷ second_trade ∷ third_trade ∷ fourth_trade ∷ [];
  metrics = record {
    total_return_pct = 100;
    num_trades = 2;
    win_rate = 100;
    max_drawdown_pct = 0;
    ending_capital = 2000;
  };
  chart_data = bars;
}

run-frame : run naturals constant_bands (λ t. t) params frame ≡ ok result
unfolding run apply_bands find_column regular_session_mask bars_from trade_bars scan step emit
    make_trade force_exit calculate_metrics pair_up metrics_of make_metrics equity_curve trade_step
run-frame = refl

run-Alternates_example : Alternates naturals false result.trades false
run-Alternates_example = run-Alternates naturals constant_bands (λ t. t) params frame run-frame

run-IsGrounded_example :
    (columns : Columns naturals) × (lower : ℕ → ℕ) × (exit_band : ℕ → ℕ) × (constant_bands 2 2
        (map (λ (z : Row naturals). z.close) frame.rows)
      ≡ some columns)
    × IsFirstColumn naturals "BBL" columns lower
    × IsFirstColumn naturals (exit_prefix middle) columns exit_band
    × All (IsGrounded naturals (λ t. t) 2 frame.rows lower exit_band) result.trades
run-IsGrounded_example = run-IsGrounded naturals constant_bands (λ t. t) params frame run-frame

run-num_trades_example :
    (unpair naturals (pair_up naturals result.trades) ≡ result.trades)
    × (result.metrics.num_trades * 2 ≡ length result.trades)
run-num_trades_example = run-num_trades naturals constant_bands (λ t. t) params frame run-frame

run-described_example :
    result.metrics
    ≡ described naturals
        ((first_trade, second_trade) ∷ (third_trade, fourth_trade) ∷ [])
        params.initial_capital
run-described_example =
    run-described naturals constant_bands (λ t. t) params frame
      ((first_trade, second_trade) ∷ (third_trade, fourth_trade) ∷ []) run-frame refl

metrics_of-is_ok_example :
    is_ok (metrics_of naturals ((first_trade, second_trade) ∷ []) 1000)
    ≡ naturals.le 0 (last naturals 1000 (equities naturals 1000 ((first_trade, second_trade) ∷ [])))
metrics_of-is_ok_example =
    metrics_of-is_ok naturals naturals-FloatLaws (first_trade, second_trade) [] 1000 refl (refl, tt)

scan-filter_session_example :
    scan naturals middle early_bars (start naturals)
    ≡ scan naturals middle (bar 34200000003 10 true ∷ bar 34200000005 20 true ∷ []) (start naturals)
scan-filter_session_example = scan-filter_session naturals middle early_bars (start naturals)

signals_succeed_example :
    (scanned : State naturals) × (final : State naturals) × (scan naturals middle
        (drop 2 bars)
        (start naturals)
      ≡ ok scanned)
    × (force_exit naturals bars scanned ≡ ok final)
signals_succeed_example =
    signals_succeed naturals middle 2 bars
      (refl, (refl, (refl, (refl, (refl, (refl, (refl, (refl, tt))))))))
