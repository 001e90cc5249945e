-- ===== src/Strategy/Metrics.antt =====
-- `calculate_metrics` of core/strategies/models.py.
pub mod Counts
pub mod Drawdown
pub mod Reference
use stock_trader.Prelude.{
  ℕ, zero, suc, ◌+◌, Bool, true, false, ◌&&◌, ◌||◌, List, [], ◌∷◌, length, filter, if◌then◌else◌,
}
use stock_trader.Errors.{Result, ok, raise, validation_error, zero_division_error, text, ◌>>=◌}
use stock_trader.Strategy.Floats.{Floats}
use stock_trader.Strategy.Trades.{SignalType, buy, sell, Trade}

abbrev pub is_buy : SignalType → Bool
is_buy buy = true
is_buy sell = false

abbrev pub is_sell : SignalType → Bool
is_sell buy = false
is_sell sell = true

module _ (floats : Floats) where
  open floats use {Float, lt, le, add, sub, mul, div, from_nat, round2}

  pub record BacktestMetrics : Type 0 where
    pub total_return_pct : Float
    pub num_trades : ℕ
    pub win_rate : Float
    pub max_drawdown_pct : Float
    pub ending_capital : Float

  -- `BacktestMetrics()`
  abbrev pub empty_metrics : BacktestMetrics
  empty_metrics = record {
    total_return_pct = from_nat 0;
    num_trades = 0;
    win_rate = from_nat 0;
    max_drawdown_pct = from_nat 0;
    ending_capital = from_nat 0;
  }

  -- `BacktestMetrics(...)` with the constraints of its fields.
  unfoldable pub make_metrics : Float → ℕ → Float → Float → Float → Result BacktestMetrics
  make_metrics total_return_pct num_trades win_rate max_drawdown_pct ending_capital =
      if le (from_nat 0) win_rate
        && (le win_rate (from_nat 100)
            && (le (from_nat 0) max_drawdown_pct && le (from_nat 0) ending_capital))
      then ok (record {
        total_return_pct = total_return_pct;
        num_trades = num_trades;
        win_rate = win_rate;
        max_drawdown_pct = max_drawdown_pct;
        ending_capital = ending_capital;
      })
      else raise validation_error (text "BacktestMetrics" ∷ [])

  -- The loop `for i in range(0, len(trades) - 1, 2)`.
  unfoldable pub pair_up : List (Trade floats) → List (Trade floats × Trade floats)
  pair_up [] = []
  pair_up (t ∷ []) = []
  pair_up (t ∷ u ∷ rest) =
      let pairs = pair_up rest in
      if is_buy t.signal && is_sell u.signal then (t, u) ∷ pairs else pairs

  abbrev pub is_win : Trade floats × Trade floats → Bool
  is_win (b, s) = lt b.price s.price

  -- The builtin `max` of two floats keeps its first argument unless the second is greater.
  abbrev pub max_float : Float → Float → Float
  max_float a b = if lt a b then b else a

  -- `equity`, `peak` and `max_drawdown`
  pub record Curve : Type 0 where
    pub equity : Float
    pub peak : Float
    pub max_drawdown : Float

  -- `a == 0.0`
  abbrev pub is_zero : Float → Bool
  is_zero a = le a (from_nat 0) && le (from_nat 0) a

  -- `a / b`
  abbrev pub divide : Float → Float → Result Float
  divide a b =
      if is_zero b
      then raise zero_division_error (text "float division by zero" ∷ [])
      else ok (div a b)

  -- One turn of the loop over the completed trades.
  unfoldable pub trade_step : Curve → Trade floats × Trade floats → Result Curve
  trade_step c (b, s) = do
    pnl ← divide (sub s.price b.price) b.price
    let equity = mul c.equity (add (from_nat 1) pnl)
    let peak = max_float c.peak equity
    drawdown ← divide (sub peak equity) peak
    ok (record { equity = equity; peak = peak; max_drawdown = max_float c.max_drawdown drawdown })

  unfoldable pub equity_curve : Curve → List (Trade floats × Trade floats) → Result Curve
  equity_curve c [] = ok c
  equity_curve c (p ∷ ps) = trade_step c p >>= λ c'. equity_curve c' ps

  abbrev pub start_curve : Float → Curve
  start_curve capital = record { equity = capital; peak = capital; max_drawdown = from_nat 0 }

  -- The values after `if not completed_trades`.
  unfoldable pub metrics_of : List (Trade floats × Trade floats) → Float → Result BacktestMetrics
  metrics_of completed capital = do
    let wins = length (filter is_win completed)
    c ← equity_curve (start_curve capital) completed
    total ← divide (sub c.equity capital) capital
    make_metrics (round2 (mul total (from_nat 100))) (length completed)
        (round2 (mul (div (from_nat wins) (from_nat (length completed))) (from_nat 100)))
        (round2 (mul c.max_drawdown (from_nat 100))) (round2 c.equity)

  abbrev pub metrics_or_empty : List (Trade floats × Trade floats) → Float → Result BacktestMetrics
  metrics_or_empty [] capital = ok empty_metrics
  metrics_or_empty (p ∷ ps) capital = metrics_of (p ∷ ps) capital

  unfoldable pub calculate_metrics : List (Trade floats) → Float → Result BacktestMetrics
  calculate_metrics [] capital = ok empty_metrics
  calculate_metrics (t ∷ ts) capital = metrics_or_empty (pair_up (t ∷ ts)) capital
