-- ===== src/Strategy/Metrics/Counts.antt =====
-- The counts among the metrics, and how trades are paired.
use stock_trader.Prelude.{
  ℕ, ◌*◌, ◌≡◌, refl, sym, ap, subst, false, Option, List, [], ◌∷◌, arith, length,
}
use stock_trader.Errors.{ok, >>=-eq-ok}
use stock_trader.Strategy.Floats.{Floats}
use stock_trader.Strategy.Trades.{Trade}
use stock_trader.Strategy.Metrics.{
  BacktestMetrics, make_metrics, metrics_or_empty, equity_curve, start_curve, divide, pair_up,
  metrics_of, calculate_metrics,
}
use stock_trader.Strategy.Bollinger.{BollingerParams, DataFrame, Columns, run, BacktestResult}
use stock_trader.Strategy.Bollinger.Steps.{run-Ran}
use stock_trader.Strategy.Bollinger.Alternation.{Alternates, run-Alternates}

module _ (floats : Floats) where
  -- The trades of the pairs, in order.
  abbrev pub unpair : List (Trade floats × Trade floats) → List (Trade floats)
  unpair [] = []
  unpair ((b, s) ∷ ps) = b ∷ s ∷ unpair ps

  -- Alternating trades are paired without loss.
  pub unpair-pair_up :
      (ts : List (Trade floats))
      → Alternates floats false ts false
      → unpair (pair_up floats ts) ≡ ts
  unfolding pair_up
  unpair-pair_up [] h = refl
  unpair-pair_up (t ∷ []) h = absurd (cc)
  unpair-pair_up (t ∷ u ∷ rest) (first, (second, h)) =
      simp (first, second) (ap (λ z. t ∷ u ∷ z) (unpair-pair_up rest h))

  pub length-unpair : (ps : List (Trade floats × Trade floats)) → length (unpair ps) ≡ length ps * 2
  length-unpair [] = refl
  length-unpair ((b, s) ∷ ps) = omega (arith, length-unpair ps)

  metrics_of-num_trades :
      (ps : List (Trade floats × Trade floats)) (capital : floats.Float)
      {m : BacktestMetrics floats}
      → metrics_of floats ps capital ≡ ok m
      → m.num_trades ≡ length ps
  unfolding metrics_of make_metrics
  metrics_of-num_trades ps capital h =
      let (c, _, h') = >>=-eq-ok (equity_curve floats (start_curve floats capital) ps) _ h in
      let (total, _, made) = >>=-eq-ok (divide floats (floats.sub c.equity capital) capital) _ h' in
      ground arith

  -- Also where there are no pairs, `num_trades` is their number.
  pub calculate_metrics-num_trades :
      (ts : List (Trade floats)) (capital : floats.Float) {m : BacktestMetrics floats}
      → calculate_metrics floats ts capital ≡ ok m
      → m.num_trades ≡ length (pair_up floats ts)
  unfolding calculate_metrics pair_up
  calculate_metrics-num_trades [] capital h = cc
  calculate_metrics-num_trades (t ∷ ts) capital {m = m} h = go (pair_up floats (t ∷ ts)) h
    where
      go :
          (ps : List (Trade floats × Trade floats))
          → metrics_or_empty floats ps capital ≡ ok m
          → m.num_trades ≡ length ps
      go [] k = cc
      go (p ∷ ps) k = metrics_of-num_trades (p ∷ ps) capital k

-- The metrics of any run that does not raise count all of its trades: the pairs of `calculate_metrics`
-- put back in a row are the trades, and `num_trades` is half of their number.
pub run-num_trades :
    (floats : Floats) (bbands : ℕ → floats.Float → List floats.Float → Option (Columns floats))
    (local_time : ℕ → ℕ) (params : BollingerParams floats) (df : DataFrame floats)
    {r : BacktestResult floats}
    → run floats bbands local_time params df ≡ ok r
    → (unpair floats (pair_up floats r.trades) ≡ r.trades)
      × (r.metrics.num_trades * 2 ≡ length r.trades)
run-num_trades floats bbands local_time params df {r = r} e =
    let ran = run-Ran floats bbands local_time params df e in
    let all =
      unpair-pair_up floats r.trades (run-Alternates floats bbands local_time params df e) in
    let pairs = pair_up floats r.trades in
    let counted : r.metrics.num_trades ≡ length pairs =
      subst (λ ts. r.metrics.num_trades ≡ length (pair_up floats ts)) (sym ran.trades_eq)
        (calculate_metrics-num_trades floats ran.final.trades params.initial_capital
          ran.metrics_ok) in
    (all, omega (arith, length-unpair floats pairs, ap length all))
