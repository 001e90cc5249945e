-- ===== src/Strategy/Metrics/Reference.antt =====
-- The metrics described from the list of all values of the equity, in place of one pass with a peak.
use stock_trader.Prelude.{
  ℕ, suc, Bool-cases, inl, inr, subst, if◌then◌else◌, ◌≡◌, refl, sym, ap, ◌∙◌, Option, List, [],
  ◌∷◌, ◌++◌, arith, length, filter,
}
use stock_trader.Errors.{ok, >>=-eq-ok}
use stock_trader.Strategy.Floats.{Floats}
use stock_trader.Strategy.Trades.{Trade}
use stock_trader.Strategy.Metrics.{
  Curve, BacktestMetrics, divide, is_zero, make_metrics, metrics_or_empty, pair_up, is_win,
  max_float, trade_step, equity_curve, start_curve, metrics_of, calculate_metrics,
}
use stock_trader.Strategy.Metrics.Counts.{unpair, unpair-pair_up}
use stock_trader.Strategy.Bollinger.{BollingerParams, DataFrame, Columns, run, BacktestResult}
use stock_trader.Strategy.Bollinger.Steps.{run-Ran}
use stock_trader.Strategy.Bollinger.Alternation.{run-Alternates}

module _ (floats : Floats) where
  open floats use {Float, add, sub, mul, div, from_nat, round2}

  abbrev Pairs : Type 0
  Pairs = List (Trade floats × Trade floats)

  -- The equity after each completed trade: what was there, times one and the return of the trade.
  abbrev pub equities : Float → Pairs → List Float
  equities capital [] = []
  equities capital ((b, s) ∷ ps) =
      let equity = mul capital (add (from_nat 1) (div (sub s.price b.price) b.price)) in
      equity ∷ equities equity ps

  abbrev pub last : Float → List Float → Float
  last e [] = e
  last e (f ∷ fs) = last f fs

  -- The highest value, the first of equal ones.
  abbrev pub highest : Float → List Float → Float
  highest h [] = h
  highest h (e ∷ es) = highest (if floats.lt h e then e else h) es

  -- The pairs that sell for more than they bought.
  abbrev pub winners : Pairs → ℕ
  winners [] = 0
  winners ((b, s) ∷ ps) = if floats.lt b.price s.price then suc (winners ps) else winners ps

  -- The drawdown at each value: below the highest of the capital and all values so far, `before` the
  -- first of these.
  abbrev pub drawdowns : Float → List Float → List Float → List Float
  drawdowns capital before [] = []
  drawdowns capital before (e ∷ es) =
      let peak = highest capital (before ++ e ∷ []) in
      div (sub peak e) peak ∷ drawdowns capital (before ++ e ∷ []) es

  -- The metrics from the equity at the end and the greatest drawdown.
  abbrev pub reported : Pairs → Float → Float → Float → BacktestMetrics floats
  reported ps capital equity drawdown = record {
    total_return_pct = round2 (mul (div (sub equity capital) capital) (from_nat 100));
    num_trades = length ps;
    win_rate = round2 (mul (div (from_nat (winners ps)) (from_nat (length ps))) (from_nat 100));
    max_drawdown_pct = round2 (mul drawdown (from_nat 100));
    ending_capital = round2 equity;
  }

  abbrev pub described : Pairs → Float → BacktestMetrics floats
  described [] capital = record {
    total_return_pct = from_nat 0;
    num_trades = 0;
    win_rate = from_nat 0;
    max_drawdown_pct = from_nat 0;
    ending_capital = from_nat 0;
  }
  described (p ∷ ps) capital =
      let values = equities capital (p ∷ ps) in
      reported (p ∷ ps) capital (last capital values)
        (highest (from_nat 0) (drawdowns capital [] values))

  highest-snoc :
      (h : Float) (es : List Float) (e : Float)
      → highest h (es ++ e ∷ []) ≡ max_float floats (highest h es) e
  highest-snoc h [] e = refl
  highest-snoc h (f ∷ fs) e = highest-snoc (max_float floats h f) fs e

  winners-filter : (ps : Pairs) → length (filter (is_win floats) ps) ≡ winners ps
  winners-filter [] = refl
  winners-filter ((b, s) ∷ ps) = elim (Bool-cases (floats.lt b.price s.price)) [
    | inl more ↦ rw more (ap suc (winners-filter ps))
    | inr less ↦ rw less (winners-filter ps)
  ]

  -- One turn of the loop that does not raise.
  trade_step-ok :
      (equity peak drawdown : Float) (b s : Trade floats) {c : Curve floats}
      → trade_step floats (record { equity = equity; peak = peak; max_drawdown = drawdown }) (b, s)
        ≡ ok c
      → let e = mul equity (add (from_nat 1) (div (sub s.price b.price) b.price)) in
        let high = max_float floats peak e in
        c ≡ record {
          equity = e;
          peak = high;
          max_drawdown = max_float floats drawdown (div (sub high e) high);
        }
  unfolding trade_step
  trade_step-ok equity peak drawdown b s h =
      let high =
        max_float floats peak (mul equity (add (from_nat 1) (div (sub s.price b.price) b.price))) in
      elim (Bool-cases (is_zero floats b.price)) [
        | inl zero_price ↦ absurd (let k = rw zero_price at h in cc)
        | inr priced ↦ elim (Bool-cases (is_zero floats high)) [
          | inl zero_peak ↦ absurd (let k = rw (priced, zero_peak) at h in cc)
          | inr peaked ↦ let k = rw (priced, peaked) at h in cc
        ]
      ]

  -- The one pass gives the last value, and the highest of the drawdowns.
  pub equity_curve-drawdowns :
      (ps : Pairs) (capital equity peak drawdown : Float) (before : List Float) {c : Curve floats}
      → peak ≡ highest capital before
      → equity_curve floats (record { equity = equity; peak = peak; max_drawdown = drawdown }) ps
        ≡ ok c
      → (c.equity ≡ last equity (equities equity ps))
        × (c.max_drawdown ≡ highest drawdown (drawdowns capital before (equities equity ps)))
  unfolding equity_curve
  equity_curve-drawdowns [] capital equity peak drawdown before {c = c} h done =
      let same : record { equity = equity; peak = peak; max_drawdown = drawdown } ≡ c = cc in
      (
        ap (λ (z : Curve floats). z.equity) (sym same),
        ap (λ (z : Curve floats). z.max_drawdown) (sym same),
      )
  equity_curve-drawdowns ((b, s) ∷ ps) capital equity peak drawdown before {c = c} h done =
      let (next, stepped, rest) =
        >>=-eq-ok
          (trade_step floats (record { equity = equity; peak = peak; max_drawdown = drawdown })
            (b, s))
          _ done in
      let e = mul equity (add (from_nat 1) (div (sub s.price b.price) b.price)) in
      let high = max_float floats peak e in
      let peak' : high ≡ highest capital (before ++ e ∷ []) =
        ap (λ z. max_float floats z e) h ∙ sym (highest-snoc capital before e) in
      let (values, falls) =
        equity_curve-drawdowns ps capital e high (max_float floats drawdown (div (sub high e) high))
          (before ++ e ∷ []) peak'
          (subst (λ z. equity_curve floats z ps ≡ ok c)
            (trade_step-ok equity peak drawdown b s stepped) rest) in
      (
        values,
        falls
            ∙ ap
                (λ z.
                  highest (max_float floats drawdown (div (sub z e) z))
                    (drawdowns capital (before ++ e ∷ []) (equities e ps)))
                peak',
      )

  divide-ok : (a b : Float) {q : Float} → divide floats a b ≡ ok q → q ≡ div a b
  divide-ok a b h = elim (Bool-cases (is_zero floats b)) [
    | inl zero_b ↦ absurd (let k = rw zero_b at h in cc)
    | inr other ↦ let k = rw other at h in cc
  ]

  abbrev counted : Pairs → Float → ℕ → Float → Float → BacktestMetrics floats
  counted ps total wins drawdown equity = record {
    total_return_pct = round2 (mul total (from_nat 100));
    num_trades = length ps;
    win_rate = round2 (mul (div (from_nat wins) (from_nat (length ps))) (from_nat 100));
    max_drawdown_pct = round2 (mul drawdown (from_nat 100));
    ending_capital = round2 equity;
  }

  make_metrics-ok :
      (total : Float) (n : ℕ) (rate fall equity : Float) {m : BacktestMetrics floats}
      → make_metrics floats total n rate fall equity ≡ ok m
      → m ≡ record {
        total_return_pct = total;
        num_trades = n;
        win_rate = rate;
        max_drawdown_pct = fall;
        ending_capital = equity;
      }
  unfolding make_metrics
  make_metrics-ok total n rate fall equity h = ground arith

  metrics_or_empty-described :
      (ps : Pairs) (capital : Float) {m : BacktestMetrics floats}
      → metrics_or_empty floats ps capital ≡ ok m
      → m ≡ described ps capital
  unfolding metrics_of
  metrics_or_empty-described [] capital h = cc
  metrics_or_empty-described (p ∷ ps) capital {m = m} h =
      let (c, passed, h') =
        >>=-eq-ok (equity_curve floats (start_curve floats capital) (p ∷ ps)) _ h in
      let (values, falls) =
        equity_curve-drawdowns (p ∷ ps) capital capital capital (from_nat 0) [] refl passed in
      let (total, divided, made) = >>=-eq-ok (divide floats (sub c.equity capital) capital) _ h' in
      let kept = make_metrics-ok _ _ _ _ _ made in
      let wins = winners-filter (p ∷ ps) in
      let quotient = divide-ok (sub c.equity capital) capital divided in
      kept
      ∙ ap
          (λ z.
            counted (p ∷ ps) z (length (filter (is_win floats) (p ∷ ps))) c.max_drawdown c.equity)
          quotient
      ∙ ap (λ z. counted (p ∷ ps) (div (sub c.equity capital) capital) z c.max_drawdown c.equity)
          wins
      ∙ ap (λ z. reported (p ∷ ps) capital z c.max_drawdown) values
      ∙ ap (reported (p ∷ ps) capital _) falls

  calculate_metrics-described :
      (ts : List (Trade floats)) (capital : Float) {m : BacktestMetrics floats}
      → calculate_metrics floats ts capital ≡ ok m
      → m ≡ described (pair_up floats ts) capital
  unfolding calculate_metrics pair_up
  calculate_metrics-described [] capital h = cc
  calculate_metrics-described (t ∷ ts) capital h =
      metrics_or_empty-described (pair_up floats (t ∷ ts)) capital h

  pair_up-unpair : (ps qs : Pairs) → unpair floats ps ≡ unpair floats qs → ps ≡ qs
  pair_up-unpair [] [] h = refl
  pair_up-unpair [] (q ∷ qs) h = absurd (cc)
  pair_up-unpair (p ∷ ps) [] h = absurd (cc)
  pair_up-unpair (p ∷ ps) (q ∷ qs) h =
      let rest : unpair floats ps ≡ unpair floats qs = cc in
      let tail = pair_up-unpair ps qs rest in
      let first : p.0 ≡ q.0 = cc in let second : p.1 ≡ q.1 = cc in cc

-- Let the trades of a run that does not raise be these pairs in a row. Then, whatever the arithmetic
-- gives, its metrics are what the pairs describe: the return from the capital to the last equity, the
-- number of pairs, the share of those that sell for more, the greatest of 0 and all drawdowns, each below
-- the highest equity up to it, and the last equity. Without trades all are 0, the ending capital too.
pub run-described :
    (floats : Floats) (bbands : ℕ → floats.Float → List floats.Float → Option (Columns floats))
    (local_time : ℕ → ℕ) (params : BollingerParams floats) (df : DataFrame floats)
    {r : BacktestResult floats} (ps : List (Trade floats × Trade floats))
    → run floats bbands local_time params df ≡ ok r
    → unpair floats ps ≡ r.trades
    → r.metrics ≡ described floats ps params.initial_capital
run-described floats bbands local_time params df {r = r} ps e split =
    let ran = run-Ran floats bbands local_time params df e in
    let whole =
      unpair-pair_up floats r.trades (run-Alternates floats bbands local_time params df e) in
    let same = pair_up-unpair floats ps (pair_up floats r.trades) (split ∙ sym whole) in
    calculate_metrics-described floats ran.final.trades params.initial_capital ran.metrics_ok
    ∙ ap (λ ts. described floats (pair_up floats ts) params.initial_capital) (sym ran.trades_eq)
    ∙ ap (λ z. described floats z params.initial_capital) (sym same)
