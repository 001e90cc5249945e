-- ===== src/Strategy/Bollinger/Chronology.antt =====
-- The trades of a run in time order.
use stock_trader.Prelude.Subsequence.{
  Sub, empty, skip, Sub-All, Sub-IsSorted, Sub-skip_last, Sub-keep_last,
}
use stock_trader.Strategy.Bollinger.Times.{
  bar_times, last_latest, filter-IsSorted, bars_from-IsSorted,
}
use stock_trader.Prelude.{
  ℕ, zero, suc, ◌≤◌, ◌≡◌, refl, sym, ◌∙◌, subst, inl, inr, Bool, true, false, Option, List, [], ◌∷◌,
  ◌++◌, drop, filter, map, Bool-cases,
}
use stock_trader.Prelude.Sorted.{IsSorted, IsSorted-snoc}
use stock_trader.Errors.{ok, >>=-eq-ok}
use stock_trader.Strategy.Session.{regular_session_mask}
use stock_trader.Strategy.Metrics.{calculate_metrics}
use stock_trader.Strategy.Floats.{Floats}
use stock_trader.Strategy.Trades.{Trade}
use stock_trader.Strategy.Bollinger.{
  ExitBand, BollingerParams, Row, DataFrame, Columns, Bands, Bar, bars_from, State, start, scan,
  force_exit, first_and_last, trade_bars, apply_bands, run, BacktestResult,
}
use stock_trader.Strategy.Bollinger.Steps.{
  Steps, idle, bought, sold, Exits, flat, stuck, forced, scan_rule, force_exit-Exits, run-Ran,
  buy_at, sell_at, forced_at,
}

module _ (floats : Floats) where
  abbrev pub trade_times : List (Trade floats) → List ℕ
  trade_times trades = map (λ (t : Trade floats). t.timestamp) trades

  -- The times of the bars in session.
  abbrev session_times : List (Bar floats) → List ℕ
  session_times bars = bar_times floats (filter (λ (b : Bar floats). b.in_session) bars)

  session_times-snoc :
      (bars : List (Bar floats)) (b : Bar floats)
      → b.in_session ≡ true
      → session_times (bars ++ b ∷ []) ≡ session_times bars ++ b.timestamp ∷ []
  session_times-snoc [] b h = rw h refl
  session_times-snoc (c ∷ bars) b h = elim (Bool-cases c.in_session) [
    | inl session ↦ rw session (rw (session_times-snoc bars b h) refl)
    | inr outside ↦ rw outside (session_times-snoc bars b h)
  ]

  session_times-skip :
      (bars : List (Bar floats)) (b : Bar floats)
      → b.in_session ≡ false
      → session_times (bars ++ b ∷ []) ≡ session_times bars
  session_times-skip [] b h = rw h refl
  session_times-skip (c ∷ bars) b h = elim (Bool-cases c.in_session) [
    | inl session ↦ rw session (rw (session_times-skip bars b h) refl)
    | inr outside ↦ rw outside (session_times-skip bars b h)
  ]

  Sub-snoc :
      {xs : List ℕ} (bars : List (Bar floats)) (b : Bar floats)
      → Sub xs (session_times bars)
      → Sub xs (session_times (bars ++ b ∷ []))
  Sub-snoc bars b s = elim (Bool-cases b.in_session) [
    | inl session ↦ rw (session_times-snoc bars b session) (Sub-skip_last b.timestamp s)
    | inr outside ↦ rw (session_times-skip bars b outside) s
  ]

  trade_times-snoc :
      (trades : List (Trade floats)) (t : Trade floats)
      → trade_times (trades ++ t ∷ []) ≡ trade_times trades ++ t.timestamp ∷ []
  trade_times-snoc [] t = refl
  trade_times-snoc (k ∷ trades) t = rw (trade_times-snoc trades t) refl

  Steps-Sub :
      (x : ExitBand) (pre : List (Bar floats)) (b : Bar floats) (s s' : State floats)
      → Steps floats x b s s'
      → Sub (trade_times s.trades) (session_times pre)
      → Sub (trade_times s'.trades) (session_times (pre ++ b ∷ []))
  Steps-Sub x pre b s s' step h = elim step [
    | idle e ↦ rw e (Sub-snoc pre b h)
    | bought session before below e ↦
        rw (e, trade_times-snoc s.trades (buy_at floats b), session_times-snoc pre b session)
          (Sub-keep_last b.timestamp h)
    | sold session before reached e ↦
        rw (e, trade_times-snoc s.trades (sell_at floats x b), session_times-snoc pre b session)
          (Sub-keep_last b.timestamp h)
  ]

  Sub-drop :
      (n : ℕ) (bars : List (Bar floats)) {xs : List ℕ}
      → Sub xs (session_times (drop n bars))
      → Sub xs (session_times bars)
  Sub-drop zero bars s = s
  Sub-drop (suc n) [] s = s
  Sub-drop (suc n) (b ∷ bars) s = elim (Bool-cases b.in_session) [
    | inl session ↦ rw session (skip (Sub-drop n bars s))
    | inr outside ↦ rw outside (Sub-drop n bars s)
  ]

  Exits-IsSorted :
      (bars : List (Bar floats)) (s s' : State floats)
      → IsSorted (bar_times floats bars)
      → Exits floats bars s s'
      → Sub (trade_times s.trades) (session_times bars)
      → IsSorted (trade_times s'.trades)
  Exits-IsSorted bars s s' sorted way h =
      let in_session = filter-IsSorted floats (λ (b : Bar floats). b.in_session) bars sorted in
      let so_far = Sub-IsSorted h in_session in
      elim way [
        | flat before e ↦ rw e so_far
        | stuck before nothing e ↦ rw e so_far
        | forced b before found e ↦
            rw (e, trade_times-snoc s.trades (forced_at floats b))
              (IsSorted-snoc b.timestamp (trade_times s.trades) so_far
                (Sub-All (λ t. t ≤ b.timestamp) h (last_latest floats _ found in_session)))
      ]

  trade_bars-chart :
      (params : BollingerParams floats) (df : DataFrame floats) (bars : List (Bar floats))
      {r : BacktestResult floats}
      → trade_bars floats params df bars ≡ ok r
      → r.chart_data ≡ bars
  unfolding trade_bars
  trade_bars-chart params df bars {r = r} e =
      let (scanned, _, e1) =
        >>=-eq-ok (scan floats params.exit_at (drop params.length bars) (start floats)) _ e in
      let (final, _, e2) = >>=-eq-ok (force_exit floats bars scanned) _ e1 in
      let (metrics, _, e3) =
        >>=-eq-ok (calculate_metrics floats final.trades params.initial_capital) _ e2 in
      let (ends, _, e4) = >>=-eq-ok (first_and_last floats df.rows) _ e3 in cc

  -- The bars of a run come from the rows.
  run-bars :
      (bbands : ℕ → floats.Float → List floats.Float → Option (Columns floats)) (local_time : ℕ → ℕ)
      (params : BollingerParams floats) (df : DataFrame floats) {r : BacktestResult floats}
      → run floats bbands local_time params df ≡ ok r
      → (bands : Bands floats) × (mask : List Bool) × (r.chart_data
          ≡ bars_from floats bands 0 df.rows mask)
  unfolding run
  run-bars bbands local_time params df {r = r} e =
      let (bands, _, e1) =
        >>=-eq-ok
          (apply_bands floats params.length
            (bbands params.length params.std_dev (map (λ (z : Row floats). z.close) df.rows)))
          _ e in
      let (mask, _, e2) =
        >>=-eq-ok
          (regular_session_mask local_time
            (record { aware = df.aware; instants = map (λ (z : Row floats). z.timestamp) df.rows }))
          _ e1 in
      (bands, mask, trade_bars-chart params df (bars_from floats bands 0 df.rows mask) e2)

-- If the rows of the DataFrame are in time order, then so are the trades of a run that does not raise,
-- the forced exit included, and the bars of its chart.
pub run-IsSorted :
    (floats : Floats) (bbands : ℕ → floats.Float → List floats.Float → Option (Columns floats))
    (local_time : ℕ → ℕ) (params : BollingerParams floats) (df : DataFrame floats)
    {r : BacktestResult floats}
    → IsSorted (map (λ (z : Row floats). z.timestamp) df.rows)
    → run floats bbands local_time params df ≡ ok r
    → IsSorted (trade_times floats r.trades) × IsSorted (bar_times floats r.chart_data)
run-IsSorted floats bbands local_time params df sorted e =
    let ran = run-Ran floats bbands local_time params df e in
    let (bands, mask, chart) = run-bars floats bbands local_time params df e in
    let in_order : IsSorted (bar_times floats ran.bars) =
      subst (λ z. IsSorted (bar_times floats z)) (sym chart ∙ ran.chart_eq)
        (bars_from-IsSorted floats bands 0 df.rows mask sorted) in
    let signals =
      scan_rule floats (λ pre s. Sub (trade_times floats s.trades) (session_times floats pre))
        params.exit_at (Steps-Sub floats params.exit_at) [] (drop params.length ran.bars)
        (start floats) ran.scan_ok empty in
    rw (ran.trades_eq, ran.chart_eq)
      (
        Exits-IsSorted floats ran.bars ran.scanned ran.final in_order
            (force_exit-Exits floats ran.bars ran.scanned ran.exit_ok)
            (Sub-drop floats params.length ran.bars signals),
        in_order,
      )
