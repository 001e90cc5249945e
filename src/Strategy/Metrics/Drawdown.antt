-- ===== src/Strategy/Metrics/Drawdown.antt =====
-- Which of the constraints on the metrics can fail.
use stock_trader.Prelude.{
  ℕ, suc, ◌≤◌, ◌<◌, ◌≡◌, refl, sym, All, subst, inl, inr, true, List, [], ◌∷◌, arith, length,
  filter, length-filter, Bool-cases,
}
use stock_trader.Errors.{ok, is_ok}
use stock_trader.Strategy.Floats.{Floats, FloatLaws}
use stock_trader.Strategy.Trades.{Trade}
use stock_trader.Strategy.Metrics.{
  Curve, start_curve, divide, trade_step, equity_curve, is_win, make_metrics, metrics_of, max_float,
}
use stock_trader.Strategy.Metrics.Reference.{equities, last, equity_curve-drawdowns}

module _ (floats : Floats) (laws : FloatLaws floats) where
  open floats use {Float, lt, le, mul, div, from_nat, round2}

  abbrev Nonneg : Float → Type 0
  Nonneg a = le (from_nat 0) a ≡ true

  max_float-Nonneg : (a b : Float) → Nonneg a → Nonneg (max_float floats a b)
  max_float-Nonneg a b h = elim (Bool-cases (lt a b)) [
    | inl less ↦ rw less (laws.le-lt (from_nat 0) a b h less)
    | inr not_less ↦ rw not_less h
  ]

  abbrev Positive : Float → Type 0
  Positive a = lt (from_nat 0) a ≡ true

  divide_ok : (a b : Float) → Positive b → divide floats a b ≡ ok (floats.div a b)
  divide_ok a b h = rw (laws.lt_excludes_le (from_nat 0) b h) refl

  max_float-Positive : (a b : Float) → Positive a → Positive (max_float floats a b)
  max_float-Positive a b h = elim (Bool-cases (lt a b)) [
    | inl less ↦ rw less (laws.lt_trans (from_nat 0) a b h less)
    | inr not_less ↦ rw not_less h
  ]

  -- Whatever else the arithmetic gives, NaN included: the loop does not raise, and the running maximum
  -- stays at least 0.
  equity_curve-succeeds :
      (ps : List (Trade floats × Trade floats)) (c : Curve floats)
      → All (λ (p : Trade floats × Trade floats). Positive p.0.price) ps
      → Positive c.peak
      → Nonneg c.max_drawdown
      → (d : Curve floats) × (equity_curve floats c ps ≡ ok d) × Nonneg d.max_drawdown
  unfolding equity_curve trade_step
  equity_curve-succeeds [] c prices high h = (c, refl, h)
  equity_curve-succeeds ((b, s) ∷ ps) c prices high h =
      let e =
        floats.mul c.equity (floats.add (from_nat 1) (div (floats.sub s.price b.price) b.price)) in
      let peak = max_float floats c.peak e in
      let peak_positive = max_float-Positive c.peak e high in
      let fall = div (floats.sub peak e) peak in
      let (d, done, low) =
        equity_curve-succeeds ps
          (record { equity = e; peak = peak; max_drawdown = max_float floats c.max_drawdown fall })
          prices.1 peak_positive (max_float-Nonneg c.max_drawdown fall h) in
      (
        d,
        rw
            (
              laws.lt_excludes_le (from_nat 0) b.price prices.0,
              laws.lt_excludes_le (from_nat 0) peak peak_positive,
            )
            done,
        low,
      )

  round2-Nonneg : (a : Float) → Nonneg a → Nonneg (round2 a)
  round2-Nonneg a h =
      subst (λ z. le z (round2 a) ≡ true) (laws.round2_nat 0) (laws.round2_mono (from_nat 0) a h)

  win_rate_bounds :
      (w n : ℕ)
      → w ≤ n
      → 0 < n
      → let rate = round2 (mul (div (from_nat w) (from_nat n)) (from_nat 100)) in
        Nonneg rate × (le rate (from_nat 100) ≡ true)
  win_rate_bounds w n le_n pos_n =
      let share = div (from_nat w) (from_nat n) in
      (
        round2-Nonneg _ (laws.mul_hundred_nonneg share (laws.div_nat_nonneg w n le_n pos_n)),
        subst (λ z. le (round2 (mul share (from_nat 100))) z ≡ true) (laws.round2_nat 100)
            (laws.round2_mono _ _ (laws.mul_hundred_le share (laws.div_nat_le_one w n le_n pos_n))),
      )

-- Let the capital and the prices of the buys be positive. Then no division fails, and the constraints
-- on `win_rate` and `max_drawdown_pct` hold: for completed trades, `calculate_metrics` raises exactly
-- when the rounded equity after the last of them is not at least 0.
pub metrics_of-is_ok :
    (floats : Floats) (laws : FloatLaws floats) (p : Trade floats × Trade floats)
    (ps : List (Trade floats × Trade floats)) (capital : floats.Float)
    → floats.lt (floats.from_nat 0) capital ≡ true
    → All
        (λ (q : Trade floats × Trade floats). floats.lt (floats.from_nat 0) q.0.price ≡ true)
        (p ∷ ps)
    → is_ok (metrics_of floats (p ∷ ps) capital)
      ≡ floats.le
          (floats.from_nat 0)
          (floats.round2 (last floats capital (equities floats capital (p ∷ ps))))
unfolding metrics_of make_metrics
metrics_of-is_ok floats laws p ps capital funded prices =
    let (c, done, falls) =
      equity_curve-succeeds floats laws (p ∷ ps) (start_curve floats capital) prices funded
        (laws.le_refl_nat 0) in
    let (final, _) =
      equity_curve-drawdowns floats (p ∷ ps) capital capital capital (floats.from_nat 0) [] refl
        done in
    let wins = length (filter (is_win floats) (p ∷ ps)) in
    let (low, high) =
      win_rate_bounds floats laws wins (suc (length ps)) (length-filter (is_win floats) (p ∷ ps))
        (omega arith) in
    let drawdown = round2-Nonneg floats laws _ (laws.mul_hundred_nonneg c.max_drawdown falls) in
    rw (sym final) (
      rw done (
        simp (laws.lt_excludes_le (floats.from_nat 0) capital funded, low, high, drawdown)
          (ground arith)))
