-- ===== src/Strategy/Bollinger/Charted.antt =====
-- The columns, the bands and the bars of a run that does not raise.
use stock_trader.Prelude.{ℕ, ◌≡◌, ap, ◌∙◌, inl, inr, Option, some, List, drop, map, Option-cases}
use stock_trader.Errors.{ok, Result-cases}
use stock_trader.Strategy.Floats.{Floats}
use stock_trader.Strategy.Session.{regular_session_mask}
use stock_trader.Strategy.Metrics.{calculate_metrics}
use stock_trader.Strategy.Bollinger.{
  BollingerParams, Row, DataFrame, Columns, Bands, apply_bands, Bar, bars_from, start, scan,
  force_exit, first_and_last, trade_bars, run, BacktestResult,
}
use stock_trader.Strategy.Bollinger.Provenance.{in_session_at, mask_of_times, bars_at}

module _ (floats : Floats) where
  trade_bars-chart :
      (params : BollingerParams floats) (df : DataFrame floats) (bars : List (Bar floats))
      {r : BacktestResult floats}
      → trade_bars floats params df bars ≡ ok r
      → r.chart_data ≡ bars
  unfolding trade_bars
  trade_bars-chart params df bars {r = r} e =
      elim (Result-cases (scan floats params.exit_at (drop params.length bars) (start floats))) [
        | inr (x, q) ↦ absurd (let e' = simp q at e in cc)
        | inl (scanned, q) ↦ elim (Result-cases (force_exit floats bars scanned)) [
          | inr (x, q') ↦ absurd (let e' = simp (q, q') at e in cc)
          | inl (final, q') ↦
              elim (Result-cases (calculate_metrics floats final.trades params.initial_capital)) [
                | inr (x, m) ↦ absurd (let e' = simp (q, q', m) at e in cc)
                | inl (metrics, m) ↦ elim (Result-cases (first_and_last floats df.rows)) [
                  | inr (x, f) ↦ absurd (let e' = simp (q, q', m, f) at e in cc)
                  | inl (ends, f) ↦ let e' = simp (q, q', m, f) at e in cc
                ]
              ]
        ]
      ]

  -- The columns, the bands and the mask of a run that does not raise.
  pub record Charted (bbands : ℕ → floats.Float → List floats.Float → Option (Columns floats))
      (local_time : ℕ → ℕ) (params : BollingerParams floats) (df : DataFrame floats)
      (r : BacktestResult floats) : Type 0 where
    pub columns : Columns floats
    pub bands : Bands floats
    pub columns_eq :
        bbands params.length params.std_dev (map (λ (z : Row floats). z.close) df.rows)
        ≡ some columns
    pub bands_eq : apply_bands floats params.length (some columns) ≡ ok bands
    pub chart_eq : r.chart_data ≡ bars_at floats bands (in_session_at local_time) 0 df.rows

  pub run-Charted :
      (bbands : ℕ → floats.Float → List floats.Float → Option (Columns floats)) (local_time : ℕ → ℕ)
      (params : BollingerParams floats) (df : DataFrame floats) {r : BacktestResult floats}
      → run floats bbands local_time params df ≡ ok r
      → Charted bbands local_time params df r
  unfolding run apply_bands
  run-Charted bbands local_time params df {r = r} e =
      let times = map (λ (z : Row floats). z.timestamp) df.rows in
      elim (Option-cases
        (bbands params.length params.std_dev (map (λ (z : Row floats). z.close) df.rows))) [
          | inl missing ↦ absurd (let e' = simp missing at e in cc)
          | inr (columns, c) ↦
              elim (Result-cases (apply_bands floats params.length (some columns))) [
                | inr (x, q) ↦ absurd (let e' = simp (c, q) at e in cc)
                | inl (bands, q) ↦
                    elim (Result-cases (
                      regular_session_mask local_time
                        (record { aware = df.aware; instants = times }))) [
                          | inr (x, q') ↦ absurd (let e' = simp (c, q, q') at e in cc)
                          | inl (mask, q') ↦ record {
                            columns = columns;
                            bands = bands;
                            columns_eq = c;
                            bands_eq = q;
                            chart_eq =
                                trade_bars-chart params df (bars_from floats bands 0 df.rows mask)
                                  (simp (c, q, q') at e)
                                ∙ ap (bars_from floats bands 0 df.rows)
                                    (mask_of_times local_time df.aware times q');
                          }
                        ]
              ]
        ]
