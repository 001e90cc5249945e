-- ===== src/Strategy/Bollinger/Steps.antt =====
-- The ways in which a step of the loop, and the forced exit, can go when they do not raise.
use mathlib.Core.List.{append-nil, append_assoc}
use stock_trader.Prelude.{
  ℕ, ◌≡◌, subst, drop, map, inl, inr, Bool, true, false, Option, none, some, List, [], ◌∷◌, ◌++◌,
  arith, Bool-cases, Option-cases,
}
use stock_trader.Errors.{ok, >>=-eq-ok, Result-cases}
use stock_trader.Strategy.Floats.{Floats}
use stock_trader.Strategy.Session.{regular_session_mask}
use stock_trader.Strategy.Trades.{
  SignalType, buy, sell, Reason, below_lower, at_exit_band, end_of_data, Trade, make_trade,
}
use stock_trader.Strategy.Metrics.{calculate_metrics}
use stock_trader.Strategy.Bollinger.{
  ExitBand, Bar, State, exit_level, emit, step, last_in_session, force_exit, scan, start,
  trade_bars, first_and_last, bars_from, apply_bands, run, Row, BollingerParams, DataFrame, Columns,
  BacktestResult,
}

module _ (floats : Floats) where
  -- The trades that the three branches make of a bar.
  abbrev pub buy_at : Bar floats → Trade floats
  buy_at b = record {
    timestamp = b.timestamp;
    signal = buy;
    price = b.close;
    reason = below_lower b.close b.bb_lower;
  }

  abbrev pub sell_at : ExitBand → Bar floats → Trade floats
  sell_at x b = record {
    timestamp = b.timestamp;
    signal = sell;
    price = b.close;
    reason = at_exit_band b.close (exit_level floats x b);
  }

  abbrev pub forced_at : Bar floats → Trade floats
  forced_at b = record {
    timestamp = b.timestamp;
    signal = sell;
    price = b.close;
    reason = end_of_data;
  }

  pub data Steps (x : ExitBand) (b : Bar floats) (s s' : State floats) : Type 0 where
    idle : s' ≡ s → Steps x b s s'
    bought :
        b.in_session ≡ true
        → s.in_position ≡ false
        → floats.lt b.close b.bb_lower ≡ true
        → s' ≡ record { in_position = true; trades = s.trades ++ buy_at b ∷ [] }
        → Steps x b s s'
    sold :
        b.in_session ≡ true
        → s.in_position ≡ true
        → floats.le (exit_level floats x b) b.close ≡ true
        → s' ≡ record { in_position = false; trades = s.trades ++ sell_at x b ∷ [] }
        → Steps x b s s'

  emit-ok :
      (p : Bool) (signal : SignalType) (reason : Reason floats) (b : Bar floats) (s : State floats)
      {s' : State floats}
      → emit floats p signal reason b s ≡ ok s'
      → s' ≡ record {
        in_position = p;
        trades =
            s.trades
            ++ record { timestamp = b.timestamp; signal = signal; price = b.close; reason = reason }
              ∷ [];
      }
  unfolding emit make_trade
  emit-ok p signal reason b s h = ground arith

  pub step-Steps :
      (x : ExitBand) (b : Bar floats) (s : State floats) {s' : State floats}
      → step floats x b s ≡ ok s'
      → Steps x b s s'
  unfolding step
  step-Steps x b s {s' = s'} e = elim (Bool-cases b.in_session) [
    | inr out ↦ let e' = simp out at e in idle (cc)
    | inl session ↦ elim (Bool-cases s.in_position) [
      | inr flat ↦ elim (Bool-cases (floats.lt b.close b.bb_lower)) [
        | inl below ↦ bought session flat below (
            emit-ok true buy (below_lower b.close b.bb_lower) b s
              (simp (session, flat, below) at e))
        | inr above ↦ let e' = simp (session, flat, above) at e in idle (cc)
      ]
      | inl long ↦ elim (Bool-cases (floats.le (exit_level floats x b) b.close)) [
        | inl reached ↦ sold session long reached (
            emit-ok false sell (at_exit_band b.close (exit_level floats x b)) b s
              (simp (session, long, reached) at e))
        | inr short ↦ let e' = simp (session, long, short) at e in idle (cc)
      ]
    ]
  ]

  pub data Exits (bars : List (Bar floats)) (s s' : State floats) : Type 0 where
    flat : s.in_position ≡ false → s' ≡ s → Exits bars s s'
    stuck : s.in_position ≡ true → last_in_session floats bars ≡ none → s' ≡ s → Exits bars s s'
    forced :
        (b : Bar floats)
        → s.in_position ≡ true
        → last_in_session floats bars ≡ some b
        → s' ≡ record { in_position = true; trades = s.trades ++ forced_at b ∷ [] }
        → Exits bars s s'

  pub force_exit-Exits :
      (bars : List (Bar floats)) (s : State floats) {s' : State floats}
      → force_exit floats bars s ≡ ok s'
      → Exits bars s s'
  unfolding force_exit
  force_exit-Exits bars s {s' = s'} e = elim (Bool-cases s.in_position) [
    | inr no_position ↦ let e' = simp no_position at e in flat no_position (cc)
    | inl long ↦ elim (Option-cases (last_in_session floats bars)) [
      | inl nothing ↦ let e' = simp (long, nothing) at e in stuck long nothing (cc)
      | inr (b, found) ↦
          forced b long found (emit-ok true sell end_of_data b s (simp (long, found) at e))
    ]
  ]

  -- What every step keeps, of the bars so far and the state, holds after the loop.
  pub scan_rule {κ} :
      (P : List (Bar floats) → State floats → Type κ) (x : ExitBand)
      → ((pre : List (Bar floats)) (b : Bar floats) (s s' : State floats)
          → Steps x b s s'
          → P pre s
          → P (pre ++ b ∷ []) s')
      → (pre bars : List (Bar floats)) (s : State floats) {s' : State floats}
      → scan floats x bars s ≡ ok s'
      → P pre s
      → P (pre ++ bars) s'
  unfolding scan
  scan_rule P x keep pre [] s {s' = s'} e h =
      let e' : s ≡ s' = cc in rw append-nil (subst (P pre) e' h)
  scan_rule P x keep pre (b ∷ bs) s {s' = s'} e h =
      let (s₁, first, rest) = >>=-eq-ok (step floats x b s) (λ s₁. scan floats x bs s₁) e in
      subst (λ z. P z s') (append_assoc pre (b ∷ []) bs)
        (scan_rule P x keep (pre ++ b ∷ []) bs s₁ rest (keep pre b s s₁ (step-Steps x b s first) h))

  -- What a run that returned has done.
  pub record Ran (params : BollingerParams floats) (r : BacktestResult floats) : Type 0 where
    pub bars : List (Bar floats)
    pub scanned : State floats
    pub final : State floats
    pub scan_ok : scan floats params.exit_at (drop params.length bars) (start floats) ≡ ok scanned
    pub exit_ok : force_exit floats bars scanned ≡ ok final
    pub metrics_ok : calculate_metrics floats final.trades params.initial_capital ≡ ok r.metrics
    pub trades_eq : r.trades ≡ final.trades
    pub chart_eq : r.chart_data ≡ bars

  trade_bars-Ran :
      (params : BollingerParams floats) (df : DataFrame floats) (bars : List (Bar floats))
      {r : BacktestResult floats}
      → trade_bars floats params df bars ≡ ok r
      → Ran params r
  unfolding trade_bars
  trade_bars-Ran params df bars {r = r} e =
      elim (Result-cases (scan floats params.exit_at (drop params.length bars) (start floats))) [
        | inr (x, q) ↦ absurd (let e' = simp q at e in cc)
        | inl (scanned, q) ↦ elim (Result-cases (force_exit floats bars scanned)) [
          | inr (x, q') ↦ absurd (let e' = simp (q, q') at e in cc)
          | inl (final, q') ↦
              elim (Result-cases (calculate_metrics floats final.trades params.initial_capital)) [
                | inr (x, m) ↦ absurd (let e' = simp (q, q', m) at e in cc)
                | inl (metrics, m) ↦ elim (Result-cases (first_and_last floats df.rows)) [
                  | inr (x, f) ↦ absurd (let e' = simp (q, q', m, f) at e in cc)
                  | inl (ends, f) ↦
                      let e' = simp (q, q', m, f) at e in
                      record {
                        bars = bars;
                        scanned = scanned;
                        final = final;
                        scan_ok = q;
                        exit_ok = q';
                        metrics_ok = cc;
                        trades_eq = cc;
                        chart_eq = cc;
                      }
                ]
              ]
        ]
      ]

  pub run-Ran :
      (bbands : ℕ → floats.Float → List floats.Float → Option (Columns floats)) (local_time : ℕ → ℕ)
      (params : BollingerParams floats) (df : DataFrame floats) {r : BacktestResult floats}
      → run floats bbands local_time params df ≡ ok r
      → Ran params r
  unfolding run
  run-Ran bbands local_time params df {r = r} e =
      let bands_of =
        apply_bands floats params.length
          (bbands params.length params.std_dev (map (λ (z : Row floats). z.close) df.rows)) in
      let mask_of =
        regular_session_mask local_time
          (record { aware = df.aware; instants = map (λ (z : Row floats). z.timestamp) df.rows }) in
      elim (Result-cases bands_of) [
        | inr (x, q) ↦ absurd (let e' = simp q at e in cc)
        | inl (bands, q) ↦ elim (Result-cases mask_of) [
          | inr (x, q') ↦ absurd (let e' = simp (q, q') at e in cc)
          | inl (mask, q') ↦
              trade_bars-Ran params df (bars_from floats bands 0 df.rows mask) (simp (q, q') at e)
        ]
      ]
