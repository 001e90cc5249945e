-- ===== src/Strategy/Bollinger/Grounded.antt =====
-- Every trade of a run is made at a row of the DataFrame, in the regular session, and against a band
-- that pandas-ta returned.
use stock_trader.Prelude.{
  ℕ, suc, ◌≤◌, ◌≡◌, refl, ap, subst, ◌∙◌, true, false, Option, some, List, ◌∷◌, ◌++◌, String, arith,
  drop, map, length, All, All-map,
}
use stock_trader.Errors.{ok}
use stock_trader.Strategy.Floats.{Floats}
use stock_trader.Strategy.Trades.{buy, sell, below_lower, at_exit_band, end_of_data, Trade}
use stock_trader.Strategy.Bollinger.{
  ExitBand, middle, upper, BollingerParams, Row, DataFrame, Columns, Bands, Bar, run,
  BacktestResult, exit_level,
}
use stock_trader.Strategy.Bollinger.Steps.{buy_at, sell_at, forced_at}
use stock_trader.Strategy.Bollinger.Justified.{
  IsSignal, entry, exit, IsJustified, signal, end_exit, run-IsJustified,
}
use stock_trader.Strategy.Bollinger.Charted.{run-Charted}
use stock_trader.Strategy.Bollinger.Provenance.{
  InRegularSession, in_session_at, in_session_at-true, in_session_at-false, drop_split,
  IsFirstColumn, apply_bands-IsFirstColumn, bar_at, bars_at, row_of, RowOf, rows_out_of_session,
}

-- The prefix of the names of the columns with the exit band.
abbrev pub exit_prefix : ExitBand → String
exit_prefix middle = "BBM"
exit_prefix upper = "BBU"

module _ (floats : Floats) (local_time : ℕ → ℕ) (n : ℕ) (rows : List (Row floats))
    (lower exit_band : ℕ → floats.Float) where
  -- A trade at one of the rows, and why it is made there.
  pub data IsGrounded (t : Trade floats) : Type 0 where
    bought_at :
        (before after : List (Row floats)) (r : Row floats)
        → rows ≡ before ++ r ∷ after
        → n ≤ length before
        → InRegularSession local_time r.timestamp
        → floats.lt r.close (lower (length before)) ≡ true
        → t ≡ record {
          timestamp = r.timestamp;
          signal = buy;
          price = r.close;
          reason = below_lower r.close (lower (length before));
        }
        → IsGrounded t
    sold_at :
        (before after : List (Row floats)) (r : Row floats)
        → rows ≡ before ++ r ∷ after
        → n ≤ length before
        → InRegularSession local_time r.timestamp
        → floats.le (exit_band (length before)) r.close ≡ true
        → t ≡ record {
          timestamp = r.timestamp;
          signal = sell;
          price = r.close;
          reason = at_exit_band r.close (exit_band (length before));
        }
        → IsGrounded t
    closed_at :
        (before after : List (Row floats)) (r : Row floats)
        → rows ≡ before ++ r ∷ after
        → InRegularSession local_time r.timestamp
        → All (λ (q : Row floats). ¬ InRegularSession local_time q.timestamp) after
        → t
          ≡ record { timestamp = r.timestamp; signal = sell; price = r.close; reason = end_of_data }
        → IsGrounded t

abbrev exit_column : {floats : Floats} → ExitBand → Bands floats → ℕ → floats.Float
exit_column middle bands = bands.bb_middle
exit_column upper bands = bands.bb_upper

module _ (floats : Floats) (bands : Bands floats) (local_time : ℕ → ℕ) (rows : List (Row floats))
    (x : ExitBand) (n : ℕ) where
  abbrev all_bars : List (Bar floats)
  all_bars = bars_at floats bands (in_session_at local_time) 0 rows

  abbrev bar : ℕ → Row floats → Bar floats
  bar = bar_at floats bands (in_session_at local_time)

  abbrev Grounded : Trade floats → Type 0
  Grounded = IsGrounded floats local_time n rows bands.bb_lower (exit_column x bands)

  exit_level-bar :
      (y : ExitBand) (k : ℕ) (r : Row floats)
      → exit_level floats y (bar k r) ≡ exit_column y bands k
  exit_level-bar middle k r = refl
  exit_level-bar upper k r = refl

  -- The bar with `before` in front of it is that of the row at this position.
  bar_of_row :
      (before : List (Bar floats)) {b : Bar floats} {after : List (Bar floats)}
      (found : RowOf floats bands (in_session_at local_time) 0 rows (length before) b after)
      → b ≡ bar (length found.rows_before) found.row
  bar_of_row before found =
      let place = found.place_eq in
      let as_many = found.as_many in found.bar_eq ∙ ap (λ k. bar k found.row) (omega arith)

  IsSignal-Grounded : (t : Trade floats) → IsSignal floats x (drop n all_bars) t → Grounded t
  IsSignal-Grounded t (entry before after b e session below q) =
      let (pre, split, enough) = drop_split n all_bars before e in
      let found = row_of floats bands (in_session_at local_time) 0 rows pre split in
      let as_many = found.as_many in
      let at = bar_of_row pre found in
      bought_at found.rows_before found.rows_after found.row found.split (omega arith)
        (in_session_at-true local_time found.row.timestamp
          (subst (λ (c : Bar floats). c.in_session ≡ true) at session))
        (subst (λ (c : Bar floats). floats.lt c.close c.bb_lower ≡ true) at below)
        (q ∙ ap (buy_at floats) at)
  IsSignal-Grounded t (exit before after b e session reached q) =
      let (pre, split, enough) = drop_split n all_bars before e in
      let found = row_of floats bands (in_session_at local_time) 0 rows pre split in
      let as_many = found.as_many in
      let at = bar_of_row pre found in
      let level = exit_level-bar x (length found.rows_before) found.row in
      sold_at found.rows_before found.rows_after found.row found.split (omega arith)
        (in_session_at-true local_time found.row.timestamp
          (subst (λ (c : Bar floats). c.in_session ≡ true) at session))
        (subst (λ z. floats.le z found.row.close ≡ true) level
          (subst (λ (c : Bar floats). floats.le (exit_level floats x c) c.close ≡ true) at reached))
        (q
          ∙ ap (sell_at floats x) at
          ∙ ap
              (λ z. record {
                timestamp = found.row.timestamp;
                signal = sell;
                price = found.row.close;
                reason = at_exit_band found.row.close z;
              })
              level)

  IsJustified-Grounded : (t : Trade floats) → IsJustified floats x n all_bars t → Grounded t
  IsJustified-Grounded t (signal k) = IsSignal-Grounded t k
  IsJustified-Grounded t (end_exit before after b e session outside q) =
      let found = row_of floats bands (in_session_at local_time) 0 rows before e in
      let at = bar_of_row before found in
      closed_at found.rows_before found.rows_after found.row found.split
        (in_session_at-true local_time found.row.timestamp
          (subst (λ (c : Bar floats). c.in_session ≡ true) at session))
        (All-map (λ (r : Row floats). in_session_at local_time r.timestamp ≡ false)
          (λ (r : Row floats). ¬ InRegularSession local_time r.timestamp)
          (λ r h. in_session_at-false local_time r.timestamp h) found.rows_after
          (rows_out_of_session floats bands (in_session_at local_time) (suc found.place)
            found.rows_after
            (subst (All (λ (c : Bar floats). c.in_session ≡ false)) found.after_eq outside)))
        (q ∙ ap (forced_at floats) at)

module _ (floats : Floats) where
  exit_column-IsFirstColumn :
      (x : ExitBand) (columns : Columns floats) (bands : Bands floats)
      → IsFirstColumn floats "BBM" columns bands.bb_middle
      → IsFirstColumn floats "BBU" columns bands.bb_upper
      → IsFirstColumn floats (exit_prefix x) columns (exit_column x bands)
  exit_column-IsFirstColumn middle columns bands mid high = mid
  exit_column-IsFirstColumn upper columns bands mid high = high

-- In the result of any run that does not raise, every trade is at the timestamp and the close of a row
-- of the DataFrame at which the local time is from 9:30 to before 16:00. A buy is at a row from
-- position `length` on that closes below the value, at its position, of the first column of pandas-ta
-- whose name starts with "BBL". A sell is at such a row that closes at or above the first column that
-- starts with "BBM" or "BBU", as `exit_at` says, or it is the forced exit at the last row in the
-- regular session.
pub run-IsGrounded :
    (floats : Floats) (bbands : ℕ → floats.Float → List floats.Float → Option (Columns floats))
    (local_time : ℕ → ℕ) (params : BollingerParams floats) (df : DataFrame floats)
    {r : BacktestResult floats}
    → run floats bbands local_time params df ≡ ok r
    → (columns : Columns floats) × (lower : ℕ → floats.Float) × (exit_band : ℕ → floats.Float)
      × (bbands params.length params.std_dev (map (λ (z : Row floats). z.close) df.rows)
          ≡ some columns)
      × IsFirstColumn floats "BBL" columns lower
      × IsFirstColumn floats (exit_prefix params.exit_at) columns exit_band
      × All (IsGrounded floats local_time params.length df.rows lower exit_band) r.trades
run-IsGrounded floats bbands local_time params df {r = r} e =
    let charted = run-Charted floats bbands local_time params df e in
    let x = params.exit_at in
    let (low, mid, high) =
      apply_bands-IsFirstColumn floats params.length charted.columns charted.bands_eq in
    (
      charted.columns,
      charted.bands.bb_lower,
      exit_column x charted.bands,
      charted.columns_eq,
      low,
      exit_column-IsFirstColumn floats x charted.columns charted.bands mid high,
      All-map
          (IsJustified floats x params.length
            (bars_at floats charted.bands (in_session_at local_time) 0 df.rows))
          (IsGrounded floats local_time params.length df.rows charted.bands.bb_lower
            (exit_column x charted.bands))
          (IsJustified-Grounded floats charted.bands local_time df.rows x params.length) r.trades
          (subst (λ bars. All (IsJustified floats x params.length bars) r.trades) charted.chart_eq
            (run-IsJustified floats bbands local_time params df e)),
    )
