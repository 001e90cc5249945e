-- ===== src/Strategy/Bollinger.antt =====
-- core/strategies/bollinger_reversion.py: the run of the Bollinger Band strategy.
pub mod Steps
pub mod Alternation
pub mod Justified
pub mod Provenance
pub mod Charted
pub mod Grounded
pub mod Gating
pub mod Times
pub mod Chronology
use stock_trader.Prelude.{
  ℕ, zero, suc, ◌+◌, Bool, true, false, Option, none, some, List, [], ◌∷◌, ◌++◌, map, String, not,
  length, drop, filter, get_last?, ltb, leb, if◌then◌else◌,
}
use stock_trader.Errors.{
  Result, ok, err, raise, value_error, index_error, validation_error, text, number, ◌>>=◌,
}
use stock_trader.Strategy.Floats.{Floats}
use stock_trader.Strategy.Session.{DatetimeIndex, regular_session_mask}
use stock_trader.Strategy.Trades.{
  SignalType, buy, sell, Reason, below_lower, at_exit_band, end_of_data, Trade, make_trade,
}
use stock_trader.Strategy.Metrics.{BacktestMetrics, calculate_metrics}
use package.text.Mathlib.Text.{starts_with}

pub data ExitBand : Type 0 where
  middle upper : ExitBand

module _ (floats : Floats) where
  open floats use {Float, lt, le, from_nat}

  -- A validated `BollingerParams`.
  pub record BollingerParams : Type 0 where
    pub length : ℕ
    pub std_dev : Float
    pub exit_at : ExitBand
    pub initial_capital : Float

  -- What the strategy reads of a DataFrame: its index and its `close` column.
  pub record Row : Type 0 where
    pub timestamp : ℕ
    pub close : Float

  pub record DataFrame : Type 0 where
    pub aware : Bool
    pub rows : List Row

  -- The columns that pandas-ta returns, by name; a column gives its value at each row position.
  abbrev pub Columns : Type 0
  Columns = List (String × (ℕ → Float))

  -- The three columns that `_apply_bands` adds.
  pub record Bands : Type 0 where
    pub bb_lower : ℕ → Float
    pub bb_middle : ℕ → Float
    pub bb_upper : ℕ → Float

  -- The first column whose name starts with `prefix`. The error text ends with the list of the columns,
  -- which is left out.
  unfoldable pub find_column : String → Columns → Result (ℕ → Float)
  find_column prefix [] =
      raise value_error
        (text "Expected a '" ∷ text prefix ∷ text "_*' column in bbands output, got: " ∷ [])
  find_column prefix ((name, column) ∷ rest) =
      let later = find_column prefix rest in if starts_with name prefix then ok column else later

  -- `_apply_bands` on the result of `ta.bbands`.
  unfoldable pub apply_bands : ℕ → Option Columns → Result Bands
  apply_bands period none = raise value_error (
      text "pandas-ta returned None for bbands. Check that df has at least "
      ∷ number period
      ∷ text " rows."
      ∷ [])
  apply_bands period (some columns) = do
    bbl ← find_column "BBL" columns
    bbm ← find_column "BBM" columns
    bbu ← find_column "BBU" columns
    ok (record { bb_lower = bbl; bb_middle = bbm; bb_upper = bbu })

  -- A row of the DataFrame with its bands and its entry of the session mask.
  pub record Bar : Type 0 where
    pub timestamp : ℕ
    pub close : Float
    pub bb_lower : Float
    pub bb_middle : Float
    pub bb_upper : Float
    pub in_session : Bool

  -- The rows from position `i` on.
  unfoldable pub bars_from : Bands → ℕ → List Row → List Bool → List Bar
  bars_from bands i [] mask = []
  bars_from bands i (r ∷ rs) [] = []
  bars_from bands i (r ∷ rs) (m ∷ ms) =
      record {
        timestamp = r.timestamp;
        close = r.close;
        bb_lower = bands.bb_lower i;
        bb_middle = bands.bb_middle i;
        bb_upper = bands.bb_upper i;
        in_session = m;
      }
      ∷ bars_from bands (suc i) rs ms

  -- `row[exit_col]`
  abbrev pub exit_level : ExitBand → Bar → Float
  exit_level middle b = b.bb_middle
  exit_level upper b = b.bb_upper

  -- `in_position` and `trades`
  pub record State : Type 0 where
    pub in_position : Bool
    pub trades : List (Trade floats)

  abbrev pub start : State
  start = record { in_position = false; trades = [] }

  -- Append a trade at the bar's close, and set `in_position`.
  unfoldable pub emit : Bool → SignalType → Reason floats → Bar → State → Result State
  emit in_position signal reason b s = do
    t ← make_trade floats b.timestamp signal b.close reason
    ok (record { in_position = in_position; trades = s.trades ++ t ∷ [] })

  -- The body of the loop.
  unfoldable pub step : ExitBand → Bar → State → Result State
  step exit_at b s =
      if not b.in_session
      then ok s
      else if not s.in_position
      then if lt b.close b.bb_lower
        then emit true buy (below_lower b.close b.bb_lower) b s
        else ok s
      else if le (exit_level exit_at b) b.close
      then emit false sell (at_exit_band b.close (exit_level exit_at b)) b s
      else ok s

  -- The loop over the bars from position `length` on.
  unfoldable pub scan : ExitBand → List Bar → State → Result State
  scan exit_at [] s = ok s
  scan exit_at (b ∷ bs) s = step exit_at b s >>= λ s'. scan exit_at bs s'

  -- The last position at which the mask is set, among all of the rows.
  abbrev pub last_in_session : List Bar → Option Bar
  last_in_session bars = get_last? (filter (λ (b : Bar). b.in_session) bars)

  abbrev pub close_at : Option Bar → State → Result State
  close_at none s = ok s
  close_at (some b) s = emit s.in_position sell end_of_data b s

  -- The forced exit, which leaves `in_position` as it is.
  unfoldable pub force_exit : List Bar → State → Result State
  force_exit bars s = if s.in_position then close_at (last_in_session bars) s else ok s

  pub record BacktestResult : Type 0 where
    pub params : BollingerParams
    pub start_date : ℕ
    pub end_date : ℕ
    pub trades : List (Trade floats)
    pub metrics : BacktestMetrics floats
    pub chart_data : List Bar

  -- `df.index[0]` and `df.index[-1]`
  abbrev pub first_and_last : List Row → Result (ℕ × ℕ)
  first_and_last [] = raise index_error (text "index 0 is out of bounds" ∷ [])
  first_and_last (r ∷ rs) =
      ok (r.timestamp, elim (get_last? rs) [ none ↦ r.timestamp | some l ↦ l.timestamp ])

  -- The part of `run` after the bands and the session mask.
  unfoldable pub trade_bars : BollingerParams → DataFrame → List Bar → Result BacktestResult
  trade_bars params df bars = do
    scanned ← scan params.exit_at (drop params.length bars) start
    final ← force_exit bars scanned
    metrics ← calculate_metrics floats final.trades params.initial_capital
    ends ← first_and_last df.rows
    ok (record {
      params = params;
      start_date = ends.0;
      end_date = ends.1;
      trades = final.trades;
      metrics = metrics;
      chart_data = bars;
    })

  -- `run`, with `ta.bbands` and the tz database as arguments.
  unfoldable pub run :
      (ℕ → Float → List Float → Option Columns)
      → (ℕ → ℕ)
      → BollingerParams
      → DataFrame
      → Result BacktestResult
  run bbands local_time params df = do
    bands ←
        apply_bands params.length
          (bbands params.length params.std_dev (map (λ (r : Row). r.close) df.rows))
    mask ←
        regular_session_mask local_time
          (record { aware = df.aware; instants = map (λ (r : Row). r.timestamp) df.rows })
    trade_bars params df (bars_from bands 0 df.rows mask)
