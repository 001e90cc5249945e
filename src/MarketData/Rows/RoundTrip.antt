-- ===== src/MarketData/Rows/RoundTrip.antt =====
-- A series in rows, and back.
use stock_trader.Prelude.{
  ℕ, ◌≡◌, ◌≢◌, refl, ap, false, none, List, [], ◌∷◌, String, map, str_eq, eq_iff, Bool-cases, inl,
  inr,
}
use stock_trader.Errors.{ok}
use stock_trader.Models.{Interval}
use stock_trader.MarketData.Bars.{Ohlcv, OhlcvSeries}
use stock_trader.MarketData.Rows.{from_record, from_records, to_record, records}

module _ (Price : Type 0) (truncate : Price → ℕ) where
  -- A bar without what a row does not hold.
  abbrev pub stored_part : Ohlcv Price truncate → Ohlcv Price truncate
  stored_part bar = record bar { vwap = none; transactions = none }

  -- The repository builds the rows that the class method of the model builds.
  pub records-to_record :
      (s : OhlcvSeries Price truncate)
      → records Price truncate s
        ≡ map
            (λ (bar : Ohlcv Price truncate). to_record Price truncate bar s.symbol s.interval)
            s.bars
  unfolding records to_record
  records-to_record s = refl

  bars_back :
      (symbol : String) (interval : Interval) (bars : List (Ohlcv Price truncate))
      → map
          (from_record Price truncate)
          (map (λ (bar : Ohlcv Price truncate). to_record Price truncate bar symbol interval) bars)
        ≡ map stored_part bars
  unfolding from_record to_record
  bars_back symbol interval [] = refl
  bars_back symbol interval (b ∷ bs) = ap (λ z. stored_part b ∷ z) (bars_back symbol interval bs)

  -- The rows of a series that has a bar and a symbol give the series back, but for the volume-weighted
  -- prices and the numbers of transactions.
  pub from_records-records :
      (s : OhlcvSeries Price truncate)
      → s.bars ≢ []
      → s.symbol ≢ ""
      → from_records Price truncate (records Price truncate s)
        ≡ ok (record s { bars = map stored_part s.bars })
  unfolding from_records records from_record to_record
  from_records-records s full named = go s.bars full
    where
      named' : str_eq s.symbol "" ≡ false
      named' = elim (Bool-cases (str_eq s.symbol "")) [
        | inl same ↦ absurd (named ((eq_iff s.symbol "").0 same))
        | inr other ↦ other
      ]

      go :
          (bars : List (Ohlcv Price truncate))
          → bars ≢ []
          → from_records Price truncate (records Price truncate (record s { bars = bars }))
            ≡ ok (record s { bars = map stored_part bars })
      go [] h = absurd (h refl)
      go (b ∷ bs) h = rw named' (
          ap
            (λ z.
              ok (record { symbol = s.symbol; interval = s.interval; bars = stored_part b ∷ z }))
            (bars_back s.symbol s.interval bs))
