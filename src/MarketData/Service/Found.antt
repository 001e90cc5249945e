-- ===== src/MarketData/Service/Found.antt =====
-- What is stored after a call of `ensure_data` that succeeds.
use stock_trader.Prelude.{
  ℕ, suc, ◌≤◌, ◌<◌, ◌≡◌, ◌≢◌, ◌⊎◌, inl, inr, ap, subst, Option, List, [], String, All, Bool-cases,
  Option-cases, List-cases,
}
use stock_trader.Errors.{Result, ok, Result-cases}
use stock_trader.MarketData.Intervals.{Params}
use stock_trader.MarketData.Bars.{Request, Agg, Ohlcv, OhlcvSeries, has_bars, fetch_ohlcv}
use stock_trader.MarketData.Rows.{MarketTables, get_ohlcv_data, bulk_insert_market_data}
use stock_trader.MarketData.Service.{World, ensure_data, fetch_missing}
use stock_trader.MarketData.Service.Repeat.{fetch_missing-ok, stored_is_found}

module _ (Price : Type 0) (truncate : Price → ℕ) (tables : MarketTables Price truncate)
    (midnight : ℕ → ℕ)
    (list_aggs : String → Params → ℕ → ℕ → Result (List (Agg Price truncate))) where
  abbrev LocalWorld : Type 0
  LocalWorld = World Price truncate tables

  abbrev Series : Type 0
  Series = OhlcvSeries Price truncate

  -- Bars of the request are stored.
  abbrev pub Found : Request → tables.Table → Type 0
  Found r t =
      tables.select_range r.symbol r.interval (midnight r.start_date) (midnight (suc r.end_date)) t
      ≢ []

  -- The provider gives bars of the dates that it is asked for.
  abbrev pub InDates : Type 0
  InDates =
      (r : Request) (s : Series)
      → fetch_ohlcv Price truncate list_aggs r ≡ ok s
      → All
          (λ (bar : Ohlcv Price truncate).
            (midnight r.start_date ≤ bar.timestamp) × (bar.timestamp < midnight (suc r.end_date)))
          s.bars

  -- A call that succeeds was answered from the database, or by the provider.
  ensure_data-cases :
      (limiter : Option (Result (Unit {0}))) (r : Request) (w w' : LocalWorld) (s : Series)
      → ensure_data Price truncate tables midnight list_aggs limiter r w ≡ (ok s, w')
      → ((w ≡ w') × Found r w.table)
        ⊎ (fetch_missing Price truncate tables midnight list_aggs limiter r w ≡ (ok s, w'))
  unfolding ensure_data get_ohlcv_data
  ensure_data-cases limiter r w w' s h =
      elim (Result-cases (get_ohlcv_data Price truncate tables midnight r w.table)) [
        | inr (e, q) ↦ absurd (let h' = ap (λ z. z.0) (rw q at h) in cc)
        | inl (found, q) ↦ elim (Option-cases found) [
          | inl nothing ↦ inr (rw (q, nothing) at h)
          | inr (t, f) ↦ elim (Bool-cases (has_bars Price truncate t)) [
            | inr empty ↦ inr (rw (q, f, empty) at h)
            | inl full ↦ inl (
              ap (λ z. z.1) (rw (q, f, full) at h),
              λ none_there. absurd (let k = rw none_there at q in cc),
            )
          ]
        ]
      ]

  pub ensure_data-Found :
      InDates
      → (limiter : Option (Result (Unit {0}))) (r : Request) (w w' : LocalWorld) (s : Series)
      → ensure_data Price truncate tables midnight list_aggs limiter r w ≡ (ok s, w')
      → Found r w'.table
  unfolding has_bars
  ensure_data-Found in_dates limiter r w w' s h = elim (ensure_data-cases limiter r w w' s h) [
    | inl (same, found) ↦ subst (λ (z : LocalWorld). Found r z.table) same found
    | inr missed ↦
        let (fetched_, saved, full) =
          fetch_missing-ok Price truncate tables midnight list_aggs limiter r w missed in
        elim (List-cases s.bars) [
          | inl nothing ↦ absurd (let k = rw nothing at full in cc)
          | inr (bar, after, split) ↦
              let (low, high) = (rw split at (in_dates r s fetched_)).0 in
              stored_is_found Price truncate tables midnight list_aggs r w.table w'.table s [] after
                bar fetched_ saved split low high
        ]
  ]

  pub ensure_data-keeps :
      (limiter : Option (Result (Unit {0}))) (r other : Request) (w w' : LocalWorld) (s : Series)
      → ensure_data Price truncate tables midnight list_aggs limiter r w ≡ (ok s, w')
      → Found other w.table
      → Found other w'.table
  unfolding bulk_insert_market_data
  ensure_data-keeps limiter r other w w' s h found = elim (ensure_data-cases limiter r w w' s h) [
    | inl (same, _) ↦ subst (λ (z : LocalWorld). Found other z.table) same found
    | inr missed ↦
        let (fetched_, saved, full) =
          fetch_missing-ok Price truncate tables midnight list_aggs limiter r w missed in
        tables.select_range-insert_ignoring _ w.table w'.table other.symbol other.interval _ _ saved
          found
  ]
