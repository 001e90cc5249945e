-- ===== src/Examples/Fetches.antt =====
-- The theorem on the first task of the pipeline, on a job with two symbols and a provider that gives a
-- bar of the first day.
use stock_trader.Prelude.{
  ℕ, suc, ◌+◌, ◌*◌, ◌≤◌, ◌<◌, ◌≡◌, refl, sym, subst, ◌∙◌, inl, inr, List, [], ◌∷◌, String, All, leb,
  leb→le, arith, Bool-cases, if◌then◌else◌,
}
use stock_trader.Errors.{Result, ok}
use stock_trader.MarketData.Intervals.{Params, provider_params, resolve_interval}
use stock_trader.MarketData.Bars.{
  Agg, Ohlcv, OhlcvSeries, Request, agg_to_ohlcv, has_bars, fetch_ohlcv, fetch_ohlcv_lem,
  aggs_to_ohlcv_series,
}
use stock_trader.MarketData.Rows.{get_ohlcv_data, bulk_insert_market_data, records}
use stock_trader.MarketData.Service.{ensure_data, fetch_missing, fetch_and_save, save}
use stock_trader.MarketData.Service.Found.{InDates}
use stock_trader.Jobs.Repository.{get_backtest_job}
use stock_trader.Worker.Externals.{JobOf, Network}
use stock_trader.Worker.Fetch.{Stored, ensure_symbols, ensure_market_data_for_job}
use stock_trader.Worker.Fetch.Found.{HasBars, fetched-HasBars}
use stock_trader.Examples.Markets.{id, list_market, midnight, agg}
use stock_trader.Examples.Pipelines.{ext, dispatched}

abbrev dated : ℕ → Agg ℕ id
dated day = record agg { timestamp = day * 1000 + 500 }

abbrev first_day : String → Params → ℕ → ℕ → Result (List (Agg ℕ id))
first_day symbol params start_date end_date =
    ok (if leb start_date end_date then dated start_date ∷ [] else [])

abbrev network : Network ext
network = record { list_aggs = first_day; limiter = λ i. ok tt }

abbrev IsOfDates : Request → Ohlcv ℕ id → Type 0
IsOfDates r bar =
    (midnight r.start_date ≤ bar.timestamp) × (bar.timestamp < midnight (suc r.end_date))

first_day-InDates : InDates ℕ id list_market midnight first_day
unfolding agg_to_ohlcv
first_day-InDates r s h =
    let (params, sent, answer) = fetch_ohlcv_lem ℕ id first_day r in
    let given : ok _ ≡ ok s = sym answer ∙ h in
    elim (Bool-cases (leb r.start_date r.end_date)) [
      | inl some_days ↦
          let days = leb→le r.start_date r.end_date some_days in
          let built : OhlcvSeries ℕ id = record {
            symbol = r.symbol;
            interval = r.interval;
            bars = agg_to_ohlcv ℕ id (dated r.start_date) ∷ [];
          } in
          let same : built ≡ s = (let k = rw some_days at given in cc) in
          subst (λ (z : OhlcvSeries ℕ id). All (IsOfDates r) z.bars) same
            ((omega (arith, days), omega (arith, days)), tt)
      | inr no_days ↦
          let built : OhlcvSeries ℕ id = record {
            symbol = r.symbol;
            interval = r.interval;
            bars = [];
          } in
          let same : built ≡ s = (let k = rw no_days at given in cc) in
          subst (λ (z : OhlcvSeries ℕ id). All (IsOfDates r) z.bars) same tt
    ]

abbrev two_symbols : JobOf ext
two_symbols = record dispatched { symbols = "AAPL" ∷ "MSFT" ∷ [] }

abbrev nothing_stored : Stored ext
nothing_stored = record { table = []; effects = [] }

abbrev after : Stored ext
after = (ensure_market_data_for_job ext network 9 (two_symbols ∷ []) nothing_stored).1

succeeds :
    ensure_market_data_for_job ext network 9 (two_symbols ∷ []) nothing_stored ≡ (ok tt, after)
unfolding ensure_market_data_for_job ensure_symbols get_backtest_job ensure_data get_ohlcv_data
    fetch_missing fetch_and_save save has_bars fetch_ohlcv provider_params aggs_to_ohlcv_series
    resolve_interval agg_to_ohlcv bulk_insert_market_data records
succeeds = refl

fetched-HasBars_example : All (HasBars ext network two_symbols after) ("AAPL" ∷ "MSFT" ∷ [])
fetched-HasBars_example =
    fetched-HasBars ext network 9 (two_symbols ∷ []) two_symbols nothing_stored after
      first_day-InDates refl ((λ e. absurd (cc)), ((λ e. absurd (cc)), tt)) succeeds
