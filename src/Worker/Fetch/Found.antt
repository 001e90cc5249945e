-- ===== src/Worker/Fetch/Found.antt =====
-- What the first task of the pipeline leaves for the strategy.
use stock_trader.Prelude.{ℕ, suc, ◌≡◌, ◌≢◌, refl, ap, subst, true, some, List, [], ◌∷◌, String, All}
use stock_trader.Errors.{Result, ok, err}
use stock_trader.Models.{one_minute}
use stock_trader.MarketData.Bars.{Request, OhlcvSeries, has_bars}
use stock_trader.MarketData.Rows.{get_ohlcv_data}
use stock_trader.MarketData.Service.{ensure_data}
use stock_trader.MarketData.Service.Found.{Found, InDates, ensure_data-Found, ensure_data-keeps}
use stock_trader.MarketData.Service.Repeat.{found_again}
use stock_trader.Jobs.Repository.{get_backtest_job}
use stock_trader.Worker.Externals.{Externals, JobOf, Network}
use stock_trader.Worker.Fetch.{
  Stored, next_symbol, forget, ensure_symbols, ensure_market_data_for_job,
}

module _ (ext : Externals) (net : Network ext) (j : JobOf ext) where
  open ext use {floats, values, jobs, truncate, market, midnight}

  -- What `ensure_market_data_for_job` asks for, and what `run_backtest` reads.
  abbrev pub request_for : String → Request
  request_for s = record {
    symbol = s;
    interval = one_minute;
    start_date = j.start_date;
    end_date = j.end_date;
  }

  abbrev Ready : Stored ext → String → Type 0
  Ready w s = Found floats.Float truncate market midnight net.list_aggs (request_for s) w.table

  abbrev ensure_one :
      ℕ → String → Stored ext → Result (OhlcvSeries floats.Float truncate) × Stored ext
  ensure_one i s w =
      ensure_data floats.Float truncate market midnight net.list_aggs (some (net.limiter i))
        (request_for s) w

  ensure_symbols-Ready :
      InDates floats.Float truncate market midnight net.list_aggs
      → (i : ℕ) (symbols : List String) (w w' : Stored ext)
      → ensure_symbols ext net j i symbols w ≡ (ok tt, w')
      → All (Ready w') symbols × ((s : String) → Ready w s → Ready w' s)
  unfolding ensure_symbols
  ensure_symbols-Ready in_dates i [] w w' h =
      let same : w ≡ w' = ap (λ z. z.1) h in (tt, λ s k. subst (λ z. Ready z s) same k)
  ensure_symbols-Ready in_dates i (s ∷ symbols) w w' h =
      go (λ w1 k. ensure_symbols-Ready in_dates (suc i) symbols w1 w' k) (ensure_one i s w) refl h
    where
      go :
          ((w1 : Stored ext)
            → ensure_symbols ext net j (suc i) symbols w1 ≡ (ok tt, w')
            → All (Ready w') symbols × ((other : String) → Ready w1 other → Ready w' other))
          → (first : Result (OhlcvSeries floats.Float truncate) × Stored ext)
          → ensure_one i s w ≡ first
          → next_symbol ext (ensure_symbols ext net j (suc i) symbols) (forget ext first)
            ≡ (ok tt, w')
          → All (Ready w') (s ∷ symbols) × ((other : String) → Ready w other → Ready w' other)
      go later (err e, w1) q k = absurd (let k' = ap (λ z. z.0) k in cc)
      go later (ok series, w1) q k =
          let (rest, kept) = later w1 k in
          (
            (
              kept s (
                  ensure_data-Found floats.Float truncate market midnight net.list_aggs in_dates
                    (some (net.limiter i)) (request_for s) w w1 series q),
              rest,
            ),
            λ other found. kept other (
                ensure_data-keeps floats.Float truncate market midnight net.list_aggs
                  (some (net.limiter i)) (request_for s) (request_for other) w w1 series q found),
          )

  -- The bars of every symbol, as `run_backtest` reads them.
  abbrev pub HasBars : Stored ext → String → Type 0
  HasBars w s =
      (series : OhlcvSeries floats.Float truncate) × (get_ohlcv_data floats.Float truncate market
          midnight (request_for s) w.table
        ≡ ok (some series))
      × (has_bars floats.Float truncate series ≡ true)

  Ready-HasBars :
      (w : Stored ext) (symbols : List String)
      → All (λ s. s ≢ "") symbols
      → All (Ready w) symbols
      → All (HasBars w) symbols
  Ready-HasBars w [] named ready = tt
  Ready-HasBars w (s ∷ symbols) named ready =
      let (series, found, full, _) =
        found_again floats.Float truncate market midnight net.list_aggs (request_for s) w.table
          named.0 ready.0 in
      ((series, found, full), Ready-HasBars w symbols named.1 ready.1)

-- Let the provider give bars of the dates that it is asked for, and no symbol of a job be empty. When an
-- attempt of the first task for the job succeeds, then for every symbol of the job the table that it
-- leaves gives `run_backtest` a series with bars.
pub fetched-HasBars :
    (ext : Externals) (net : Network ext) (u : ℕ) (t : ext.jobs.Table) (j : JobOf ext)
    (w w' : Stored ext)
    → InDates ext.floats.Float ext.truncate ext.market ext.midnight net.list_aggs
    → ext.jobs.select_by_uuid u t ≡ some j
    → All (λ s. s ≢ "") j.symbols
    → ensure_market_data_for_job ext net u t w ≡ (ok tt, w')
    → All (HasBars ext net j w') j.symbols
unfolding ensure_market_data_for_job get_backtest_job
fetched-HasBars ext net u t j w w' in_dates row named h =
    Ready-HasBars ext net j w' j.symbols named
      (ensure_symbols-Ready ext net j in_dates 0 j.symbols w w' (rw row at h)).0
