-- ===== src/MarketData/Service/Partial.antt =====
-- A call of `ensure_data` for dates of which some bar is stored.
use stock_trader.Prelude.{ℕ, suc, ◌≤◌, ◌<◌, ◌≡◌, ◌≢◌, true, Option, List, String, map}
use stock_trader.Errors.{Result, ok}
use stock_trader.MarketData.Intervals.{Params}
use stock_trader.MarketData.Bars.{Request, Agg, OhlcvSeries}
use stock_trader.MarketData.Rows.{MarketTables, from_record}
use stock_trader.MarketData.Service.{World, ensure_data}
use stock_trader.MarketData.Service.Repeat.{found_again, hit}

-- If one bar of the symbol and interval is stored anywhere in the requested dates, then, whatever the
-- other dates lack, the call succeeds with the stored bars of these dates alone: it asks neither the limiter nor the
-- provider, and leaves the database as it is.
pub stored_bar_suffices :
    (Price : Type 0) (truncate : Price → ℕ) (tables : MarketTables Price truncate)
    (midnight : ℕ → ℕ) (list_aggs : String → Params → ℕ → ℕ → Result (List (Agg Price truncate)))
    (limiter : Option (Result (Unit {0}))) (r : Request) (at : ℕ) (w : World Price truncate tables)
    → tables.has_key r.symbol r.interval at w.table ≡ true
    → midnight r.start_date ≤ at
    → at < midnight (suc r.end_date)
    → r.symbol ≢ ""
    → (s : OhlcvSeries Price truncate) × (ensure_data Price truncate tables midnight list_aggs
          limiter r w
        ≡ (ok s, w))
      × (s.bars
          ≡ map (from_record Price truncate) (
              tables.select_range r.symbol r.interval
                (midnight r.start_date)
                (midnight (suc r.end_date))
                w.table))
stored_bar_suffices Price truncate tables midnight list_aggs limiter r at w stored low high named =
    let (s, found, full, bars) =
      found_again Price truncate tables midnight list_aggs r w.table named
        (tables.select_range-has_key r.symbol r.interval _ _ at w.table stored low high) in
    (s, hit Price truncate tables midnight list_aggs limiter r w s found full, bars)
