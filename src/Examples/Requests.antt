-- ===== src/Examples/Requests.antt =====
-- The theorems on the fetch of market data and on the session clock, on concrete requests.
use stock_trader.Prelude.{
  ℕ, ◌+◌, ◌≤◌, ◌≡◌, ◌≢◌, ◌↔◌, true, some, [], ◌∷◌, String, str_eq, if◌then◌else◌,
}
use stock_trader.Errors.{ok}
use stock_trader.Models.{one_minute}
use stock_trader.MarketData.Fetcher.{Task, max_span_days, validate, validate_iff}
use stock_trader.Strategy.Session.{DatetimeIndex}

-- Upper case for one symbol.
abbrev normalize_aapl : String → String
normalize_aapl s = if str_eq s " aapl" then "AAPL" else s

abbrev month_of_aapl : Task
month_of_aapl = record { symbol = "AAPL"; interval = one_minute; start_date = 700; end_date = 730 }

validate_iff_example : (validate normalize_aapl " aapl" one_minute 700 730 ≡ ok month_of_aapl) ↔ (
    (normalize_aapl " aapl" ≢ "")
    × (700 ≤ 730)
    × (cap : ℕ) × (max_span_days one_minute ≡ some cap)
    × (730 ≤ 700 + cap)
    × (month_of_aapl ≡ month_of_aapl))
validate_iff_example = validate_iff normalize_aapl " aapl" one_minute 700 730 month_of_aapl

-- 9:29:59.999999 and 9:30, where local time is the instant.
abbrev around_open : DatetimeIndex
around_open = record { aware = true; instants = 34199999999 ∷ 34200000000 ∷ [] }
