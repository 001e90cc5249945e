-- ===== src/Models.antt =====
-- models/shared_enums.py.
use stock_trader.Prelude.{String, Bool, true, false}

pub data BacktestStatus : Type 0 where
  created running completed failed : BacktestStatus

pub data Interval : Type 0 where
  one_minute five_minute fifteen_minute thirty_minute one_hour daily : Interval

-- `interval.value`
abbrev pub interval_value : Interval → String
interval_value one_minute = "1min"
interval_value five_minute = "5min"
interval_value fifteen_minute = "15min"
interval_value thirty_minute = "30min"
interval_value one_hour = "1h"
interval_value daily = "1d"

abbrev pub is_running : BacktestStatus → Bool
is_running running = true
is_running _ = false
