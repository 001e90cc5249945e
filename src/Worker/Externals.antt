-- ===== src/Worker/Externals.antt =====
-- All that the workers use and the repository does not contain, in one record.
use stock_trader.Prelude.{ℕ, Option, List, String}
use stock_trader.Errors.{Result}
use stock_trader.Strategy.Floats.{Floats}
use stock_trader.Strategy.Bollinger.{Columns}
use stock_trader.Strategy.Params.{Values, Parameters}
use stock_trader.Jobs.Table.{JobTypes, JobTables, Job}
use stock_trader.MarketData.Intervals.{Params}
use stock_trader.MarketData.Bars.{Agg}
use stock_trader.MarketData.Rows.{MarketTables}

-- The parameters of a job are a JSON object.
abbrev pub json_types : (floats : Floats) → Values floats → JobTypes
json_types floats values = record { Parameters = Parameters floats values }

pub record Externals : Type 1 where
  pub floats : Floats
  pub values : Values floats
  pub jobs : JobTables (json_types floats values)
  -- `int` of a float
  pub truncate : floats.Float → ℕ
  pub market : MarketTables floats.Float truncate
  -- the instant at which a date starts in the database's time zone
  pub midnight : ℕ → ℕ
  -- `ta.bbands`, and the time of day in America/New_York
  pub bbands : ℕ → floats.Float → List floats.Float → Option (Columns floats)
  pub local_time : ℕ → ℕ

abbrev pub JobOf : Externals → Type 0
JobOf ext = Job (json_types ext.floats ext.values)

-- What the network does during one attempt of a task: the provider's client, and what the limiter
-- answers to the calls of the attempt, by their number.
pub record Network (ext : Externals) : Type 0 where
  pub list_aggs : String → Params → ℕ → ℕ → Result (List (Agg ext.floats.Float ext.truncate))
  pub limiter : ℕ → Result (Unit {0})
