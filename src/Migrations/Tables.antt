-- ===== src/Migrations/Tables.antt =====
-- The tables that the classes of db/models/ declare. An enumeration's labels are the names of the
-- Python members.
use stock_trader.Prelude.{true, false, none, some, List, [], ◌∷◌, String}
use stock_trader.Migrations.Schema.{
  ColumnType, uuid, jsonb, timestamp_tz, text_type, date, bigint, varchar, numeric, enum,
  ForeignKey, Table,
}
use stock_trader.Models.{
  BacktestStatus, created, running, completed, failed, Interval, one_minute, five_minute,
  fifteen_minute, thirty_minute, one_hour, daily,
}
use stock_trader.Prelude.{map}

-- The names of the members of `BacktestStatusEnum` and `IntervalEnum`.
abbrev pub status_name : BacktestStatus → String
status_name created = "CREATED"
status_name running = "RUNNING"
status_name completed = "COMPLETED"
status_name failed = "FAILED"

abbrev pub interval_name : Interval → String
interval_name one_minute = "ONE_MINUTE"
interval_name five_minute = "FIVE_MINUTE"
interval_name fifteen_minute = "FIFTEEN_MINUTE"
interval_name thirty_minute = "THIRTY_MINUTE"
interval_name one_hour = "ONE_HOUR"
interval_name daily = "DAILY"

abbrev pub backtest_job_status : ColumnType
backtest_job_status =
    enum "backtest_job_status" (map status_name (created ∷ running ∷ completed ∷ failed ∷ []))

abbrev pub interval_enum : ColumnType
interval_enum = enum "interval_enum" (
    map interval_name
      (one_minute ∷ five_minute ∷ fifteen_minute ∷ thirty_minute ∷ one_hour ∷ daily ∷ []))

abbrev of_job : ForeignKey
of_job = record { column = "job_id"; referred_table = "backtest_jobs"; referred_column = "uuid" }

abbrev pub backtest_jobs : Table
backtest_jobs = record {
  name = "backtest_jobs";
  columns =
      record { name = "uuid"; type = uuid; nullable = false; server_default = none }
      ∷ record {
        name = "status";
        type = backtest_job_status;
        nullable = false;
        server_default = none;
      }
      ∷ record {
        name = "strategy_name";
        type = varchar 50;
        nullable = false;
        server_default = none;
      }
      ∷ record { name = "symbols"; type = jsonb; nullable = false; server_default = none }
      ∷ record { name = "parameters"; type = jsonb; nullable = true; server_default = none }
      ∷ record { name = "start_date"; type = date; nullable = false; server_default = none }
      ∷ record { name = "end_date"; type = date; nullable = false; server_default = none }
      ∷ record { name = "error"; type = text_type; nullable = true; server_default = none }
      ∷ record {
        name = "create_time";
        type = timestamp_tz;
        nullable = false;
        server_default = some "now()";
      }
      ∷ record { name = "start_time"; type = timestamp_tz; nullable = true; server_default = none }
      ∷ record { name = "end_time"; type = timestamp_tz; nullable = true; server_default = none }
      ∷ [];
  primary_key = "uuid" ∷ [];
  foreign_keys = [];
  unique_constraints = [];
  indexes =
      (record { name = "ix_backtest_jobs_status"; columns = "status" ∷ [] })
      ∷ (record { name = "ix_backtest_jobs_created"; columns = "create_time" ∷ [] })
      ∷ [];
}

abbrev pub backtest_results : Table
backtest_results = record {
  name = "backtest_results";
  columns =
      record { name = "uuid"; type = uuid; nullable = false; server_default = none }
      ∷ record { name = "job_id"; type = uuid; nullable = false; server_default = none }
      ∷ record { name = "symbol"; type = varchar 10; nullable = false; server_default = none }
      ∷ record { name = "summary"; type = jsonb; nullable = true; server_default = none }
      ∷ record { name = "raw"; type = jsonb; nullable = true; server_default = none }
      ∷ record {
        name = "create_time";
        type = timestamp_tz;
        nullable = false;
        server_default = some "now()";
      }
      ∷ [];
  primary_key = "uuid" ∷ [];
  foreign_keys = of_job ∷ [];
  unique_constraints = [];
  indexes = [];
}

abbrev pub job_events : Table
job_events = record {
  name = "job_events";
  columns =
      record { name = "uuid"; type = uuid; nullable = false; server_default = none }
      ∷ record { name = "job_id"; type = uuid; nullable = false; server_default = none }
      ∷ record { name = "event"; type = text_type; nullable = false; server_default = none }
      ∷ record { name = "payload"; type = jsonb; nullable = false; server_default = none }
      ∷ record {
        name = "create_time";
        type = timestamp_tz;
        nullable = false;
        server_default = some "now()";
      }
      ∷ [];
  primary_key = "uuid" ∷ [];
  foreign_keys = of_job ∷ [];
  unique_constraints = [];
  indexes =
      (record { name = "ix_job_events_job_id_created"; columns = "job_id" ∷ "create_time" ∷ [] })
      ∷ [];
}

abbrev pub market_data : Table
market_data = record {
  name = "market_data";
  columns =
      record {
        name = "uuid";
        type = uuid;
        nullable = false;
        server_default = some "gen_random_uuid()";
      }
      ∷ record { name = "symbol"; type = varchar 10; nullable = false; server_default = none }
      ∷ record { name = "interval"; type = interval_enum; nullable = false; server_default = none }
      ∷ record { name = "timestamp"; type = timestamp_tz; nullable = false; server_default = none }
      ∷ record { name = "open"; type = numeric 12 4; nullable = false; server_default = none }
      ∷ record { name = "high"; type = numeric 12 4; nullable = false; server_default = none }
      ∷ record { name = "low"; type = numeric 12 4; nullable = false; server_default = none }
      ∷ record { name = "close"; type = numeric 12 4; nullable = false; server_default = none }
      ∷ record { name = "volume"; type = bigint; nullable = false; server_default = none }
      ∷ record {
        name = "created_at";
        type = timestamp_tz;
        nullable = false;
        server_default = some "now()";
      }
      ∷ [];
  primary_key = "uuid" ∷ [];
  foreign_keys = [];
  unique_constraints =
      (record {
        name = "uq_market_data_symbol_interval_timestamp";
        columns = "symbol" ∷ "interval" ∷ "timestamp" ∷ [];
      })
      ∷ [];
  indexes =
      (record {
        name = "ix_market_data_symbol_interval_ts";
        columns = "symbol" ∷ "interval" ∷ "timestamp" ∷ [];
      })
      ∷ [];
}

abbrev pub declared_tables : List Table
declared_tables = backtest_jobs ∷ backtest_results ∷ job_events ∷ market_data ∷ []
