-- ===== src/Migrations/Revisions.antt =====
-- The revisions of db/migrations/versions/. All names are in the schema stock_trader.
use stock_trader.Prelude.{true, false, Option, none, some, List, [], ◌∷◌, String}
use stock_trader.Migrations.Schema.{
  ColumnType, uuid, jsonb, timestamp_tz, text_type, date, bigint, varchar, numeric, enum,
  ForeignKey, Index, Table, Operation, create_schema_if_not_exists, drop_schema_if_exists_cascade,
  create_table, drop_table, create_index, drop_index, add_column, drop_column, alter_column,
}

abbrev pub status_type : ColumnType
status_type = enum "backtest_job_status" ("CREATED" ∷ "RUNNING" ∷ "COMPLETED" ∷ "FAILED" ∷ [])

abbrev pub interval_type : ColumnType
interval_type =
    enum "interval_enum" (
      "ONE_MINUTE" ∷ "FIVE_MINUTE" ∷ "FIFTEEN_MINUTE" ∷ "THIRTY_MINUTE" ∷ "ONE_HOUR" ∷ "DAILY" ∷ [])

-- `ForeignKey("stock_trader.backtest_jobs.uuid", ondelete="CASCADE")` of a column `job_id`
abbrev pub job_key : ForeignKey
job_key = record { column = "job_id"; referred_table = "backtest_jobs"; referred_column = "uuid" }

pub record Revision : Type 0 where
  pub revision : String
  pub down_revision : Option String
  pub upgrade : List Operation
  pub downgrade : List Operation

abbrev pub create_stock_trader_schema : Revision
create_stock_trader_schema = record {
  revision = "0d583eb2b2f7";
  down_revision = none;
  upgrade = create_schema_if_not_exists ∷ [];
  downgrade = drop_schema_if_exists_cascade ∷ [];
}

abbrev pub created_jobs : Table
created_jobs = record {
  name = "backtest_jobs";
  columns =
      record { name = "uuid"; type = uuid; nullable = false; server_default = none }
      ∷ record { name = "status"; type = status_type; nullable = false; server_default = none }
      ∷ record {
        name = "strategy_name";
        type = varchar 50;
        nullable = false;
        server_default = none;
      }
      ∷ record { name = "symbols"; type = jsonb; nullable = false; server_default = none }
      ∷ record { name = "parameters"; type = jsonb; nullable = true; server_default = none }
      ∷ record { name = "error"; type = varchar 255; nullable = true; server_default = none }
      ∷ record {
        name = "create_time";
        type = timestamp_tz;
        nullable = false;
        server_default = some "now()";
      }
      ∷ record { name = "start_time"; type = timestamp_tz; nullable = true; server_default = none }
      ∷ record { name = "end_time"; type = timestamp_tz; nullable = true; server_default = none }
      ∷ [];
  primary_key = "uuid" ∷ [];
  foreign_keys = [];
  unique_constraints = [];
  indexes = [];
}

abbrev pub created_results : Table
created_results = record {
  name = "backtest_results";
  columns =
      record { name = "uuid"; type = uuid; nullable = false; server_default = none }
      ∷ record { name = "job_id"; type = uuid; nullable = false; server_default = none }
      ∷ record { name = "symbol"; type = varchar 10; nullable = false; server_default = none }
      ∷ record { name = "summary"; type = jsonb; nullable = true; server_default = none }
      ∷ record { name = "raw"; type = jsonb; nullable = true; server_default = none }
      ∷ record {
        name = "create_time";
        type = timestamp_tz;
        nullable = false;
        server_default = some "now()";
      }
      ∷ [];
  primary_key = "uuid" ∷ [];
  foreign_keys = job_key ∷ [];
  unique_constraints = [];
  indexes = [];
}

abbrev pub created_events : Table
created_events = record {
  name = "job_events";
  columns =
      record { name = "uuid"; type = uuid; nullable = false; server_default = none }
      ∷ record { name = "job_id"; type = uuid; nullable = false; server_default = none }
      ∷ record { name = "event"; type = text_type; nullable = false; server_default = none }
      ∷ record { name = "payload"; type = jsonb; nullable = false; server_default = none }
      ∷ record {
        name = "create_time";
        type = timestamp_tz;
        nullable = false;
        server_default = some "now()";
      }
      ∷ [];
  primary_key = "uuid" ∷ [];
  foreign_keys = job_key ∷ [];
  unique_constraints = [];
  indexes = [];
}

abbrev pub created_index : Index
created_index = record { name = "ix_backtest_jobs_created"; columns = "create_time" ∷ [] }

abbrev pub status_index : Index
status_index = record { name = "ix_backtest_jobs_status"; columns = "status" ∷ [] }

abbrev pub events_index : Index
events_index = record {
  name = "ix_job_events_job_id_created";
  columns = "job_id" ∷ "create_time" ∷ [];
}

abbrev pub create_initial_tables : Revision
create_initial_tables = record {
  revision = "bcdd27605b96";
  down_revision = some "0d583eb2b2f7";
  upgrade =
      create_table created_jobs
      ∷ create_index "backtest_jobs" created_index
      ∷ create_index "backtest_jobs" status_index
      ∷ create_table created_results
      ∷ create_table created_events
      ∷ create_index "job_events" events_index
      ∷ [];
  downgrade =
      drop_index "job_events" "ix_job_events_job_id_created"
      ∷ drop_table "job_events"
      ∷ drop_table "backtest_results"
      ∷ drop_index "backtest_jobs" "ix_backtest_jobs_status"
      ∷ drop_index "backtest_jobs" "ix_backtest_jobs_created"
      ∷ drop_table "backtest_jobs"
      ∷ [];
}

abbrev pub created_market_data : Table
created_market_data = record {
  name = "market_data";
  columns =
      record {
        name = "uuid";
        type = uuid;
        nullable = false;
        server_default = some "gen_random_uuid()";
      }
      ∷ record { name = "symbol"; type = varchar 10; nullable = false; server_default = none }
      ∷ record { name = "interval"; type = interval_type; nullable = false; server_default = none }
      ∷ record { name = "timestamp"; type = timestamp_tz; nullable = false; server_default = none }
      ∷ record { name = "open"; type = numeric 12 4; nullable = false; server_default = none }
      ∷ record { name = "high"; type = numeric 12 4; nullable = false; server_default = none }
      ∷ record { name = "low"; type = numeric 12 4; nullable = false; server_default = none }
      ∷ record { name = "close"; type = numeric 12 4; nullable = false; server_default = none }
      ∷ record { name = "volume"; type = bigint; nullable = false; server_default = none }
      ∷ record {
        name = "created_at";
        type = timestamp_tz;
        nullable = false;
        server_default = some "now()";
      }
      ∷ [];
  primary_key = "uuid" ∷ [];
  foreign_keys = [];
  unique_constraints =
      (record {
        name = "uq_market_data_symbol_interval_timestamp";
        columns = "symbol" ∷ "interval" ∷ "timestamp" ∷ [];
      })
      ∷ [];
  indexes = [];
}

abbrev pub market_data_index : Index
market_data_index = record {
  name = "ix_market_data_symbol_interval_ts";
  columns = "symbol" ∷ "interval" ∷ "timestamp" ∷ [];
}

abbrev pub initial_market_data_table : Revision
initial_market_data_table = record {
  revision = "4b19bd66b772";
  down_revision = some "bcdd27605b96";
  upgrade = create_table created_market_data ∷ create_index "market_data" market_data_index ∷ [];
  downgrade =
      drop_index "market_data" "ix_market_data_symbol_interval_ts" ∷ drop_table "market_data" ∷ [];
}

abbrev pub add_date : Revision
add_date = record {
  revision = "8bb6b5de95e4";
  down_revision = some "4b19bd66b772";
  upgrade =
      add_column "backtest_jobs"
        (record { name = "start_date"; type = date; nullable = false; server_default = none })
      ∷ add_column "backtest_jobs"
          (record { name = "end_date"; type = date; nullable = false; server_default = none })
      ∷ [];
  downgrade =
      drop_column "backtest_jobs" "end_date" ∷ drop_column "backtest_jobs" "start_date" ∷ [];
}

abbrev pub change_type : Revision
change_type = record {
  revision = "b3ad9bd1b1d3";
  down_revision = some "8bb6b5de95e4";
  upgrade = alter_column "backtest_jobs" "error" text_type ∷ [];
  downgrade = alter_column "backtest_jobs" "error" (varchar 255) ∷ [];
}

abbrev pub revisions : List Revision
revisions =
    create_stock_trader_schema ∷ create_initial_tables ∷ initial_market_data_table ∷ add_date
    ∷ change_type ∷ []
