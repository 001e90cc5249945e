-- ===== src/Examples/Migrations.antt =====
-- PostgreSQL as a catalog alone, and the theorems on the migrations with it.
use stock_trader.Prelude.{◌≡◌, refl, true, false, none, some, [], String, All}
use stock_trader.Errors.{Message, Result, ok, is_ok}
use stock_trader.Settings.{StockTraderConfig}
use stock_trader.Migrations.Schema.{Catalog, effect}
use stock_trader.Migrations.Database.{Postgres, Versioned, upgrade_head}
use stock_trader.Migrations.Head.{before_dates, at_head, upgrade_head_rows}
use stock_trader.Migrations.Setup.{Leaves, main, main-AllMatch}
use stock_trader.Migrations.Return.{targets, Returns, upgrade_head-downgrade}

abbrev catalogs : Postgres
catalogs = record {
  Database = Catalog;
  catalog = λ c. c;
  run = effect;
  run-ok = λ op db c fits done. (c, done, refl);
  run-err = λ op db e failed. (e, failed);
}

abbrev empty : Catalog
empty = record { has_schema = false; types = []; tables = [] }

abbrev settings : StockTraderConfig
settings = record {
  db_username = "trader";
  db_password = "secret";
  db_name = "stock_trader";
  db_host = "postgres";
  db_port = 5432;
  redis_host = "redis";
  redis_port = 6379;
  redis_db = 0;
  massive_rate_max_requests = 5;
  massive_rate_window_seconds = 60;
  ratelimit_fail_open = false;
  celery_broker_redis_db = 1;
  celery_backend_redis_db = 2;
}

abbrev as_it_is : String → String
as_it_is s = s

abbrev takes_all : Message → Result (Unit {0})
takes_all url = ok tt

main-AllMatch_example :
    let (result, s) =
      main catalogs as_it_is takes_all settings (record { blank = empty; database = none }) in
    ((db : Versioned catalogs) × (s.database ≡ some db) × Leaves catalogs empty (ok tt) result db)
    × (main catalogs as_it_is takes_all settings s ≡ (result, s))
main-AllMatch_example = main-AllMatch catalogs as_it_is takes_all settings empty false refl

upgrade_head_rows_example :
    let old = before_dates true false false true in
    let (result, s) =
      upgrade_head catalogs (record { version = some "4b19bd66b772"; database = old }) in
    (is_ok result ≡ false) × ((s.version ≡ some "4b19bd66b772") × (s.database ≡ old))
upgrade_head_rows_example =
    upgrade_head_rows catalogs (before_dates true false false true) true false false true refl

upgrade_head-downgrade_example :
    All
      (Returns catalogs
        (record { version = some "b3ad9bd1b1d3"; database = at_head false false false true }))
      targets
upgrade_head-downgrade_example =
    upgrade_head-downgrade catalogs (at_head false false false true) false false true refl
