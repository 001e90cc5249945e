-- ===== src/Settings.antt =====
-- What the configuration of entrypoints/config.py sets up: the database URLs of db/db_helpers.py and
-- db/db_engine.py, the limiter that infrastructure/redis_rate_limiter.py builds, and the queues of
-- worker/celery_app.py. The environment gives the values.
use stock_trader.Prelude.{ℕ, Bool, true, false, List, [], ◌∷◌, String, if◌then◌else◌}
use stock_trader.Errors.{Message, Result, text, number}
use stock_trader.RateLimit.Acquire.{Config, make}

-- The fields that the code reads, without the logger's; a timeout is in seconds.
pub record StockTraderConfig : Type 0 where
  pub db_username : String
  pub db_password : String
  pub db_name : String
  pub db_host : String
  pub db_port : ℕ
  pub redis_host : String
  pub redis_port : ℕ
  pub redis_db : ℕ
  pub massive_rate_max_requests : ℕ
  pub massive_rate_window_seconds : ℕ
  pub ratelimit_fail_open : Bool
  pub celery_broker_redis_db : ℕ
  pub celery_backend_redis_db : ℕ

-- `quote_plus` is of the standard library.
unfoldable pub get_database_url : (String → String) → String → StockTraderConfig → Bool → Message
get_database_url quote_plus db_name config is_async =
    text (if is_async then "postgresql+asyncpg://" else "postgresql://")
    ∷ text config.db_username
    ∷ text ":"
    ∷ text (quote_plus config.db_password)
    ∷ text "@"
    ∷ text config.db_host
    ∷ text ":"
    ∷ number config.db_port
    ∷ text "/"
    ∷ text db_name
    ∷ []

-- The URLs of the two session makers.
unfoldable pub get_async_session_maker : (String → String) → StockTraderConfig → Message
get_async_session_maker quote_plus config = get_database_url quote_plus config.db_name config true

unfoldable pub get_sync_session_maker : (String → String) → StockTraderConfig → Message
get_sync_session_maker quote_plus config = get_database_url quote_plus config.db_name config false

-- `build_massive_rate_limiter`: its key and its constructor.
unfoldable pub build_massive_rate_limiter : StockTraderConfig → Message × Result Config
build_massive_rate_limiter cfg = (
  text "ratelimit:massive:" ∷ number cfg.massive_rate_window_seconds ∷ [],
  make cfg.massive_rate_max_requests cfg.massive_rate_window_seconds cfg.ratelimit_fail_open,
)

-- `broker` and `backend` of the Celery application.
unfoldable pub redis_url : StockTraderConfig → ℕ → Message
redis_url config db =
    text "redis://"
    ∷ text config.redis_host
    ∷ text ":"
    ∷ number config.redis_port
    ∷ text "/"
    ∷ number db
    ∷ []

unfoldable pub broker_and_backend : StockTraderConfig → Message × Message
broker_and_backend config = (
  redis_url config config.celery_broker_redis_db,
  redis_url config config.celery_backend_redis_db,
)

-- `TASK_QUEUES`, with their routing keys, and `TASK_ROUTES`.
abbrev pub task_queues : List (String × String)
task_queues = ("backtest_queue", "backtest.#") ∷ ("fetch_queue", "fetch.#") ∷ []

abbrev pub task_routes : List (String × String × String)
task_routes =
    ("ensure_market_data_for_job", "fetch_queue", "fetch.task")
    ∷ ("ensure_market_data_for_symbol", "fetch_queue", "fetch.task")
    ∷ ("run_backtest", "backtest_queue", "backtest.task")
    ∷ ("stock_trader.core.backtest.finalize_backtest_job", "backtest_queue", "backtest.task")
    ∷ []
