-- ===== src/Lib.antt =====
-- A model of the stock trader of src/stock_trader/, a service that backtests trading strategies on
-- market data, in terms that run, with proofs about it. Paths below are relative to
-- src/stock_trader/.
--
-- A client creates a backtest job over HTTP and dispatches it. The service checks the job's row,
-- marks it RUNNING and sends a pipeline to Celery: a task that ensures the market data of all
-- symbols, through a rate limited provider, then for each symbol one that runs the strategy and
-- stores its result, and at the end a callback that marks the job COMPLETED or FAILED.
--
-- Which file is about which code:
--   Api/Routes, Api/Responses, Api/Handlers: api/routes/, models/responses/ and
--     api/exception_handlers.py. A route is a function of arguments that FastAPI has parsed; it ends
--     with a body, an HTTPException or another exception, for which `respond` gives the response.
--   Api/Server: the life of the API process in entrypoints/api_server.py, with its Redis client, and
--     the debug and health routes.
--   Jobs/Table, Jobs/Repository: db/models/backtest_jobs.py and the two repositories,
--     db/repositories/backtest_repo.py and worker_repo.py. Jobs/Service:
--     api/services/backtest_service.py, with the check and the write of a dispatch as two steps, which
--     Jobs/Service/Race interleaves for two requests.
--     Jobs/Request: models/backtest_create_request.py. Jobs/Finalize: the end of a job in
--     core/backtest.py.
--   Worker/Backtest: `run_backtest` of core/backtest.py, with the conversion of a series to a
--     DataFrame, and the saved results of db/models/backtest_results.py. Worker/Fetch:
--     `ensure_market_data_for_job` of core/market_data/market_data_tasks.py, its retries and its
--     failure callback. Worker/Pipeline: api/services/celery_task_dispatcher.py, the pipeline of one
--     job as a step relation on the tables and the stage of the pipeline.
--     Worker/Redelivery: the same with `task_acks_late` of worker/celery_app.py, where a task whose
--     worker is lost runs again.
--   MarketData/Intervals: the interval tables of core/market_data/providers/massive/.
--     MarketData/Bars: core/models/ohlcv_series.py, and mapper.py and provider.py there.
--     MarketData/Rows: db/models/market_data.py and db/repositories/market_data_repo.py.
--     MarketData/Service: `ensure_data` of core/market_data/market_data_service.py, and the task of
--     one symbol in market_data_tasks.py. MarketData/Fetcher: api/services/market_data_fetcher.py.
--   RateLimit/Memory: core/market_data/providers/massive/rate_limiter.py. `make`, `evict_expired`
--     and `acquire` are `__init__`, `_evict_expired` and `acquire` of MassiveRateLimiter; the
--     readings of the monotonic clock in a call are its input.
--   RateLimit/SortedSet, RateLimit/Script, RateLimit/Acquire: infrastructure/redis_rate_limiter.py.
--     `acquire_script` is the Lua script, a step on the limiter's key, and `Acquire.acquire` the
--     loop of `acquire` over the passes that it makes. RateLimit/Spacing states what both limiters
--     promise.
--   Infrastructure/RedisServer, Infrastructure/RedisClient: infrastructure/redis_client.py, the
--     client on the commands of a server, what it promises, and the disabled client.
--   Strategy/Session: core/utils.py. Strategy/Trades, Strategy/Metrics and Strategy/Report:
--     core/strategies/models.py. Strategy/Params and Strategy/Bollinger:
--     core/strategies/bollinger_reversion.py; `step` is the body of the loop of `run`, `scan` the
--     loop, `force_exit` what follows it. Strategy/Registry: core/strategies/registry.py.
--   Migrations: Revisions is db/migrations/versions/, Tables the tables that the classes of db/models/
--     declare, Database `apply_migrations` of db/db_helpers.py with db/migrations/env.py, where
--     `upgrade_head` is the call of Alembic's upgrade to the head, and Setup
--     db/migrations/create_database.py. Schema says what an operation of a migration does to the
--     objects of the schema, Settled when these say all that its success depends on, and Plan that a
--     database follows it.
--   Settings: what entrypoints/config.py sets up in db/, infrastructure/ and worker/celery_app.py.
--   Models, Errors: models/shared_enums.py, models/exceptions.py and the exceptions of libraries.
--   Prelude holds the shared tests, lists and integers, and Examples concrete instances.
--
-- Parameters of the model, for what is not in the repository, with the laws that the code relies on:
-- the sorted set of the limiter's key (SortedSets) and the lists and texts of the client
-- (RedisServer) in Redis; the tables of jobs and of market data in PostgreSQL (JobTables,
-- MarketTables); PostgreSQL as what Alembic's operations change (Postgres), with the laws that an
-- operation does to the catalog what Schema writes out, or fails; Alembic's `set_main_option`, which may
-- refuse a URL; the REST client of the provider; float arithmetic (Floats, with FloatLaws where a
-- theorem needs laws); the bands of pandas-ta; the tz database; pydantic's conversions of single
-- values (Values); Starlette's choice of a handler (WebFramework); `strip` and `upper` of strings;
-- the worker's answer to a task of the API; whether the broker answers. The answer of the database to
-- the update of a job's status by a worker is an argument of these functions; in the pipeline, and in
-- the API, the statements on the table of jobs do not raise. `Ties` of JobTables is how one execution
-- of a query orders jobs that were created at the same time. Externals puts together
-- what the workers use. Celery is the relation Step of Worker/Pipeline, whose constructors are what
-- a worker does; a task runs to its end in one step, and the workers do not crash. In the relation
-- Delivery of Worker/Redelivery a worker may be lost before it has passed on how its task ended, and
-- the task then runs again. Times are natural numbers, in ticks of the clock concerned.
--
-- Loops recurse on the list that they run over, so there is no fuel; the `while True` of the Redis
-- limiter runs over the passes made so far, and a call that has not ended is `sleeping`.
--
-- Not modelled: how pydantic reads a request's JSON and writes schemas, logging, the rows of the table
-- of events, which no code writes, migrations offline, which print SQL, and what start-up does other
-- than to set up the Redis client: it only sets up the libraries.
pub mod Prelude
pub mod Errors
pub mod RateLimit
pub mod Models
pub mod Strategy
pub mod MarketData
pub mod Jobs
pub mod Worker
pub mod Infrastructure
pub mod Api
pub mod Settings
pub mod Migrations
mod Examples
