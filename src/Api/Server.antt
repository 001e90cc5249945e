-- ===== src/Api/Server.antt =====
-- The API process: its start and end in entrypoints/api_server.py, the client that api/dependencies.py
-- hands to a route, and the routes of api/routes/debug.py and api/routes/health.py.
use stock_trader.Prelude.{ℕ, ◌≡◌, refl, true, false, List, [], ◌∷◌, String, length}
use stock_trader.Errors.{ok, raise, runtime_error, text, ◌>>=◌}
use stock_trader.Settings.{StockTraderConfig}
use stock_trader.Infrastructure.RedisServer.{RedisServer, entry_of}
use stock_trader.Infrastructure.RedisClient.{
  RedisClient, Outcome, connect, close, client, queue_length,
}

-- `app.state`
pub record State : Type 0 where
  pub redis : RedisClient

-- `lifespan` before and after its `yield`. The client decodes responses by default.
unfoldable pub startup : StockTraderConfig → State
startup settings = record {
  redis = connect (record {
    host = settings.redis_host;
    port = settings.redis_port;
    db = settings.redis_db;
    decode_responses = true;
    connected = false;
  });
}

unfoldable pub shutdown : State → State
shutdown state = record state { redis = close state.redis }

abbrev pub get_redis_client : State → RedisClient
get_redis_client state = state.redis

-- The body of the answer: the queue and its length.
unfoldable pub get_queue_length :
    (redis : RedisServer) → State → ℕ → redis.Store → Outcome redis (String × ℕ)
get_queue_length redis state now s =
    let (length_, s') = queue_length redis (get_redis_client state) now "backtest_jobs" s in
    (length_ >>= λ n. ok ("backtest_jobs", n), s')

unfoldable pub health : State → String × String
health state = ("status", "ok")

-- While the process serves, the route answers the number of items in the list backtest_jobs of the
-- database redis_db, and changes nothing; after the end of the process' life there is no connection.
pub get_queue_length-startup :
    (redis : RedisServer) (settings : StockTraderConfig) (now : ℕ) (xs : List String)
    (s : redis.Store)
    → redis.view now "backtest_jobs" s ≡ entry_of xs
    → (get_queue_length redis (startup settings) now s ≡ (ok ("backtest_jobs", length xs), s))
      × (get_queue_length redis (shutdown (startup settings)) now s ≡ (
        raise runtime_error (text "Redis client not connected. Call connect() first." ∷ []),
        s,
      ))
unfolding get_queue_length startup shutdown connect close client queue_length
get_queue_length-startup redis settings now xs s h =
    (rw (redis.llen-view now "backtest_jobs" xs s h) refl, refl)
