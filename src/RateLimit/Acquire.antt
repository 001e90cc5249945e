-- ===== src/RateLimit/Acquire.antt =====
-- `RedisSlidingWindowRateLimiter` of infrastructure/redis_rate_limiter.py: the loop of `acquire`
-- around the script.
pub mod Policy
use stock_trader.Prelude.{
  ℕ, zero, suc, ◌+◌, ◌*◌, Bool, true, false, Option, none, some, List, [], ◌∷◌, String, ltb, ◌==◌,
  if◌then◌else◌,
}
use stock_trader.Errors.{Exception, Result, ok, raise, value_error, redis_error, text}
use stock_trader.RateLimit.SortedSet.{SortedSets}
use stock_trader.RateLimit.Script.{Key, Call, acquire_script, run_scripts}

pub record Config : Type 0 where
  pub max_requests : ℕ
  pub window_ms : ℕ
  pub fail_open : Bool

-- `__init__`
unfoldable pub make : ℕ → ℕ → Bool → Result Config
make max_requests window_seconds fail_open =
    if ltb max_requests 1
    then raise value_error (text "max_requests must be >= 1" ∷ [])
    else if ltb window_seconds 1
    then raise value_error (text "window_seconds must be >= 1" ∷ [])
    else ok (record {
      max_requests = max_requests;
      window_ms = window_seconds * 1000;
      fail_open = fail_open;
    })

-- How a call of `acquire` stands: it returned, it raised, or it still sleeps.
pub data Outcome : Type 0 where
  returned : Outcome
  raised : Exception → Outcome
  sleeping : Outcome

-- The `except redis.RedisError` branch.
unfoldable pub on_redis_error : Config → Outcome
on_redis_error cfg =
    if cfg.fail_open
    then returned
    else raised (record { class_of = redis_error; message = text "Redis error" ∷ [] })

module _ (redis : SortedSets) where
  -- One pass of the loop: the runs of other processes that Redis took since the pass before, the
  -- time of its own run and its member, and whether Redis answers. `jitter` is what
  -- `random.uniform` adds, in milliseconds, to the sleep after this pass.
  pub record Pass : Type 0 where
    pub before : List (Call redis)
    pub now : ℕ
    pub member : String
    pub reachable : Bool
    pub jitter : ℕ

  -- The milliseconds of the sleep after a pass that was told to wait.
  abbrev pub sleep_ms : ℕ → Pass → ℕ
  sleep_ms wait_ms p = wait_ms + p.jitter

  -- The `while True` over the passes that have been made so far.
  unfoldable pub acquire : Config → List Pass → Key redis → Key redis × Outcome
  acquire cfg [] key = (key, sleeping)
  acquire cfg (p ∷ ps) key =
      let seen = (run_scripts redis cfg.max_requests cfg.window_ms p.before key).0 in
      let (key', reply) = acquire_script redis cfg.max_requests cfg.window_ms p.now p.member seen in
      let again = acquire cfg ps key' in
      if p.reachable
      then (elim reply [
        | none ↦ (key', on_redis_error cfg)
        | some wait_ms ↦ if wait_ms == 0 then (key', returned) else again
      ])
      else (seen, on_redis_error cfg)
