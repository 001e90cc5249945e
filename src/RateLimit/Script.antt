-- ===== src/RateLimit/Script.antt =====
-- The Lua script `_ACQUIRE_LUA` of infrastructure/redis_rate_limiter.py. Redis runs a script with no
-- other command in between, so a run of it is one step. Times are milliseconds of the Redis clock.
mod Eviction
pub mod Tracks
pub mod Window
pub mod Wait
use stock_trader.Prelude.{
  ℕ, ◌+◌, ◌-◌, Option, none, some, List, [], ◌∷◌, String, ltb, if◌then◌else◌,
}
use stock_trader.Prelude.Int.{pos, sub_ℕ}
use stock_trader.RateLimit.SortedSet.{SortedSets}

module _ (redis : SortedSets) where
  open redis use {ZSet, empty, zremrangebyscore, zcard, zadd, zrange_first, expired}

  -- The limiter's key: its set, and the time that `PEXPIRE` gave it.
  pub record Key : Type 0 where
    pub set : ZSet
    pub deadline : Option ℕ

  -- What a command sees of the key: nothing once the deadline has come.
  unfoldable pub visible : ℕ → Key → ZSet
  visible now key = elim key.deadline [
    | none ↦ key.set
    | some d ↦ if expired d now then empty else key.set
  ]

  -- `wait`, and the clamp of its last line. `oldest + window_ms - now` is truncated at 0, and what
  -- is below 1 becomes 1 either way. An empty reply of `ZRANGE` is an error of the script.
  unfoldable pub wait_for : ℕ → ℕ → Option ℕ → Option ℕ
  wait_for window now none = none
  wait_for window now (some oldest) =
      let wait = oldest + window - now in some (if ltb wait 1 then 1 else wait)

  -- The script: the key afterwards, and the reply, `none` for a script error.
  unfoldable pub acquire_script : ℕ → ℕ → ℕ → String → Key → Key × Option ℕ
  unfolding visible wait_for
  acquire_script max_requests window now member key =
      let live = zremrangebyscore (pos 0) (sub_ℕ now window) (visible now key) in
      if ltb (zcard live) max_requests
      then (record { set = zadd now member live; deadline = some (now + window) }, some 0)
      else (record key { set = live }, wait_for window now (zrange_first live))

  pub record Call : Type 0 where
    pub now : ℕ
    pub member : String

  abbrev pub reserved : Option ℕ → ℕ → List ℕ → List ℕ
  reserved none now rest = rest
  reserved (some wait) now rest = if ltb wait 1 then now ∷ rest else rest

  -- Runs of the script by any processes, in the order in which Redis takes them: the key
  -- afterwards, and the times of the runs that reserved a slot (replied 0), oldest first.
  unfoldable pub run_scripts : ℕ → ℕ → List Call → Key → Key × List ℕ
  run_scripts max_requests window [] key = (key, [])
  run_scripts max_requests window (c ∷ cs) key =
      let (key', reply) = acquire_script max_requests window c.now c.member key in
      let (key'', times) = run_scripts max_requests window cs key' in
      (key'', reserved reply c.now times)
