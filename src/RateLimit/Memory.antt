-- ===== src/RateLimit/Memory.antt =====
-- core/market_data/providers/massive/rate_limiter.py: the in-process sliding window. Times are
-- ticks of `time.monotonic()`; the float rounding of its seconds is not modelled.
pub mod Room
pub mod Window
pub mod Boundary
use stock_trader.Prelude.{
  ℕ, ◌+◌, ◌-◌, ◌≤◌, ◌<◌, Option, none, some, List, [], ◌∷◌, ◌++◌, length, ltb, leb, if◌then◌else◌,
}
use stock_trader.Errors.{Result, ok, err, raise, value_error, text}

abbrev pub default_max_requests : ℕ
default_max_requests = 5

abbrev pub default_window_seconds : ℕ
default_window_seconds = 60

-- `timestamps` is the deque, its left end first.
pub record Limiter : Type 0 where
  pub max_requests : ℕ
  pub window_seconds : ℕ
  pub timestamps : List ℕ

-- `MassiveRateLimiter.__init__`
unfoldable pub make : ℕ → ℕ → Result Limiter
make max_requests window_seconds =
    if ltb max_requests 1
    then raise value_error (text "max_requests must be >= 1" ∷ [])
    else if ltb window_seconds 1
    then raise value_error (text "window_seconds must be >= 1" ∷ [])
    else ok
        (record { max_requests = max_requests; window_seconds = window_seconds; timestamps = [] })

-- The loop of `_evict_expired` at clock reading `now`. Its test `t < now - window_seconds` is one
-- between signed numbers, so it is written without the difference.
unfoldable pub evict_expired : ℕ → ℕ → List ℕ → List ℕ
evict_expired now window [] = []
evict_expired now window (t ∷ ts) =
    let rest = evict_expired now window ts in if ltb (t + window) now then rest else t ∷ ts

-- The readings of the clock in one call, in program order: in the first `_evict_expired`, for
-- `sleep_time`, in the `_evict_expired` after a sleep, and for the recorded timestamp.
pub record Readings : Type 0 where
  pub evict_at : ℕ
  pub check_at : ℕ
  pub wake_at : ℕ
  pub stamp_at : ℕ

-- `window_seconds - (now - oldest)`. It is only used where positive, as the truncated difference.
abbrev pub sleep_time : ℕ → ℕ → ℕ → ℕ
sleep_time window now oldest = oldest + window - now

-- The body of the `if len(...) >= max_requests` on the deque that the first eviction leaves.
unfoldable pub make_room : Limiter → Readings → List ℕ → List ℕ × Option ℕ
make_room l r [] = ([], none)
make_room l r (oldest ∷ ts) =
    let wait = sleep_time l.window_seconds r.check_at oldest in
    if ltb 0 wait
    then (evict_expired r.wake_at l.window_seconds (oldest ∷ ts), some wait)
    else (oldest ∷ ts, none)

unfoldable pub room_for : Limiter → Readings → List ℕ → List ℕ × Option ℕ
room_for l r live = if leb l.max_requests (length live) then make_room l r live else (live, none)

-- `acquire`: the new state, and how long it slept.
unfoldable pub acquire : Readings → Limiter → Limiter × Option ℕ
acquire r l =
    let (room, slept) = room_for l r (evict_expired r.evict_at l.window_seconds l.timestamps) in
    (record l { timestamps = room ++ r.stamp_at ∷ [] }, slept)

-- Calls one after the other: the final state, and the timestamps of the calls, oldest first.
unfoldable pub acquire_all : List Readings → Limiter → Limiter × List ℕ
acquire_all [] l = (l, [])
acquire_all (r ∷ rs) l =
    let (l', _) = acquire r l in let (l'', stamps) = acquire_all rs l' in (l'', r.stamp_at ∷ stamps)
