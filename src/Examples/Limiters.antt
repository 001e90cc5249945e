-- ===== src/Examples/Limiters.antt =====
-- The theorems on the rate limiters, on a few calls.
use stock_trader.Prelude.{
  ℕ, ◌+◌, ◌≤◌, ◌<◌, ◌≡◌, ◌↔◌, refl, sym, ◌∙◌, Bool, true, false, none, some, List, [], ◌∷◌, String,
  arith, replicate,
}
use stock_trader.Errors.{ok}
use stock_trader.RateLimit.Spacing.{IsSpaced}
use stock_trader.RateLimit.Memory.{
  Limiter, Readings, make, evict_expired, make_room, room_for, acquire, acquire_all,
}
use stock_trader.RateLimit.Memory.Room.{IsTimely, AreTimely}
use stock_trader.RateLimit.Memory.Window.{acquire_all-IsSpaced}
use stock_trader.RateLimit.Memory.Boundary.{still, at_boundary, burst_at_boundary}
use stock_trader.RateLimit.Script.{Key, Call, visible, wait_for, acquire_script, run_scripts}
use stock_trader.RateLimit.Script.Window.{AreCalls, fresh_key, reached_key, run_scripts-IsSpaced}
use stock_trader.RateLimit.Script.Wait.{refusal_exact}
use stock_trader.RateLimit.Acquire.{
  Config, make as make_config, returned, Pass, on_redis_error, acquire as acquire_slot,
}
use stock_trader.RateLimit.Acquire.Policy.{fail_closed_reserves, acquire_returns}
use stock_trader.Examples.Redis.{list_redis}

abbrev small : Limiter
small = record { max_requests = 2; window_seconds = 10; timestamps = [] }

small_made : make 2 10 ≡ ok small
unfolding make
small_made = refl

-- The third call sleeps from 4 to 11.
abbrev three_calls : List Readings
three_calls =
    still 1 ∷ still 3 ∷ record { evict_at = 4; check_at = 4; wake_at = 12; stamp_at = 12 } ∷ []

still-IsTimely : (last now : ℕ) → last < now → IsTimely last (still now) none
still-IsTimely last now lt = record {
  later = lt;
  checked = omega arith;
  stamped = omega arith;
  woken = λ wait e. absurd (cc);
}

slept-IsTimely :
    IsTimely 3 (record { evict_at = 4; check_at = 4; wake_at = 12; stamp_at = 12 }) (some 7)
slept-IsTimely = record {
  later = omega arith;
  checked = omega arith;
  stamped = omega arith;
  woken = λ wait e. let same : 7 ≡ wait = cc in (omega (arith, same), omega arith);
}

three_calls-AreTimely : AreTimely 0 three_calls small
unfolding acquire room_for make_room evict_expired
three_calls-AreTimely =
    (still-IsTimely 0 1 (omega arith), (still-IsTimely 1 3 (omega arith), (slept-IsTimely, tt)))

acquire_all-IsSpaced_example : IsSpaced 2 10 (acquire_all three_calls small).1
acquire_all-IsSpaced_example =
    acquire_all-IsSpaced 2 10 0 three_calls small_made three_calls-AreTimely

burst_at_boundary_example :
    let (l, stamps) =
      acquire_all (replicate 6 (still 60)) (at_boundary 5 60 0 (1 ∷ 2 ∷ 3 ∷ 4 ∷ [])) in
    (stamps ≡ replicate 6 60) × ((acquire (still 60) l).1 ≡ none) × ¬ IsSpaced 5 60 stamps
burst_at_boundary_example =
    burst_at_boundary 5 60 0 6 (1 ∷ 2 ∷ 3 ∷ 4 ∷ []) (omega arith) (omega arith) (omega arith)

-- Two slots in 1000 ms: the third run is refused, and the fourth gets a slot.
abbrev four_runs : List (Call list_redis)
four_runs =
    record { now = 100; member = "a" }
    ∷ record { now = 400; member = "b" }
    ∷ record { now = 500; member = "c" }
    ∷ record { now = 1100; member = "d" }
    ∷ []

four_runs-AreCalls : AreCalls list_redis 0 [] four_runs
four_runs-AreCalls =
    (omega arith, refl, (omega arith, refl, (omega arith, refl, (omega arith, refl, tt))))

run_scripts-IsSpaced_example :
    IsSpaced 2 1000 (run_scripts list_redis 2 1000 four_runs (fresh_key list_redis)).1
run_scripts-IsSpaced_example = run_scripts-IsSpaced list_redis 2 1000 0 four_runs four_runs-AreCalls

-- Three runs reserve a slot.
four_runs-times :
    (run_scripts list_redis 2 1000 four_runs (fresh_key list_redis)).1 ≡ 100 ∷ 400 ∷ 1100 ∷ []
unfolding run_scripts acquire_script visible wait_for
four_runs-times = refl

-- After the four runs, a fifth at 1200 is told to wait until the run at 400 has left the window.
fifth_run :
    (acquire_script list_redis 2 1000 1200 "e" (reached_key list_redis 2 1000 four_runs)).1
    ≡ some 200
unfolding run_scripts acquire_script visible wait_for
fifth_run = refl

refusal_exact_example :
    ((acquire_script list_redis 2 1000 1400 "f"
        (acquire_script list_redis 2 1000 1200 "e" (reached_key list_redis 2 1000 four_runs)).0).1
      ≡ some 0)
    ↔ (1400 ≤ 1400)
refusal_exact_example =
    refusal_exact list_redis 2 1000 0 1200 199 1400 "e" "f" four_runs (omega arith)
      four_runs-AreCalls (omega arith) fifth_run

abbrev pass_at : ℕ → String → Bool → Pass list_redis
pass_at now member reachable = record {
  before = [];
  now = now;
  member = member;
  reachable = reachable;
  jitter = 5;
}

abbrev closed_config : Config
closed_config = record { max_requests = 2; window_ms = 1000; fail_open = false }

abbrev open_config : Config
open_config = record { max_requests = 2; window_ms = 1000; fail_open = true }

slot_at_once :
    (acquire_slot list_redis closed_config (pass_at 100 "a" true ∷ []) (fresh_key list_redis)).1
    ≡ returned
unfolding acquire_slot on_redis_error run_scripts acquire_script visible wait_for
slot_at_once = refl

fail_closed_reserves_example :
    (seen : Key list_redis) × (now : ℕ) × (member : String) × (acquire_script list_redis 2 1000 now
        member seen
      ≡ (
        (acquire_slot list_redis closed_config
            (pass_at 100 "a" true ∷ [])
            (fresh_key list_redis)).0,
        some 0,
      ))
fail_closed_reserves_example =
    fail_closed_reserves list_redis closed_config (pass_at 100 "a" true ∷ []) (fresh_key list_redis)
      refl slot_at_once

closed_config_made : make_config 2 1 false ≡ ok closed_config
unfolding make_config
closed_config_made = refl

second_sleeps :
    (w : ℕ)
    → (acquire_script list_redis 2 1000 1200 "e" (reached_key list_redis 2 1000 four_runs)).1
      ≡ some w
    → 1200 + (w + 5) ≤ 1405
second_sleeps w e =
    let same : some 200 ≡ some w = sym fifth_run ∙ e in
    let same' : 200 ≡ w = cc in omega (arith, same')

acquire_returns_example :
    (acquire_slot list_redis closed_config
      (pass_at 1200 "e" true ∷ pass_at 1405 "f" true ∷ [])
      (reached_key list_redis 2 1000 four_runs)).1
    ≡ returned
acquire_returns_example =
    acquire_returns list_redis 2 1 0 false four_runs (pass_at 1200 "e" true) (pass_at 1405 "f" true)
      [] closed_config_made four_runs-AreCalls (omega arith) refl refl refl refl second_sleeps
