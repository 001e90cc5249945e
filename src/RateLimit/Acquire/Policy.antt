-- ===== src/RateLimit/Acquire/Policy.antt =====
-- What a caller of `acquire` may rely on.
use stock_trader.Prelude.{
  ℕ, zero, suc, ◌+◌, ◌≤◌, ◌<◌, ◌≡◌, ◌≢◌, refl, ap, ◌∙◌, inl, inr, Bool, true, false, some, List, [],
  ◌∷◌, String, arith, ◌==◌, ==_iff, ◌*◌, Bool-cases, Option-cases,
}
use stock_trader.Errors.{Exception, ok}
use stock_trader.RateLimit.SortedSet.{SortedSets}
use stock_trader.RateLimit.Script.{Key, Call, acquire_script, run_scripts}
use stock_trader.RateLimit.Script.Window.{AreCalls, last_time, reached_key}
use stock_trader.RateLimit.Script.Wait.{refusal_exact, reply-ne-none}
use stock_trader.RateLimit.Acquire.{
  Config, make, returned, raised, on_redis_error, Pass, sleep_ms, acquire,
}

-- A limiter that fails open never raises, whatever Redis does.
pub fail_open_never_raises :
    (redis : SortedSets) (cfg : Config) (passes : List (Pass redis)) (key : Key redis)
    (e : Exception)
    → cfg.fail_open ≡ true
    → (acquire redis cfg passes key).1 ≢ raised e
unfolding acquire on_redis_error
fail_open_never_raises redis cfg [] key e open_ h = cc
fail_open_never_raises redis cfg (p ∷ ps) key e open_ h =
    let seen = (run_scripts redis cfg.max_requests cfg.window_ms p.before key).0 in
    let (key', reply) = acquire_script redis cfg.max_requests cfg.window_ms p.now p.member seen in
    ground (arith, fail_open_never_raises redis cfg ps key' e open_)

-- A limiter that fails closed returns only after a run of the script that reserved a slot for it:
-- the key is left as that run left it.
pub fail_closed_reserves :
    (redis : SortedSets) (cfg : Config) (passes : List (Pass redis)) (key : Key redis)
    → cfg.fail_open ≡ false
    → (acquire redis cfg passes key).1 ≡ returned
    → (seen : Key redis) × (now : ℕ) × (member : String) × (acquire_script redis cfg.max_requests
          cfg.window_ms now member seen
        ≡ ((acquire redis cfg passes key).0, some 0))
unfolding acquire on_redis_error
fail_closed_reserves redis cfg [] key closed h = absurd (cc)
fail_closed_reserves redis cfg (p ∷ ps) key closed h =
    let max = cfg.max_requests in
    let seen = (run_scripts redis max cfg.window_ms p.before key).0 in
    let (key', reply) = acquire_script redis max cfg.window_ms p.now p.member seen in
    elim (Bool-cases p.reachable) [
      | inl up ↦ elim (Option-cases reply) [
        | inl failed ↦ absurd (let h' = rw (up, failed) at h in ground arith)
        | inr (w, e) ↦ elim (Bool-cases (w == 0)) [
          | inl zero_wait ↦
              let e' : reply ≡ some 0 = e ∙ ap some ((==_iff w 0).0 zero_wait) in
              rw (up, e, zero_wait) (seen, p.now, p.member, λ i. (key', e' i))
          | inr more ↦
              rw (up, e, more)
                (fail_closed_reserves redis cfg ps key' closed (rw (up, e, more) at h))
        ]
      ]
      | inr down ↦ absurd (let h' = rw down at h in ground arith)
    ]

make-ok :
    (max window_seconds : ℕ) (fail_open : Bool) {cfg : Config}
    → make max window_seconds fail_open ≡ ok cfg
    → (0 < max)
      × (cfg
          ≡ record { max_requests = max; window_ms = window_seconds * 1000; fail_open = fail_open })
unfolding make
make-ok max window_seconds fail_open h = ground arith

suc_ne_zero : (w : ℕ) → (suc w == 0) ≡ false
suc_ne_zero w = ground arith

module _ (redis : SortedSets) (cfg : Config) (p : Pass redis) (ps : List (Pass redis))
    (key : Key redis) (up : p.reachable ≡ true) (alone : p.before ≡ []) where
  pass_granted :
      (acquire_script redis cfg.max_requests cfg.window_ms p.now p.member key).1 ≡ some 0
      → (acquire redis cfg (p ∷ ps) key).1 ≡ returned
  unfolding acquire run_scripts
  pass_granted e = rw (alone, up, e) refl

  pass_again :
      {w : ℕ}
      → (acquire_script redis cfg.max_requests cfg.window_ms p.now p.member key).1 ≡ some (suc w)
      → acquire redis cfg (p ∷ ps) key
        ≡ acquire redis cfg ps
            (acquire_script redis cfg.max_requests cfg.window_ms p.now p.member key).0
  unfolding acquire run_scripts
  pass_again {w = w} e = rw (alone, up, e, suc_ne_zero w) (rw alone refl)

two_passes :
    (redis : SortedSets) (max window start : ℕ) (fail_open : Bool) (calls : List (Call redis))
    (p q : Pass redis) (rest : List (Pass redis))
    → 0 < max
    → AreCalls redis start [] calls
    → last_time redis start calls ≤ p.now
    → p.reachable ≡ true
    → q.reachable ≡ true
    → p.before ≡ []
    → q.before ≡ []
    → ((w : ℕ)
        → (acquire_script redis max window p.now p.member (reached_key redis max window calls)).1
          ≡ some w
        → p.now + sleep_ms redis w p ≤ q.now)
    → (acquire redis
        (record { max_requests = max; window_ms = window; fail_open = fail_open })
        (p ∷ q ∷ rest)
        (reached_key redis max window calls)).1
      ≡ returned
two_passes redis max window start fail_open calls p q rest positive ordered le up up' alone alone'
      sleeps =
    let key = reached_key redis max window calls in
    let cfg : Config = record { max_requests = max; window_ms = window; fail_open = fail_open } in
    let (key', reply) = acquire_script redis max window p.now p.member key in
    elim (Option-cases reply) [
      | inl failed ↦ absurd (reply-ne-none redis max window key p.now p.member positive failed)
      | inr (zero, e) ↦ pass_granted redis cfg p (q ∷ rest) key up alone e
      | inr (suc w, e) ↦ rw (pass_again redis cfg p (q ∷ rest) key up alone e) (
          pass_granted redis cfg q rest key' up' alone' (
            (refusal_exact redis max window start p.now w q.now p.member q.member calls positive
                ordered le e).1
              (omega (arith, sleeps (suc w) e))))
    ]

-- With Redis answering and no other process in between, `acquire` returns: at once, or in the pass
-- after its first sleep. The sleep is at least the reply of the script and the jitter.
pub acquire_returns :
    (redis : SortedSets) (max window_seconds start : ℕ) (fail_open : Bool) {cfg : Config}
    (calls : List (Call redis)) (p q : Pass redis) (rest : List (Pass redis))
    → make max window_seconds fail_open ≡ ok cfg
    → AreCalls redis start [] calls
    → last_time redis start calls ≤ p.now
    → p.reachable ≡ true
    → q.reachable ≡ true
    → p.before ≡ []
    → q.before ≡ []
    → ((w : ℕ)
        → (acquire_script redis max
            (window_seconds * 1000)
            p.now
            p.member
            (reached_key redis max (window_seconds * 1000) calls)).1
          ≡ some w
        → p.now + sleep_ms redis w p ≤ q.now)
    → (acquire redis cfg (p ∷ q ∷ rest) (reached_key redis max (window_seconds * 1000) calls)).1
      ≡ returned
acquire_returns redis max window_seconds start fail_open calls p q rest built ordered le up up'
      alone alone' sleeps =
    let (positive, e) = make-ok max window_seconds fail_open built in
    rw e (
      two_passes redis max (window_seconds * 1000) start fail_open calls p q rest positive ordered
        le up up' alone alone' sleeps)
