-- ===== src/RateLimit/Script/Window.antt =====
-- The promise of the script, over the runs of any processes in any order.
use mathlib.Core.List.{append_assoc, append-nil}
use stock_trader.Prelude.{
  ℕ, ◌≤◌, ◌≡◌, refl, ap, subst, ◌∙◌, Option, none, some, List, [], ◌∷◌, ◌++◌, String, arith, false,
  contains,
}
use stock_trader.RateLimit.Spacing.{IsSpaced, IsSpaced-nil}
use stock_trader.RateLimit.Script.Tracks.{Tracks, acquire_script-Tracks}
use stock_trader.RateLimit.SortedSet.{SortedSets}
use stock_trader.RateLimit.Script.{Key, Call, acquire_script, reserved, run_scripts}

-- The Redis clock does not run backwards from `last` on, and no member was used before.
module _ (redis : SortedSets) where
  abbrev pub AreCalls : ℕ → List String → List (Call redis) → Type 0
  AreCalls last used [] = Unit
  AreCalls last used (c ∷ cs) =
      (last ≤ c.now) × (contains c.member used ≡ false) × AreCalls c.now (c.member ∷ used) cs

  -- The time of the last run, and the members that have been used.
  abbrev pub last_time : ℕ → List (Call redis) → ℕ
  last_time last [] = last
  last_time last (c ∷ cs) = last_time c.now cs

  abbrev pub used_after : List String → List (Call redis) → List String
  used_after used [] = used
  used_after used (c ∷ cs) = used_after (c.member ∷ used) cs

  abbrev pub fresh_key : Key redis
  fresh_key = record { set = redis.empty; deadline = none }

module _ (redis : SortedSets) (max window : ℕ) where
  fresh_key-Tracks : (start : ℕ) → Tracks redis max window (fresh_key redis) [] [] start
  fresh_key-Tracks start = record {
    shows = record {
      old = [];
      splits = rw redis.scores-empty refl;
      left = tt;
      past = rw redis.scores-empty tt;
      fits = rw redis.scores-empty (omega arith);
      unused = λ m k. redis.has-empty m;
      spaced = IsSpaced-nil max window;
    };
    dies = λ d e. rw redis.scores-empty tt;
  }

  reserved-append :
      (reply : Option ℕ) (now : ℕ) (times : List ℕ)
      → reserved redis reply now [] ++ times ≡ reserved redis reply now times
  reserved-append none now times = refl
  reserved-append (some wait) now times = ground arith

  pub run_scripts-Tracks :
      (calls : List (Call redis)) (key : Key redis) (history : List ℕ) (used : List String)
      (last : ℕ)
      → Tracks redis max window key history used last
      → AreCalls redis last used calls
      → let (key', times) = run_scripts redis max window calls key in
        Tracks redis max window key'
          (history ++ times)
          (used_after redis used calls)
          (last_time redis last calls)
  unfolding run_scripts
  run_scripts-Tracks [] key history used last h t = rw append-nil h
  run_scripts-Tracks (c ∷ cs) key history used last h (le, new, t) =
      let (key', reply) = acquire_script redis max window c.now c.member key in
      let now' : List ℕ = reserved redis reply c.now [] in
      let (key'', times) = run_scripts redis max window cs key' in
      subst
        (λ z.
          Tracks redis max window key'' z (used_after redis used (c ∷ cs))
            (last_time redis last (c ∷ cs)))
        (append_assoc history now' times
          ∙ ap (λ z. history ++ z) (reserved-append reply c.now times))
        (run_scripts-Tracks cs key' (history ++ now') (c.member ∷ used) c.now
          (acquire_script-Tracks redis max window key history used last c.now c.member le new h) t)

  -- What the key is after any runs.
  pub reached-Tracks :
      (start : ℕ) (calls : List (Call redis))
      → AreCalls redis start [] calls
      → let (key, times) = run_scripts redis max window calls (fresh_key redis) in
        Tracks redis max window key times (used_after redis [] calls) (last_time redis start calls)
  reached-Tracks start calls t =
      run_scripts-Tracks calls (fresh_key redis) [] [] start (fresh_key-Tracks start) t

-- The key after these runs, from one that does not exist yet.
abbrev pub reached_key : (redis : SortedSets) → ℕ → ℕ → List (Call redis) → Key redis
reached_key redis max window calls = (run_scripts redis max window calls (fresh_key redis)).0

-- However many processes run the script, in whatever order and at whatever times, any
-- `max_requests + 1` of the slots that it reserves in a row span at least the window, if the Redis
-- clock does not run backwards and no member is used twice. The expiry of the key is included.
pub run_scripts-IsSpaced :
    (redis : SortedSets) (max window start : ℕ) (calls : List (Call redis))
    → AreCalls redis start [] calls
    → IsSpaced max window (run_scripts redis max window calls (fresh_key redis)).1
run_scripts-IsSpaced redis max window start calls t =
    (reached-Tracks redis max window start calls t).spaced
