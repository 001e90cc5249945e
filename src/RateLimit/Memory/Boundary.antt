-- ===== src/RateLimit/Memory/Boundary.antt =====
-- The instant at which the oldest call is exactly a window old: it is neither evicted nor waited
-- for, so the limit does not hold there.
use mathlib.Core.List.{append-nil, append_assoc}
use stock_trader.Prelude.{
  ℕ, zero, suc, ◌+◌, ◌≤◌, ◌<◌, ◌≡◌, refl, ap, none, List, [], ◌∷◌, ◌++◌, arith, length,
  get_elem?-replicate, replicate, length-append,
}
use stock_trader.RateLimit.Spacing.{IsSpaced}
use stock_trader.RateLimit.Memory.{
  Limiter, Readings, evict_expired, make_room, room_for, acquire, acquire_all,
}

-- A call during which the clock stands still.
abbrev pub still : ℕ → Readings
still now = record { evict_at = now; check_at = now; wake_at = now; stamp_at = now }

abbrev record_call : Limiter → ℕ → Limiter
record_call l now = record l { timestamps = l.timestamps ++ now ∷ [] }

-- The deque is full and its oldest call, at `t`, is exactly a window old.
module _ (max window t : ℕ) where
  abbrev pub at_boundary : List ℕ → Limiter
  at_boundary ts = record { max_requests = max; window_seconds = window; timestamps = t ∷ ts }

  acquire-at_boundary :
      (ts : List ℕ)
      → max ≤ suc (length ts)
      → acquire (still (t + window)) (at_boundary ts)
        ≡ (at_boundary (ts ++ (t + window) ∷ []), none)
  unfolding acquire room_for make_room evict_expired
  acquire-at_boundary ts full = ground arith

  acquire_all-at_boundary :
      (n : ℕ) (ts : List ℕ)
      → max ≤ suc (length ts)
      → acquire_all (replicate n (still (t + window))) (at_boundary ts)
        ≡ (at_boundary (ts ++ replicate n (t + window)), replicate n (t + window))
  unfolding acquire_all
  acquire_all-at_boundary zero ts full = rw append-nil
  acquire_all-at_boundary (suc n) ts full = rw (acquire-at_boundary ts full) (
      rw
        (acquire_all-at_boundary n (ts ++ (t + window) ∷ [])
          (omega (arith, length-append ts ((t + window) ∷ []))))
        (rw append_assoc))

-- From a full deque whose oldest call, at `t`, is exactly a window old, any number `n` of calls is
-- admitted at that one instant, and the next does not sleep either: more than `max` calls then
-- stand in no span of time at all, so the limit does not hold without the clock's moving on.
pub burst_at_boundary :
    (max window t n : ℕ) (ts : List ℕ)
    → max ≤ suc (length ts)
    → max < n
    → 0 < window
    → let (l, stamps) =
        acquire_all (replicate n (still (t + window))) (at_boundary max window t ts) in
      (stamps ≡ replicate n (t + window))
      × ((acquire (still (t + window)) l).1 ≡ none)
      × ¬ IsSpaced max window stamps
burst_at_boundary max window t n ts full many positive =
    rw (acquire_all-at_boundary max window t n ts full) (
      refl,
      ap (λ z. z.1)
          (acquire-at_boundary max window t (ts ++ replicate n (t + window))
            (omega (arith, length-append ts (replicate n (t + window))))),
      λ spaced.
          let e =
            spaced.spaced 0 (t + window) (t + window)
              (get_elem?-replicate n 0 (t + window) (omega arith))
              (get_elem?-replicate n (0 + max) (t + window) (omega arith)) in
          omega arith,
    )
