-- ===== src/RateLimit/Memory/Room.antt =====
-- The room that one call makes in the deque.
use stock_trader.Prelude.{
  ℕ, ◌+◌, ◌≤◌, ◌<◌, ◌≡◌, refl, ap, inl, inr, Option, some, List, [], ◌∷◌, ◌++◌, arith, false,
  length, length-append, ltb, leb, Bool-cases,
}
use stock_trader.RateLimit.Spacing.{HaveLeft, HaveLeft-later}
use stock_trader.RateLimit.Memory.{
  Limiter, Readings, evict_expired, sleep_time, make_room, room_for, acquire,
}

-- One call reads a clock that does not run backwards and has moved on since `last`, and a sleep
-- lasts at least as long as it was asked to.
pub record IsTimely (last : ℕ) (r : Readings) (slept : Option ℕ) : Type 0 where
  pub later : last < r.evict_at
  pub checked : r.evict_at ≤ r.check_at
  pub stamped : r.check_at ≤ r.stamp_at
  pub woken :
      (wait : ℕ) → slept ≡ some wait → (r.check_at + wait ≤ r.wake_at) × (r.wake_at ≤ r.stamp_at)

-- The same of a sequence of calls.
abbrev pub AreTimely : ℕ → List Readings → Limiter → Type 0
AreTimely last [] l = Unit
AreTimely last (r ∷ rs) l =
    IsTimely last r (acquire r l).1 × AreTimely r.stamp_at rs (acquire r l).0

module _ (window : ℕ) where
  -- Eviction drops a prefix of calls that have left the window.
  pub evict-split :
      (now : ℕ) (ts : List ℕ)
      → (lead : List ℕ) × (ts ≡ lead ++ evict_expired now window ts) × HaveLeft window now lead
  unfolding evict_expired
  evict-split now [] = ([], refl, tt)
  evict-split now (t ∷ ts) = elim (Bool-cases (ltb (t + window) now)) [
    | inl gone ↦
        let (lead, e, h) = evict-split now ts in
        (t ∷ lead, rw gone (ap (λ z. t ∷ z) e), (ground arith, h))
    | inr live ↦ ([], rw live refl, tt)
  ]

  evict_none :
      (now t : ℕ) (ts : List ℕ)
      → ltb (t + window) now ≡ false
      → evict_expired now window (t ∷ ts) ≡ t ∷ ts
  unfolding evict_expired
  evict_none now t ts h = rw h

  evict_head :
      (now t : ℕ) (ts : List ℕ)
      → t + window < now
      → evict_expired now window (t ∷ ts) ≡ evict_expired now window ts
  unfolding evict_expired
  evict_head now t ts h = ground arith

-- What `make_room` achieves on a full deque: what it leaves amounts to `rest`, which has room.
pub record HasRoom (l : Limiter) (stamp : ℕ) (live room : List ℕ) : Type 0 where
  pub lead : List ℕ
  pub rest : List ℕ
  pub splits : live ≡ lead ++ rest
  pub left : HaveLeft l.window_seconds stamp lead
  pub fits : length rest < l.max_requests
  pub same :
      (e : ℕ)
      → stamp < e
      → evict_expired e l.window_seconds (room ++ stamp ∷ [])
        ≡ evict_expired e l.window_seconds (rest ++ stamp ∷ [])

module _ (l : Limiter) (r : Readings) where
  -- The deque's oldest call has left the window, whether or not it is still there.
  keep_oldest :
      (oldest : ℕ) (ts : List ℕ)
      → oldest + l.window_seconds ≤ r.stamp_at
      → length ts < l.max_requests
      → HasRoom l r.stamp_at (oldest ∷ ts) (oldest ∷ ts)
  keep_oldest oldest ts gone fits = record {
    lead = oldest ∷ [];
    rest = ts;
    splits = refl;
    left = (gone, tt);
    fits = fits;
    same = λ e later. evict_head l.window_seconds e oldest (ts ++ r.stamp_at ∷ []) (omega arith);
  }

  drop_oldest :
      (oldest : ℕ) (ts : List ℕ)
      → oldest + l.window_seconds < r.wake_at
      → r.wake_at ≤ r.stamp_at
      → length ts < l.max_requests
      → HasRoom l r.stamp_at (oldest ∷ ts) (evict_expired r.wake_at l.window_seconds (oldest ∷ ts))
  drop_oldest oldest ts gone woken fits =
      rw (evict_head l.window_seconds r.wake_at oldest ts gone) (
        let (lead, e, h) = evict-split l.window_seconds r.wake_at ts in
        record {
          lead = oldest ∷ lead;
          rest = evict_expired r.wake_at l.window_seconds ts;
          splits = ap (λ z. oldest ∷ z) e;
          left = (omega arith, HaveLeft-later l.window_seconds r.wake_at r.stamp_at lead woken h);
          fits = omega (
            arith,
            ap length e,
            length-append lead (evict_expired r.wake_at l.window_seconds ts),
          );
          same = λ e later. refl;
        })

  awake_late :
      (oldest : ℕ) {last : ℕ} {slept : Option ℕ}
      → ltb 0 (sleep_time l.window_seconds r.check_at oldest) ≡ false
      → IsTimely last r slept
      → oldest + l.window_seconds ≤ r.stamp_at
  awake_late oldest awake t = let late = t.stamped in ground arith

  make_room-HasRoom :
      (live : List ℕ) {last : ℕ}
      → IsTimely last r (make_room l r live).1
      → 0 < l.max_requests
      → length live ≤ l.max_requests
      → HasRoom l r.stamp_at live (make_room l r live).0
  unfolding make_room
  make_room-HasRoom [] t positive fits = record {
    lead = [];
    rest = [];
    splits = refl;
    left = tt;
    fits = positive;
    same = λ e later. refl;
  }
  make_room-HasRoom (oldest ∷ ts) t positive fits =
      elim (Bool-cases (ltb 0 (sleep_time l.window_seconds r.check_at oldest))) [
        | inl sleeps ↦
            let (long, stamped) =
              t.woken (sleep_time l.window_seconds r.check_at oldest) (rw sleeps) in
            elim (Bool-cases (ltb (oldest + l.window_seconds) r.wake_at)) [
              | inl gone ↦ rw sleeps (drop_oldest oldest ts (ground arith) stamped (omega arith))
              | inr tie ↦ rw sleeps (
                  rw (evict_none l.window_seconds r.wake_at oldest ts tie)
                    (keep_oldest oldest ts (ground arith) (omega arith)))
            ]
        | inr awake ↦ rw awake (keep_oldest oldest ts (awake_late oldest awake t) (omega arith))
      ]

  pub room_for-HasRoom :
      (live : List ℕ) {last : ℕ}
      → IsTimely last r (room_for l r live).1
      → 0 < l.max_requests
      → length live ≤ l.max_requests
      → HasRoom l r.stamp_at live (room_for l r live).0
  unfolding room_for
  room_for-HasRoom live t positive fits = elim (Bool-cases (leb l.max_requests (length live))) [
    | inl full ↦ rw full (make_room-HasRoom live (rw full at t) positive fits)
    | inr free ↦ rw free (record {
      lead = [];
      rest = live;
      splits = refl;
      left = tt;
      fits = ground arith;
      same = λ e later. refl;
    })
  ]
