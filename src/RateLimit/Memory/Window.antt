-- ===== src/RateLimit/Memory/Window.antt =====
-- The promise of the in-process limiter, over any sequence of calls.
use mathlib.Core.List.{append_assoc, append-nil}
use stock_trader.Prelude.{
  ℕ, ◌+◌, ◌≤◌, ◌<◌, ◌≡◌, refl, sym, ap, subst, ◌∙◌, List, [], ◌∷◌, ◌++◌, arith, length,
  length-append, All-append,
}
use stock_trader.Errors.{ok}
use stock_trader.RateLimit.Spacing.{
  IsSpaced, IsSpaced-nil, IsSpaced-admit, HaveLeft, HaveLeft-later,
}
use stock_trader.RateLimit.Memory.{
  Limiter, Readings, evict_expired, room_for, acquire, acquire_all, make,
}
use stock_trader.RateLimit.Memory.Room.{IsTimely, AreTimely, HasRoom, room_for-HasRoom, evict-split}

-- What the calls so far have established: the deque amounts to `recent`, at most `max_requests`
-- calls, and every other call has left the window.
record Tracks (l : Limiter) (history : List ℕ) (last : ℕ) : Type 0 where
  old : List ℕ
  recent : List ℕ
  splits : history ≡ old ++ recent
  left : HaveLeft l.window_seconds last old
  fits : length recent ≤ l.max_requests
  spaced : IsSpaced l.max_requests l.window_seconds history
  same :
      (e : ℕ)
      → last < e
      → evict_expired e l.window_seconds l.timestamps ≡ evict_expired e l.window_seconds recent

module _ (l : Limiter) (history old gone live room : List ℕ) (stamp : ℕ) where
  extend-Tracks :
      history ≡ old ++ (gone ++ live)
      → HaveLeft l.window_seconds stamp old
      → HaveLeft l.window_seconds stamp gone
      → IsSpaced l.max_requests l.window_seconds history
      → HasRoom l stamp live room
      → Tracks (record l { timestamps = room ++ stamp ∷ [] }) (history ++ stamp ∷ []) stamp
  extend-Tracks e left_old left_gone spaced h =
      let before : List ℕ = (old ++ gone) ++ h.lead in
      let P : ℕ → Type 0 = λ a. a + l.window_seconds ≤ stamp in
      let split : history ≡ before ++ h.rest = e ∙ rw h.splits (simp append_assoc) in
      let left_all : HaveLeft l.window_seconds stamp before =
        All-append P (old ++ gone) h.lead (All-append P old gone left_old left_gone) h.left in
      record {
        old = before;
        recent = h.rest ++ stamp ∷ [];
        splits = rw split (append_assoc before h.rest (stamp ∷ []));
        left = left_all;
        fits = omega (arith, length-append h.rest (stamp ∷ []), h.fits);
        spaced =
            subst (λ z. IsSpaced l.max_requests l.window_seconds (z ++ stamp ∷ [])) (sym split)
              (IsSpaced-admit l.max_requests l.window_seconds stamp before h.rest
                (subst (IsSpaced l.max_requests l.window_seconds) split spaced) left_all h.fits);
        same = h.same;
      }

-- One call extends the history by its timestamp and keeps all of this.
acquire-Tracks :
    (l : Limiter) (history : List ℕ) (last : ℕ) (r : Readings)
    → 0 < l.max_requests
    → Tracks l history last
    → IsTimely last r (acquire r l).1
    → Tracks (acquire r l).0 (history ++ r.stamp_at ∷ []) r.stamp_at
unfolding acquire
acquire-Tracks l history last r positive h t =
    let w : ℕ = l.window_seconds in
    let live : List ℕ = evict_expired r.evict_at w h.recent in
    let e : evict_expired r.evict_at w l.timestamps ≡ live = h.same r.evict_at t.later in
    let t' : IsTimely last r (room_for l r live).1 =
      subst (λ z. IsTimely last r (room_for l r z).1) e t in
    let (lead, split, gone) = evict-split w r.evict_at h.recent in
    let room =
      room_for-HasRoom l r live t' positive
        (omega (arith, ap length split, length-append lead live, h.fits)) in
    subst
      (λ z.
        Tracks (record l { timestamps = (room_for l r z).0 ++ r.stamp_at ∷ [] })
          (history ++ r.stamp_at ∷ []) r.stamp_at)
      (sym e)
      (extend-Tracks l history h.old lead live (room_for l r live).0 r.stamp_at
        (h.splits ∙ ap (λ z. h.old ++ z) split)
        (HaveLeft-later w last r.stamp_at h.old (omega (arith, t.later, t.checked, t.stamped))
          h.left)
        (HaveLeft-later w r.evict_at r.stamp_at lead (omega (arith, t.checked, t.stamped)) gone)
        h.spaced room)

acquire_all-Tracks :
    (rs : List Readings) (l : Limiter) (history : List ℕ) (last : ℕ)
    → 0 < l.max_requests
    → Tracks l history last
    → AreTimely last rs l
    → IsSpaced l.max_requests l.window_seconds (history ++ (acquire_all rs l).1)
unfolding acquire_all acquire
acquire_all-Tracks [] l history last positive h t = rw append-nil h.spaced
acquire_all-Tracks (r ∷ rs) l history last positive h t =
    let l' : Limiter = (acquire r l).0 in
    let ih : IsSpaced l'.max_requests l'.window_seconds
        ((history ++ r.stamp_at ∷ []) ++ (acquire_all rs l').1) =
      acquire_all-Tracks rs l' (history ++ r.stamp_at ∷ []) r.stamp_at positive
        (acquire-Tracks l history last r positive h t.0) t.1 in
    subst (IsSpaced l.max_requests l.window_seconds)
      (append_assoc history (r.stamp_at ∷ []) (acquire_all rs l').1) ih

make-ok :
    (max window : ℕ) {l : Limiter}
    → make max window ≡ ok l
    → (0 < max) × (l ≡ record { max_requests = max; window_seconds = window; timestamps = [] })
unfolding make
make-ok max window h = ground arith

fresh-Tracks :
    (max window start : ℕ)
    → Tracks (record { max_requests = max; window_seconds = window; timestamps = [] }) [] start
fresh-Tracks max window start = record {
  old = [];
  recent = [];
  splits = refl;
  left = tt;
  fits = omega arith;
  spaced = IsSpaced-nil max window;
  same = λ e later. refl;
}

-- From a limiter that `__init__` built, however many calls are made and whenever, the timestamps
-- of any `max_requests + 1` calls in a row span at least `window_seconds`, provided that the clock
-- does not run backwards, that it has moved on between one call and the next, and that a sleep
-- lasts at least as long as it was asked to.
pub acquire_all-IsSpaced :
    (max window : ℕ) {l : Limiter} (start : ℕ) (rs : List Readings)
    → make max window ≡ ok l
    → AreTimely start rs l
    → IsSpaced max window (acquire_all rs l).1
acquire_all-IsSpaced max window start rs built t =
    let (positive, e) = make-ok max window built in
    rw e (
      acquire_all-Tracks rs _ [] start positive (fresh-Tracks max window start)
        (subst (AreTimely start rs) e t))
