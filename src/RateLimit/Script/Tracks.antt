-- ===== src/RateLimit/Script/Tracks.antt =====
-- What the key knows of the reservations so far, and that a run of the script keeps it.
use mathlib.Core.List.{append_assoc, append-nil}
use stock_trader.Prelude.{
  ℕ, ◌+◌, ◌≤◌, ◌<◌, ◌≡◌, refl, sym, ap, subst, ◌∙◌, inl, inr, Option, none, some, List, [], ◌∷◌,
  ◌++◌, String, arith, false, length, length-append, filter_ext, contains, All, All-append,
  All-right, All-map, ltb, Bool-cases, Option-cases,
}
use stock_trader.Prelude.Int.{pos, sub_ℕ}
use stock_trader.Prelude.Sorted.{insert_sorted-last}
use stock_trader.RateLimit.Spacing.{IsSpaced, IsSpaced-admit, HaveLeft, HaveLeft-later}
use stock_trader.RateLimit.Script.Eviction.{keeps, not-in_range, filter-split}
use stock_trader.RateLimit.SortedSet.{SortedSets}
use stock_trader.RateLimit.Script.{Key, visible, wait_for, acquire_script, reserved}

module _ (redis : SortedSets) (max window : ℕ) where
  open redis use {ZSet, empty, zremrangebyscore, zcard, zadd, zrange_first, expired, scores, has}

  -- What a set says of the reservations so far: it holds those that have not left the window.
  pub record Shows (z : ZSet) (history : List ℕ) (used : List String) (now : ℕ) : Type 0 where
    pub old : List ℕ
    pub splits : history ≡ old ++ scores z
    pub left : HaveLeft window now old
    pub past : All (λ a. a ≤ now) (scores z)
    pub fits : length (scores z) ≤ max
    pub unused : (m : String) → contains m used ≡ false → has m z ≡ false
    pub spaced : IsSpaced max window history

  -- The key's set does, and when the key expires all of its scores have left the window.
  pub record Tracks (key : Key redis) (history : List ℕ) (used : List String) (last : ℕ)
      : Type 0 where
    pub shows : Shows key.set history used last
    pub open shows use *
    pub dies : (d : ℕ) → key.deadline ≡ some d → HaveLeft window d (scores key.set)

  same_set :
      (key : Key redis) (history : List ℕ) (used : List String) (last now : ℕ)
      → last ≤ now
      → Tracks key history used last
      → Shows key.set history used now
  same_set key history used last now le h = record {
    old = h.old;
    splits = h.splits;
    left = HaveLeft-later window last now h.old le h.left;
    past = All-map (λ a. a ≤ last) (λ a. a ≤ now) (λ a p. omega arith) (scores key.set) h.past;
    fits = h.fits;
    unused = h.unused;
    spaced = h.spaced;
  }

  expired_set :
      (key : Key redis) (history : List ℕ) (used : List String) (last now d : ℕ)
      → last ≤ now
      → d ≤ now
      → key.deadline ≡ some d
      → Tracks key history used last
      → Shows empty history used now
  expired_set key history used last now d le gone e h = record {
    old = h.old ++ scores key.set;
    splits = rw redis.scores-empty (h.splits ∙ sym (append-nil (h.old ++ scores key.set)));
    left =
        All-append (λ a. a + window ≤ now) h.old (scores key.set)
          (HaveLeft-later window last now h.old le h.left)
          (HaveLeft-later window d now (scores key.set) gone (h.dies d e));
    past = rw redis.scores-empty tt;
    fits = rw redis.scores-empty (omega arith);
    unused = λ m k. redis.has-empty m;
    spaced = h.spaced;
  }

  -- What an eviction drops.
  evicted :
      (z : ZSet) (now : ℕ)
      → (gone : List ℕ) × (scores z
          ≡ gone ++ scores (zremrangebyscore (pos 0) (sub_ℕ now window) z))
        × HaveLeft window now gone
  evicted z now =
      let e =
        redis.scores-zremrangebyscore (pos 0) (sub_ℕ now window) z
        ∙ filter_ext _ (keeps window now) (not-in_range window now) (scores z) in
      let (gone, split, left) = filter-split window now (scores z) (redis.scores-IsSorted z) in
      (gone, split ∙ ap (λ t. gone ++ t) (sym e), left)

  pub visible-Shows :
      (key : Key redis) (history : List ℕ) (used : List String) (last now : ℕ)
      → last ≤ now
      → Tracks key history used last
      → Shows (visible redis now key) history used now
  unfolding visible
  visible-Shows key history used last now le h = elim (Option-cases key.deadline) [
    | inl immortal ↦ rw immortal (same_set key history used last now le h)
    | inr (d, e) ↦ elim (Bool-cases (expired d now)) [
      | inl gone ↦
          rw (e, gone)
            (expired_set key history used last now d le ((redis.expired_iff d now).0 gone) e h)
      | inr live ↦ rw (e, live) (same_set key history used last now le h)
    ]
  ]

  pub zremrangebyscore-Shows :
      (z : ZSet) (history : List ℕ) (used : List String) (now : ℕ)
      → Shows z history used now
      → Shows (zremrangebyscore (pos 0) (sub_ℕ now window) z) history used now
  zremrangebyscore-Shows z history used now h =
      let (gone, e, left) = evicted z now in
      record {
        old = h.old ++ gone;
        splits = h.splits ∙ ap (λ t. h.old ++ t) e ∙ sym (append_assoc h.old gone _);
        left = All-append (λ a. a + window ≤ now) h.old gone h.left left;
        past = All-right (λ a. a ≤ now) gone _ (subst (All (λ a. a ≤ now)) e h.past);
        fits = omega (
          arith,
          ap length e,
          length-append gone (scores (zremrangebyscore (pos 0) (sub_ℕ now window) z)),
          h.fits,
        );
        unused = λ m k. redis.has-zremrangebyscore (pos 0) (sub_ℕ now window) m z (h.unused m k);
        spaced = h.spaced;
      }

  -- A reservation at `now` in a set with room.
  zadd-Tracks :
      (z : ZSet) (history : List ℕ) (used : List String) (now : ℕ) (member : String)
      → contains member used ≡ false
      → length (scores z) < max
      → Shows z history used now
      → Tracks
          (record { set = zadd now member z; deadline = some (now + window) })
          (history ++ now ∷ [])
          (member ∷ used)
          now
  zadd-Tracks z history used now member new room h =
      let e : scores (zadd now member z) ≡ scores z ++ now ∷ [] =
        redis.scores-zadd now member z (h.unused member new)
        ∙ insert_sorted-last now (scores z) h.past in
      let past : All (λ a. a ≤ now) (scores z ++ now ∷ []) =
        All-append (λ a. a ≤ now) (scores z) (now ∷ []) h.past (omega arith, tt) in
      record {
        shows = record {
          old = h.old;
          splits = rw (h.splits, e) (append_assoc h.old (scores z) (now ∷ []));
          left = h.left;
          past = rw e past;
          fits = rw e (omega (arith, length-append (scores z) (now ∷ [])));
          unused = λ m k. rw (redis.has-zadd now member m z) (ground (arith, h.unused m));
          spaced = rw h.splits (
              IsSpaced-admit max window now h.old (scores z)
                (subst (IsSpaced max window) h.splits h.spaced) h.left room);
        };
        dies = λ d p.
            let q : now + window ≡ d = cc in
            rw e (All-map (λ a. a ≤ now) (λ a. a + window ≤ d) (λ a k. omega arith) _ past);
      }

  -- A run that finds no room replies at least 1.
  reserved-wait_for :
      (now : ℕ) (oldest : Option ℕ) → reserved redis (wait_for redis window now oldest) now [] ≡ []
  unfolding wait_for
  reserved-wait_for now none = refl
  reserved-wait_for now (some oldest) = ground arith

  visible_dies :
      (key : Key redis) (now d : ℕ)
      → HaveLeft window d (scores key.set)
      → HaveLeft window d (scores (visible redis now key))
  unfolding visible
  visible_dies key now d h = elim (Option-cases key.deadline) [
    | inl immortal ↦ rw immortal h
    | inr (d', e) ↦ elim (Bool-cases (expired d' now)) [
      | inl gone ↦ rw (e, gone, redis.scores-empty) tt
      | inr live ↦ rw (e, live) h
    ]
  ]

  evicted_dies :
      (z : ZSet) (now d : ℕ)
      → HaveLeft window d (scores z)
      → HaveLeft window d (scores (zremrangebyscore (pos 0) (sub_ℕ now window) z))
  evicted_dies z now d h =
      let (gone, e, left) = evicted z now in
      All-right (λ a. a + window ≤ d) gone _ (subst (HaveLeft window d) e h)

  pub live_dies :
      (key : Key redis) (now d : ℕ)
      → HaveLeft window d (scores key.set)
      → HaveLeft window d
          (scores (zremrangebyscore (pos 0) (sub_ℕ now window) (visible redis now key)))
  live_dies key now d h = evicted_dies (visible redis now key) now d (visible_dies key now d h)

  -- A run that found no room has only evicted.
  full-Tracks :
      (key : Key redis) (z : ZSet) (history : List ℕ) (used : List String) (now : ℕ)
      (member : String)
      → ((d : ℕ) → key.deadline ≡ some d → HaveLeft window d (scores z))
      → Shows z history used now
      → Tracks (record key { set = z }) history (member ∷ used) now
  full-Tracks key z history used now member dies h = record {
    shows = record {
      old = h.old;
      splits = h.splits;
      left = h.left;
      past = h.past;
      fits = h.fits;
      unused = λ m k. h.unused m (ground arith);
      spaced = h.spaced;
    };
    dies = dies;
  }

  pub acquire_script-Tracks :
      (key : Key redis) (history : List ℕ) (used : List String) (last now : ℕ) (member : String)
      → last ≤ now
      → contains member used ≡ false
      → Tracks key history used last
      → let (key', reply) = acquire_script redis max window now member key in
        Tracks key' (history ++ reserved redis reply now []) (member ∷ used) now
  unfolding acquire_script
  acquire_script-Tracks key history used last now member le new h =
      let seen : ZSet = visible redis now key in
      let live : ZSet = zremrangebyscore (pos 0) (sub_ℕ now window) seen in
      let shown : Shows live history used now =
        zremrangebyscore-Shows seen history used now
          (visible-Shows key history used last now le h) in
      elim (Bool-cases (ltb (zcard live) max)) [
        | inl room ↦ rw room (
            zadd-Tracks live history used now member new (ground (arith, redis.zcard-length live))
              shown)
        | inr full ↦ rw full (
            rw (reserved-wait_for now (zrange_first live)) (
              rw append-nil (
                full-Tracks key live history used now member
                  (λ d e. live_dies key now d (h.dies d e)) shown)))
      ]
