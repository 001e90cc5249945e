-- ===== src/RateLimit/Script/Wait.antt =====
-- The number that a refused run replies: how long until a slot is free.
use stock_trader.Prelude.{
  ℕ, suc, ◌+◌, ◌≤◌, ◌<◌, ◌≡◌, ◌≢◌, ◌↔◌, refl, sym, ap, subst, ◌∙◌, ◌⊎◌, inl, inr, Option, none,
  some, List, [], ◌∷◌, String, arith, true, length, length-filter, filter, filter_ext, filter-All,
  All-filter, List-cases, All, ltb, ltb→lt, lt→ltb, Bool-cases, Option-cases,
}
use stock_trader.Prelude.Int.{pos, sub_ℕ}
use stock_trader.Prelude.Sorted.{IsSorted}
use stock_trader.RateLimit.Spacing.{HaveLeft}
use stock_trader.RateLimit.SortedSet.{SortedSets, head?}
use stock_trader.RateLimit.Script.{Key, Call, visible, wait_for, acquire_script}
use stock_trader.RateLimit.Script.Window.{AreCalls, last_time, reached_key, reached-Tracks}
use stock_trader.RateLimit.Script.Eviction.{keeps, not-in_range, All-kept}
use stock_trader.RateLimit.Script.Tracks.{Tracks, visible-Shows, zremrangebyscore-Shows, live_dies}

module _ (redis : SortedSets) (max window : ℕ) where
  open redis use {ZSet, zremrangebyscore, zcard, zrange_first, expired, scores}

  -- The set that a run at `now` counts.
  abbrev pub live_set : ℕ → Key redis → ZSet
  live_set now key = zremrangebyscore (pos 0) (sub_ℕ now window) (visible redis now key)

  scores-live_set :
      (now : ℕ) (key : Key redis)
      → scores (live_set now key) ≡ filter (keeps window now) (scores (visible redis now key))
  scores-live_set now key =
      redis.scores-zremrangebyscore (pos 0) (sub_ℕ now window) (visible redis now key)
      ∙ filter_ext _ (keeps window now) (not-in_range window now) (scores (visible redis now key))

  wait_for_pos : (now : ℕ) (oldest : Option ℕ) → wait_for redis window now oldest ≢ some 0
  unfolding wait_for
  wait_for_pos now none h = cc
  wait_for_pos now (some oldest) h = ground arith

  -- A run replies 0 exactly when fewer than `max` scores are left.
  reply_zero_iff :
      (key : Key redis) (now : ℕ) (member : String)
      → ((acquire_script redis max window now member key).1 ≡ some 0)
        ↔ (length (scores (live_set now key)) < max)
  unfolding acquire_script
  reply_zero_iff key now member = elim (Bool-cases (ltb (zcard (live_set now key)) max)) [
    | inl room ↦ rw room ((λ _. ground (arith, redis.zcard-length (live_set now key))), (λ _. refl))
    | inr full ↦ rw full (
      (λ h. absurd (wait_for_pos now (zrange_first (live_set now key)) h)),
      (λ h. absurd (ground (arith, redis.zcard-length (live_set now key)))),
    )
  ]

  wait_for-oldest :
      (now x w : ℕ)
      → now < x + window
      → wait_for redis window now (some x) ≡ some (suc w)
      → x + window ≡ now + suc w
  unfolding wait_for
  wait_for-oldest now x w kept h = ground arith

  -- With a positive limit the script never fails.
  pub reply-ne-none :
      (key : Key redis) (now : ℕ) (member : String)
      → 0 < max
      → (acquire_script redis max window now member key).1 ≢ none
  unfolding acquire_script wait_for
  reply-ne-none key now member positive h =
      let z : ZSet = live_set now key in
      elim (Bool-cases (ltb (zcard z) max)) [
        | inl room ↦ let e = rw room at h in cc
        | inr full ↦ elim (List-cases (scores z)) [
          | inl e ↦ absurd (ground (arith, redis.zcard-length z, ap length e))
          | inr (x, xs, e) ↦ let e' = rw (full, redis.zrange_first-head z ∙ ap head? e) at h in cc
        ]
      ]

  -- A refused run leaves the set that it counted, whose oldest score is `wait` short of leaving.
  refused :
      (key : Key redis) (now : ℕ) (member : String) {w : ℕ}
      → 0 < max
      → (acquire_script redis max window now member key).1 ≡ some (suc w)
      → (x : ℕ) × (xs : List ℕ) × ((acquire_script redis max window now member key).0
          ≡ record key { set = live_set now key })
        × (scores (live_set now key) ≡ x ∷ xs)
        × (max ≤ suc (length xs))
        × (x + window ≡ now + suc w)
  unfolding acquire_script
  refused key now member {w = w} positive h =
      let z : ZSet = live_set now key in
      elim (Bool-cases (ltb (zcard z) max)) [
        | inl room ↦ absurd (let e = rw room at h in cc)
        | inr full ↦
            let long : max ≤ length (scores z) = ground (arith, redis.zcard-length z) in
            elim (List-cases (scores z)) [
              | inl e ↦ absurd (omega (arith, ap length e))
              | inr (x, xs, e) ↦
                  let all : All (λ s. keeps window now s ≡ true) (x ∷ xs) =
                    subst (All (λ s. keeps window now s ≡ true)) (sym (scores-live_set now key) ∙ e)
                      (All-filter (keeps window now) (scores (visible redis now key))) in
                  let first : zrange_first z ≡ some x = redis.zrange_first-head z ∙ ap head? e in
                  let h' : wait_for redis window now (zrange_first z) ≡ some (suc w) =
                    rw full at h in
                  (
                    x,
                    xs,
                    rw full,
                    e,
                    omega (arith, ap length e),
                    wait_for-oldest now x w (ltb→lt now (x + window) all.0)
                        (subst (λ o. wait_for redis window now o ≡ some (suc w)) first h'),
                  )
            ]
      ]

  visible_cases :
      (key : Key redis) (t : ℕ)
      → (scores (visible redis t key) ≡ scores key.set)
        ⊎ ((d : ℕ) × (key.deadline ≡ some d) × (d ≤ t) × (scores (visible redis t key) ≡ []))
  unfolding visible
  visible_cases key t = elim (Option-cases key.deadline) [
    | inl immortal ↦ inl (rw immortal refl)
    | inr (d, e) ↦ elim (Bool-cases (expired d t)) [
      | inl gone ↦ inr (d, e, (redis.expired_iff d t).0 gone, rw (e, gone) redis.scores-empty)
      | inr live ↦ inl (rw (e, live) refl)
    ]
  ]

  -- The oldest score has left by `t`, so a retry finds room.
  retry_late :
      (key : Key redis) (x t : ℕ) (xs : List ℕ)
      → scores key.set ≡ x ∷ xs
      → length (x ∷ xs) ≤ max
      → x + window ≤ t
      → length (scores (live_set t key)) < max
  retry_late key x t xs e fits gone = elim (visible_cases key t) [
    | inl same ↦
        rw (scores-live_set t key, same, e) (ground (arith, length-filter (keeps window t) xs))
    | inr (d, _, _, nothing) ↦ rw (scores-live_set t key, nothing) (omega arith)
  ]

  -- The oldest score is still there at `t`, and so are the others: a retry finds none.
  retry_early :
      (key : Key redis) (x t : ℕ) (xs : List ℕ)
      → scores key.set ≡ x ∷ xs
      → max ≤ suc (length xs)
      → t < x + window
      → ((d : ℕ) → key.deadline ≡ some d → HaveLeft window d (scores key.set))
      → ¬ (length (scores (live_set t key)) < max)
  retry_early key x t xs e full kept dies room = elim (visible_cases key t) [
    | inl same ↦
        let sorted : IsSorted (x ∷ xs) = subst IsSorted e (redis.scores-IsSorted key.set) in
        let first : keeps window t x ≡ true = lt→ltb t (x + window) kept in
        let all : filter (keeps window t) (x ∷ xs) ≡ x ∷ xs =
          filter-All (keeps window t) (x ∷ xs) (first, All-kept window t x xs first sorted.0) in
        let e' : scores (live_set t key) ≡ x ∷ xs =
          scores-live_set t key ∙ ap (filter (keeps window t)) (same ∙ e) ∙ all in
        omega (arith, ap length e')
    | inr (d, alive, le, nothing) ↦
        let left : HaveLeft window d (x ∷ xs) = subst (HaveLeft window d) e (dies d alive) in
        omega (arith, left.0)
  ]

  -- The reply of a refused run is exact, for a key that satisfies the invariant.
  wait_exact :
      (key : Key redis) (history : List ℕ) (used : List String) (last now w t : ℕ) (m m' : String)
      → 0 < max
      → last ≤ now
      → Tracks redis max window key history used last
      → (acquire_script redis max window now m key).1 ≡ some (suc w)
      → ((acquire_script redis max window t m' (acquire_script redis max window now m key).0).1
          ≡ some 0)
        ↔ (now + suc w ≤ t)
  wait_exact key history used last now w t m m' positive le h refusal =
      let (x, xs, state, e, full, due) = refused key now m positive refusal in
      let key' : Key redis = record key { set = live_set now key } in
      let shown =
        zremrangebyscore-Shows redis max window (visible redis now key) history used now
          (visible-Shows redis max window key history used last now le h) in
      rw state (
        (λ zero. elim (Bool-cases (ltb t (x + window))) [
          | inl early ↦ absurd (
              retry_early key' x t xs e full (ltb→lt t (x + window) early)
                (λ d q. live_dies redis max window key now d (h.dies d q))
                ((reply_zero_iff key' t m').0 zero))
          | inr late ↦ ground arith
        ]),
        (λ later.
            (reply_zero_iff key' t m').1
              (retry_late key' x t xs e (omega (arith, shown.fits, ap length e)) (omega arith))),
      )

-- After any runs by any processes, let a run at `now` be refused with the reply `wait`. If no other
-- process runs the script in between, a retry at `t` gets a slot exactly when `wait` milliseconds
-- have passed: sleeping less is futile, and more is not needed.
pub refusal_exact :
    (redis : SortedSets) (max window start now w t : ℕ) (m m' : String) (calls : List (Call redis))
    → 0 < max
    → AreCalls redis start [] calls
    → last_time redis start calls ≤ now
    → (acquire_script redis max window now m (reached_key redis max window calls)).1 ≡ some (suc w)
    → ((acquire_script redis max window t m'
          (acquire_script redis max window now m (reached_key redis max window calls)).0).1
        ≡ some 0)
      ↔ (now + suc w ≤ t)
refusal_exact redis max window start now w t m m' calls positive ordered le refusal =
    wait_exact redis max window _ _ _ (last_time redis start calls) now w t m m' positive le
      (reached-Tracks redis max window start calls ordered) refusal
