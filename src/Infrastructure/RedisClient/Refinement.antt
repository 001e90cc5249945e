-- ===== src/Infrastructure/RedisClient/Refinement.antt =====
-- The connected client implements its promise.
use stock_trader.Prelude.{
  ℕ, zero, suc, ◌+◌, ◌*◌, ◌≡◌, ◌≢◌, refl, sym, ap, subst, ◌∙◌, inl, inr, Bool, true, false, Option,
  none, some, List, [], ◌∷◌, ◌++◌, String, arith, str_eq, eq_iff, ltb, Bool-cases, Option-cases,
  List-cases, if◌then◌else◌,
}
use stock_trader.Errors.{ok}
use stock_trader.Infrastructure.RedisServer.{RedisServer, absent, plain, entry_of, present, Stays}
use stock_trader.Infrastructure.RedisClient.{
  RedisClient, client, enqueue, dequeue, queue_length, get, set, delete, exists,
}
use stock_trader.Infrastructure.RedisClient.Spec.{
  Op, enqueues, dequeues, measures, gets, sets, deletes, looks_up, Spec, after_reply, put, live,
  is_there, expiry, perform_spec, run_spec, IsProper, AreProper,
}
use stock_trader.Infrastructure.RedisClient.Represents.{
  reverse, reverse-snoc, length-reverse, as_entry, perform, run, Represents, Represents-later,
  queue_changed, cache_changed,
}

present-as_entry : (o : Option String) → ltb 0 (present (as_entry o)) ≡ is_there o
present-as_entry none = refl
present-as_entry (some v) = refl

if-as_entry :
    (b : Bool) (v : String)
    → (if b then plain v else absent) ≡ as_entry (if b then some v else none)
if-as_entry true v = refl
if-as_entry false v = refl

put_nothing : (q q' : String) (f : String → List String) → f q ≡ [] → put q [] f q' ≡ f q'
put_nothing q q' f nothing = elim (Bool-cases (str_eq q q')) [
  | inl same ↦ rw same (sym nothing ∙ ap f ((eq_iff q q').0 same))
  | inr other ↦ rw other refl
]

-- Emptying a queue that is empty changes nothing.
unchanged :
    (redis : RedisServer) (is_queue : String → Bool) (now : ℕ) (spec : Spec) (s : redis.Store)
    (q : String)
    → spec.queues q ≡ []
    → Represents redis is_queue now (record spec { queues = put q [] spec.queues }) s
    → Represents redis is_queue now spec s
unchanged redis is_queue now spec s q nothing h = record {
  queued = λ q' kind.
      subst (λ z. Stays redis.view now q' (entry_of (reverse z)) s)
        (put_nothing q q' spec.queues nothing) (h.queued q' kind);
  cached = h.cached;
}

module _ (redis : RedisServer) (is_queue : String → Bool) (c : RedisClient)
    (up : c.connected ≡ true) (now : ℕ) (spec : Spec) (s : redis.Store)
    (h : Represents redis is_queue now spec s) where
  client-ok : client c ≡ ok tt
  unfolding client
  client-ok = rw up refl

  -- What a proof about an operation gives.
  abbrev Simulates : Op → Type 0
  Simulates op =
      (s' : redis.Store) × (perform redis c now op s ≡ ((perform_spec now op spec).0, s'))
      × Represents redis is_queue now (perform_spec now op spec).1 s'

  enqueue-Simulates : (q v : String) → is_queue q ≡ true → Simulates (enqueues q v)
  unfolding perform perform_spec enqueue
  enqueue-Simulates q v kind =
      let xs = spec.queues q in
      let (s', e, stays, same) = redis.lpush-view now q v (reverse xs) s (h.queued q kind) in
      (
        s',
        rw (client-ok, e) refl,
        queue_changed redis is_queue now spec s s' q (xs ++ v ∷ []) kind
            (rw (reverse-snoc xs v) stays) same h,
      )

  dequeue-Simulates :
      (q : String) (timeout : ℕ) → is_queue q ≡ true → Simulates (dequeues q timeout)
  unfolding perform perform_spec dequeue
  dequeue-Simulates q timeout kind = elim (List-cases (spec.queues q)) [
    | inl nothing ↦ empty timeout (rw nothing at (h.queued q kind)) nothing
    | inr (x, xs, q_eq) ↦
        let (s', e, stays, same) =
          redis.brpop-last now timeout q x (reverse xs) s (rw q_eq at (h.queued q kind)) in
        (
          s',
          rw (client-ok, q_eq, e) refl,
          rw q_eq (queue_changed redis is_queue now spec s s' q xs kind stays same h),
        )
  ]
    where
      empty :
          (seconds : ℕ)
          → Stays redis.view now q absent s
          → spec.queues q ≡ []
          → Simulates (dequeues q seconds)
      empty zero gone nothing =
          (s, rw (client-ok, nothing, redis.brpop-forever now q s gone) refl, rw nothing h)
      empty (suc seconds) gone nothing =
          let (s', e, stays, same) = redis.brpop-empty now seconds q s gone in
          (
            s',
            rw (client-ok, nothing, e) refl,
            rw nothing (
                unchanged redis is_queue now spec s' q nothing
                  (queue_changed redis is_queue now spec s s' q [] kind stays same h)),
          )

  measure-Simulates : (q : String) → is_queue q ≡ true → Simulates (measures q)
  unfolding perform perform_spec queue_length
  measure-Simulates q kind = (
    s,
    rw
        (
          client-ok,
          redis.llen-view now q (reverse (spec.queues q)) s (h.queued q kind now (omega arith)),
          length-reverse (spec.queues q),
        )
        refl,
    h,
  )

  get-Simulates : (k : String) → is_queue k ≡ false → Simulates (gets k)
  unfolding perform perform_spec get
  get-Simulates k kind =
      let seen = h.cached k now kind (omega arith) in
      elim (Option-cases (live now (spec.cache k))) [
        | inl gone ↦ (s, rw (client-ok, gone, redis.get-absent now k s (rw gone at seen)) refl, h)
        | inr (v, there) ↦
            (s, rw (client-ok, there, redis.get-plain now k v s (rw there at seen)) refl, h)
      ]

  set-Simulates :
      (k v : String) (ttl : Option ℕ) → is_queue k ≡ false → ttl ≢ some 0 → Simulates (sets k v ttl)
  unfolding perform perform_spec set
  set-Simulates k v none kind n =
      let (s', e, stays, same) = redis.set-forever now k v s in
      (
        s',
        rw (client-ok, e) refl,
        cache_changed redis is_queue now spec s s' k (some (v, none)) kind stays same h,
      )
  set-Simulates k v (some zero) kind n = absurd (n refl)
  set-Simulates k v (some (suc m)) kind n =
      let (s', e, seen, same) = redis.set-expiring now m k v s in
      (
        s',
        rw (client-ok, e) refl,
        cache_changed redis is_queue now spec s s' k (some (v, expiry now (some (suc m)))) kind
            (λ later le. seen later le ∙ if-as_entry (ltb later (now + suc m * 1000)) v) same h,
      )

  delete-Simulates : (k : String) → is_queue k ≡ false → Simulates (deletes k)
  unfolding perform perform_spec delete
  delete-Simulates k kind =
      let (s', e, stays, same) = redis.delete-view now k s in
      (
        s',
        rw
            (
              client-ok,
              e,
              h.cached k now kind (omega arith),
              present-as_entry (live now (spec.cache k)),
            )
            refl,
        cache_changed redis is_queue now spec s s' k none kind stays same h,
      )

  exists-Simulates : (k : String) → is_queue k ≡ false → Simulates (looks_up k)
  unfolding perform perform_spec exists
  exists-Simulates k kind = (
    s,
    rw
        (
          client-ok,
          redis.exists-view now k s,
          h.cached k now kind (omega arith),
          present-as_entry (live now (spec.cache k)),
        )
        refl,
    h,
  )

  perform-Simulates : (op : Op) → IsProper is_queue op → Simulates op
  perform-Simulates (enqueues q v) p = enqueue-Simulates q v p
  perform-Simulates (dequeues q timeout) p = dequeue-Simulates q timeout p
  perform-Simulates (measures q) p = measure-Simulates q p
  perform-Simulates (gets k) p = get-Simulates k p
  perform-Simulates (sets k v ttl) p = set-Simulates k v ttl (p.0) (p.1)
  perform-Simulates (deletes k) p = delete-Simulates k p
  perform-Simulates (looks_up k) p = exists-Simulates k p

-- A connected client, on a store that holds some queues and cached values and that no other client
-- changes, answers every sequence of operations, at the times of a clock that does not run backwards,
-- as named first-in-first-out queues and an expiring cache do, provided that no name serves both for a
-- queue and for a cached value and that no expiry of zero seconds is asked for. A dequeue from an empty
-- queue gives nothing after its timeout; without a timeout it never returns, and ends the sequence.
pub run_refines :
    (redis : RedisServer) (is_queue : String → Bool) (c : RedisClient) (last : ℕ) (spec : Spec)
    (s : redis.Store) (ops : List (ℕ × Op))
    → c.connected ≡ true
    → Represents redis is_queue last spec s
    → AreProper is_queue last ops
    → run redis c ops s ≡ run_spec ops spec
unfolding run run_spec
run_refines redis is_queue c last spec s [] up h p = refl
run_refines redis is_queue c last spec s ((now, op) ∷ ops) up h (le, proper, rest) =
    let (s', e, h') =
      perform-Simulates redis is_queue c up now spec s
        (Represents-later redis is_queue last now spec s le h) op proper in
    rw e (
      ap (after_reply (perform_spec now op spec).0)
        (run_refines redis is_queue c now (perform_spec now op spec).1 s' ops up h' rest))
