-- ===== src/Infrastructure/RedisClient/Represents.antt =====
-- The operations of a client as the calls of its methods, and which promised state a store stands for.
use stock_trader.Prelude.{
  ℕ, ◌≤◌, ◌≡◌, ◌≢◌, refl, sym, ap, subst, ◌∙◌, inl, inr, Bool, true, false, Option, none, some,
  List, [], ◌∷◌, ◌++◌, String, arith, length, length-append, str_eq, eq_iff, Bool-cases,
}
use stock_trader.Errors.{Result, ok, err}
use stock_trader.Infrastructure.RedisServer.{
  RedisServer, Entry, absent, plain, entry_of, Stays, SameBut,
}
use stock_trader.Infrastructure.RedisClient.{
  RedisClient, Outcome, enqueue, dequeue, queue_length, get, set, delete, exists,
}
use stock_trader.Infrastructure.RedisClient.Spec.{
  Op, enqueues, dequeues, measures, gets, sets, deletes, looks_up, Reply, done, value, count, flag,
  failure, waiting, after_reply, Spec, put, live,
}

abbrev pub reverse : List String → List String
reverse [] = []
reverse (x ∷ xs) = reverse xs ++ x ∷ []

pub reverse-snoc : (xs : List String) (x : String) → reverse (xs ++ x ∷ []) ≡ x ∷ reverse xs
reverse-snoc [] x = refl
reverse-snoc (y ∷ xs) x = rw (reverse-snoc xs x) refl

pub length-reverse : (xs : List String) → length (reverse xs) ≡ length xs
length-reverse [] = refl
length-reverse (x ∷ xs) = omega (arith, length-append (reverse xs) (x ∷ []), length-reverse xs)

-- A reply as a value.
abbrev pub replied {ℓ} : {A : Type ℓ} → (A → Reply) → Result A → Reply
replied f (err e) = failure e
replied f (ok a) = f a

abbrev pub as_entry : Option String → Entry
as_entry none = absent
as_entry (some v) = plain v

module _ (redis : RedisServer) (c : RedisClient) where
  abbrev Store : Type 0
  Store = redis.Store

  abbrev pub answered {ℓ} : {A : Type ℓ} → (A → Reply) → Outcome redis A → Reply × Store
  answered f (r, s) = (replied f r, s)

  abbrev pub waited : Store → Option (Outcome redis (Option String)) → Reply × Store
  waited s none = (waiting, s)
  waited s (some outcome) = answered value outcome

  unfoldable pub perform : ℕ → Op → Store → Reply × Store
  perform now (enqueues q v) s = answered (λ _. done) (enqueue redis c now q v s)
  perform now (dequeues q timeout) s = waited s (dequeue redis c now q timeout s)
  perform now (measures q) s = answered count (queue_length redis c now q s)
  perform now (gets k) s = answered value (get redis c now k s)
  perform now (sets k v ttl) s = answered (λ _. done) (set redis c now k v ttl s)
  perform now (deletes k) s = answered flag (delete redis c now k s)
  perform now (looks_up k) s = answered flag (exists redis c now k s)

  unfoldable pub run : List (ℕ × Op) → Store → List Reply
  run [] s = []
  run ((now, op) ∷ ops) s = let (reply, s') = perform now op s in after_reply reply (run ops s')

-- The store holds each queue with its newest item at the left end, and each cached value that has
-- not expired, from `now` on.
pub record Represents (redis : RedisServer) (is_queue : String → Bool) (now : ℕ) (spec : Spec)
    (s : redis.Store) : Type 0 where
  pub queued :
      (q : String)
      → is_queue q ≡ true
      → Stays redis.view now q (entry_of (reverse (spec.queues q))) s
  pub cached :
      (k : String) (later : ℕ)
      → is_queue k ≡ false
      → now ≤ later
      → redis.view later k s ≡ as_entry (live later (spec.cache k))

put_same : {A : Type 0} (k : String) (a : A) (f : String → A) → put k a f k ≡ a
put_same k a f = rw ((eq_iff k k).1 refl) refl

put_other : {A : Type 0} (k k' : String) (a : A) (f : String → A) → k ≢ k' → put k a f k' ≡ f k'
put_other k k' a f n = elim (Bool-cases (str_eq k k')) [
  | inl same ↦ absurd (n ((eq_iff k k').0 same))
  | inr other ↦ rw other refl
]

kinds_differ :
    (is_queue : String → Bool) (k k' : String) {a b : Bool}
    → is_queue k ≡ a
    → is_queue k' ≡ b
    → a ≢ b
    → k ≢ k'
kinds_differ is_queue k k' e f n same = n (sym e ∙ ap is_queue same ∙ f)

module _ (redis : RedisServer) (is_queue : String → Bool) where
  pub Represents-later :
      (now later : ℕ) (spec : Spec) (s : redis.Store)
      → now ≤ later
      → Represents redis is_queue now spec s
      → Represents redis is_queue later spec s
  Represents-later now later spec s le h = record {
    queued = λ q k t l. h.queued q k t (omega arith);
    cached = λ k t n l. h.cached k t n (omega arith);
  }

  -- After a command on a queue that leaves it with these items.
  pub queue_changed :
      (now : ℕ) (spec : Spec) (s s' : redis.Store) (q : String) (items : List String)
      → is_queue q ≡ true
      → Stays redis.view now q (entry_of (reverse items)) s'
      → SameBut redis.view now q s s'
      → Represents redis is_queue now spec s
      → Represents redis is_queue now (record spec { queues = put q items spec.queues }) s'
  queue_changed now spec s s' q items kind stays same h = record {
    queued = λ q' kind' later le. elim (Bool-cases (str_eq q q')) [
      | inl e ↦
          let e' = (eq_iff q q').0 e in
          rw e (subst (λ z. redis.view later z s' ≡ entry_of (reverse items)) e' (stays later le))
      | inr other ↦ rw other (
          same q' later (λ e. absurd (let k = (eq_iff q q').1 e in cc)) le
          ∙ h.queued q' kind' later le)
    ];
    cached = λ k later kind' le.
        same k later (kinds_differ is_queue q k kind kind' (λ e. cc)) le
        ∙ h.cached k later kind' le;
  }

  -- After a command on a cached key.
  pub cache_changed :
      (now : ℕ) (spec : Spec) (s s' : redis.Store) (k : String) (entry : Option (String × Option ℕ))
      → is_queue k ≡ false
      → ((later : ℕ) → now ≤ later → redis.view later k s' ≡ as_entry (live later entry))
      → SameBut redis.view now k s s'
      → Represents redis is_queue now spec s
      → Represents redis is_queue now (record spec { cache = put k entry spec.cache }) s'
  cache_changed now spec s s' k entry kind seen same h = record {
    queued = λ q kind' later le.
        same q later (kinds_differ is_queue k q kind kind' (λ e. cc)) le
        ∙ h.queued q kind' later le;
    cached = λ k' later kind' le. elim (Bool-cases (str_eq k k')) [
      | inl e ↦
          let e' = (eq_iff k k').0 e in
          rw e (subst (λ z. redis.view later z s' ≡ as_entry (live later entry)) e' (seen later le))
      | inr other ↦ rw other (
          same k' later (λ e. absurd (let z = (eq_iff k k').1 e in cc)) le
          ∙ h.cached k' later kind' le)
    ];
  }
