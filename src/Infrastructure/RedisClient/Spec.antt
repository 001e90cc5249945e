-- ===== src/Infrastructure/RedisClient/Spec.antt =====
-- What the client promises: named first-in-first-out queues, and a cache whose values expire.
use stock_trader.Prelude.{
  ℕ, zero, suc, ◌+◌, ◌*◌, ◌≤◌, ◌≡◌, ◌≢◌, Bool, true, false, Option, none, some, List, [], ◌∷◌, ◌++◌,
  String, length, str_eq, ltb, if◌then◌else◌,
}
use stock_trader.Errors.{Exception}

pub data Op : Type 0 where
  enqueues : String → String → Op
  dequeues : String → ℕ → Op
  measures : String → Op
  gets : String → Op
  sets : String → String → Option ℕ → Op
  deletes : String → Op
  looks_up : String → Op

pub data Reply : Type 0 where
  done : Reply
  value : Option String → Reply
  count : ℕ → Reply
  flag : Bool → Reply
  failure : Exception → Reply
  -- none, for ever
  waiting : Reply

-- The queues, oldest item first, and the cached values with the times at which they expire.
pub record Spec : Type 0 where
  pub queues : String → List String
  pub cache : String → Option (String × Option ℕ)

abbrev pub put {ℓ} : {A : Type ℓ} → String → A → (String → A) → String → A
put k a f k' = if str_eq k k' then a else f k'

-- What a cached value is at a time: nothing once it has expired.
abbrev pub live : ℕ → Option (String × Option ℕ) → Option String
live now none = none
live now (some (v, none)) = some v
live now (some (v, some deadline)) = if ltb now deadline then some v else none

abbrev pub is_there {ℓ} : {A : Type ℓ} → Option A → Bool
is_there none = false
is_there (some a) = true

abbrev pub expiry : ℕ → Option ℕ → Option ℕ
expiry now none = none
expiry now (some seconds) = some (now + seconds * 1000)

-- From an empty queue there is no item after a timeout, and no reply without one.
abbrev pub nothing_left : ℕ → Reply
nothing_left zero = waiting
nothing_left (suc seconds) = value none

abbrev pub take_front : String → ℕ → List String → Spec → Reply × Spec
take_front q timeout [] spec = (nothing_left timeout, spec)
take_front q timeout (x ∷ xs) spec = (value (some x), record spec { queues = put q xs spec.queues })

unfoldable pub perform_spec : ℕ → Op → Spec → Reply × Spec
perform_spec now (enqueues q v) spec =
    (done, record spec { queues = put q (spec.queues q ++ v ∷ []) spec.queues })
perform_spec now (dequeues q timeout) spec = take_front q timeout (spec.queues q) spec
perform_spec now (measures q) spec = (count (length (spec.queues q)), spec)
perform_spec now (gets k) spec = (value (live now (spec.cache k)), spec)
perform_spec now (sets k v ttl) spec =
    (done, record spec { cache = put k (some (v, expiry now ttl)) spec.cache })
perform_spec now (deletes k) spec =
    (flag (is_there (live now (spec.cache k))), record spec { cache = put k none spec.cache })
perform_spec now (looks_up k) spec = (flag (is_there (live now (spec.cache k))), spec)

-- A caller that waits for ever makes no further call.
abbrev pub after_reply : Reply → List Reply → List Reply
after_reply waiting rest = waiting ∷ []
after_reply reply rest = reply ∷ rest

-- Operations at the times at which they are made.
unfoldable pub run_spec : List (ℕ × Op) → Spec → List Reply
run_spec [] spec = []
run_spec ((now, op) ∷ ops) spec =
    let (reply, spec') = perform_spec now op spec in after_reply reply (run_spec ops spec')

-- A queue's name is not used for a cached value, nor the other way round, and Redis takes no expiry
-- of zero seconds.
module _ (is_queue : String → Bool) where
  abbrev pub IsProper : Op → Type 0
  IsProper (enqueues q v) = is_queue q ≡ true
  IsProper (dequeues q timeout) = is_queue q ≡ true
  IsProper (measures q) = is_queue q ≡ true
  IsProper (gets k) = is_queue k ≡ false
  IsProper (sets k v ttl) = (is_queue k ≡ false) × (ttl ≢ some 0)
  IsProper (deletes k) = is_queue k ≡ false
  IsProper (looks_up k) = is_queue k ≡ false

  -- And the server's clock does not run backwards.
  abbrev pub AreProper : ℕ → List (ℕ × Op) → Type 0
  AreProper last [] = Unit
  AreProper last ((now, op) ∷ ops) = (last ≤ now) × IsProper op × AreProper now ops
