-- ===== src/Examples/Caches.antt =====
-- The theorem on the Redis client, on a store that is the list of its writes, newest first, with the
-- times at which they expire.
use stock_trader.Prelude.{
  ℕ, suc, ◌+◌, ◌*◌, ◌≡◌, refl, true, Option, none, some, List, [], ◌∷◌, ◌++◌, String, length, arith,
  str_eq, eq_iff, ltb, if◌then◌else◌, zero, ap, ◌∙◌,
}
use stock_trader.Errors.{Result, ok, raise, redis_error, text}
use stock_trader.Infrastructure.RedisServer.{
  RedisServer, Entry, absent, listing, plain, entry_of, present, Stays, SameBut,
}
use stock_trader.Infrastructure.RedisClient.{RedisClient}
use stock_trader.Infrastructure.RedisClient.Spec.{
  Op, enqueues, dequeues, gets, sets, measures, deletes, Spec, run_spec,
}
use stock_trader.Infrastructure.RedisClient.Represents.{run}
use stock_trader.Infrastructure.RedisClient.Refinement.{run_refines}

abbrev Writes : Type 0
Writes = List (String × Entry × Option ℕ)

abbrev unexpired : ℕ → Entry → Option ℕ → Entry
unexpired now e none = e
unexpired now e (some deadline) = if ltb now deadline then e else absent

abbrev view : ℕ → String → Writes → Entry
view now k [] = absent
view now k ((k', e, deadline) ∷ rest) =
    let earlier = view now k rest in if str_eq k' k then unexpired now e deadline else earlier

abbrev wrong_type {ℓ} : {A : Type ℓ} → Result A
wrong_type = raise redis_error (text "WRONGTYPE" ∷ [])

abbrev push_to : String → String → Writes → Entry → Result Writes
push_to k v s absent = ok ((k, listing (v ∷ []), none) ∷ s)
push_to k v s (listing xs) = ok ((k, listing (v ∷ xs), none) ∷ s)
push_to k v s (plain x) = wrong_type

-- A list that is not empty, as its front and its last element.
abbrev unsnoc : String → List String → List String × String
unsnoc x [] = ([], x)
unsnoc x (y ∷ ys) = let (front, last) = unsnoc y ys in (x ∷ front, last)

abbrev pop_from : String → Writes → Entry → Result (Option (String × String)) × Writes
pop_from k s absent = (ok none, s)
pop_from k s (listing []) = (ok none, s)
pop_from k s (listing (x ∷ xs)) =
    let (front, last) = unsnoc x xs in (ok (some (k, last)), (k, entry_of front, none) ∷ s)
pop_from k s (plain x) = (wrong_type, s)

abbrev popped_within :
    ℕ → String → Writes → Entry → Option (Result (Option (String × String)) × Writes)
popped_within zero k s absent = none
popped_within timeout k s entry = some (pop_from k s entry)

popped_within-some :
    (timeout : ℕ) (k v : String) (xs : List String) (s : Writes)
    → popped_within timeout k s (entry_of (xs ++ v ∷ []))
      ≡ some (pop_from k s (entry_of (xs ++ v ∷ [])))
popped_within-some zero k v [] s = refl
popped_within-some zero k v (x ∷ xs) s = refl
popped_within-some (suc seconds) k v xs s = refl

abbrev length_of : Entry → Result ℕ
length_of absent = ok 0
length_of (listing xs) = ok (length xs)
length_of (plain x) = wrong_type

abbrev text_of : Entry → Result (Option String)
text_of absent = ok none
text_of (listing xs) = wrong_type
text_of (plain v) = ok (some v)

abbrev deadline_of : ℕ → Option ℕ → Option ℕ
deadline_of now none = none
deadline_of now (some n) = some (now + n * 1000)

unsnoc-append : (x : String) (xs : List String) (v : String) → unsnoc x (xs ++ v ∷ []) ≡ (x ∷ xs, v)
unsnoc-append x [] v = refl
unsnoc-append x (y ∷ ys) v = rw (unsnoc-append y ys v) refl

view_here :
    (k : String) (e : Entry) (deadline : Option ℕ) (later : ℕ) (s : Writes)
    → view later k ((k, e, deadline) ∷ s) ≡ unexpired later e deadline
view_here k e deadline later s = rw ((eq_iff k k).1 refl) refl

write-SameBut :
    (now : ℕ) (k : String) (e : Entry) (deadline : Option ℕ) (s : Writes)
    → SameBut view now k s ((k, e, deadline) ∷ s)
write-SameBut now k e deadline s k' later other le = ground (arith, eq_iff k k')

push_to-view :
    (now : ℕ) (k v : String) (xs : List String) (s : Writes)
    → Stays view now k (entry_of xs) s
    → (s' : Writes) × (push_to k v s (view now k s) ≡ ok s')
      × Stays view now k (entry_of (v ∷ xs)) s'
      × SameBut view now k s s'
push_to-view now k v xs s h = (
  (k, listing (v ∷ xs), none) ∷ s,
  rw (h now (omega arith)) (push_to-entry_of xs),
  λ later le. view_here k (listing (v ∷ xs)) none later s,
  write-SameBut now k (listing (v ∷ xs)) none s,
)
  where
    push_to-entry_of :
        (ys : List String) → push_to k v s (entry_of ys) ≡ ok ((k, listing (v ∷ ys), none) ∷ s)
    push_to-entry_of [] = refl
    push_to-entry_of (y ∷ ys) = refl

pop_from-last :
    (k v : String) (xs : List String) (s : Writes)
    → pop_from k s (entry_of (xs ++ v ∷ [])) ≡ (ok (some (k, v)), (k, entry_of xs, none) ∷ s)
pop_from-last k v [] s = refl
pop_from-last k v (x ∷ xs) s = rw (unsnoc-append x xs v) refl

length_of-entry_of : (xs : List String) → length_of (entry_of xs) ≡ ok (length xs)
length_of-entry_of [] = refl
length_of-entry_of (x ∷ xs) = refl

abbrev write_log : RedisServer
write_log = record {
  Store = Writes;
  view = view;
  lpush = λ now k v s. push_to k v s (view now k s);
  brpop = λ now timeout k s. popped_within timeout k s (view now k s);
  llen = λ now k s. length_of (view now k s);
  get = λ now k s. text_of (view now k s);
  set = λ now k v ttl s. ok ((k, plain v, deadline_of now ttl) ∷ s);
  delete = λ now k s. (present (view now k s), (k, absent, none) ∷ s);
  exists = λ now k s. present (view now k s);
  lpush-view = push_to-view;
  brpop-forever = λ now k s h. rw (h now (omega arith)) refl;
  brpop-empty =
      λ now seconds k s h. (s, rw (h now (omega arith)) refl, h, λ k' later other le. refl);
  brpop-last = λ now timeout k v xs s h. (
    (k, entry_of xs, none) ∷ s,
    rw (h now (omega arith))
        (popped_within-some timeout k v xs s ∙ ap some (pop_from-last k v xs s)),
    λ later le. view_here k (entry_of xs) none later s,
    write-SameBut now k (entry_of xs) none s,
  );
  llen-view = λ now k xs s h. rw h (length_of-entry_of xs);
  get-plain = λ now k v s h. rw h refl;
  get-absent = λ now k s h. rw h refl;
  set-forever = λ now k v s. (
    (k, plain v, none) ∷ s,
    refl,
    λ later le. view_here k (plain v) none later s,
    write-SameBut now k (plain v) none s,
  );
  set-expiring = λ now n k v s. (
    (k, plain v, some (now + suc n * 1000)) ∷ s,
    refl,
    λ later le. view_here k (plain v) (some (now + suc n * 1000)) later s,
    write-SameBut now k (plain v) (some (now + suc n * 1000)) s,
  );
  delete-view = λ now k s. (
    (k, absent, none) ∷ s,
    refl,
    λ later le. view_here k absent none later s,
    write-SameBut now k absent none s,
  );
  exists-view = λ now k s. refl;
}

abbrev cache_client : RedisClient
cache_client = record {
  host = "localhost";
  port = 6379;
  db = 0;
  decode_responses = true;
  connected = true;
}

abbrev empty_spec : Spec
empty_spec = record { queues = λ q. []; cache = λ k. none }

abbrev operations : List (ℕ × Op)
operations =
    (1, enqueues "jobs" "a")
    ∷ (2, enqueues "jobs" "b")
    ∷ (3, sets "price" "10" (some 60))
    ∷ (4, dequeues "jobs" 5)
    ∷ (5, measures "jobs")
    ∷ (60002, gets "price")
    ∷ (60003, gets "price")
    ∷ (60004, deletes "price")
    ∷ []

run_refines_example : run write_log cache_client operations [] ≡ run_spec operations empty_spec
run_refines_example =
    run_refines write_log (str_eq "jobs") cache_client 0 empty_spec [] operations refl
      (record { queued = λ q e later le. refl; cached = λ k later e le. refl })
      (
        omega arith,
        refl,
        (
          omega arith,
          refl,
          (
            omega arith,
            (refl, λ e. absurd (cc)),
            (
              omega arith,
              refl,
              (
                omega arith,
                refl,
                (omega arith, refl, (omega arith, refl, (omega arith, refl, tt))),
              ),
            ),
          ),
        ),
      )
