-- ===== src/Infrastructure/RedisServer.antt =====
-- What the client of infrastructure/redis_client.py uses of Redis: the commands on lists and texts,
-- with the laws that their documentation gives them. Times are milliseconds.
use stock_trader.Prelude.{
  ℕ, suc, ◌+◌, ◌*◌, ◌≤◌, ◌≡◌, ◌≢◌, Option, none, some, List, [], ◌∷◌, ◌++◌, String, length, ltb,
  if◌then◌else◌,
}
use stock_trader.Errors.{Result, ok}

-- What is stored under a key.
pub data Entry : Type 0 where
  absent : Entry
  listing : List String → Entry
  plain : String → Entry

-- A list that becomes empty is removed. The left end comes first.
abbrev pub entry_of : List String → Entry
entry_of [] = absent
entry_of (x ∷ xs) = listing (x ∷ xs)

abbrev pub present : Entry → ℕ
present absent = 0
present _ = 1

-- From `now` on a reader sees `e` under the key `k`.
abbrev pub Stays {ℓ} :
    {Store : Type ℓ} → (ℕ → String → Store → Entry) → ℕ → String → Entry → Store → Type 0
Stays view now k e s = (later : ℕ) → now ≤ later → view later k s ≡ e

-- From `now` on a reader sees the same in both stores under every key but `k`.
abbrev pub SameBut {ℓ} :
    {Store : Type ℓ} → (ℕ → String → Store → Entry) → ℕ → String → Store → Store → Type 0
SameBut view now k s s' =
    (k' : String) (later : ℕ) → k ≢ k' → now ≤ later → view later k' s' ≡ view later k' s

pub record RedisServer : Type 1 where
  pub Store : Type 0
  pub view : ℕ → String → Store → Entry
  pub lpush : ℕ → String → String → Store → Result Store
  -- the reply after at most the seconds given, with the name of the list; none if, while no other
  -- client comes in, the wait has no end
  pub brpop : ℕ → ℕ → String → Store → Option (Result (Option (String × String)) × Store)
  pub llen : ℕ → String → Store → Result ℕ
  pub get : ℕ → String → Store → Result (Option String)
  -- with the seconds of `EX`, if given
  pub set : ℕ → String → String → Option ℕ → Store → Result Store
  pub delete : ℕ → String → Store → ℕ × Store
  pub exists : ℕ → String → Store → ℕ
  pub lpush-view :
      (now : ℕ) (k v : String) (xs : List String) (s : Store)
      → Stays view now k (entry_of xs) s
      → (s' : Store) × (lpush now k v s ≡ ok s')
        × Stays view now k (entry_of (v ∷ xs)) s'
        × SameBut view now k s s'
  pub brpop-forever :
      (now : ℕ) (k : String) (s : Store) → Stays view now k absent s → brpop now 0 k s ≡ none
  pub brpop-empty :
      (now seconds : ℕ) (k : String) (s : Store)
      → Stays view now k absent s
      → (s' : Store) × (brpop now (suc seconds) k s ≡ some (ok none, s'))
        × Stays view now k absent s'
        × SameBut view now k s s'
  pub brpop-last :
      (now timeout : ℕ) (k v : String) (xs : List String) (s : Store)
      → Stays view now k (entry_of (xs ++ v ∷ [])) s
      → (s' : Store) × (brpop now timeout k s ≡ some (ok (some (k, v)), s'))
        × Stays view now k (entry_of xs) s'
        × SameBut view now k s s'
  pub llen-view :
      (now : ℕ) (k : String) (xs : List String) (s : Store)
      → view now k s ≡ entry_of xs
      → llen now k s ≡ ok (length xs)
  pub get-plain :
      (now : ℕ) (k v : String) (s : Store) → view now k s ≡ plain v → get now k s ≡ ok (some v)
  pub get-absent :
      (now : ℕ) (k : String) (s : Store) → view now k s ≡ absent → get now k s ≡ ok none
  pub set-forever :
      (now : ℕ) (k v : String) (s : Store)
      → (s' : Store) × (set now k v none s ≡ ok s')
        × Stays view now k (plain v) s'
        × SameBut view now k s s'
  pub set-expiring :
      (now n : ℕ) (k v : String) (s : Store)
      → (s' : Store) × (set now k v (some (suc n)) s ≡ ok s')
        × ((later : ℕ)
            → now ≤ later
            → view later k s' ≡ (if ltb later (now + suc n * 1000) then plain v else absent))
        × SameBut view now k s s'
  pub delete-view :
      (now : ℕ) (k : String) (s : Store)
      → (s' : Store) × (delete now k s ≡ (present (view now k s), s'))
        × Stays view now k absent s'
        × SameBut view now k s s'
  pub exists-view : (now : ℕ) (k : String) (s : Store) → exists now k s ≡ present (view now k s)
