-- ===== src/RateLimit/SortedSet.antt =====
-- The part of Redis that the limiter's script uses: one key that holds a sorted set, and its
-- expiry. Redis is not part of the repository, so this is a parameter of the limiter's model; the
-- laws are what the documentation of the commands says.
use stock_trader.Prelude.{
  ℕ, ◌≤◌, ◌≡◌, ◌↔◌, Bool, true, false, not, ◌&&◌, ◌||◌, Option, none, some, List, [], ◌∷◌, String,
  str_eq, length, filter,
}
use stock_trader.Prelude.Int.{ℤ, pos, leb_ℤ}
use stock_trader.Prelude.Sorted.{IsSorted, insert_sorted}

abbrev pub head? : List ℕ → Option ℕ
head? [] = none
head? (x ∷ xs) = some x

abbrev pub in_range : ℤ → ℤ → ℕ → Bool
in_range lo hi s = leb_ℤ lo (pos s) && leb_ℤ (pos s) hi

pub record SortedSets : Type 1 where
  pub ZSet : Type 0
  -- the commands
  pub empty : ZSet
  pub zremrangebyscore : ℤ → ℤ → ZSet → ZSet
  pub zcard : ZSet → ℕ
  pub zadd : ℕ → String → ZSet → ZSet
  -- the score in the reply of `ZRANGE key 0 0 WITHSCORES`
  pub zrange_first : ZSet → Option ℕ
  -- whether a key with this deadline is gone at this time
  pub expired : ℕ → ℕ → Bool
  -- what the commands are about: the scores in ascending order, and the members
  pub scores : ZSet → List ℕ
  pub has : String → ZSet → Bool
  pub scores-IsSorted : (z : ZSet) → IsSorted (scores z)
  pub scores-empty : scores empty ≡ []
  pub has-empty : (m : String) → has m empty ≡ false
  pub scores-zremrangebyscore :
      (lo hi : ℤ) (z : ZSet)
      → scores (zremrangebyscore lo hi z) ≡ filter (λ s. not (in_range lo hi s)) (scores z)
  pub has-zremrangebyscore :
      (lo hi : ℤ) (m : String) (z : ZSet)
      → has m z ≡ false
      → has m (zremrangebyscore lo hi z) ≡ false
  pub zcard-length : (z : ZSet) → zcard z ≡ length (scores z)
  -- a member that is not there is added; `ZADD` of one that is there would only move it
  pub scores-zadd :
      (s : ℕ) (m : String) (z : ZSet)
      → has m z ≡ false
      → scores (zadd s m z) ≡ insert_sorted s (scores z)
  pub has-zadd : (s : ℕ) (k m : String) (z : ZSet) → has m (zadd s k z) ≡ (str_eq k m || has m z)
  pub zrange_first-head : (z : ZSet) → zrange_first z ≡ head? (scores z)
  pub expired_iff : (deadline now : ℕ) → (expired deadline now ≡ true) ↔ (deadline ≤ now)
