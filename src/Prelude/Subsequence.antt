-- ===== src/Prelude/Subsequence.antt =====
-- Subsequences of lists of numbers.
use stock_trader.Prelude.Lists.{All}
use stock_trader.Prelude.Sorted.{IsSorted}
use Prim.Native.Nat.{ℕ, ◌≤◌}
use mathlib.Core.List.{List, [], ◌∷◌, ◌++◌}

-- Some of the elements, in their order.
pub data Sub : List ℕ → List ℕ → Type 0 where
  empty : Sub [] []
  skip : {x : ℕ} {xs ys : List ℕ} → Sub xs ys → Sub xs (x ∷ ys)
  keep : {x : ℕ} {xs ys : List ℕ} → Sub xs ys → Sub (x ∷ xs) (x ∷ ys)

pub Sub-All : (P : ℕ → Type 0) {xs ys : List ℕ} → Sub xs ys → All P ys → All P xs
Sub-All P empty h = tt
Sub-All P (skip s) (_, h) = Sub-All P s h
Sub-All P (keep s) (p, h) = (p, Sub-All P s h)

pub Sub-IsSorted : {xs ys : List ℕ} → Sub xs ys → IsSorted ys → IsSorted xs
Sub-IsSorted empty h = tt
Sub-IsSorted (skip s) (_, h) = Sub-IsSorted s h
Sub-IsSorted (keep s) (p, h) = (Sub-All (λ y. _ ≤ y) s p, Sub-IsSorted s h)

pub Sub-skip_last : {xs ys : List ℕ} (y : ℕ) → Sub xs ys → Sub xs (ys ++ y ∷ [])
Sub-skip_last y empty = skip empty
Sub-skip_last y (skip s) = skip (Sub-skip_last y s)
Sub-skip_last y (keep s) = keep (Sub-skip_last y s)

pub Sub-keep_last : {xs ys : List ℕ} (y : ℕ) → Sub xs ys → Sub (xs ++ y ∷ []) (ys ++ y ∷ [])
Sub-keep_last y empty = keep empty
Sub-keep_last y (skip s) = skip (Sub-keep_last y s)
Sub-keep_last y (keep s) = keep (Sub-keep_last y s)
