-- ===== src/RateLimit/Script/Eviction.antt =====
-- What `ZREMRANGEBYSCORE` leaves of ascending scores.
use stock_trader.Prelude.{
  ℕ, ◌+◌, ◌≤◌, ◌≡◌, refl, sym, ap, inl, inr, Bool, List, [], ◌∷◌, ◌++◌, arith, true, not, filter,
  filter-All, All, ltb, Bool-cases,
}
use stock_trader.Prelude.Int.{pos, sub_ℕ}
use stock_trader.Prelude.Sorted.{IsSorted}
use stock_trader.RateLimit.Spacing.{HaveLeft}
use stock_trader.RateLimit.SortedSet.{in_range}

-- Eviction of ascending scores.
module _ (window now : ℕ) where
  abbrev pub keeps : ℕ → Bool
  keeps s = ltb now (s + window)

  pub not-in_range : (s : ℕ) → not (in_range (pos 0) (sub_ℕ now window) s) ≡ keeps s
  not-in_range s = ground arith

  pub All-kept :
      (x : ℕ) (xs : List ℕ) → keeps x ≡ true → All (λ y. x ≤ y) xs → All (λ y. keeps y ≡ true) xs
  All-kept x [] k h = tt
  All-kept x (y ∷ ys) k h = (ground arith, All-kept x ys k h.1)

  pub filter-split :
      (xs : List ℕ)
      → IsSorted xs
      → (gone : List ℕ) × (xs ≡ gone ++ filter keeps xs) × HaveLeft window now gone
  filter-split [] s = ([], refl, tt)
  filter-split (x ∷ xs) s = elim (Bool-cases (keeps x)) [
    | inl live ↦
        ([], rw live (ap (λ z. x ∷ z) (sym (filter-All keeps xs (All-kept x xs live s.0)))), tt)
    | inr out ↦
        let (gone, e, h) = filter-split xs s.1 in
        (x ∷ gone, rw out (ap (λ z. x ∷ z) e), (ground arith, h))
  ]
