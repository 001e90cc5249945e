-- ===== src/Prelude/Slices.antt =====
-- Pages of a list: `drop` and `take`.
use stock_trader.Prelude.Lists.{length, take, drop, All}
use Prim.Native.Nat.{ℕ, zero, suc, ◌+◌, ◌≤◌, ◌<◌}
use mathlib.Core.Path.{◌≡◌, refl, ap}
use mathlib.Core.List.{List, [], ◌∷◌, ◌++◌}
use native.Mathlib.Omega.{arith}
use native.Mathlib.Numerals.{unary_clauses}

module _ {A : Type 0} where
  pub take_add : (m n : ℕ) (xs : List A) → take (m + n) xs ≡ take m xs ++ take n (drop m xs)
  take_add zero n xs = ap (λ z. take z xs) (omega arith)
  take_add (suc m) zero [] = simp unary_clauses refl
  take_add (suc m) (suc n) [] = simp unary_clauses refl
  take_add (suc m) n (x ∷ xs) =
      let e : suc m + n ≡ suc (m + n) = omega arith in rw e (ap (λ z. x ∷ z) (take_add m n xs))

  pub drop-drop : (o m : ℕ) (xs : List A) → drop (o + m) xs ≡ drop m (drop o xs)
  drop-drop zero m xs = ap (λ z. drop z xs) (omega arith)
  drop-drop (suc o) zero [] = simp unary_clauses refl
  drop-drop (suc o) (suc m) [] = simp unary_clauses refl
  drop-drop (suc o) m (x ∷ xs) =
      let e : suc o + m ≡ suc (o + m) = omega arith in rw e (drop-drop o m xs)

  pub length-take : (m : ℕ) (xs : List A) → length (take m xs) ≤ m
  length-take zero xs = omega arith
  length-take (suc m) [] = omega arith
  length-take (suc m) (x ∷ xs) = omega (arith, length-take m xs)

  pub take-drop_short : (m n : ℕ) (xs : List A) → length (take m xs) < m → take n (drop m xs) ≡ []
  take-drop_short zero n xs h = absurd (omega arith)
  take-drop_short (suc m) zero [] h = refl
  take-drop_short (suc m) (suc n) [] h = refl
  take-drop_short (suc m) n (x ∷ xs) h = take-drop_short m n xs (omega arith)

  pub All-take : (P : A → Type 0) (m : ℕ) (xs : List A) → All P xs → All P (take m xs)
  All-take P zero xs h = tt
  All-take P (suc m) [] h = tt
  All-take P (suc m) (x ∷ xs) h = (h.0, All-take P m xs h.1)

  pub All-drop : (P : A → Type 0) (m : ℕ) (xs : List A) → All P xs → All P (drop m xs)
  All-drop P zero xs h = h
  All-drop P (suc m) [] h = tt
  All-drop P (suc m) (x ∷ xs) h = All-drop P m xs h.1
