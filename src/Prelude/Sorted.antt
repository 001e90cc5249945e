-- ===== src/Prelude/Sorted.antt =====
-- Ascending lists of numbers.
use stock_trader.Prelude.Tests.{ltb, if◌then◌else◌}
use stock_trader.Prelude.Lists.{All, All-append}
use Prim.Native.Nat.{ℕ, ◌≤◌}
use mathlib.Core.Path.{◌≡◌, refl}
use mathlib.Core.List.{List, [], ◌∷◌, ◌++◌}
use native.Mathlib.Omega.{arith}

-- Every element is at most each that follows it.
abbrev pub IsSorted : List ℕ → Type 0
IsSorted [] = Unit
IsSorted (x ∷ xs) = All (λ y. x ≤ y) xs × IsSorted xs

-- Insertion into an ascending list, before the first greater element.
abbrev pub insert_sorted : ℕ → List ℕ → List ℕ
insert_sorted a [] = a ∷ []
insert_sorted a (x ∷ xs) = let rest = x ∷ insert_sorted a xs in if ltb a x then a ∷ x ∷ xs else rest

pub insert_sorted-last :
    (a : ℕ) (xs : List ℕ) → All (λ x. x ≤ a) xs → insert_sorted a xs ≡ xs ++ a ∷ []
insert_sorted-last a [] h = refl
insert_sorted-last a (x ∷ xs) h = ground (arith, insert_sorted-last a xs h.1)

pub IsSorted-snoc :
    (a : ℕ) (xs : List ℕ) → IsSorted xs → All (λ x. x ≤ a) xs → IsSorted (xs ++ a ∷ [])
IsSorted-snoc a [] s h = (tt, tt)
IsSorted-snoc a (x ∷ xs) s h =
    (All-append (λ y. x ≤ y) xs (a ∷ []) s.0 (h.0, tt), IsSorted-snoc a xs s.1 h.1)
