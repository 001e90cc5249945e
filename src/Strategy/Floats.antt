-- ===== src/Strategy/Floats.antt =====
-- Python's `float`, as far as the strategies use it. Its arithmetic is a parameter of the model:
-- the comparisons answer false where an operand is NaN, as IEEE 754 has it.
use stock_trader.Prelude.{ℕ, ◌≤◌, ◌<◌, ◌≡◌, Bool, true, false}

pub record Floats : Type 1 where
  pub Float : Type 0
  -- `a < b` and `a <= b`; `a > b` and `a >= b` are the same with the operands exchanged
  pub lt : Float → Float → Bool
  pub le : Float → Float → Bool
  pub add : Float → Float → Float
  pub sub : Float → Float → Float
  pub mul : Float → Float → Float
  pub div : Float → Float → Float
  -- an `int`, and a literal such as `0.0`, as a float
  pub from_nat : ℕ → Float
  -- `round(x, 2)`
  pub round2 : Float → Float

-- What the metrics rely on of IEEE 754 and of `round`. None of it excludes infinities or NaN:
-- where an operand is NaN, a premise is false.
module _ (floats : Floats) where
  open floats use {Float, lt, le, mul, div, from_nat, round2}

  pub record FloatLaws : Type 0 where
    pub le-lt : (a b c : Float) → le a b ≡ true → lt b c ≡ true → le a c ≡ true
    pub lt_trans : (a b c : Float) → lt a b ≡ true → lt b c ≡ true → lt a c ≡ true
    pub lt_excludes_le : (a b : Float) → lt a b ≡ true → le b a ≡ false
    pub le_refl_nat : (n : ℕ) → le (from_nat n) (from_nat n) ≡ true
    -- a quotient of counts lies in the unit interval
    pub div_nat_nonneg :
        (w n : ℕ) → w ≤ n → 0 < n → le (from_nat 0) (div (from_nat w) (from_nat n)) ≡ true
    pub div_nat_le_one :
        (w n : ℕ) → w ≤ n → 0 < n → le (div (from_nat w) (from_nat n)) (from_nat 1) ≡ true
    -- multiplication by 100 keeps order and sign
    pub mul_hundred_nonneg :
        (a : Float) → le (from_nat 0) a ≡ true → le (from_nat 0) (mul a (from_nat 100)) ≡ true
    pub mul_hundred_le :
        (a : Float) → le a (from_nat 1) ≡ true → le (mul a (from_nat 100)) (from_nat 100) ≡ true
    -- rounding to two digits is monotone, and keeps what has none
    pub round2_mono : (a b : Float) → le a b ≡ true → le (round2 a) (round2 b) ≡ true
    pub round2_nat : (n : ℕ) → round2 (from_nat n) ≡ from_nat n
