-- ===== src/Examples/Naturals.antt =====
-- Natural numbers in place of floats.
use stock_trader.Prelude.{
  ℕ, ◌+◌, ◌-◌, ◌*◌, ◌/◌, ◌≤◌, ◌<◌, ◌≡◌, refl, true, false, ltb, leb, arith, ltb→lt, leb→le, le→leb,
}
use native.Mathlib.Nat.{div-lt_iff_lt-mul}
use stock_trader.Strategy.Floats.{Floats, FloatLaws}

abbrev pub naturals : Floats
naturals = record {
  Float = ℕ;
  lt = ltb;
  le = leb;
  add = λ a b. a + b;
  sub = λ a b. a - b;
  mul = λ a b. a * b;
  div = λ a b. a / b;
  from_nat = λ n. n;
  round2 = λ a. a;
}

leb-ltb : (a b c : ℕ) → leb a b ≡ true → ltb b c ≡ true → leb a c ≡ true
leb-ltb a b c h k = let p = leb→le a b h in let q = ltb→lt b c k in le→leb a c (omega arith)

quotient_le_one : (w n : ℕ) → w ≤ n → 0 < n → w / n ≤ 1
quotient_le_one w n le pos_n =
    let below = (div-lt_iff_lt-mul {k = n} {x = w} {y = 2} pos_n).1 (omega arith) in omega arith

hundred_le : (a : ℕ) → leb a 1 ≡ true → leb (a * 100) 100 ≡ true
hundred_le a h = let p = leb→le a 1 h in le→leb (a * 100) 100 (omega arith)

ltb_trans : (a b c : ℕ) → ltb a b ≡ true → ltb b c ≡ true → ltb a c ≡ true
ltb_trans a b c h k = ground arith

ltb_excludes_leb : (a b : ℕ) → ltb a b ≡ true → leb b a ≡ false
ltb_excludes_leb a b h = ground arith

pub naturals-FloatLaws : FloatLaws naturals
naturals-FloatLaws = record {
  le-lt = leb-ltb;
  lt_trans = λ a b c h k. ltb_trans a b c h k;
  lt_excludes_le = λ a b h. ltb_excludes_leb a b h;
  le_refl_nat = λ n. le→leb n n (omega arith);
  div_nat_nonneg = λ w n le pos_n. le→leb 0 (w / n) (omega arith);
  div_nat_le_one = λ w n le pos_n. le→leb (w / n) 1 (quotient_le_one w n le pos_n);
  mul_hundred_nonneg = λ a h. le→leb 0 (a * 100) (omega arith);
  mul_hundred_le = hundred_le;
  round2_mono = λ a b h. h;
  round2_nat = λ n. refl;
}
