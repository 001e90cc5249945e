-- ===== src/Strategy/Bollinger/Times.antt =====
-- The times of bars: those of the rows that they come from, and of a part of them.
use stock_trader.Prelude.Subsequence.{Sub, empty, skip, keep, Sub-IsSorted}
use stock_trader.Prelude.{
  ℕ, suc, ◌≤◌, ◌≡◌, subst, inl, inr, Bool, none, some, List, [], ◌∷◌, arith, filter, map, get_last?,
  All, Bool-cases, Option-cases,
}
use stock_trader.Prelude.Sorted.{IsSorted}
use stock_trader.Strategy.Floats.{Floats}
use stock_trader.Strategy.Bollinger.{Row, Bands, Bar, bars_from}

module _ (floats : Floats) where
  abbrev pub bar_times : List (Bar floats) → List ℕ
  bar_times bars = map (λ (b : Bar floats). b.timestamp) bars

  All-get_last? :
      (P : ℕ → Type 0) (bars : List (Bar floats)) {b : Bar floats}
      → get_last? bars ≡ some b
      → All P (bar_times bars)
      → P b.timestamp
  All-get_last? P [] e h = absurd (cc)
  All-get_last? P (c ∷ cs) {b = b} e h = elim (Option-cases (get_last? cs)) [
    | inl nothing ↦ let q : c ≡ b = ground arith in subst (λ (z : Bar floats). P z.timestamp) q h.0
    | inr (d, found) ↦
        let q : d ≡ b = ground arith in
        All-get_last? P cs (subst (λ z. get_last? cs ≡ some z) q found) h.1
  ]

  All-no_last :
      (P : ℕ → Type 0) (bars : List (Bar floats)) → get_last? bars ≡ none → All P (bar_times bars)
  All-no_last P [] e = tt
  All-no_last P (c ∷ cs) e = elim (Option-cases (get_last? cs)) [
    | inl missing ↦ absurd (ground arith)
    | inr (d, found) ↦ absurd (ground arith)
  ]

  pub last_latest :
      (bars : List (Bar floats)) {b : Bar floats}
      → get_last? bars ≡ some b
      → IsSorted (bar_times bars)
      → All (λ t. t ≤ b.timestamp) (bar_times bars)
  last_latest [] e h = tt
  last_latest (c ∷ cs) {b = b} e h = (
    All-get_last? (λ t. c.timestamp ≤ t) (c ∷ cs) e (omega arith, h.0),
    elim (Option-cases (get_last? cs)) [
      | inl missing ↦ All-no_last (λ t. t ≤ b.timestamp) cs missing
      | inr (d, found) ↦
          let q : d ≡ b = ground arith in
          last_latest cs (subst (λ z. get_last? cs ≡ some z) q found) h.1
    ],
  )

  filter-Sub :
      (p : Bar floats → Bool) (bars : List (Bar floats))
      → Sub (bar_times (filter p bars)) (bar_times bars)
  filter-Sub p [] = empty
  filter-Sub p (b ∷ bars) = elim (Bool-cases (p b)) [
    | inl kept ↦ rw kept (keep (filter-Sub p bars))
    | inr left_out ↦ rw left_out (skip (filter-Sub p bars))
  ]

  pub filter-IsSorted :
      (p : Bar floats → Bool) (bars : List (Bar floats))
      → IsSorted (bar_times bars)
      → IsSorted (bar_times (filter p bars))
  filter-IsSorted p bars = Sub-IsSorted (filter-Sub p bars)

  All-bars_from :
      (P : ℕ → Type 0) (bands : Bands floats) (i : ℕ) (rows : List (Row floats)) (mask : List Bool)
      → All P (map (λ (z : Row floats). z.timestamp) rows)
      → All P (bar_times (bars_from floats bands i rows mask))
  unfolding bars_from
  All-bars_from P bands i [] mask h = tt
  All-bars_from P bands i (r ∷ rs) [] h = tt
  All-bars_from P bands i (r ∷ rs) (m ∷ ms) h = (h.0, All-bars_from P bands (suc i) rs ms h.1)

  pub bars_from-IsSorted :
      (bands : Bands floats) (i : ℕ) (rows : List (Row floats)) (mask : List Bool)
      → IsSorted (map (λ (z : Row floats). z.timestamp) rows)
      → IsSorted (bar_times (bars_from floats bands i rows mask))
  unfolding bars_from
  bars_from-IsSorted bands i [] mask h = tt
  bars_from-IsSorted bands i (r ∷ rs) [] h = tt
  bars_from-IsSorted bands i (r ∷ rs) (m ∷ ms) h = (
    All-bars_from (λ t. r.timestamp ≤ t) bands (suc i) rs ms h.0,
    bars_from-IsSorted bands (suc i) rs ms h.1,
  )
