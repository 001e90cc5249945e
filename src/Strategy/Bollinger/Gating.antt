-- ===== src/Strategy/Bollinger/Gating.antt =====
-- What the loop does not look at: bars outside the session, and bars to come.
use mathlib.Core.List.{append-nil, append_assoc}
use mathlib.Core.Path.{fun_ext}
use stock_trader.Prelude.{
  ℕ, ◌≡◌, refl, sym, ap, subst, inl, inr, Bool, true, false, List, [], ◌∷◌, ◌++◌, filter, Option,
  none, some, take, drop, take-append-drop, All, All-right, Bool-cases,
}
use stock_trader.Errors.{ok, ◌>>=◌, Result-cases}
use stock_trader.Strategy.Floats.{Floats}
use stock_trader.Strategy.Trades.{
  SignalType, buy, sell, Reason, below_lower, at_exit_band, end_of_data, Trade, make_trade,
}
use stock_trader.Strategy.Bollinger.{
  ExitBand, Bar, State, exit_level, start, emit, step, scan, close_at, force_exit, last_in_session,
}
use stock_trader.Strategy.Bollinger.Justified.{last_split}
use stock_trader.Strategy.Bollinger.Steps.{idle, bought, sold, scan_rule, buy_at, sell_at}

step_outside :
    (floats : Floats) (x : ExitBand) (b : Bar floats) (s : State floats)
    → b.in_session ≡ false
    → step floats x b s ≡ ok s
unfolding step
step_outside floats x b s h = simp h refl

-- The loop gives the same result, error or not, on the bars of the regular session alone: bars outside
-- it neither trade nor change what later bars do.
pub scan-filter_session :
    (floats : Floats) (x : ExitBand) (bars : List (Bar floats)) (s : State floats)
    → scan floats x bars s ≡ scan floats x (filter (λ (b : Bar floats). b.in_session) bars) s
unfolding scan
scan-filter_session floats x [] s = refl
scan-filter_session floats x (b ∷ bs) s = elim (Bool-cases b.in_session) [
  | inr outside ↦
      simp (outside, step_outside floats x b s outside) (scan-filter_session floats x bs s)
  | inl session ↦
      simp session
        (ap (λ k. step floats x b s >>= k) (fun_ext (λ s'. scan-filter_session floats x bs s')))
]

scan-append :
    (floats : Floats) (x : ExitBand) (xs ys : List (Bar floats)) (s : State floats)
    → scan floats x (xs ++ ys) s ≡ (scan floats x xs s >>= λ s'. scan floats x ys s')
unfolding scan
scan-append floats x [] ys s = refl
scan-append floats x (b ∷ bs) ys s = elim (Result-cases (step floats x b s)) [
  | inl (s', e) ↦ rw e (scan-append floats x bs ys s')
  | inr (f, e) ↦ rw e refl
]

-- The loop only appends.
scan-extends :
    (floats : Floats) (x : ExitBand) (bars : List (Bar floats)) (s : State floats)
    {s' : State floats}
    → scan floats x bars s ≡ ok s'
    → (more : List (Trade floats)) × (s'.trades ≡ s.trades ++ more)
scan-extends floats x bars s e =
    scan_rule floats (λ _ t. (more : List (Trade floats)) × (t.trades ≡ s.trades ++ more)) x
      (λ pre b t t' way (more, h). elim way [
        | idle q ↦ (more, rw q h)
        | bought session before below q ↦ (
          more ++ buy_at floats b ∷ [],
          rw q (rw h (append_assoc s.trades more (buy_at floats b ∷ []))),
        )
        | sold session before reached q ↦ (
          more ++ sell_at floats x b ∷ [],
          rw q (rw h (append_assoc s.trades more (sell_at floats x b ∷ []))),
        )
      ])
      [] bars s e ([], sym (append-nil s.trades))

module _ (floats : Floats) where
  abbrev pub HasPositiveClose : Bar floats → Type 0
  HasPositiveClose b = floats.lt (floats.from_nat 0) b.close ≡ true

  emit_succeeds :
      (p : Bool) (signal : SignalType) (reason : Reason floats) (b : Bar floats) (s : State floats)
      → HasPositiveClose b
      → (s' : State floats) × (emit floats p signal reason b s ≡ ok s')
  unfolding emit make_trade
  emit_succeeds p signal reason b s h = (
    record {
      in_position = p;
      trades =
          s.trades
          ++ record { timestamp = b.timestamp; signal = signal; price = b.close; reason = reason }
            ∷ [];
    },
    rw h refl,
  )

  step_succeeds :
      (x : ExitBand) (b : Bar floats) (s : State floats)
      → HasPositiveClose b
      → (s' : State floats) × (step floats x b s ≡ ok s')
  unfolding step
  step_succeeds x b s h = elim (Bool-cases b.in_session) [
    | inr outside ↦ (s, simp outside refl)
    | inl session ↦ elim (Bool-cases s.in_position) [
      | inr flat ↦ elim (Bool-cases (floats.lt b.close b.bb_lower)) [
        | inl below ↦
            let (s', e) = emit_succeeds true buy (below_lower b.close b.bb_lower) b s h in
            (s', simp (session, flat, below) e)
        | inr above ↦ (s, simp (session, flat, above) refl)
      ]
      | inl long ↦ elim (Bool-cases (floats.le (exit_level floats x b) b.close)) [
        | inl reached ↦
            let (s', e) =
              emit_succeeds false sell (at_exit_band b.close (exit_level floats x b)) b s h in
            (s', simp (session, long, reached) e)
        | inr short ↦ (s, simp (session, long, short) refl)
      ]
    ]
  ]

  scan_succeeds :
      (x : ExitBand) (bars : List (Bar floats)) (s : State floats)
      → All HasPositiveClose bars
      → (s' : State floats) × (scan floats x bars s ≡ ok s')
  unfolding scan
  scan_succeeds x [] s h = (s, refl)
  scan_succeeds x (b ∷ bs) s h =
      let (s₁, e) = step_succeeds x b s h.0 in
      let (s', e') = scan_succeeds x bs s₁ h.1 in (s', rw e e')

  close_at_succeeds :
      (last : Option (Bar floats)) (s : State floats)
      → ((b : Bar floats) → last ≡ some b → HasPositiveClose b)
      → (s' : State floats) × (close_at floats last s ≡ ok s')
  close_at_succeeds none s h = (s, refl)
  close_at_succeeds (some b) s h = emit_succeeds s.in_position sell end_of_data b s (h b refl)

  last_HasPositiveClose :
      (bars : List (Bar floats)) {b : Bar floats}
      → All HasPositiveClose bars
      → last_in_session floats bars ≡ some b
      → HasPositiveClose b
  last_HasPositiveClose bars h e =
      let (before, after, split, _, _) = last_split floats bars e in
      (All-right HasPositiveClose before _ (subst (All HasPositiveClose) split h)).0

-- If every close is positive, the loop and the forced exit make their trades without raising.
pub signals_succeed :
    (floats : Floats) (x : ExitBand) (n : ℕ) (bars : List (Bar floats))
    → All (HasPositiveClose floats) bars
    → (scanned : State floats) × (final : State floats) × (scan floats x
          (drop n bars)
          (start floats)
        ≡ ok scanned)
      × (force_exit floats bars scanned ≡ ok final)
unfolding force_exit
signals_succeed floats x n bars h =
    let (scanned, e) = scan_succeeds floats x (drop n bars) (start floats) (
      All-right (HasPositiveClose floats) (take n bars) (drop n bars)
        (subst (All (HasPositiveClose floats)) (sym (take-append-drop n bars)) h)) in
    let (closed, e') =
      close_at_succeeds floats (last_in_session floats bars) scanned
        (λ b q. last_HasPositiveClose floats bars h q) in
    elim (Bool-cases scanned.in_position) [
      | inl long ↦ (scanned, closed, e, simp long e')
      | inr flat ↦ (scanned, scanned, e, simp flat refl)
    ]
