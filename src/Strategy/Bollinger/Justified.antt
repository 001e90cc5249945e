-- ===== src/Strategy/Bollinger/Justified.antt =====
-- Every trade is made at the close of a bar in the regular session, for the reason that it gives.
use mathlib.Core.List.{append_assoc}
use stock_trader.Prelude.{
  ℕ, ◌≡◌, refl, ap, subst, ◌∙◌, inl, inr, true, false, Option, none, some, List, [], ◌∷◌, ◌++◌,
  arith, drop, All, All-append, All-map, Bool-cases, Option-cases,
}
use stock_trader.Errors.{ok}
use stock_trader.Strategy.Floats.{Floats}
use stock_trader.Strategy.Trades.{Trade}
use stock_trader.Strategy.Bollinger.{
  ExitBand, BollingerParams, DataFrame, Columns, Bar, State, start, exit_level, last_in_session,
  run, BacktestResult,
}
use stock_trader.Strategy.Bollinger.Steps.{
  Steps, idle, bought, sold, Exits, flat, stuck, forced, scan_rule, force_exit-Exits, run-Ran,
  buy_at, sell_at, forced_at,
}

module _ (floats : Floats) where
  pub none_in_session :
      (bars : List (Bar floats))
      → last_in_session floats bars ≡ none
      → All (λ (c : Bar floats). c.in_session ≡ false) bars
  none_in_session [] h = tt
  none_in_session (c ∷ cs) h = elim (Option-cases (last_in_session floats cs)) [
    | inr (d, e) ↦ absurd (ground arith)
    | inl nothing ↦ elim (Bool-cases c.in_session) [
      | inl session ↦ absurd (ground arith)
      | inr outside ↦ (outside, none_in_session cs nothing)
    ]
  ]

  -- Where the last bar in session stands.
  pub last_split :
      (bars : List (Bar floats)) {b : Bar floats}
      → last_in_session floats bars ≡ some b
      → (before : List (Bar floats)) × (after : List (Bar floats)) × (bars ≡ before ++ b ∷ after)
        × (b.in_session ≡ true)
        × All (λ (c : Bar floats). c.in_session ≡ false) after
  last_split [] h = absurd (cc)
  last_split (c ∷ cs) {b = b} h = elim (Option-cases (last_in_session floats cs)) [
    | inr (d, e) ↦
        let q : d ≡ b = ground arith in
        let (before, after, split, session, outside) = last_split cs (e ∙ ap some q) in
        (c ∷ before, after, ap (λ z. c ∷ z) split, session, outside)
    | inl nothing ↦ elim (Bool-cases c.in_session) [
      | inl session ↦
          let q : c ≡ b = ground arith in
          (
            [],
            cs,
            ap (λ z. z ∷ cs) q,
            subst (λ (z : Bar floats). z.in_session ≡ true) q session,
            none_in_session cs nothing,
          )
      | inr outside ↦ absurd (ground arith)
    ]
  ]

module _ (floats : Floats) (x : ExitBand) where
  -- A trade made by the loop at one of the bars that it went through.
  pub data IsSignal (scanned : List (Bar floats)) (t : Trade floats) : Type 0 where
    entry :
        (before after : List (Bar floats)) (b : Bar floats)
        → scanned ≡ before ++ b ∷ after
        → b.in_session ≡ true
        → floats.lt b.close b.bb_lower ≡ true
        → t ≡ buy_at floats b
        → IsSignal scanned t
    exit :
        (before after : List (Bar floats)) (b : Bar floats)
        → scanned ≡ before ++ b ∷ after
        → b.in_session ≡ true
        → floats.le (exit_level floats x b) b.close ≡ true
        → t ≡ sell_at floats x b
        → IsSignal scanned t

  -- Such a trade, or the forced exit at the last bar in session.
  pub data IsJustified (n : ℕ) (bars : List (Bar floats)) (t : Trade floats) : Type 0 where
    signal : IsSignal (drop n bars) t → IsJustified n bars t
    end_exit :
        (before after : List (Bar floats)) (b : Bar floats)
        → bars ≡ before ++ b ∷ after
        → b.in_session ≡ true
        → All (λ (c : Bar floats). c.in_session ≡ false) after
        → t ≡ forced_at floats b
        → IsJustified n bars t

  IsSignal-later :
      (pre : List (Bar floats)) (c : Bar floats) (t : Trade floats)
      → IsSignal pre t
      → IsSignal (pre ++ c ∷ []) t
  IsSignal-later pre c t (entry before after b e session below q) =
      entry before (after ++ c ∷ []) b (rw e (append_assoc before (b ∷ after) (c ∷ []))) session
        below q
  IsSignal-later pre c t (exit before after b e session reached q) =
      exit before (after ++ c ∷ []) b (rw e (append_assoc before (b ∷ after) (c ∷ []))) session
        reached q

  Steps-IsSignal :
      (pre : List (Bar floats)) (b : Bar floats) (s s' : State floats)
      → Steps floats x b s s'
      → All (IsSignal pre) s.trades
      → All (IsSignal (pre ++ b ∷ [])) s'.trades
  Steps-IsSignal pre b s s' step h =
      let older : All (IsSignal (pre ++ b ∷ [])) s.trades =
        All-map (IsSignal pre) (IsSignal (pre ++ b ∷ [])) (λ t k. IsSignal-later pre b t k) s.trades
          h in
      elim step [
        | idle e ↦ rw e older
        | bought session before below e ↦ rw e (
            All-append (IsSignal (pre ++ b ∷ [])) s.trades (buy_at floats b ∷ []) older
              (entry pre [] b refl session below refl, tt))
        | sold session before reached e ↦ rw e (
            All-append (IsSignal (pre ++ b ∷ [])) s.trades (sell_at floats x b ∷ []) older
              (exit pre [] b refl session reached refl, tt))
      ]

  Exits-IsJustified :
      (n : ℕ) (bars : List (Bar floats)) (s s' : State floats)
      → Exits floats bars s s'
      → All (IsSignal (drop n bars)) s.trades
      → All (IsJustified n bars) s'.trades
  Exits-IsJustified n bars s s' way h =
      let signals : All (IsJustified n bars) s.trades =
        All-map (IsSignal (drop n bars)) (IsJustified n bars) (λ t k. signal k) s.trades h in
      elim way [
        | flat before e ↦ rw e signals
        | stuck before nothing e ↦ rw e signals
        | forced b before found e ↦
            let (pre, after, split, session, outside) = last_split floats bars found in
            rw e (
              All-append (IsJustified n bars) s.trades (forced_at floats b ∷ []) signals
                (end_exit pre after b split session outside refl, tt))
      ]

-- In the result of any run that does not raise, every trade is made at a bar of `chart_data` that is
-- in session, for the reason that it gives.
pub run-IsJustified :
    (floats : Floats) (bbands : ℕ → floats.Float → List floats.Float → Option (Columns floats))
    (local_time : ℕ → ℕ) (params : BollingerParams floats) (df : DataFrame floats)
    {r : BacktestResult floats}
    → run floats bbands local_time params df ≡ ok r
    → All (IsJustified floats params.exit_at params.length r.chart_data) r.trades
run-IsJustified floats bbands local_time params df e =
    let ran = run-Ran floats bbands local_time params df e in
    let x = params.exit_at in
    let signals =
      scan_rule floats (λ pre s. All (IsSignal floats x pre) s.trades) x (Steps-IsSignal floats x)
        [] (drop params.length ran.bars) (start floats) ran.scan_ok tt in
    rw (ran.trades_eq, ran.chart_eq)
      (Exits-IsJustified floats x params.length ran.bars ran.scanned ran.final
        (force_exit-Exits floats ran.bars ran.scanned ran.exit_ok) signals)
