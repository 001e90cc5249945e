-- ===== src/Strategy/Bollinger/Alternation.antt =====
-- Only one position at a time: buys and sells alternate, and no position is left open.
use stock_trader.Prelude.{
  ℕ, ◌≡◌, refl, subst, ◌∙◌, inl, inr, Bool, true, false, Option, some, List, [], ◌∷◌, ◌++◌, not,
  take, drop, take-append-drop, get_last?-filter_left, get_last?-filter_right, Option-cases,
  if◌then◌else◌,
}
use stock_trader.Errors.{ok}
use stock_trader.Strategy.Floats.{Floats}
use stock_trader.Strategy.Trades.{buy, sell, Trade}
use stock_trader.Strategy.Bollinger.{
  ExitBand, BollingerParams, DataFrame, Columns, Bar, State, start, last_in_session, run,
  BacktestResult,
}
use stock_trader.Strategy.Bollinger.Steps.{
  Steps, idle, bought, sold, Exits, flat, stuck, forced, scan_rule, force_exit-Exits, run-Ran,
  buy_at, sell_at, forced_at,
}

-- The trades take a strategy that starts with `open_before` a position to one that ends with
-- `open_after` one: each buy opens a position where there is none, each sell closes one.
abbrev pub Alternates : (floats : Floats) → Bool → List (Trade floats) → Bool → Type 0
Alternates floats open_before [] open_after = open_before ≡ open_after
Alternates floats open_before (t ∷ ts) open_after =
    (t.signal ≡ (if open_before then sell else buy))
    × Alternates floats (not open_before) ts open_after

module _ (floats : Floats) where
  Alternates-snoc :
      (p q : Bool) (ts : List (Trade floats)) (t : Trade floats)
      → Alternates floats p ts q
      → t.signal ≡ (if q then sell else buy)
      → Alternates floats p (ts ++ t ∷ []) (not q)
  Alternates-snoc p q [] t h e = (rw h e, rw h refl)
  Alternates-snoc p q (u ∷ us) t h e = (h.0, Alternates-snoc (not p) q us t h.1 e)

  -- The trades alternate, and an open position was opened on one of the bars.
  record Held (bars : List (Bar floats)) (s : State floats) : Type 0 where
    alternates : Alternates floats false s.trades s.in_position
    opened : s.in_position ≡ true → (b : Bar floats) × (last_in_session floats bars ≡ some b)

  session_last :
      (pre : List (Bar floats)) (b : Bar floats)
      → b.in_session ≡ true
      → last_in_session floats (pre ++ b ∷ []) ≡ some b
  session_last pre b session =
      get_last?-filter_right (λ (z : Bar floats). z.in_session) pre (b ∷ []) (rw session)

  session_grows :
      (pre : List (Bar floats)) (b a : Bar floats)
      → last_in_session floats pre ≡ some a
      → (c : Bar floats) × (last_in_session floats (pre ++ b ∷ []) ≡ some c)
  session_grows pre b a h = elim (Option-cases (last_in_session floats (b ∷ []))) [
    | inl nothing ↦
        (a, get_last?-filter_left (λ (z : Bar floats). z.in_session) pre (b ∷ []) nothing ∙ h)
    | inr (c, e) ↦ (c, get_last?-filter_right (λ (z : Bar floats). z.in_session) pre (b ∷ []) e)
  ]

  Steps-Held :
      (x : ExitBand) (pre : List (Bar floats)) (b : Bar floats) (s s' : State floats)
      → Steps floats x b s s'
      → Held pre s
      → Held (pre ++ b ∷ []) s'
  Steps-Held x pre b s s' (idle e) h = rw e (record {
    alternates = h.alternates;
    opened = λ p. let (a, q) = h.opened p in session_grows pre b a q;
  })
  Steps-Held x pre b s s' (bought session before below e) h = rw e (record {
    alternates =
        Alternates-snoc false false s.trades (buy_at floats b)
          (subst (Alternates floats false s.trades) before h.alternates) refl;
    opened = λ _. (b, session_last pre b session);
  })
  Steps-Held x pre b s s' (sold session before reached e) h = rw e (record {
    alternates =
        Alternates-snoc false true s.trades (sell_at floats x b)
          (subst (Alternates floats false s.trades) before h.alternates) refl;
    opened = λ p. cc;
  })

  Exits-Alternates :
      (bars : List (Bar floats)) (s s' : State floats)
      → Exits floats bars s s'
      → Held bars s
      → Alternates floats false s'.trades false
  Exits-Alternates bars s s' (flat before e) h =
      rw e (subst (Alternates floats false s.trades) before h.alternates)
  Exits-Alternates bars s s' (stuck before nothing e) h =
      let (b, found) = h.opened before in absurd (cc)
  Exits-Alternates bars s s' (forced b before found e) h = rw e (
      Alternates-snoc false true s.trades (forced_at floats b)
        (subst (Alternates floats false s.trades) before h.alternates) refl)

  -- The bars from `n` on have a last one in session only if all of them do.
  drop-Held :
      (n : ℕ) (bars : List (Bar floats)) (s : State floats) → Held (drop n bars) s → Held bars s
  drop-Held n bars s h = record {
    alternates = h.alternates;
    opened = λ p.
        let (b, e) = h.opened p in
        (
          b,
          subst (λ z. last_in_session floats z ≡ some b) (take-append-drop n bars)
              (get_last?-filter_right (λ (z : Bar floats). z.in_session) (take n bars) (drop n bars)
                e),
        );
  }

-- In the result of any run that does not raise, buys and sells alternate, starting with a buy and
-- ending with a sell: there is at most one position at a time, and none is left open.
pub run-Alternates :
    (floats : Floats) (bbands : ℕ → floats.Float → List floats.Float → Option (Columns floats))
    (local_time : ℕ → ℕ) (params : BollingerParams floats) (df : DataFrame floats)
    {r : BacktestResult floats}
    → run floats bbands local_time params df ≡ ok r
    → Alternates floats false r.trades false
run-Alternates floats bbands local_time params df e =
    let ran = run-Ran floats bbands local_time params df e in
    let held =
      scan_rule floats (Held floats) params.exit_at (Steps-Held floats params.exit_at) []
        (drop params.length ran.bars) (start floats) ran.scan_ok
        (record { alternates = refl; opened = λ p. cc }) in
    rw ran.trades_eq (
      Exits-Alternates floats ran.bars ran.scanned ran.final
        (force_exit-Exits floats ran.bars ran.scanned ran.exit_ok)
        (drop-Held floats params.length ran.bars ran.scanned held))
