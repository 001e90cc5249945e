-- ===== src/MarketData/Service/Cache.antt =====
-- The database as a cache in front of the provider.
use stock_trader.Prelude.{
  ℕ, ◌≡◌, ◌⊎◌, inl, inr, refl, ◌∙◌, true, false, some, List, [], ◌∷◌, ◌++◌, String, Bool-cases,
  Option-cases,
}
use mathlib.Core.List.{append_assoc}
use stock_trader.Errors.{Result, ok, err, is_ok, Result-cases}
use stock_trader.MarketData.Intervals.{Params}
use stock_trader.MarketData.Bars.{Request, Agg, OhlcvSeries, has_bars, fetch_ohlcv}
use stock_trader.MarketData.Rows.{MarketTables, get_ohlcv_data, bulk_insert_market_data}
use stock_trader.MarketData.Service.{
  Effect, acquired, fetched, World, save, fetch_and_save, fetch_missing, ensure_data,
}

module _ (Price : Type 0) (truncate : Price → ℕ) (tables : MarketTables Price truncate)
    (midnight : ℕ → ℕ)
    (list_aggs : String → Params → ℕ → ℕ → Result (List (Agg Price truncate))) where
  abbrev LocalWorld : Type 0
  LocalWorld = World Price truncate tables

  -- Whatever comes after the provider's answer adds no effect.
  save-effects :
      (r : Request) (w : LocalWorld) (answer : Result (OhlcvSeries Price truncate))
      → (save Price truncate tables midnight list_aggs r w answer).1.effects ≡ w.effects
  unfolding save
  save-effects r w (err e) = refl
  save-effects r w (ok series) = elim (Bool-cases (has_bars Price truncate series)) [
    | inr nothing ↦ rw nothing refl
    | inl some_bars ↦
        elim (Result-cases
          (bulk_insert_market_data Price truncate tables midnight series w.table)) [
            | inl (t, e) ↦ rw (some_bars, e) refl
            | inr (f, e) ↦ rw (some_bars, e) refl
          ]
  ]

  fetch_and_save-effects :
      (r : Request) (w : LocalWorld)
      → (fetch_and_save Price truncate tables midnight list_aggs r w).1.effects
        ≡ w.effects ++ fetched r ∷ []
  unfolding fetch_and_save
  fetch_and_save-effects r w = save-effects r _ (fetch_ohlcv Price truncate list_aggs r)

  -- The effects of a call with a limiter.
  abbrev pub Effects : Result (Unit {0}) → Request → List Effect → List Effect → Type 0
  Effects answer r before after =
      (after ≡ before)
      ⊎ ((after ≡ before ++ acquired ∷ []) × (is_ok answer ≡ false))
      ⊎ ((after ≡ before ++ acquired ∷ fetched r ∷ []) × (is_ok answer ≡ true))

  fetch_missing-effects :
      (answer : Result (Unit {0})) (r : Request) (w : LocalWorld)
      → Effects answer r w.effects
          (fetch_missing Price truncate tables midnight list_aggs (some answer) r w).1.effects
  unfolding fetch_missing
  fetch_missing-effects (err e) r w = inr (inl (refl, refl))
  fetch_missing-effects (ok _) r w = inr (
      inr (
        fetch_and_save-effects r (record w { effects = w.effects ++ acquired ∷ [] })
            ∙ append_assoc w.effects (acquired ∷ []) (fetched r ∷ []),
        refl,
      ))

-- The provider is asked at most once in a call, for the request of the call, and only after the
-- limiter has let the call pass: if the limiter raises, the provider is not asked.
pub ensure_data-effects :
    (Price : Type 0) (truncate : Price → ℕ) (tables : MarketTables Price truncate)
    (midnight : ℕ → ℕ) (list_aggs : String → Params → ℕ → ℕ → Result (List (Agg Price truncate)))
    (limiter : Result (Unit {0})) (r : Request) (w : World Price truncate tables)
    → Effects Price truncate tables midnight list_aggs limiter r w.effects
        (ensure_data Price truncate tables midnight list_aggs (some limiter) r w).1.effects
unfolding ensure_data
ensure_data-effects Price truncate tables midnight list_aggs limiter r w =
    elim (Result-cases (get_ohlcv_data Price truncate tables midnight r w.table)) [
      | inr (e, q) ↦ rw q (inl refl)
      | inl (found, q) ↦ elim (Option-cases found) [
        | inl nothing ↦
            rw (q, nothing)
              (fetch_missing-effects Price truncate tables midnight list_aggs limiter r w)
        | inr (s, f) ↦ elim (Bool-cases (has_bars Price truncate s)) [
          | inl full ↦ rw (q, f, full) (inl refl)
          | inr empty ↦
              rw (q, f, empty)
                (fetch_missing-effects Price truncate tables midnight list_aggs limiter r w)
        ]
      ]
    ]
