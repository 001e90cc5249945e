-- ===== src/MarketData/Service/NoData.antt =====
-- When the task of one symbol gives an empty series.
use stock_trader.Prelude.{
  ℕ, suc, ◌≡◌, ◌↔◌, inl, inr, refl, sym, ap, ◌∙◌, true, false, Option, none, some, List, [], ◌∷◌,
  String, str_eq, length, ltb, arith, Bool-cases,
}
use stock_trader.Errors.{
  Exception, Result, ok, err, provider_error, value_error, no_data_error, is_instance, is_ok,
  Result-cases,
}
use stock_trader.MarketData.Intervals.{Params}
use stock_trader.MarketData.Bars.{
  Request, Ohlcv, Agg, OhlcvSeries, has_bars, fetch_ohlcv, fetch_ohlcv_lem,
}
use stock_trader.MarketData.Rows.{
  Row, MarketTables, from_records, none_or_series, get_ohlcv_data, bulk_insert_market_data,
}
use stock_trader.MarketData.Service.{
  World, save, fetch_and_save, fetch_missing, ensure_data, no_data_is_empty,
  ensure_market_data_for_symbol,
}

module _ (Price : Type 0) (truncate : Price → ℕ) (tables : MarketTables Price truncate)
    (midnight : ℕ → ℕ) (list_aggs : String → Params → ℕ → ℕ → Result (List (Agg Price truncate)))
    (r : Request) where
  abbrev LocalWorld : Type 0
  LocalWorld = World Price truncate tables

  abbrev Series : Type 0
  Series = OhlcvSeries Price truncate

  -- A series without bars.
  abbrev pub GivesEmpty : Result Series → Type 0
  GivesEmpty answer = (s : Series) × (answer ≡ ok s) × (s.bars ≡ [])

  abbrev handled : Result Series → Result Series
  handled answer = no_data_is_empty Price truncate tables midnight list_aggs r answer

  other_error :
      (e : Exception) → is_instance e no_data_error ≡ false → ¬ GivesEmpty (handled (err e))
  other_error e other h = let k = rw other at (h.1) in cc

  has_bars-nil : (s : Series) → s.bars ≡ [] → has_bars Price truncate s ≡ false
  unfolding has_bars
  has_bars-nil s e = rw e refl

  nil-has_bars : (s : Series) → has_bars Price truncate s ≡ false → s.bars ≡ []
  unfolding has_bars
  nil-has_bars s h = go s.bars h
    where
      go : (bars : List (Ohlcv Price truncate)) → ltb 0 (length bars) ≡ false → bars ≡ []
      go [] k = refl
      go (b ∷ bs) k = absurd (ground arith)

  full_series : (s : Series) → has_bars Price truncate s ≡ true → ¬ GivesEmpty (ok s)
  full_series s full (t, e, nothing) =
      let same : s ≡ t = cc in
      let k = has_bars-nil s (ap (λ (z : Series). z.bars) same ∙ nothing) in cc

  save-GivesEmpty :
      (w : LocalWorld) (answer : Result Series)
      → ((e : Exception) → answer ≡ err e → is_instance e no_data_error ≡ false)
      → ((rows : List (Row Price truncate)) (t : tables.Table) (e : Exception)
          → tables.insert_ignoring rows t ≡ err e
          → is_instance e no_data_error ≡ false)
      → GivesEmpty (handled (save Price truncate tables midnight list_aggs r w answer).0)
        ↔ GivesEmpty answer
  unfolding save bulk_insert_market_data
  save-GivesEmpty w (err e) provider insert =
      ((λ h. absurd (other_error e (provider e refl) h)), (λ h. absurd (let k = h.1 in cc)))
  save-GivesEmpty w (ok s) provider insert = elim (Bool-cases (has_bars Price truncate s)) [
    | inr nothing ↦ rw nothing (
      (λ h. (s, refl, nil-has_bars s nothing)),
      (λ h. (record { symbol = r.symbol; interval = r.interval; bars = [] }, refl, refl)),
    )
    | inl full ↦
        elim (Result-cases (bulk_insert_market_data Price truncate tables midnight s w.table)) [
          | inr (e, q) ↦
              rw (full, q)
                (
                  (λ h. absurd (other_error e (insert _ _ e q) h)),
                  (λ h. absurd (full_series s full h)),
                )
          | inl (t, q) ↦
              rw (full, q)
                ((λ h. absurd (full_series s full h)), (λ h. absurd (full_series s full h)))
        ]
  ]

  fetch_ohlcv-other :
      (e : Exception)
      → fetch_ohlcv Price truncate list_aggs r ≡ err e
      → is_instance e no_data_error ≡ false
  fetch_ohlcv-other e h =
      let (params, _, shape) = fetch_ohlcv_lem Price truncate list_aggs r in
      elim (Result-cases (list_aggs r.symbol params r.start_date r.end_date)) [
        | inl (aggs, q) ↦ absurd (let k = sym (rw q at shape) ∙ h in cc)
        | inr (f, q) ↦
            let k = sym (rw q at shape) ∙ h in
            let same : provider_error ≡ e.class_of = cc in rw (sym same) refl
      ]

  lookup_other :
      (t : tables.Table) (e : Exception)
      → get_ohlcv_data Price truncate tables midnight r t ≡ err e
      → is_instance e no_data_error ≡ false
  unfolding get_ohlcv_data from_records
  lookup_other t e h =
      go
        (tables.select_range r.symbol r.interval (midnight r.start_date) (midnight (suc r.end_date))
          t)
        h
    where
      go :
          (rows : List (Row Price truncate))
          → none_or_series Price truncate rows ≡ err e
          → is_instance e no_data_error ≡ false
      go [] k = absurd (cc)
      go (z ∷ zs) k = elim (Bool-cases (str_eq z.symbol "")) [
        | inr named ↦ absurd (let k' = rw named at k in cc)
        | inl blank ↦
            let k' = rw blank at k in let same : value_error ≡ e.class_of = cc in rw (sym same) refl
      ]

  lookup_full :
      (t : tables.Table) (s : Series)
      → get_ohlcv_data Price truncate tables midnight r t ≡ ok (some s)
      → has_bars Price truncate s ≡ true
  unfolding get_ohlcv_data from_records has_bars
  lookup_full t s h =
      go
        (tables.select_range r.symbol r.interval (midnight r.start_date) (midnight (suc r.end_date))
          t)
        h
    where
      go :
          (rows : List (Row Price truncate))
          → none_or_series Price truncate rows ≡ ok (some s)
          → has_bars Price truncate s ≡ true
      go [] k = absurd (cc)
      go (z ∷ zs) k = elim (Bool-cases (str_eq z.symbol "")) [
        | inl blank ↦ absurd (let k' = rw blank at k in cc)
        | inr named ↦
            let k' = rw named at k in
            let bars =
              ap {B = ℕ}
                (λ (x : Result (Option Series)). elim x [ ok (some y) ↦ length y.bars | _ ↦ 0 ])
                k' in
            ground (arith, bars)
      ]

-- Let neither the limiter nor an insertion raise a NoDataError. Then the task of one symbol gives a
-- series without bars exactly if the database has no row for the request and the provider, asked
-- because the limiter did not raise, has answered with no bar. Any other error of the lookup, the
-- limiter, the provider or the insertion is not taken for "no data".
pub no_data_task :
    (Price : Type 0) (truncate : Price → ℕ) (tables : MarketTables Price truncate)
    (midnight : ℕ → ℕ) (list_aggs : String → Params → ℕ → ℕ → Result (List (Agg Price truncate)))
    (limiter : Result (Unit {0})) (r : Request) (w : World Price truncate tables)
    → ((e : Exception) → limiter ≡ err e → is_instance e no_data_error ≡ false)
    → ((rows : List (Row Price truncate)) (t : tables.Table) (e : Exception)
        → tables.insert_ignoring rows t ≡ err e
        → is_instance e no_data_error ≡ false)
    → GivesEmpty Price truncate tables midnight list_aggs r
        (ensure_market_data_for_symbol Price truncate tables midnight list_aggs
          (some limiter)
          r
          w).0
      ↔ ((get_ohlcv_data Price truncate tables midnight r w.table ≡ ok none)
          × (is_ok limiter ≡ true)
          × GivesEmpty Price truncate tables midnight list_aggs r
              (fetch_ohlcv Price truncate list_aggs r))
unfolding ensure_market_data_for_symbol ensure_data fetch_missing fetch_and_save
no_data_task Price truncate tables midnight list_aggs limiter r w limits inserts =
    elim (Result-cases (get_ohlcv_data Price truncate tables midnight r w.table)) [
      | inr (e, q) ↦ rw q (
        (λ h. absurd (
            other_error Price truncate tables midnight list_aggs r e
              (lookup_other Price truncate tables midnight list_aggs r w.table e q) h)),
        (λ h. absurd (let k = h.0 in cc)),
      )
      | inl (some s, q) ↦
          let full = lookup_full Price truncate tables midnight list_aggs r w.table s q in
          rw (q, full)
            (
              (λ h. absurd (full_series Price truncate tables midnight list_aggs r s full h)),
              (λ h. absurd (let k = h.0 in cc)),
            )
      | inl (none, q) ↦ rw q (missed limiter limits)
    ]
  where
    missed :
        (answer : Result (Unit {0}))
        → ((e : Exception) → answer ≡ err e → is_instance e no_data_error ≡ false)
        → GivesEmpty Price truncate tables midnight list_aggs r (
            no_data_is_empty Price truncate tables midnight list_aggs r
              (fetch_missing Price truncate tables midnight list_aggs (some answer) r w).0)
          ↔ (◌≡◌ {A = Result (Option (OhlcvSeries Price truncate))} (ok none) (ok none)
              × (is_ok answer ≡ true)
              × GivesEmpty Price truncate tables midnight list_aggs r
                  (fetch_ohlcv Price truncate list_aggs r))
    missed (err e) other = (
      (λ h. absurd (other_error Price truncate tables midnight list_aggs r e (other e refl) h)),
      (λ h. absurd (let k = h.1 in cc)),
    )
    missed (ok _) other =
        let (left, right) =
          save-GivesEmpty Price truncate tables midnight list_aggs r _
            (fetch_ohlcv Price truncate list_aggs r)
            (fetch_ohlcv-other Price truncate tables midnight list_aggs r) inserts in
        ((λ h. (refl, refl, left h)), (λ h. right h.2))
