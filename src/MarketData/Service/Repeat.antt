-- ===== src/MarketData/Service/Repeat.antt =====
-- A second call of `ensure_data` for the same request.
use stock_trader.Prelude.{
  ℕ, suc, ◌≤◌, ◌<◌, ◌≡◌, ◌≢◌, inl, inr, refl, sym, ap, subst, ◌∙◌, true, false, Option, none, some,
  List, [], ◌∷◌, ◌++◌, String, map, All, arith, str_eq, eq_iff, Bool-cases, Option-cases,
}
use stock_trader.Errors.{Result, ok, err, Result-cases}
use stock_trader.MarketData.Intervals.{Params}
use stock_trader.MarketData.Bars.{
  Request, Ohlcv, Agg, OhlcvSeries, agg_to_ohlcv, has_bars, fetch_ohlcv, fetch_ohlcv_lem,
}
use stock_trader.MarketData.Rows.{
  Row, MarketTables, from_record, from_records, none_or_series, records, get_ohlcv_data,
  bulk_insert_market_data,
}
use stock_trader.MarketData.Service.{World, save, fetch_and_save, fetch_missing, ensure_data}

All-map_at :
    {A B : Type 0} (P : B → Type 0) (f : A → B) (before : List A) (a : A) (after : List A)
    → All P (map f (before ++ a ∷ after))
    → P (f a)
All-map_at P f [] a after h = h.0
All-map_at P f (b ∷ before) a after h = All-map_at P f before a after h.1

str_eq_ne : (s t : String) → s ≢ t → str_eq s t ≡ false
str_eq_ne s t n = elim (Bool-cases (str_eq s t)) [
  | inl same ↦ absurd (n ((eq_iff s t).0 same))
  | inr other ↦ other
]

module _ (Price : Type 0) (truncate : Price → ℕ) (tables : MarketTables Price truncate)
    (midnight : ℕ → ℕ)
    (list_aggs : String → Params → ℕ → ℕ → Result (List (Agg Price truncate))) where
  abbrev LocalWorld : Type 0
  LocalWorld = World Price truncate tables

  abbrev Series : Type 0
  Series = OhlcvSeries Price truncate

  rows_found :
      (symbol : String) (rows : List (Row Price truncate))
      → symbol ≢ ""
      → All (λ (z : Row Price truncate). z.symbol ≡ symbol) rows
      → rows ≢ []
      → (s : Series) × (none_or_series Price truncate rows ≡ ok (some s))
        × (has_bars Price truncate s ≡ true)
        × (s.bars ≡ map (from_record Price truncate) rows)
  unfolding from_records has_bars
  rows_found symbol [] named h some_rows = absurd (some_rows refl)
  rows_found symbol (z ∷ zs) named h some_rows =
      let other : str_eq z.symbol "" ≡ false = str_eq_ne z.symbol "" (λ e. named (sym (h.0) ∙ e)) in
      rw other (_, refl, ground arith, refl)

  pub hit :
      (limiter : Option (Result (Unit {0}))) (r : Request) (w : LocalWorld) (s : Series)
      → get_ohlcv_data Price truncate tables midnight r w.table ≡ ok (some s)
      → has_bars Price truncate s ≡ true
      → ensure_data Price truncate tables midnight list_aggs limiter r w ≡ (ok s, w)
  unfolding ensure_data
  hit limiter r w s found full = rw (found, full) refl

  save-ok :
      (r : Request) (w : LocalWorld) (answer : Result Series) {s : Series} {w' : LocalWorld}
      → save Price truncate tables midnight list_aggs r w answer ≡ (ok s, w')
      → (answer ≡ ok s)
        × (bulk_insert_market_data Price truncate tables midnight s w.table ≡ ok w'.table)
        × (has_bars Price truncate s ≡ true)
  unfolding save
  save-ok r w (err e) h = absurd (let h' = ap (λ z. z.0) h in cc)
  save-ok r w (ok s) {s = s'} {w' = w'} h = elim (Bool-cases (has_bars Price truncate s)) [
    | inr nothing ↦ absurd (let h' = ap (λ z. z.0) (rw nothing at h) in cc)
    | inl full ↦
        elim (Result-cases (bulk_insert_market_data Price truncate tables midnight s w.table)) [
          | inr (f, e) ↦ absurd (let h' = ap (λ z. z.0) (rw (full, e) at h) in cc)
          | inl (t, e) ↦
              let k = rw (full, e) at h in
              let same : ok s ≡ ok s' = ap (λ z. z.0) k in
              let same' : s ≡ s' = cc in
              let t' : t ≡ w'.table = ap (λ (z : Result Series × LocalWorld). z.1.table) k in
              (
                same,
                subst
                    (λ z.
                      bulk_insert_market_data Price truncate tables midnight z w.table
                      ≡ ok w'.table)
                    same' (e ∙ ap ok t'),
                subst (λ z. has_bars Price truncate z ≡ true) same' full,
              )
        ]
  ]

  pub fetch_missing-ok :
      (limiter : Option (Result (Unit {0}))) (r : Request) (w : LocalWorld) {s : Series}
      {w' : LocalWorld}
      → fetch_missing Price truncate tables midnight list_aggs limiter r w ≡ (ok s, w')
      → (fetch_ohlcv Price truncate list_aggs r ≡ ok s)
        × (bulk_insert_market_data Price truncate tables midnight s w.table ≡ ok w'.table)
        × (has_bars Price truncate s ≡ true)
  unfolding fetch_missing fetch_and_save
  fetch_missing-ok none r w h = save-ok r _ _ h
  fetch_missing-ok (some (ok _)) r w h = save-ok r _ _ h
  fetch_missing-ok (some (err e)) r w h = absurd (let h' = ap (λ z. z.0) h in cc)

  fetch_ohlcv-ok :
      (r : Request) {s : Series}
      → fetch_ohlcv Price truncate list_aggs r ≡ ok s
      → (s.symbol ≡ r.symbol) × (s.interval ≡ r.interval)
  fetch_ohlcv-ok r {s = s} h =
      let (params, _, e) = fetch_ohlcv_lem Price truncate list_aggs r in
      elim (Result-cases (list_aggs r.symbol params r.start_date r.end_date)) [
        | inl (aggs, q) ↦
            let k = sym (rw q at e) ∙ h in
            let built : Series = record {
              symbol = r.symbol;
              interval = r.interval;
              bars = map (agg_to_ohlcv Price truncate) aggs;
            } in
            let same : built ≡ s = cc in
            (ap (λ (z : Series). z.symbol) (sym same), ap (λ (z : Series). z.interval) (sym same))
        | inr (f, q) ↦ absurd (let k = sym (rw q at e) ∙ h in cc)
      ]

  -- The bars that a fetch has stored are found again.
  pub stored_is_found :
      (r : Request) (t t' : tables.Table) (s : Series) (before after : List (Ohlcv Price truncate))
      (bar : Ohlcv Price truncate)
      → fetch_ohlcv Price truncate list_aggs r ≡ ok s
      → bulk_insert_market_data Price truncate tables midnight s t ≡ ok t'
      → s.bars ≡ before ++ bar ∷ after
      → midnight r.start_date ≤ bar.timestamp
      → bar.timestamp < midnight (suc r.end_date)
      → tables.select_range r.symbol r.interval
          (midnight r.start_date)
          (midnight (suc r.end_date))
          t'
        ≢ []
  unfolding bulk_insert_market_data records
  stored_is_found r t t' s before after bar fetched_ saved split low high =
      let (symbol, interval) = fetch_ohlcv-ok r fetched_ in
      let held : tables.has_key s.symbol s.interval bar.timestamp t' ≡ true =
        All-map_at
          (λ (z : Row Price truncate). tables.has_key z.symbol z.interval z.timestamp t' ≡ true) _
          before bar after
          (rw split at (tables.has_key-insert_ignoring (records Price truncate s) t t' saved)) in
      tables.select_range-has_key r.symbol r.interval _ _ bar.timestamp t'
        (rw (symbol, interval) at held) low high

  pub found_again :
      (r : Request) (t : tables.Table)
      → r.symbol ≢ ""
      → tables.select_range r.symbol r.interval
          (midnight r.start_date)
          (midnight (suc r.end_date))
          t
        ≢ []
      → (s : Series) × (get_ohlcv_data Price truncate tables midnight r t ≡ ok (some s))
        × (has_bars Price truncate s ≡ true)
        × (s.bars
            ≡ map (from_record Price truncate) (
                tables.select_range r.symbol r.interval
                  (midnight r.start_date)
                  (midnight (suc r.end_date))
                  t))
  unfolding get_ohlcv_data
  found_again r t named some_rows =
      rows_found r.symbol _ named
        (tables.select_range-symbol r.symbol r.interval (midnight r.start_date)
          (midnight (suc r.end_date)) t)
        some_rows

-- If a call has given a series with a bar in the requested range of dates, any later call for the
-- same request is answered from the database: it succeeds, asks neither the limiter nor the
-- provider, and leaves the database as it is.
pub ensure_data_again :
    (Price : Type 0) (truncate : Price → ℕ) (tables : MarketTables Price truncate)
    (midnight : ℕ → ℕ) (list_aggs : String → Params → ℕ → ℕ → Result (List (Agg Price truncate)))
    (limiter later : Option (Result (Unit {0}))) (r : Request) (w w' : World Price truncate tables)
    (s : OhlcvSeries Price truncate) (before after : List (Ohlcv Price truncate))
    (bar : Ohlcv Price truncate)
    → ensure_data Price truncate tables midnight list_aggs limiter r w ≡ (ok s, w')
    → s.bars ≡ before ++ bar ∷ after
    → midnight r.start_date ≤ bar.timestamp
    → bar.timestamp < midnight (suc r.end_date)
    → r.symbol ≢ ""
    → (again : OhlcvSeries Price truncate) × (ensure_data Price truncate tables midnight list_aggs
          later r w'
        ≡ (ok again, w'))
unfolding ensure_data
ensure_data_again Price truncate tables midnight list_aggs limiter later r w w' s before after bar h
      split low high named =
    elim (Result-cases (get_ohlcv_data Price truncate tables midnight r w.table)) [
      | inr (e, q) ↦ absurd (let h' = ap (λ z. z.0) (rw q at h) in cc)
      | inl (found, q) ↦ elim (Option-cases found) [
        | inl nothing ↦ missed (rw (q, nothing) at h)
        | inr (t, f) ↦ elim (Bool-cases (has_bars Price truncate t)) [
          | inr empty ↦ missed (rw (q, f, empty) at h)
          | inl full ↦
              let unchanged : w ≡ w' = ap (λ z. z.1) (rw (q, f, full) at h) in
              subst
                (λ z.
                  (again : OhlcvSeries Price truncate) × (ensure_data Price truncate tables midnight
                      list_aggs later r z
                    ≡ (ok again, z)))
                unchanged
                (t, hit Price truncate tables midnight list_aggs later r w t (q ∙ ap ok f) full)
        ]
      ]
    ]
  where
    missed :
        fetch_missing Price truncate tables midnight list_aggs limiter r w ≡ (ok s, w')
        → (again : OhlcvSeries Price truncate) × (ensure_data Price truncate tables midnight
              list_aggs later r w'
            ≡ (ok again, w'))
    missed e =
        let (fetched_, saved, _) =
          fetch_missing-ok Price truncate tables midnight list_aggs limiter r w e in
        let (again, found, full, _) =
          found_again Price truncate tables midnight list_aggs r w'.table named (
            stored_is_found Price truncate tables midnight list_aggs r w.table w'.table s before
              after bar fetched_ saved split low high) in
        (again, hit Price truncate tables midnight list_aggs later r w' again found full)
