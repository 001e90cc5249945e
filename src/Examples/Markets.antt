-- ===== src/Examples/Markets.antt =====
-- The theorems on market data, with stored rows as a list and whole numbers as prices.
use stock_trader.Prelude.{
  map, ℕ, suc, ◌*◌, ◌≤◌, ◌<◌, ◌≡◌, ◌≢◌, inl, inr, refl, subst, Bool, true, false, ◌&&◌, none, some,
  List, [], ◌∷◌, ◌++◌, String, All, arith, str_eq, eq_iff, ltb, leb, Bool-cases, if◌then◌else◌,
}
use stock_trader.Errors.{Result, ok}
use stock_trader.Models.{Interval, one_minute, interval_value}
use stock_trader.MarketData.Intervals.{Params, provider_params, resolve_interval}
use stock_trader.MarketData.Bars.{
  Request, Ohlcv, Agg, OhlcvSeries, has_bars, agg_to_ohlcv, aggs_to_ohlcv_series, fetch_ohlcv,
}
use stock_trader.MarketData.Rows.{
  from_record, Row, MarketTables, records, get_ohlcv_data, bulk_insert_market_data,
}
use stock_trader.MarketData.Service.{World, save, fetch_and_save, fetch_missing, ensure_data}
use stock_trader.MarketData.Service.{ensure_market_data_for_symbol}
use stock_trader.MarketData.Service.NoData.{GivesEmpty, no_data_task}
use stock_trader.Prelude.{◌↔◌}
use stock_trader.MarketData.Service.Partial.{stored_bar_suffices}

abbrev pub id : ℕ → ℕ
id n = n

abbrev NatRow : Type 0
NatRow = Row ℕ id

abbrev in_rows : String → Interval → ℕ → ℕ → NatRow → Bool
in_rows s i lo hi r =
    str_eq r.symbol s
    && (str_eq (interval_value r.interval) (interval_value i)
        && (leb lo r.timestamp && ltb r.timestamp hi))

abbrev select_rows : String → Interval → ℕ → ℕ → List NatRow → List NatRow
select_rows s i lo hi [] = []
select_rows s i lo hi (r ∷ rs) =
    let rest = select_rows s i lo hi rs in if in_rows s i lo hi r then r ∷ rest else rest

abbrev holds_key : String → Interval → ℕ → List NatRow → Bool
holds_key s i at [] = false
holds_key s i at (r ∷ rs) =
    let rest = holds_key s i at rs in if in_rows s i at (suc at) r then true else rest

pub select_rows-symbol :
    (s : String) (i : Interval) (lo hi : ℕ) (t : List NatRow)
    → All (λ (r : NatRow). r.symbol ≡ s) (select_rows s i lo hi t)
select_rows-symbol s i lo hi [] = tt
select_rows-symbol s i lo hi (r ∷ rs) = elim (Bool-cases (in_rows s i lo hi r)) [
  | inr out ↦ rw out (select_rows-symbol s i lo hi rs)
  | inl kept ↦ rw kept (ground (arith, eq_iff r.symbol s), select_rows-symbol s i lo hi rs)
]

in_rows_wider :
    (s : String) (i : Interval) (lo hi at : ℕ) (r : NatRow)
    → in_rows s i at (suc at) r ≡ true
    → lo ≤ at
    → at < hi
    → in_rows s i lo hi r ≡ true
in_rows_wider s i lo hi at r h low high = ground arith

pub select_rows-holds_key :
    (s : String) (i : Interval) (lo hi at : ℕ) (t : List NatRow)
    → holds_key s i at t ≡ true
    → lo ≤ at
    → at < hi
    → select_rows s i lo hi t ≢ []
select_rows-holds_key s i lo hi at [] h low high = absurd (cc)
select_rows-holds_key s i lo hi at (r ∷ rs) h low high =
    elim (Bool-cases (in_rows s i at (suc at) r)) [
      | inl here ↦ rw (in_rows_wider s i lo hi at r here low high) (λ e. absurd (cc))
      | inr out ↦ elim (Bool-cases (in_rows s i lo hi r)) [
        | inl wide ↦ rw wide (λ e. absurd (cc))
        | inr gone ↦ rw gone (select_rows-holds_key s i lo hi at rs (rw out at h) low high)
      ]
    ]

in_rows_self : (r : NatRow) → in_rows r.symbol r.interval r.timestamp (suc r.timestamp) r ≡ true
in_rows_self r =
    let symbol = (eq_iff r.symbol r.symbol).1 refl in
    let interval = (eq_iff (interval_value r.interval) (interval_value r.interval)).1 refl in
    simp (symbol, interval) (ground arith)

holds_key-skip :
    (s : String) (i : Interval) (at : ℕ) (r : NatRow) (t : List NatRow)
    → holds_key s i at t ≡ true
    → holds_key s i at (r ∷ t) ≡ true
holds_key-skip s i at r t h = elim (Bool-cases (in_rows s i at (suc at) r)) [
  | inl here ↦ rw here refl
  | inr out ↦ rw out h
]

All-skip :
    (r : NatRow) (t rows : List NatRow)
    → All (λ (z : NatRow). holds_key z.symbol z.interval z.timestamp t ≡ true) rows
    → All (λ (z : NatRow). holds_key z.symbol z.interval z.timestamp (r ∷ t) ≡ true) rows
All-skip r t [] h = tt
All-skip r t (z ∷ zs) h =
    (holds_key-skip z.symbol z.interval z.timestamp r t (h.0), All-skip r t zs h.1)

All-holds_key :
    (rows t : List NatRow)
    → All (λ (z : NatRow). holds_key z.symbol z.interval z.timestamp (rows ++ t) ≡ true) rows
All-holds_key [] t = tt
All-holds_key (r ∷ rs) t = (rw (in_rows_self r) refl, All-skip r (rs ++ t) rs (All-holds_key rs t))

pub holds_key-append :
    (rows t t' : List NatRow)
    → ok (rows ++ t) ≡ ok t'
    → All (λ (z : NatRow). holds_key z.symbol z.interval z.timestamp t' ≡ true) rows
holds_key-append rows t t' h =
    let same : rows ++ t ≡ t' = cc in
    subst (λ x. All (λ (z : NatRow). holds_key z.symbol z.interval z.timestamp x ≡ true) rows) same
      (All-holds_key rows t)

select_rows-more :
    (rows t : List NatRow) (s : String) (i : Interval) (lo hi : ℕ)
    → select_rows s i lo hi t ≢ []
    → select_rows s i lo hi (rows ++ t) ≢ []
select_rows-more [] t s i lo hi h = h
select_rows-more (r ∷ rs) t s i lo hi h = elim (Bool-cases (in_rows s i lo hi r)) [
  | inl kept ↦ rw kept (λ e. absurd (cc))
  | inr out ↦ rw out (select_rows-more rs t s i lo hi h)
]

pub select_rows-append :
    (rows t t' : List NatRow) (s : String) (i : Interval) (lo hi : ℕ)
    → ok (rows ++ t) ≡ ok t'
    → select_rows s i lo hi t ≢ []
    → select_rows s i lo hi t' ≢ []
select_rows-append rows t t' s i lo hi h k =
    let same : rows ++ t ≡ t' = cc in
    subst (λ z. select_rows s i lo hi z ≢ []) same (select_rows-more rows t s i lo hi k)

-- The law about duplicates is not one that the model relies on, so they stay.
abbrev pub list_market : MarketTables ℕ id
list_market = record {
  Table = List NatRow;
  select_range = select_rows;
  insert_ignoring = λ rows t. ok (rows ++ t);
  has_key = holds_key;
  select_range-symbol = select_rows-symbol;
  select_range-has_key = select_rows-holds_key;
  has_key-insert_ignoring = holds_key-append;
  select_range-insert_ignoring = select_rows-append;
}

abbrev pub agg : Agg ℕ id
agg = record {
  timestamp = 700500;
  open_price = 10;
  high = 12;
  low = 9;
  close = 11;
  volume = 400;
  vwap = some 10;
  transactions = none;
}

abbrev pub one_agg : String → Params → ℕ → ℕ → Result (List (Agg ℕ id))
one_agg symbol params start_date end_date = ok (agg ∷ [])

-- A day of a thousand seconds.
abbrev pub midnight : ℕ → ℕ
midnight d = d * 1000000

abbrev request : Request
request = record { symbol = "AAPL"; interval = one_minute; start_date = 700; end_date = 701 }

abbrev stored_bar : Ohlcv ℕ id
stored_bar = record {
  timestamp = 700500000;
  open_price = 10;
  high = 12;
  low = 9;
  close = 11;
  volume = 400;
  vwap = some 10;
  transactions = none;
}

abbrev series : OhlcvSeries ℕ id
series = record { symbol = "AAPL"; interval = one_minute; bars = stored_bar ∷ [] }

abbrev empty_world : World ℕ id list_market
empty_world = record { table = []; effects = [] }

abbrev full_world : World ℕ id list_market
full_world = (ensure_data ℕ id list_market midnight one_agg (some (ok tt)) request empty_world).1

first_call :
    ensure_data ℕ id list_market midnight one_agg (some (ok tt)) request empty_world
    ≡ (ok series, full_world)
unfolding ensure_data get_ohlcv_data fetch_missing fetch_and_save save has_bars fetch_ohlcv
    provider_params aggs_to_ohlcv_series resolve_interval agg_to_ohlcv bulk_insert_market_data
    records
first_call = refl

-- A request for three hundred days, of which one has a bar.
abbrev long_request : Request
long_request = record request { start_date = 500; end_date = 800 }

stored_key : list_market.has_key "AAPL" one_minute 700500000 full_world.table ≡ true
unfolding ensure_data get_ohlcv_data fetch_missing fetch_and_save save has_bars fetch_ohlcv
    provider_params aggs_to_ohlcv_series resolve_interval agg_to_ohlcv bulk_insert_market_data
    records
stored_key = refl

stored_bar_suffices_example :
    (s : OhlcvSeries ℕ id) × (ensure_data ℕ id list_market midnight one_agg none long_request
        full_world
      ≡ (ok s, full_world))
    × (s.bars
        ≡ map (from_record ℕ id) (
            list_market.select_range "AAPL" one_minute
              (midnight 500)
              (midnight 801)
              full_world.table))
stored_bar_suffices_example =
    stored_bar_suffices ℕ id list_market midnight one_agg none long_request 700500000 full_world
      stored_key (omega arith) (omega arith) (λ e. absurd (cc))

abbrev no_aggs : String → Params → ℕ → ℕ → Result (List (Agg ℕ id))
no_aggs symbol params start_date end_date = ok []

abbrev quiet_world : World ℕ id list_market
quiet_world = record { table = []; effects = [] }

no_data_task_example :
    GivesEmpty ℕ id list_market midnight no_aggs request
      (ensure_market_data_for_symbol ℕ id list_market midnight no_aggs
        (some (ok tt))
        request
        quiet_world).0
    ↔ ((get_ohlcv_data ℕ id list_market midnight request [] ≡ ok none)
        × (true ≡ true)
        × GivesEmpty ℕ id list_market midnight no_aggs request (fetch_ohlcv ℕ id no_aggs request))
no_data_task_example =
    no_data_task ℕ id list_market midnight no_aggs (ok tt) request quiet_world (λ e h. absurd (cc))
      (λ rows t e h. absurd (cc))
