-- ===== src/Strategy/Bollinger/Provenance.antt =====
-- Where the bars of a run come from: the rows of the DataFrame, the session mask and the columns that
-- pandas-ta returned.
use stock_trader.Prelude.{
  ℕ, zero, suc, ◌+◌, ◌≤◌, ◌<◌, ◌≡◌, refl, ap, ◌∙◌, inl, inr, Bool, true, false, ◌&&◌, some, List,
  [], ◌∷◌, ◌++◌, String, arith, drop, map, length, All, Bool-cases, ltb, leb,
}
use stock_trader.Errors.{ok, Result-cases}
use stock_trader.Strategy.Floats.{Floats}
use stock_trader.Strategy.Session.{regular_session_mask, market_open, market_close}
use stock_trader.Strategy.Bollinger.{Row, Columns, Bands, find_column, apply_bands, Bar, bars_from}
use package.text.Mathlib.Text.{starts_with}

-- From 9:30 to before 16:00, in microseconds of the local day.
abbrev pub InRegularSession : (ℕ → ℕ) → ℕ → Type 0
InRegularSession local_time t = (34200000000 ≤ local_time t) × (local_time t < 57600000000)

abbrev pub in_session_at : (ℕ → ℕ) → ℕ → Bool
in_session_at local_time t = leb market_open (local_time t) && ltb (local_time t) market_close

pub in_session_at-true :
    (local_time : ℕ → ℕ) (t : ℕ) → in_session_at local_time t ≡ true → InRegularSession local_time t
in_session_at-true local_time t h = (ground arith, ground arith)

pub in_session_at-false :
    (local_time : ℕ → ℕ) (t : ℕ)
    → in_session_at local_time t ≡ false
    → ¬ InRegularSession local_time t
in_session_at-false local_time t h (opened, closed) = ground arith

pub drop_split {ℓ} :
    {A : Type ℓ} (n : ℕ) (xs : List A) (before : List A) {b : A} {after : List A}
    → drop n xs ≡ before ++ b ∷ after
    → (pre : List A) × (xs ≡ pre ++ b ∷ after) × (n ≤ length pre)
drop_split zero xs before e = (before, e, omega arith)
drop_split (suc n) [] [] e = absurd (cc)
drop_split (suc n) [] (c ∷ before) e = absurd (cc)
drop_split (suc n) (x ∷ xs) before e =
    let (pre, split, enough) = drop_split n xs before e in
    (x ∷ pre, ap (λ z. x ∷ z) split, omega arith)

module _ (floats : Floats) where
  -- The first of the columns whose name starts with `prefix`.
  pub data IsFirstColumn (prefix : String) (columns : Columns floats) (column : ℕ → floats.Float)
      : Type 0 where
    first_column :
        (before after : Columns floats) (name : String)
        → columns ≡ before ++ (name, column) ∷ after
        → All (λ c. starts_with c.0 prefix ≡ false) before
        → starts_with name prefix ≡ true
        → IsFirstColumn prefix columns column

  find_column-IsFirstColumn :
      (prefix : String) (columns : Columns floats) {column : ℕ → floats.Float}
      → find_column floats prefix columns ≡ ok column
      → IsFirstColumn prefix columns column
  unfolding find_column
  find_column-IsFirstColumn prefix [] e = absurd (cc)
  find_column-IsFirstColumn prefix ((name, found) ∷ rest) {column = column} e =
      elim (Bool-cases (starts_with name prefix)) [
        | inl named ↦
            let e' = rw named at e in
            let q : found ≡ column = cc in
            first_column [] rest name (ap (λ z. (name, z) ∷ rest) q) tt named
        | inr other ↦ elim (find_column-IsFirstColumn prefix rest (rw other at e)) [
          | first_column before after later split others named ↦
              first_column ((name, found) ∷ before) after later (ap (λ z. (name, found) ∷ z) split)
                (other, others) named
        ]
      ]

module _ (floats : Floats) where
  pub apply_bands-IsFirstColumn :
      (period : ℕ) (columns : Columns floats) {bands : Bands floats}
      → apply_bands floats period (some columns) ≡ ok bands
      → IsFirstColumn floats "BBL" columns bands.bb_lower
        × IsFirstColumn floats "BBM" columns bands.bb_middle
        × IsFirstColumn floats "BBU" columns bands.bb_upper
  unfolding apply_bands
  apply_bands-IsFirstColumn period columns {bands = bands} e =
      elim (Result-cases (find_column floats "BBL" columns)) [
        | inr (x, q) ↦ absurd (let e' = simp q at e in cc)
        | inl (l, q) ↦ elim (Result-cases (find_column floats "BBM" columns)) [
          | inr (x, q') ↦ absurd (let e' = simp (q, q') at e in cc)
          | inl (m, q') ↦ elim (Result-cases (find_column floats "BBU" columns)) [
            | inr (x, q'') ↦ absurd (let e' = simp (q, q', q'') at e in cc)
            | inl (u, q'') ↦
                let e' = simp (q, q', q'') at e in
                let lower : l ≡ bands.bb_lower = cc in
                let mid : m ≡ bands.bb_middle = cc in
                let high : u ≡ bands.bb_upper = cc in
                (
                  find_column-IsFirstColumn floats "BBL" columns (q ∙ ap ok lower),
                  find_column-IsFirstColumn floats "BBM" columns (q' ∙ ap ok mid),
                  find_column-IsFirstColumn floats "BBU" columns (q'' ∙ ap ok high),
                )
          ]
        ]
      ]

map-in_session_at :
    (local_time : ℕ → ℕ) (ts : List ℕ)
    → map (λ t. leb market_open t && ltb t market_close) (map local_time ts)
      ≡ map (in_session_at local_time) ts
map-in_session_at local_time [] = refl
map-in_session_at local_time (t ∷ ts) =
    ap (λ z. in_session_at local_time t ∷ z) (map-in_session_at local_time ts)

pub mask_of_times :
    (local_time : ℕ → ℕ) (aware : Bool) (instants : List ℕ) {mask : List Bool}
    → regular_session_mask local_time (record { aware = aware; instants = instants }) ≡ ok mask
    → mask ≡ map (in_session_at local_time) instants
unfolding regular_session_mask
mask_of_times local_time true instants e = let q = map-in_session_at local_time instants in cc
mask_of_times local_time false instants e = absurd (cc)

module _ (floats : Floats) (bands : Bands floats) (in_session : ℕ → Bool) where
  abbrev pub bar_at : ℕ → Row floats → Bar floats
  bar_at i r = record {
    timestamp = r.timestamp;
    close = r.close;
    bb_lower = bands.bb_lower i;
    bb_middle = bands.bb_middle i;
    bb_upper = bands.bb_upper i;
    in_session = in_session r.timestamp;
  }

  abbrev pub bars_at : ℕ → List (Row floats) → List (Bar floats)
  bars_at i rows =
      bars_from floats bands i rows (map in_session (map (λ (r : Row floats). r.timestamp) rows))

  -- The row of a bar that has `n` bars before it and the bars `after` behind it.
  pub record RowOf (i : ℕ) (rows : List (Row floats)) (n : ℕ) (b : Bar floats)
      (after : List (Bar floats)) : Type 0 where
    pub rows_before : List (Row floats)
    pub row : Row floats
    pub rows_after : List (Row floats)
    pub place : ℕ
    pub split : rows ≡ rows_before ++ row ∷ rows_after
    pub as_many : length rows_before ≡ n
    pub place_eq : place ≡ i + n
    pub bar_eq : b ≡ bar_at place row
    pub after_eq : after ≡ bars_at (suc place) rows_after

  pub row_of :
      (i : ℕ) (rows : List (Row floats)) (before : List (Bar floats)) {b : Bar floats}
      {after : List (Bar floats)}
      → bars_at i rows ≡ before ++ b ∷ after
      → RowOf i rows (length before) b after
  unfolding bars_from
  row_of i [] [] e = absurd (cc)
  row_of i [] (c ∷ before) e = absurd (cc)
  row_of i (r ∷ rows) [] e = record {
    rows_before = [];
    row = r;
    rows_after = rows;
    place = i;
    split = refl;
    as_many = refl;
    place_eq = omega arith;
    bar_eq = cc;
    after_eq = cc;
  }
  row_of i (r ∷ rows) (c ∷ before) {b = b} {after = after} e =
      let tail : bars_at (suc i) rows ≡ before ++ b ∷ after = cc in
      let found = row_of (suc i) rows before tail in
      record {
        rows_before = r ∷ found.rows_before;
        row = found.row;
        rows_after = found.rows_after;
        place = found.place;
        split = ap (λ z. r ∷ z) found.split;
        as_many = ap suc found.as_many;
        place_eq = let q = found.place_eq in omega arith;
        bar_eq = found.bar_eq;
        after_eq = found.after_eq;
      }

  pub rows_out_of_session :
      (i : ℕ) (rows : List (Row floats))
      → All (λ (b : Bar floats). b.in_session ≡ false) (bars_at i rows)
      → All (λ (r : Row floats). in_session r.timestamp ≡ false) rows
  unfolding bars_from
  rows_out_of_session i [] h = tt
  rows_out_of_session i (r ∷ rows) h = (h.0, rows_out_of_session (suc i) rows h.1)
