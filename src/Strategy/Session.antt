-- ===== src/Strategy/Session.antt =====
-- core/utils.py: the regular trading session. The tz database is a parameter, the time of day in
-- America/New_York at an instant; instants and times of day are microseconds.
use stock_trader.Prelude.{
  ℕ, ◌*◌, ◌≡◌, ◌≢◌, refl, sym, ap, Bool, true, false, not, ◌&&◌, Option, none, some, List, [], ◌∷◌,
  map, ltb, leb, if◌then◌else◌,
}
use stock_trader.Errors.{Result, ok, err, raise, value_error, text, ◌>>=◌}

-- `time(9, 30)` and `time(16, 0)`
abbrev pub market_open : ℕ
market_open = 34200 * 1000000

abbrev pub market_close : ℕ
market_close = 57600 * 1000000

pub record Datetime : Type 0 where
  pub instant : ℕ
  -- `tzinfo is not None`
  pub aware : Bool

-- A pandas index has one time zone, or none, for all of its entries.
pub record DatetimeIndex : Type 0 where
  pub aware : Bool
  pub instants : List ℕ

module _ (local_time : ℕ → ℕ) where
  unfoldable pub is_regular_session : Datetime → Result Bool
  is_regular_session ts =
      if not ts.aware
      then raise value_error (text "is_regular_session requires a tz-aware datetime" ∷ [])
      else ok (leb market_open (local_time ts.instant) && ltb (local_time ts.instant) market_close)

  unfoldable pub regular_session_mask : DatetimeIndex → Result (List Bool)
  regular_session_mask index =
      if not index.aware
      then raise value_error (text "regular_session_mask requires a tz-aware DatetimeIndex" ∷ [])
      else let local_times = map local_time index.instants in
        ok (map (λ t. leb market_open t && ltb t market_close) local_times)

-- The entries of an index, and a scalar function applied to each in turn.
abbrev pub datetimes : DatetimeIndex → List Datetime
datetimes index = map (λ t. record { instant = t; aware = index.aware }) index.instants

abbrev pub traverse {ℓ κ} : {A : Type ℓ} {B : Type κ} → (A → Result B) → List A → Result (List B)
traverse f [] = ok []
traverse f (x ∷ xs) = f x >>= λ y. traverse f xs >>= λ ys. ok (y ∷ ys)

abbrev pub to_option {ℓ} : {A : Type ℓ} → Result A → Option A
to_option (ok a) = some a
to_option (err e) = none

mask_aware :
    (local_time : ℕ → ℕ) (instants : List ℕ)
    → traverse
        (is_regular_session local_time)
        (datetimes (record { aware = true; instants = instants }))
      ≡ regular_session_mask local_time (record { aware = true; instants = instants })
unfolding is_regular_session regular_session_mask
mask_aware local_time [] = refl
mask_aware local_time (t ∷ ts) = rw (mask_aware local_time ts)

-- On an index that is not empty, the mask is what the scalar test gives entry by entry; it fails
-- exactly when the scalar test fails.
pub mask_agrees :
    (local_time : ℕ → ℕ) (index : DatetimeIndex)
    → index.instants ≢ []
    → to_option (regular_session_mask local_time index)
      ≡ to_option (traverse (is_regular_session local_time) (datetimes index))
unfolding is_regular_session regular_session_mask
mask_agrees local_time index h = go index.aware index.instants h
  where
    go :
        (aware : Bool) (ts : List ℕ)
        → ts ≢ []
        → to_option (regular_session_mask local_time (record { aware = aware; instants = ts }))
          ≡ to_option (
              traverse
                (is_regular_session local_time)
                (datetimes (record { aware = aware; instants = ts })))
    go true ts n = ap to_option (sym (mask_aware local_time ts))
    go false [] n = absurd (n refl)
    go false (t ∷ ts) n = refl
