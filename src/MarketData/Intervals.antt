-- ===== src/MarketData/Intervals.antt =====
-- The two dictionaries of intervals, in massive/provider.py and massive/mapper.py.
use mathlib.Core.Path.{◌≡◌, refl}
use stock_trader.Prelude.{
  ℕ, ◌↔◌, String, ◌&&◌, Option, none, some, List, [], ◌∷◌, arith, str_eq, eq_iff, ◌==◌,
  if◌then◌else◌,
}
use stock_trader.Errors.{Result, ok, raise, value_error, provider_error, text, number, ◌>>=◌}
use stock_trader.Models.{
  Interval, one_minute, five_minute, fifteen_minute, thirty_minute, one_hour, daily, interval_value,
}

-- A key of the one dictionary, and a value of the other.
abbrev pub Params : Type 0
Params = ℕ × String

-- `_INTERVAL_MAP` of mapper.py
abbrev mapper_map : List (Params × Interval)
mapper_map =
    ((1, "minute"), one_minute)
    ∷ ((5, "minute"), five_minute)
    ∷ ((15, "minute"), fifteen_minute)
    ∷ ((30, "minute"), thirty_minute)
    ∷ ((1, "hour"), one_hour)
    ∷ ((1, "day"), daily)
    ∷ []

abbrev lookup_params : Params → List (Params × Interval) → Option Interval
lookup_params p [] = none
lookup_params p ((q, i) ∷ rest) =
    if (q.0 == p.0) && str_eq q.1 p.1 then some i else lookup_params p rest

abbrev or_unsupported : ℕ → String → Option Interval → Result Interval
or_unsupported multiplier timespan none = raise value_error (
    text "Unsupported Massive interval: ("
    ∷ number multiplier
    ∷ text ", '"
    ∷ text timespan
    ∷ text "')"
    ∷ [])
or_unsupported multiplier timespan (some i) = ok i

-- `resolve_interval` of mapper.py
unfoldable pub resolve_interval : ℕ → String → Result Interval
resolve_interval multiplier timespan =
    or_unsupported multiplier timespan (lookup_params (multiplier, timespan) mapper_map)

-- `_INTERVAL_MAP` of provider.py, which has an entry for every interval
abbrev provider_map : Interval → Option Params
provider_map one_minute = some (1, "minute")
provider_map five_minute = some (5, "minute")
provider_map fifteen_minute = some (15, "minute")
provider_map thirty_minute = some (30, "minute")
provider_map one_hour = some (1, "hour")
provider_map daily = some (1, "day")

-- `MassiveProvider._resolve_interval`
unfoldable pub provider_params : Interval → Result Params
provider_params i = elim (provider_map i) [
  | none ↦
      raise provider_error (text "[massive] Unsupported interval: " ∷ text (interval_value i) ∷ [])
  | some p ↦ ok p
]

-- The mapper reads back the interval that the provider was asked for.
pub resolve-provider_params :
    (i : Interval) → (provider_params i >>= λ p. resolve_interval p.0 p.1) ≡ ok i
unfolding provider_params resolve_interval
resolve-provider_params one_minute = refl
resolve-provider_params five_minute = refl
resolve-provider_params fifteen_minute = refl
resolve-provider_params thirty_minute = refl
resolve-provider_params one_hour = refl
resolve-provider_params daily = refl

-- The parameters that the mapper accepts are those that the provider sends for the interval.
provider_params-resolve :
    (multiplier : ℕ) (timespan : String) {i : Interval}
    → resolve_interval multiplier timespan ≡ ok i
    → provider_params i ≡ ok (multiplier, timespan)
unfolding provider_params resolve_interval
provider_params-resolve multiplier timespan h =
    ground (arith, eq_iff "minute" timespan, eq_iff "hour" timespan, eq_iff "day" timespan)

-- The mapper reads some parameters as an interval exactly if they are the ones that the provider sends
-- for that interval, and the provider has parameters for every interval. So `fetch_ohlcv` never
-- fails on an interval and labels its series with the one of the request.
pub resolve_interval_iff :
    (multiplier : ℕ) (timespan : String) (i : Interval)
    → ((resolve_interval multiplier timespan ≡ ok i)
        ↔ (provider_params i ≡ ok (multiplier, timespan)))
      × ((provider_params i >>= λ p. resolve_interval p.0 p.1) ≡ ok i)
resolve_interval_iff multiplier timespan i = (
  (λ h. provider_params-resolve multiplier timespan h, λ h. rw h at (resolve-provider_params i)),
  resolve-provider_params i,
)
