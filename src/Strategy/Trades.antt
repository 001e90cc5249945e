-- ===== src/Strategy/Trades.antt =====
-- core/strategies/models.py: trades and their validation.
use stock_trader.Prelude.{ℕ, [], ◌∷◌, if◌then◌else◌}
use stock_trader.Errors.{Result, ok, raise, validation_error, text}
use stock_trader.Strategy.Floats.{Floats}

pub data SignalType : Type 0 where
  buy sell : SignalType

module _ (floats : Floats) where
  open floats use {Float, lt, from_nat}

  -- The texts of `reason`, by what they format: the close and a band, or the forced exit.
  pub data Reason : Type 0 where
    below_lower : Float → Float → Reason
    at_exit_band : Float → Float → Reason
    end_of_data : Reason

  pub record Trade : Type 0 where
    pub timestamp : ℕ
    pub signal : SignalType
    pub price : Float
    pub reason : Reason

  -- `Trade(...)`: `price` is a `Field(gt=0)`.
  unfoldable pub make_trade : ℕ → SignalType → Float → Reason → Result Trade
  make_trade timestamp signal price reason =
      if lt (from_nat 0) price
      then ok (record { timestamp = timestamp; signal = signal; price = price; reason = reason })
      else raise validation_error (text "price: Input should be greater than 0" ∷ [])
