-- ===== src/Strategy/Registry.antt =====
-- core/strategies/registry.py.
use stock_trader.Prelude.{
  ◌≡◌, Option, none, some, List, [], ◌∷◌, String, arith, str_eq, eq_iff, map, contains,
  if◌then◌else◌,
}
use stock_trader.Errors.{Result, ok, raise, is_ok, value_error, text, ◌>>=◌}

-- The strategy classes, and the models of their parameters.
pub data StrategyClass : Type 0 where
  bollinger_reversion_strategy : StrategyClass

pub data ParamsModel : Type 0 where
  bollinger_params : ParamsModel

pub record StrategyEntry : Type 0 where
  pub strategy_cls : StrategyClass
  pub params_model : ParamsModel

abbrev pub params_model_of : StrategyClass → ParamsModel
params_model_of bollinger_reversion_strategy = bollinger_params

abbrev pub strategy_registry : List (String × StrategyEntry)
strategy_registry =
    (
      "bollinger_reversion",
      record { strategy_cls = bollinger_reversion_strategy; params_model = bollinger_params },
    )
    ∷ []

abbrev lookup_entry : String → List (String × StrategyEntry) → Option StrategyEntry
lookup_entry name [] = none
lookup_entry name ((key, entry) ∷ rest) =
    let later = lookup_entry name rest in if str_eq key name then some entry else later

-- The error text ends with the names of the registry, which are left out.
abbrev known : String → Option StrategyEntry → Result StrategyEntry
known name none =
    raise value_error (text "Unknown strategy '" ∷ text name ∷ text "'. Available: " ∷ [])
known name (some entry) = ok entry

unfoldable pub get_strategy : String → Result StrategyClass
get_strategy name =
    known name (lookup_entry name strategy_registry) >>= λ entry. ok entry.strategy_cls

unfoldable pub get_params_model : String → Result ParamsModel
get_params_model name =
    known name (lookup_entry name strategy_registry) >>= λ entry. ok entry.params_model

unfoldable pub get_strategies : List String
get_strategies = map (λ (e : String × StrategyEntry). e.0) strategy_registry

-- A name is accepted exactly if it is listed, and a strategy that is found goes with the params
-- model that the same name gives.
pub registry_consistent :
    (name : String)
    → (is_ok (get_strategy name) ≡ contains name get_strategies)
      × ((get_strategy name >>= λ cls. ok (params_model_of cls)) ≡ get_params_model name)
unfolding get_strategy get_params_model get_strategies
registry_consistent name = ground (arith, eq_iff "bollinger_reversion" name)
