-- ===== src/Examples/Submissions.antt =====
-- The theorems on the strategy registry and on accepted requests, on one request.
use stock_trader.Prelude.{ℕ, ◌≡◌, refl, Bool, true, false, List, [], ◌∷◌, String}
use stock_trader.Errors.{ok}
use stock_trader.Jobs.Repository.{BacktestCreateRequest}
use stock_trader.Jobs.Request.{
  validate_request, run_validators, validate_strategy, validate_date_range, validate_parameters,
}
use stock_trader.Strategy.Registry.{ParamsModel, get_params_model, get_strategies}
use stock_trader.Examples.Rows.{text_parameters}

abbrev pub submission : BacktestCreateRequest text_parameters
submission = record {
  strategy_name = "bollinger_reversion";
  symbols = "AAPL" ∷ [];
  parameters = [];
  start_date = 100;
  end_date = 160;
}

-- Every text is taken to have 19 characters, and only the empty dictionary is accepted.
abbrev nineteen : String → ℕ
nineteen s = 19

abbrev accepts_defaults : ParamsModel → List (String × String) → Bool
accepts_defaults model [] = true
accepts_defaults model (p ∷ ps) = false

submission_accepted :
    validate_request text_parameters nineteen accepts_defaults submission ≡ ok submission
unfolding validate_request run_validators validate_strategy validate_date_range validate_parameters
    get_strategies get_params_model
submission_accepted = refl
