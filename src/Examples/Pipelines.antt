-- ===== src/Examples/Pipelines.antt =====
-- The theorems on the parameters and on the pipeline of a job, on a job with one symbol.
use stock_trader.Prelude.{
  ℕ, List, zero, ◌+◌, ◌*◌, ◌≤◌, ◌≡◌, ◌≢◌, refl, false, none, some, [], ◌∷◌, String, length,
}
use stock_trader.Prelude.Int.{pos}
use stock_trader.Errors.{ok}
use stock_trader.Models.{one_minute, running, completed}
use stock_trader.Strategy.Bollinger.{
  BacktestResult, BollingerParams, middle, run, find_column, apply_bands, bars_from, scan, step,
  emit, force_exit, trade_bars,
}
use stock_trader.Strategy.Params.{
  Values, Parameters, no_extra, length_field, std_dev_field, exit_at_field, initial_capital_field,
  bollinger_params,
}
use stock_trader.Strategy.Params.Bounds.{IsValid}
use stock_trader.Worker.Externals.{Externals, JobOf, json_types, Network}
use stock_trader.Worker.Fetch.{ensure_market_data_for_job, ensure_symbols}
use stock_trader.Worker.Backtest.{
  saved_result, run_backtest, backtest_result, to_dataframe, sort_index, run_strategy,
  save_job_result,
}
use stock_trader.Worker.Pipeline.{
  Cluster, fetching, charting, after_fetch, after_backtest, after_callback, Step, fetch, backtest,
  callback, Reach, here, next,
}
use stock_trader.Worker.Pipeline.Refinement.{is_over, Life, Reach-Life}
use stock_trader.Worker.Pipeline.Progress.{pipeline_ends}
use stock_trader.Worker.Pipeline.Once.{results_of, results_once}
use stock_trader.Worker.Pipeline.Budget.{Reach-Calls}
use stock_trader.Worker.Fetch.Calls.{occurrences, Calls}
use stock_trader.Jobs.Finalize.{TaskResult, report, has_error, finalize_backtest_job}
use stock_trader.Jobs.Request.{
  validate_request, run_validators, validate_strategy, validate_date_range, validate_parameters,
}
use stock_trader.Prelude.Sorted.{IsSorted}
use stock_trader.Strategy.Trades.{make_trade}
use stock_trader.Strategy.Bollinger.Chronology.{trade_times}
use stock_trader.Worker.Backtest.Chronology.{saved_result-IsSorted}
use stock_trader.Worker.Backtest.Accepted.{accepts_params, accepted_builds}
use stock_trader.Jobs.Repository.{
  BacktestCreateRequest, create_backtest_job, get_backtest_job, set_status, update_job_status_sync,
}
use stock_trader.MarketData.Intervals.{provider_params, resolve_interval}
use stock_trader.MarketData.Bars.{has_bars, fetch_ohlcv, aggs_to_ohlcv_series, agg_to_ohlcv}
use stock_trader.MarketData.Rows.{
  Row, get_ohlcv_data, bulk_insert_market_data, records, from_record, from_records,
}
use stock_trader.MarketData.Service.{ensure_data, fetch_missing, fetch_and_save, save}
use stock_trader.Strategy.Registry.{StrategyClass, get_strategy, get_params_model, get_strategies}
use stock_trader.Strategy.Session.{regular_session_mask, is_regular_session}
use stock_trader.Strategy.Metrics.{
  calculate_metrics, metrics_of, make_metrics, pair_up, equity_curve, trade_step,
}
use stock_trader.Examples.Naturals.{naturals}
use stock_trader.Examples.Backtests.{constant_bands}
use stock_trader.Examples.Markets.{id, list_market, one_agg, midnight}
use stock_trader.Examples.Rows.{versions_of}

pub data Json : Type 0 where
  whole : ℕ → Json
  word : String → Json

abbrev pub json_values : Values naturals
json_values = record {
  Value = Json;
  as_int = λ v. elim v [ whole n ↦ some (pos n) | word s ↦ none ];
  as_float = λ v. elim v [ whole n ↦ some n | word s ↦ none ];
  as_text = λ v. elim v [ whole n ↦ none | word s ↦ some s ];
}

abbrev pub ext : Externals
ext = record {
  floats = naturals;
  values = json_values;
  jobs = versions_of (json_types naturals json_values);
  truncate = id;
  market = list_market;
  midnight = midnight;
  bbands = constant_bands;
  local_time = λ t. t;
}

abbrev pub settings : Parameters naturals json_values
settings = ("length", whole 5) ∷ ("exit_at", word "middle") ∷ []

abbrev built : BollingerParams naturals
built = record { length = 5; std_dev = 2; exit_at = middle; initial_capital = 10000 }

settings_build : bollinger_params naturals json_values settings ≡ ok built
unfolding bollinger_params length_field std_dev_field exit_at_field initial_capital_field no_extra
settings_build = refl

-- The row of a dispatched job; a day of the market's clock is a thousand seconds.
abbrev pub dispatched : JobOf ext
dispatched = record {
  uuid = 9;
  status = running;
  strategy_name = "bollinger_reversion";
  symbols = "AAPL" ∷ [];
  parameters = settings;
  start_date = 700;
  end_date = 701;
  error = none;
  create_time = 1000;
  start_time = some 1100;
  end_time = none;
}

abbrev pub network : Network ext
network = record { list_aggs = one_agg; limiter = λ i. ok tt }

abbrev pub sent : Cluster ext
sent = record {
  table = dispatched ∷ [];
  stored = record { table = []; effects = [] };
  saved = [];
  stage = fetching zero;
}

abbrev fetched : Cluster ext
fetched = after_fetch ext 9 ("AAPL" ∷ []) network 1200 zero sent

abbrev tested : Cluster ext
tested = after_backtest ext 9 ("AAPL" ∷ []) (ok tt) [] "AAPL" [] fetched

abbrev pub result : TaskResult
result = record { symbol = "AAPL"; error = none }

abbrev final : Cluster ext
final = after_callback ext 9 ("AAPL" ∷ []) 1300 (("AAPL", some result) ∷ []) (result ∷ []) tested

fetched_stage : fetched.stage ≡ charting (("AAPL", none) ∷ [])
unfolding after_fetch ensure_market_data_for_job ensure_symbols get_backtest_job ensure_data
    get_ohlcv_data fetch_missing fetch_and_save save has_bars fetch_ohlcv provider_params
    aggs_to_ohlcv_series resolve_interval agg_to_ohlcv bulk_insert_market_data records
fetched_stage = refl

tested_stage : tested.stage ≡ charting (("AAPL", some result) ∷ [])
unfolding after_fetch ensure_market_data_for_job ensure_symbols get_backtest_job ensure_data
    get_ohlcv_data fetch_missing fetch_and_save save has_bars fetch_ohlcv provider_params
    aggs_to_ohlcv_series resolve_interval agg_to_ohlcv bulk_insert_market_data records from_record
    from_records after_backtest run_backtest backtest_result to_dataframe sort_index get_strategy
    run_strategy save_job_result report bollinger_params length_field std_dev_field exit_at_field
    initial_capital_field no_extra run find_column apply_bands bars_from scan step emit force_exit
    trade_bars regular_session_mask is_regular_session calculate_metrics metrics_of make_metrics
    pair_up equity_curve trade_step
tested_stage = refl

whole_run : Reach ext 9 ("AAPL" ∷ []) sent 3 final
whole_run =
    next (next (next here (fetch network 1200 refl)) (backtest [] "AAPL" [] (ok tt) fetched_stage))
      (callback (("AAPL", some result) ∷ []) (result ∷ []) 1300 tested_stage refl)

final_row :
    ext.jobs.select_by_uuid 9 final.table
    ≡ some (set_status (json_types naturals json_values) completed none 1300 dispatched)
unfolding after_fetch ensure_market_data_for_job ensure_symbols get_backtest_job ensure_data
    get_ohlcv_data fetch_missing fetch_and_save save has_bars fetch_ohlcv provider_params
    aggs_to_ohlcv_series resolve_interval agg_to_ohlcv bulk_insert_market_data records
    after_backtest run_backtest after_callback finalize_backtest_job has_error
    update_job_status_sync set_status
final_row = refl

Reach-Life_example :
    Life ext dispatched (ext.jobs.select_by_uuid 9 final.table) (is_over final.stage)
    × ((v : ℕ)
        → 9 ≢ v
        → ext.jobs.select_by_uuid v final.table ≡ ext.jobs.select_by_uuid v sent.table)
Reach-Life_example = Reach-Life ext 9 ("AAPL" ∷ []) dispatched refl refl whole_run

results_once_example :
    results_of ext 9 "AAPL" final.saved
    ≤ results_of ext 9 "AAPL" sent.saved + occurrences "AAPL" ("AAPL" ∷ [])
results_once_example = results_once ext 9 "AAPL" ("AAPL" ∷ []) refl whole_run

Reach-Calls_example :
    Calls ext dispatched (λ s. 4 * occurrences s dispatched.symbols) [] final.stored.effects
Reach-Calls_example = Reach-Calls ext 9 ("AAPL" ∷ []) dispatched refl refl whole_run

pipeline_ends_example :
    (3 ≤ length {A = String} ("AAPL" ∷ []) + 5)
    × (is_over final.stage ≡ false → (d : Cluster ext) × Step ext 9 ("AAPL" ∷ []) final d)
pipeline_ends_example = pipeline_ends ext network 9 ("AAPL" ∷ []) refl whole_run

abbrev request : BacktestCreateRequest (json_types naturals json_values)
request = record {
  strategy_name = "bollinger_reversion";
  symbols = "AAPL" ∷ [];
  parameters = settings;
  start_date = 700;
  end_date = 701;
}

request_accepted :
    validate_request
      (json_types naturals json_values)
      (λ s. 19)
      (accepts_params naturals json_values)
      request
    ≡ ok request
unfolding validate_request run_validators validate_strategy validate_date_range validate_parameters
    get_strategies get_params_model bollinger_params length_field std_dev_field exit_at_field
    initial_capital_field no_extra
request_accepted = refl

accepted_builds_example :
    let types = json_types naturals json_values in
    let (_, t') = create_backtest_job types ext.jobs 10 1000 request (dispatched ∷ []) in
    (j : JobOf ext) × (cls : StrategyClass) × (params : BollingerParams naturals)
    × (get_backtest_job types ext.jobs 10 t' ≡ ok j)
    × (j.symbols ≢ [])
    × (j.start_date ≤ j.end_date)
    × (get_strategy j.strategy_name ≡ ok cls)
    × (bollinger_params naturals json_values j.parameters ≡ ok params)
    × IsValid naturals params
accepted_builds_example =
    accepted_builds ext (λ s. 19) request 10 1000 (dispatched ∷ []) refl request_accepted

-- Stored bars of one session, latest first; the strategy trades on four of them.
abbrev bar_at : ℕ → ℕ → Row ℕ id
bar_at t close = record {
  symbol = "AAPL";
  interval = one_minute;
  timestamp = 34200000000 + t;
  open_price = close;
  high = close;
  low = close;
  close = close;
  volume = 100;
}

abbrev latest_first : List (Row ℕ id)
latest_first =
    bar_at 9 11
    ∷ bar_at 8 10
    ∷ bar_at 7 21
    ∷ bar_at 6 12
    ∷ bar_at 5 18
    ∷ bar_at 4 18
    ∷ bar_at 3 18
    ∷ bar_at 2 18
    ∷ bar_at 1 18
    ∷ []

abbrev session_job : JobOf ext
session_job = record dispatched { start_date = 34200; end_date = 34201 }

session_result :
    (r : BacktestResult naturals) × (backtest_result ext 9 "AAPL" (session_job ∷ []) latest_first
      ≡ ok r)
    × (length r.trades ≡ 4)
unfolding get_backtest_job get_ohlcv_data from_record from_records backtest_result to_dataframe
    sort_index get_strategy has_bars run_strategy bollinger_params length_field std_dev_field
    exit_at_field initial_capital_field no_extra run find_column apply_bands bars_from scan step
    emit force_exit trade_bars regular_session_mask is_regular_session calculate_metrics metrics_of
    make_metrics pair_up equity_curve trade_step make_trade resolve_interval
session_result = (_, refl, refl)

saved_result-IsSorted_example :
    let raw = (saved_result ext 9 "AAPL" session_result.0).raw in
    IsSorted (trade_times naturals raw.trades) × IsSorted raw.index
saved_result-IsSorted_example =
    saved_result-IsSorted ext 9 "AAPL" (session_job ∷ []) latest_first session_result.1
