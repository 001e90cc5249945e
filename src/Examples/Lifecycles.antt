-- ===== src/Examples/Lifecycles.antt =====
-- The theorem on the life of a job, on a job that is dispatched and runs to its end.
use stock_trader.Examples.Pipelines.{json_values, ext, dispatched, network, sent, result}
use stock_trader.Worker.Pipeline.Lifecycle.{Ended, dispatched_job_ends}
use stock_trader.Jobs.Service.{
  World, dispatch_backtest_job, check_dispatch, commit_dispatch, dispatch_backtest,
}
use stock_trader.Jobs.Repository.{update_job_status}
use stock_trader.Models.{created}
use stock_trader.Prelude.{ℕ, zero, ◌≡◌, ◌≢◌, refl, true, none, some, [], ◌∷◌}
use stock_trader.Errors.{ok}
use stock_trader.Strategy.Bollinger.{
  run, find_column, apply_bands, bars_from, scan, step, emit, force_exit, trade_bars,
}
use stock_trader.Strategy.Params.{
  no_extra, length_field, std_dev_field, exit_at_field, initial_capital_field, bollinger_params,
}
use stock_trader.Worker.Externals.{JobOf, json_types}
use stock_trader.Worker.Fetch.{ensure_market_data_for_job, ensure_symbols}
use stock_trader.Worker.Backtest.{
  run_backtest, backtest_result, to_dataframe, sort_index, run_strategy, save_job_result,
}
use stock_trader.Worker.Pipeline.{
  Cluster, charting, after_fetch, after_backtest, after_callback, fetch, backtest, callback, Reach,
  here, next,
}
use stock_trader.Worker.Pipeline.Refinement.{is_over}
use stock_trader.Jobs.Finalize.{report}
use stock_trader.Jobs.Repository.{get_backtest_job, set_status}
use stock_trader.MarketData.Intervals.{provider_params, resolve_interval}
use stock_trader.MarketData.Bars.{has_bars, fetch_ohlcv, aggs_to_ohlcv_series, agg_to_ohlcv}
use stock_trader.MarketData.Rows.{
  get_ohlcv_data, bulk_insert_market_data, records, from_record, from_records,
}
use stock_trader.MarketData.Service.{ensure_data, fetch_missing, fetch_and_save, save}
use stock_trader.Strategy.Registry.{get_strategy}
use stock_trader.Strategy.Session.{regular_session_mask, is_regular_session}
use stock_trader.Strategy.Metrics.{
  calculate_metrics, metrics_of, make_metrics, pair_up, equity_curve, trade_step,
}
use stock_trader.Examples.Naturals.{naturals}

abbrev new_job : JobOf ext
new_job = record dispatched { status = created; start_time = none }

abbrev before_dispatch : World (json_types naturals json_values) ext.jobs
before_dispatch = record { table = new_job ∷ []; dispatched = [] }

abbrev ready : Cluster ext
ready = record sent {
  table =
      (dispatch_backtest_job (json_types naturals json_values) ext.jobs true 1100 9
        before_dispatch).1.table;
}

abbrev fetched : Cluster ext
fetched = after_fetch ext 9 ("AAPL" ∷ []) network 1200 zero ready

abbrev tested : Cluster ext
tested = after_backtest ext 9 ("AAPL" ∷ []) (ok tt) [] "AAPL" [] fetched

abbrev final : Cluster ext
final = after_callback ext 9 ("AAPL" ∷ []) 1300 (("AAPL", some result) ∷ []) (result ∷ []) tested

fetched_stage : fetched.stage ≡ charting (("AAPL", none) ∷ [])
unfolding after_fetch ensure_market_data_for_job ensure_symbols get_backtest_job ensure_data
    get_ohlcv_data fetch_missing fetch_and_save save has_bars fetch_ohlcv provider_params
    aggs_to_ohlcv_series resolve_interval agg_to_ohlcv bulk_insert_market_data records
    dispatch_backtest_job check_dispatch commit_dispatch dispatch_backtest update_job_status
    set_status
fetched_stage = refl

tested_stage : tested.stage ≡ charting (("AAPL", some result) ∷ [])
unfolding after_fetch ensure_market_data_for_job ensure_symbols get_backtest_job ensure_data
    get_ohlcv_data fetch_missing fetch_and_save save has_bars fetch_ohlcv provider_params
    aggs_to_ohlcv_series resolve_interval agg_to_ohlcv bulk_insert_market_data records from_record
    from_records after_backtest run_backtest backtest_result to_dataframe sort_index get_strategy
    run_strategy save_job_result report bollinger_params length_field std_dev_field exit_at_field
    initial_capital_field no_extra run find_column apply_bands bars_from scan step emit force_exit
    trade_bars regular_session_mask is_regular_session calculate_metrics metrics_of make_metrics
    pair_up equity_curve trade_step dispatch_backtest_job check_dispatch commit_dispatch
    dispatch_backtest update_job_status set_status
tested_stage = refl

whole_run : Reach ext 9 ("AAPL" ∷ []) ready 3 final
whole_run =
    next (next (next here (fetch network 1200 refl)) (backtest [] "AAPL" [] (ok tt) fetched_stage))
      (callback (("AAPL", some result) ∷ []) (result ∷ []) 1300 tested_stage refl)

final_over : is_over final.stage ≡ true
unfolding after_callback
final_over = refl

dispatched_job_ends_example :
    ((k : JobOf ext) × (ext.jobs.select_by_uuid 9 final.table ≡ some k) × Ended ext 1100 k)
    × ((v : ℕ)
        → 9 ≢ v
        → ext.jobs.select_by_uuid v final.table ≡ ext.jobs.select_by_uuid v (new_job ∷ []))
dispatched_job_ends_example =
    dispatched_job_ends ext 1100 9 new_job before_dispatch refl refl refl refl whole_run final_over
