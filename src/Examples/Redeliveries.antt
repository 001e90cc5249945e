-- ===== src/Examples/Redeliveries.antt =====
-- The theorems on tasks that run again, on the job with one symbol.
use stock_trader.Prelude.{zero, ◌≡◌, refl, true, none, some, [], ◌∷◌, All}
use stock_trader.Errors.{ok}
use stock_trader.Models.{completed}
use stock_trader.Strategy.Bollinger.{
  run, find_column, apply_bands, bars_from, scan, step, emit, force_exit, trade_bars,
}
use stock_trader.Strategy.Params.{
  no_extra, length_field, std_dev_field, exit_at_field, initial_capital_field, bollinger_params,
}
use stock_trader.Worker.Externals.{json_types}
use stock_trader.Worker.Fetch.{ensure_market_data_for_job, ensure_symbols}
use stock_trader.Worker.Backtest.{
  run_backtest, backtest_result, to_dataframe, sort_index, run_strategy, save_job_result,
}
use stock_trader.Worker.Pipeline.{
  Header, Cluster, charting, after_fetch, after_backtest, after_callback, fetch, backtest, callback,
}
use stock_trader.Worker.Pipeline.Saved.{has_result}
use stock_trader.Worker.Redelivery.{
  cut_short, unacknowledged, Delivery, acknowledged, fetch_cut, backtest_lost, callback_lost,
  Delivered, delivered,
}
use stock_trader.Worker.Redelivery as Redelivery
use stock_trader.Worker.Pipeline.Once.{results_of}
use stock_trader.Worker.Redelivery.Life.{Evolves, Delivered-Evolves}
use stock_trader.Worker.Redelivery.Results.{redelivered_saved}
use stock_trader.Examples.Pipelines.{json_values, ext, dispatched, network, sent, result}
use stock_trader.Jobs.Finalize.{report, has_error, finalize_backtest_job}
use stock_trader.Jobs.Repository.{get_backtest_job, set_status, update_job_status_sync}
use stock_trader.MarketData.Intervals.{provider_params, resolve_interval}
use stock_trader.MarketData.Bars.{has_bars, fetch_ohlcv, aggs_to_ohlcv_series, agg_to_ohlcv}
use stock_trader.MarketData.Rows.{
  get_ohlcv_data, bulk_insert_market_data, records, from_record, from_records,
}
use stock_trader.MarketData.Service.{ensure_data, fetch_missing, fetch_and_save, save}
use stock_trader.Strategy.Registry.{get_strategy}
use stock_trader.Strategy.Session.{regular_session_mask, is_regular_session}
use stock_trader.Strategy.Metrics.{
  calculate_metrics, metrics_of, make_metrics, pair_up, equity_curve, trade_step,
}
use stock_trader.Examples.Naturals.{naturals}

abbrev cut : Cluster ext
cut = record sent {
  stored =
      cut_short ext network 1 sent.stored
        (get_backtest_job (json_types naturals json_values) ext.jobs 9 sent.table);
}

abbrev fetched : Cluster ext
fetched = after_fetch ext 9 ("AAPL" ∷ []) network 1200 zero cut

abbrev tested_once : Cluster ext
tested_once =
    unacknowledged ext fetched (after_backtest ext 9 ("AAPL" ∷ []) (ok tt) [] "AAPL" [] fetched)

abbrev tested : Cluster ext
tested = after_backtest ext 9 ("AAPL" ∷ []) (ok tt) [] "AAPL" [] tested_once

abbrev header : Header
header = ("AAPL", some result) ∷ []

abbrev called_once : Cluster ext
called_once =
    unacknowledged ext tested (after_callback ext 9 ("AAPL" ∷ []) 1250 header (result ∷ []) tested)

abbrev final : Cluster ext
final = after_callback ext 9 ("AAPL" ∷ []) 1300 header (result ∷ []) called_once

fetched_stage : fetched.stage ≡ charting (("AAPL", none) ∷ [])
unfolding after_fetch ensure_market_data_for_job ensure_symbols get_backtest_job ensure_data
    get_ohlcv_data fetch_missing fetch_and_save save has_bars fetch_ohlcv provider_params
    aggs_to_ohlcv_series resolve_interval agg_to_ohlcv bulk_insert_market_data records from_record
    from_records after_backtest run_backtest backtest_result to_dataframe sort_index get_strategy
    run_strategy save_job_result report bollinger_params length_field std_dev_field exit_at_field
    initial_capital_field no_extra run find_column apply_bands bars_from scan step emit force_exit
    trade_bars regular_session_mask is_regular_session calculate_metrics metrics_of make_metrics
    pair_up equity_curve trade_step
fetched_stage = refl

tested_stage : tested.stage ≡ charting header
unfolding after_fetch ensure_market_data_for_job ensure_symbols get_backtest_job ensure_data
    get_ohlcv_data fetch_missing fetch_and_save save has_bars fetch_ohlcv provider_params
    aggs_to_ohlcv_series resolve_interval agg_to_ohlcv bulk_insert_market_data records from_record
    from_records after_backtest run_backtest backtest_result to_dataframe sort_index get_strategy
    run_strategy save_job_result report bollinger_params length_field std_dev_field exit_at_field
    initial_capital_field no_extra run find_column apply_bands bars_from scan step emit force_exit
    trade_bars regular_session_mask is_regular_session calculate_metrics metrics_of make_metrics
    pair_up equity_curve trade_step
tested_stage = refl

-- Its results are saved twice.
saved_twice : results_of ext 9 "AAPL" final.saved ≡ 2
unfolding after_callback after_fetch ensure_market_data_for_job ensure_symbols get_backtest_job
    ensure_data get_ohlcv_data fetch_missing fetch_and_save save has_bars fetch_ohlcv
    provider_params aggs_to_ohlcv_series resolve_interval agg_to_ohlcv bulk_insert_market_data
    records from_record from_records after_backtest run_backtest backtest_result to_dataframe
    sort_index get_strategy run_strategy save_job_result report bollinger_params length_field
    std_dev_field exit_at_field initial_capital_field no_extra run find_column apply_bands bars_from
    scan step emit force_exit trade_bars regular_session_mask is_regular_session calculate_metrics
    metrics_of make_metrics pair_up equity_curve trade_step
saved_twice = refl

deliveries : Delivered ext 9 ("AAPL" ∷ []) sent 6 final
unfolding after_backtest
deliveries =
    delivered
      (delivered
        (delivered
          (delivered
            (delivered (delivered Redelivery.sent (fetch_cut network 1 refl))
              (acknowledged (fetch network 1200 refl)))
            (backtest_lost [] "AAPL" [] (ok tt) fetched_stage))
          (acknowledged (backtest [] "AAPL" [] (ok tt) fetched_stage)))
        (callback_lost header (result ∷ []) 1250 tested_stage refl))
      (acknowledged (callback header (result ∷ []) 1300 tested_stage refl))

Delivered-Evolves_example : Evolves ext 9 dispatched sent.table final.table
Delivered-Evolves_example = Delivered-Evolves ext 9 ("AAPL" ∷ []) dispatched deliveries refl

final_row :
    ext.jobs.select_by_uuid 9 final.table
    ≡ some (
        set_status
          (json_types naturals json_values)
          completed
          none
          1300
          (set_status (json_types naturals json_values) completed none 1250 dispatched))
unfolding after_callback finalize_backtest_job has_error update_job_status_sync set_status
    after_fetch ensure_market_data_for_job ensure_symbols get_backtest_job ensure_data
    get_ohlcv_data fetch_missing fetch_and_save save has_bars fetch_ohlcv provider_params
    aggs_to_ohlcv_series resolve_interval agg_to_ohlcv bulk_insert_market_data records from_record
    from_records after_backtest run_backtest backtest_result to_dataframe sort_index get_strategy
    run_strategy save_job_result report bollinger_params length_field std_dev_field exit_at_field
    initial_capital_field no_extra run find_column apply_bands bars_from scan step emit force_exit
    trade_bars regular_session_mask is_regular_session calculate_metrics metrics_of make_metrics
    pair_up equity_curve trade_step
final_row = refl

redelivered_saved_example : All (λ s. has_result ext 9 s final.saved ≡ true) ("AAPL" ∷ [])
unfolding after_callback set_status
redelivered_saved_example =
    redelivered_saved ext 9 ("AAPL" ∷ []) dispatched
      (set_status (json_types naturals json_values) completed none 1300
        (set_status (json_types naturals json_values) completed none 1250 dispatched))
      header refl refl deliveries refl (tt, tt) final_row refl
