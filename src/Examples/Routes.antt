-- ===== src/Examples/Routes.antt =====
-- The theorems on the routes and the exception handlers, on one request.
use stock_trader.Api.Responses.{BacktestResponse}
use stock_trader.Api.Routes.Pages.{Passes, list_pages}
use stock_trader.Prelude.{List, some, ◌++◌, length, ◌≤◌, ◌<◌, All, ◌≡◌, refl, false, none, [], ◌∷◌}
use stock_trader.Errors.{Exception, mro, no_data_error, text}
use stock_trader.Models.{created}
use stock_trader.Api.Handlers.{WebFramework, first_handled, respond, respond-status}
use stock_trader.Api.Routes.{
  list_backtests, returned, status_code, create_backtest, get_backtest, dispatch_backtest,
}
use stock_trader.Api.Routes.Statuses.{dispatch_status, create_get}
use stock_trader.Jobs.Table.{Job}
use stock_trader.Examples.Rows.{text_parameters, version_table}
use stock_trader.Examples.Submissions.{submission}
use stock_trader.Examples.JobRuns.{job, world, two_jobs}

abbrev by_mro : WebFramework
by_mro = record {
  lookup_handler = λ handlers e. first_handled (mro e.class_of) handlers;
  lookup_handler-mro = λ handlers e. refl;
}

abbrev no_data : Exception
no_data = record { class_of = no_data_error; message = text "no data" ∷ [] }

respond-status_example : (respond by_mro no_data).status_code ≡ 400
respond-status_example = respond-status by_mro no_data

dispatch_status_example :
    status_code by_mro 200 (dispatch_backtest text_parameters version_table false 1100 8 world).0
    ≡ 500
dispatch_status_example = dispatch_status text_parameters version_table by_mro false 1100 8 world

create_get_example :
    let (created_response, t') =
      create_backtest text_parameters version_table 9 1000 submission two_jobs in
    (created_response ≡ returned (record { uuid = 9; status = created }))
    × (get_backtest text_parameters version_table 9 t'
        ≡ returned (record {
          uuid = 9;
          status = created;
          strategy_name = "bollinger_reversion";
          symbols = "AAPL" ∷ [];
          parameters = [];
          error = none;
          create_time = 1000;
          start_time = none;
          end_time = none;
        }))
create_get_example = create_get text_parameters version_table 9 1000 9 submission two_jobs refl

abbrev paged_jobs : List (Job text_parameters)
paged_jobs = job 7 ∷ record (job 8) { create_time = 999 } ∷ []

list_pages_example :
    (first second : List (BacktestResponse text_parameters)) × (list_backtests text_parameters
        version_table tt
        (some created)
        0
        1
        paged_jobs
      ≡ returned first)
    × (list_backtests text_parameters version_table tt (some created) 1 4 paged_jobs
        ≡ returned second)
    × (list_backtests text_parameters version_table tt (some created) 0 5 paged_jobs
        ≡ returned (first ++ second))
    × (length first ≤ 1)
    × All (Passes (some created)) first
    × (length first < 1 → second ≡ [])
list_pages_example =
    list_pages text_parameters version_table (some created) 0 1 4 tt tt tt paged_jobs
      ((refl, tt), (tt, tt)) refl refl refl
