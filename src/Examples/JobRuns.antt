-- ===== src/Examples/JobRuns.antt =====
-- The theorems on backtest jobs, on a table with two rows.
use stock_trader.Prelude.{Bool, ℕ, ◌≡◌, ◌≢◌, ◌↔◌, refl, true, false, none, some, List, [], ◌∷◌, All}
use stock_trader.Errors.{ok, err, is_ok, raise, exception, job_already_running_error, text, number}
use stock_trader.Models.{created, running, completed}
use stock_trader.Jobs.Repository.Update.{SameRequest}
use stock_trader.Jobs.Table.{Job}
use stock_trader.Jobs.Service.{World, dispatch_backtest_job}
use stock_trader.Jobs.Service.Dispatch.{dispatch_effect, dispatch_twice}
use stock_trader.Jobs.Service.Race.{interleave, arriving, accepted, race_dispatches_twice}
use stock_trader.Jobs.Finalize.{finalize_backtest_job}
use stock_trader.Jobs.Finalize.Outcome.{
  Endings, reports, Succeeded, finalize_status, finalize_hides_blank,
}
use stock_trader.Examples.Rows.{text_parameters, version_table}

abbrev pub job : ℕ → Job text_parameters
job u = record {
  uuid = u;
  status = created;
  strategy_name = "bollinger_reversion";
  symbols = "AAPL" ∷ "MSFT" ∷ [];
  parameters = [];
  start_date = 100;
  end_date = 160;
  error = none;
  create_time = 1000;
  start_time = none;
  end_time = none;
}

abbrev pub two_jobs : List (Job text_parameters)
two_jobs = job 7 ∷ job 8 ∷ []

abbrev pub world : World text_parameters version_table
world = record { table = two_jobs; dispatched = [] }

dispatch_effect_example :
    let (result, w') = dispatch_backtest_job text_parameters version_table true 1100 8 world in
    (is_ok result ≡ true)
    × (w'.dispatched ≡ (8, "AAPL" ∷ "MSFT" ∷ []) ∷ [])
    × ((k : Job text_parameters) × (version_table.select_by_uuid 8 w'.table ≡ some k)
        × (k.status ≡ running)
        × (k.start_time ≡ some 1100)
        × (k.error ≡ none)
        × (k.end_time ≡ none)
        × SameRequest text_parameters (job 8) k)
    × ((v : ℕ)
        → 8 ≢ v
        → version_table.select_by_uuid v w'.table ≡ version_table.select_by_uuid v world.table)
dispatch_effect_example =
    dispatch_effect text_parameters version_table true 1100 8 (job 8) world refl refl

dispatch_twice_example :
    dispatch_backtest_job text_parameters version_table true 1300 8
      (dispatch_backtest_job text_parameters version_table false 1100 8 world).1
    ≡ (
      raise job_already_running_error (text "Job " ∷ number 8 ∷ text " is already running" ∷ []),
      (dispatch_backtest_job text_parameters version_table false 1100 8 world).1,
    )
dispatch_twice_example =
    dispatch_twice text_parameters version_table false true 1100 1300 8 (job 8) world refl refl

race_dispatches_twice_example :
    let turns = λ (order : List Bool).
      interleave text_parameters version_table true 1100 8 order
        (arriving text_parameters version_table world) in
    let apart = turns (true ∷ true ∷ false ∷ false ∷ []) in
    let racing = turns (true ∷ false ∷ false ∷ true ∷ []) in
    ((accepted text_parameters version_table apart.first ≡ true)
      × (accepted text_parameters version_table apart.second ≡ false)
      × (apart.world.dispatched ≡ (8, "AAPL" ∷ "MSFT" ∷ []) ∷ []))
    × (accepted text_parameters version_table racing.first ≡ true)
    × (accepted text_parameters version_table racing.second ≡ true)
    × (racing.world.dispatched ≡ (8, "AAPL" ∷ "MSFT" ∷ []) ∷ (8, "AAPL" ∷ "MSFT" ∷ []) ∷ [])
race_dispatches_twice_example =
    race_dispatches_twice text_parameters version_table 1100 8 false (job 8) world refl refl

abbrev one_failed : Endings
one_failed =
    ("AAPL", ok tt)
    ∷ ("MSFT", err (record { class_of = exception; message = text "boom" ∷ [] }))
    ∷ []

finalize_status_example :
    (t : version_table.Table) × (k : Job text_parameters) × (finalize_backtest_job text_parameters
        version_table
        (ok tt)
        (reports one_failed)
        8
        1600
        two_jobs
      ≡ ok t)
    × (version_table.select_by_uuid 8 t ≡ some k)
    × (k.end_time ≡ some 1600)
    × ((k.status ≡ completed) ↔ All Succeeded one_failed)
    × ((v : ℕ) → 8 ≢ v → version_table.select_by_uuid v t ≡ version_table.select_by_uuid v two_jobs)
finalize_status_example =
    finalize_status text_parameters version_table 8 1600 one_failed two_jobs (job 8) refl
      (tt, (refl, tt))

abbrev all_blank : Endings
all_blank =
    ("AAPL", err (record { class_of = exception; message = text "" ∷ [] }))
    ∷ ("MSFT", err (record { class_of = exception; message = [] }))
    ∷ []

finalize_hides_blank_example :
    (t : version_table.Table) × (k : Job text_parameters) × (finalize_backtest_job text_parameters
        version_table
        (ok tt)
        (reports all_blank)
        8
        1600
        two_jobs
      ≡ ok t)
    × (version_table.select_by_uuid 8 t ≡ some k)
    × (k.status ≡ completed)
    × (k.error ≡ none)
finalize_hides_blank_example =
    finalize_hides_blank text_parameters version_table 8 1600 all_blank two_jobs (job 8) refl
      (refl, (refl, tt))
