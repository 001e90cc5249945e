-- ===== src/Jobs/Finalize.antt =====
-- The end of a job in core/backtest.py: what a `run_backtest` task returns to the chord, and
-- `finalize_backtest_job`, which gets these values in a list.
pub mod Outcome
use stock_trader.Prelude.{
  ℕ, ◌≡◌, Bool, true, false, not, Option, none, some, List, [], ◌∷◌, ◌++◌, map, String, filter,
  length, if◌then◌else◌,
}
use stock_trader.Errors.{Message, Piece, text, number, is_empty_message, Result, ok, err}
use stock_trader.Models.{BacktestStatus, completed, failed}
use stock_trader.Jobs.Table.{JobTypes, Job, JobTables}
use stock_trader.Jobs.Repository.{update_job_status_sync}

-- `{"symbol": ..., "error": ...}`, or `{"symbol": ..., "status": "completed"}`, which has no error.
pub record TaskResult : Type 0 where
  pub symbol : String
  pub error : Option Message

-- The `except` and the last line of `run_backtest`, on how the body of its `try` ended.
unfoldable pub report : String → Result (Unit {0}) → TaskResult
report symbol (ok _) = record { symbol = symbol; error = none }
report symbol (err exc) = record { symbol = symbol; error = some exc.message }

-- The truth value of `r.get("error")`: a missing error is `None`, and an empty text is false too.
unfoldable pub has_error : TaskResult → Bool
has_error r = elim r.error [ none ↦ false | some msg ↦ not (is_empty_message msg) ]

-- `', '.join(symbols)`
abbrev pub join : List String → Message
join [] = []
join (s ∷ []) = text s ∷ []
join (s ∷ t ∷ rest) = text s ∷ text ", " ∷ join (t ∷ rest)

unfoldable pub error_msg : List TaskResult → List TaskResult → Message
error_msg failures results =
    number (length failures)
    ∷ text " of "
    ∷ number (length results)
    ∷ text " symbols failed: "
    ∷ join (map (λ (r : TaskResult). r.symbol) failures)

abbrev pub status_for : List TaskResult → BacktestStatus
status_for [] = completed
status_for (r ∷ rs) = failed

abbrev pub error_for : List TaskResult → List TaskResult → Option Message
error_for [] results = none
error_for (r ∷ rs) results = some (error_msg (r ∷ rs) results)

-- `finalize_backtest_job` on the table, at time `now`, with the answer of the database.
unfoldable pub finalize_backtest_job :
    (types : JobTypes) (tables : JobTables types)
    → Result (Unit {0})
    → List TaskResult
    → ℕ
    → ℕ
    → tables.Table
    → Result tables.Table
finalize_backtest_job types tables answer results u now t =
    let failures = filter has_error results in
    update_job_status_sync types tables answer u (status_for failures) (error_for failures results)
      now t
