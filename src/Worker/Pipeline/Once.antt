-- ===== src/Worker/Pipeline/Once.antt =====
-- How many results of a symbol the pipeline saves.
use stock_trader.Prelude.{
  ℕ, zero, ◌+◌, ◌≤◌, ◌≡◌, refl, inl, inr, ◌&&◌, none, some, List, [], ◌∷◌, ◌++◌, String, arith,
  str_eq, ◌==◌, ==_refl, Bool-cases,
}
use stock_trader.Errors.{Result, ok, err}
use stock_trader.Strategy.Bollinger.{BacktestResult}
use stock_trader.Jobs.Finalize.{TaskResult}
use stock_trader.Worker.Externals.{Externals}
use stock_trader.Worker.Backtest.{
  SavedResult, saved_result, save_job_result, save_if_ok, backtest_result, run_backtest,
}
use stock_trader.Worker.Fetch.{Stored, ensure_market_data_for_job, is_retried}
use stock_trader.Worker.Fetch.Calls.{one, occurrences}
use stock_trader.Worker.Pipeline.{
  Header, task_group, Stage, fetching, charting, finalized, abandoned, Cluster, fetch_ended,
  after_fetch, after_backtest, after_callback, Step, fetch, backtest, callback, Reach, here, next,
}

-- The places of a symbol among the tasks that have not finished.
abbrev unfinished : String → Header → ℕ
unfinished s [] = 0
unfinished s ((k, none) ∷ rest) = one (str_eq k s) + unfinished s rest
unfinished s ((k, some r) ∷ rest) = unfinished s rest

unfinished-task_group :
    (s : String) (symbols : List String) → unfinished s (task_group symbols) ≡ occurrences s symbols
unfinished-task_group s [] = refl
unfinished-task_group s (k ∷ ks) = omega (arith, unfinished-task_group s ks)

unfinished-finish :
    (s k : String) (r : TaskResult) (before after : Header)
    → unfinished s (before ++ ((k, none) ∷ after))
      ≡ one (str_eq k s) + unfinished s (before ++ ((k, some r) ∷ after))
unfinished-finish s k r [] after = refl
unfinished-finish s k r ((x, none) ∷ before) after =
    omega (arith, unfinished-finish s k r before after)
unfinished-finish s k r ((x, some q) ∷ before) after = unfinished-finish s k r before after

module _ (ext : Externals) (u : ℕ) (s : String) where
  open ext use {floats}

  -- The saved results of the job for the symbol.
  abbrev pub results_of : List (SavedResult ext) → ℕ
  results_of [] = 0
  results_of (row ∷ rows) = one ((row.job_id == u) && str_eq row.symbol s) + results_of rows

  results_of-append :
      (xs ys : List (SavedResult ext)) → results_of (xs ++ ys) ≡ results_of xs + results_of ys
  results_of-append [] ys = omega arith
  results_of-append (x ∷ xs) ys = omega (arith, results_of-append xs ys)

  save_if_ok-results_of :
      (answer : Result (Unit {0})) (k : String) (saved : List (SavedResult ext))
      (r : Result (BacktestResult floats))
      → results_of (save_if_ok ext answer u k saved r).1 ≤ one (str_eq k s) + results_of saved
  unfolding save_job_result
  save_if_ok-results_of answer k saved (err e) = omega arith
  save_if_ok-results_of (err e) k saved (ok r) = omega arith
  save_if_ok-results_of (ok _) k saved (ok r) =
      let added = results_of-append saved (saved_result ext u k r ∷ []) in
      let added' = rw (==_refl u) at added in omega (arith, added')

  module _ (symbols : List String) (before_start : ℕ) where
    abbrev limit : ℕ
    limit = before_start + occurrences s symbols

    -- Nothing is saved before the chord.
    abbrev Few : Stage → List (SavedResult ext) → Type 0
    Few (fetching retries) saved = results_of saved ≤ before_start
    Few (charting header) saved = results_of saved + unfinished s header ≤ limit
    Few (finalized header) saved = results_of saved ≤ limit
    Few (abandoned e) saved = results_of saved ≤ limit

    fetch_ended-Few :
        (now retries : ℕ) (c : Cluster ext) (r : Result (Unit {0})) (w : Stored ext)
        → results_of c.saved ≤ before_start
        → let d = fetch_ended ext u symbols now retries c (r, w) in Few d.stage d.saved
    fetch_ended-Few now retries c (ok _) w h = omega (arith, unfinished-task_group s symbols)
    fetch_ended-Few now retries c (err e) w h = elim (Bool-cases (is_retried retries e)) [
      | inl again ↦ rw again h
      | inr final ↦ rw final (omega arith)
    ]

    Step-Few :
        {c d : Cluster ext} → Step ext u symbols c d → Few c.stage c.saved → Few d.stage d.saved
    unfolding after_fetch after_backtest run_backtest after_callback
    Step-Few (fetch {c = c} {retries = retries} net now e) h =
        let (result, w) = ensure_market_data_for_job ext net u c.table c.stored in
        fetch_ended-Few now retries c result w (rw e at h)
    Step-Few (backtest {c = c} before k after answer e) h =
        let result = backtest_result ext u k c.table c.stored.table in
        let h' : Few (charting (before ++ ((k, none) ∷ after))) c.saved = rw e at h in
        omega (
          arith,
          h',
          save_if_ok-results_of answer k c.saved result,
          unfinished-finish s k (run_backtest ext answer u k c.table c.stored.table c.saved).0
              before after,
        )
    Step-Few (callback {c = c} header results now e done) h =
        let h' : Few (charting header) c.saved = rw e at h in omega (arith, h')

-- A run of the pipeline in which no task runs again saves at most one result of the job for each place
-- of a symbol in the list of symbols.
pub results_once :
    (ext : Externals) (u : ℕ) (s : String) (symbols : List String) {start c : Cluster ext} {n : ℕ}
    → start.stage ≡ fetching zero
    → Reach ext u symbols start n c
    → results_of ext u s c.saved ≤ results_of ext u s start.saved + occurrences s symbols
results_once ext u s symbols {start = start} {c = c} e r = last c.stage (reached r)
  where
    reached :
        {d : Cluster ext} {m : ℕ}
        → Reach ext u symbols start m d
        → Few ext u s symbols (results_of ext u s start.saved) d.stage d.saved
    reached here = rw e (omega arith)
    reached (next r' step) =
        Step-Few ext u s symbols (results_of ext u s start.saved) step (reached r')

    last :
        (stage : Stage)
        → Few ext u s symbols (results_of ext u s start.saved) stage c.saved
        → results_of ext u s c.saved ≤ results_of ext u s start.saved + occurrences s symbols
    last (fetching retries) h = omega (arith, h)
    last (charting header) h = omega (arith, h)
    last (finalized header) h = h
    last (abandoned e) h = h
