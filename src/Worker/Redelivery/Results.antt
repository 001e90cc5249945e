-- ===== src/Worker/Redelivery/Results.antt =====
-- The saved results of a job whose tasks may run again.
use stock_trader.Prelude.{
  ℕ, zero, ◌≡◌, refl, subst, ◌∙◌, inl, inr, true, none, some, List, ◌∷◌, ◌++◌, filter, String, All,
  ==_refl, Bool-cases,
}
use stock_trader.Errors.{Result, ok, err}
use stock_trader.Models.{completed}
use stock_trader.Jobs.Finalize.{TaskResult, has_error, status_for, error_for}
use stock_trader.Jobs.Finalize.Outcome.{finalize_lem}
use stock_trader.Worker.Externals.{Externals, JobOf, json_types}
use stock_trader.Worker.Backtest.{SavedResult, backtest_result, run_backtest}
use stock_trader.Worker.Fetch.{Stored, ensure_market_data_for_job, is_retried}
use stock_trader.Worker.Pipeline.{
  Stage, fetching, charting, finalized, abandoned, Cluster, Header, all_results, fetch_ended,
  after_fetch, after_backtest, after_callback, fetch, backtest, callback,
}
use stock_trader.Worker.Pipeline.Invariant.{finished_row}
use stock_trader.Worker.Pipeline.Refinement.{SpeaksUp, names_have_results, completed_quietly}
use stock_trader.Worker.Pipeline.Saved.{
  has_result, HeaderHolds, HeaderHolds-backtest, HeaderHolds-start, EntryHolds-more,
  save_if_ok-saves,
}
use stock_trader.Worker.Redelivery.{
  Delivery, acknowledged, fetch_cut, fetch_lost, backtest_lost, callback_lost, Delivered, sent,
  delivered,
}
use stock_trader.Worker.Redelivery.Life.{Delivered-Evolves}

module _ (ext : Externals) (u : ℕ) (symbols : List String) where
  open ext use {floats, values, jobs}

  -- After the callback, the row is one that its results have ended.
  abbrev Ended : jobs.Table → List TaskResult → Type 0
  Ended t results =
      (now : ℕ) × (k : JobOf ext) × (jobs.select_by_uuid u t
        ≡ some (
            finished_row ext u symbols k (status_for (filter has_error results))
              (error_for (filter has_error results) results) now))

  abbrev SoFar : Stage → jobs.Table → List (SavedResult ext) → Type 0
  SoFar (fetching retries) t saved = Unit
  SoFar (charting header) t saved = HeaderHolds ext u symbols saved header
  SoFar (finalized header) t saved =
      (results : List TaskResult) × (all_results header ≡ some results)
      × HeaderHolds ext u symbols saved header
      × Ended t results
  SoFar (abandoned e) t saved = Unit

  backtest-saves :
      (c : Cluster ext) (before after : Header) (s : String) (answer : Result (Unit {0}))
      → HeaderHolds ext u symbols c.saved (before ++ ((s, none) ∷ after))
      → let d = after_backtest ext u symbols answer before s after c in
        SoFar d.stage d.table d.saved
        × HeaderHolds ext u symbols d.saved (before ++ ((s, none) ∷ after))
  unfolding after_backtest run_backtest
  backtest-saves c before after s answer holds =
      let (more, e, saves) =
        save_if_ok-saves ext u answer s c.saved (backtest_result ext u s c.table c.stored.table) in
      rw e (
        HeaderHolds-backtest ext u symbols before after s _ c.saved more saves holds,
        record {
          same_names = holds.same_names;
          entries =
              EntryHolds-more ext u c.saved more (before ++ ((s, none) ∷ after)) holds.entries;
        },
      )

  fetch-SoFar :
      (c : Cluster ext) (now retries : ℕ) (r : Result (Unit {0})) (w : Stored ext)
      → let d = fetch_ended ext u symbols now retries c (r, w) in SoFar d.stage d.table d.saved
  fetch-SoFar c now retries (ok _) w = HeaderHolds-start ext u symbols c.saved
  fetch-SoFar c now retries (err e) w = elim (Bool-cases (is_retried retries e)) [
    | inl again ↦ rw again tt
    | inr final ↦ rw final tt
  ]

  callback-Ended :
      (c : Cluster ext) (j : JobOf ext) (header : Header) (results : List TaskResult) (now : ℕ)
      → jobs.select_by_uuid u c.table ≡ some j
      → Ended (after_callback ext u symbols now header results c).table results
  unfolding after_callback
  callback-Ended c j header results now h =
      let (t', written, rows) =
        finalize_lem (json_types floats values) jobs u now results c.table j h in
      rw written (now, j, rows u ∙ rw (==_refl u) refl)

  at_stage :
      (c : Cluster ext) (stage : Stage)
      → c.stage ≡ stage
      → SoFar c.stage c.table c.saved
      → SoFar stage c.table c.saved
  at_stage c stage e h = subst (λ z. SoFar z c.table c.saved) e h

  -- In every stage: the tasks of the chord that report no error have saved their results.
  Delivery-SoFar :
      (j : JobOf ext) {c d : Cluster ext}
      → Delivery ext u symbols c d
      → jobs.select_by_uuid u c.table ≡ some j
      → SoFar c.stage c.table c.saved
      → SoFar d.stage d.table d.saved
  unfolding after_fetch after_callback after_backtest
  Delivery-SoFar j (acknowledged (fetch {c = c} {retries = retries} net now e)) row h =
      let (result, w) = ensure_market_data_for_job ext net u c.table c.stored in
      fetch-SoFar c now retries result w
  Delivery-SoFar j (acknowledged (backtest {c = c} before s after answer e)) row h =
      (backtest-saves c before after s answer
        (at_stage c (charting (before ++ ((s, none) ∷ after))) e h)).0
  Delivery-SoFar j (acknowledged (callback {c = c} header results now e done)) row h =
      (results, done, at_stage c (charting header) e h, callback-Ended c j header results now row)
  Delivery-SoFar j (fetch_cut {c = c} {retries = retries} net n e) row h = h
  Delivery-SoFar j (fetch_lost {c = c} {retries = retries} net now e) row h = rw e tt
  Delivery-SoFar j (backtest_lost {c = c} before s after answer e) row h =
      let holds = at_stage c (charting (before ++ ((s, none) ∷ after))) e h in
      rw e ((backtest-saves c before after s answer holds).1)
  Delivery-SoFar j (callback_lost {c = c} header results now e done) row h =
      rw e (at_stage c (charting header) e h)

  pub Delivered-SoFar :
      (j : JobOf ext) {start c : Cluster ext} {n : ℕ}
      → start.stage ≡ fetching zero
      → jobs.select_by_uuid u start.table ≡ some j
      → Delivered ext u symbols start n c
      → SoFar c.stage c.table c.saved
  Delivered-SoFar j {start = start} e row sent = rw e tt
  Delivered-SoFar j e row (delivered r step) =
      let before = Delivered-Evolves ext u symbols j r row in
      Delivery-SoFar before.row step before.is_there (Delivered-SoFar j e row r)

-- However often tasks run again: let the pipeline of a job that exists have come to its end by the
-- callback, and let no task of the chord have reported an error with an empty text. If the job is
-- COMPLETED, then a result of the job is saved for each symbol of the pipeline.
pub redelivered_saved :
    (ext : Externals) (u : ℕ) (symbols : List String) (j k : JobOf ext) {start c : Cluster ext}
    {n : ℕ} (header : Header)
    → start.stage ≡ fetching zero
    → ext.jobs.select_by_uuid u start.table ≡ some j
    → Delivered ext u symbols start n c
    → c.stage ≡ finalized header
    → All SpeaksUp header
    → ext.jobs.select_by_uuid u c.table ≡ some k
    → k.status ≡ completed
    → All (λ s. has_result ext u s c.saved ≡ true) symbols
redelivered_saved ext u symbols j k {c = c} header e row r over loud now_row status =
    let h = Delivered-SoFar ext u symbols j e row r in
    let (results, done, holds, (now, j', ended)) =
      subst (λ z. SoFar ext u symbols z c.table c.saved) over h in
    let reached = completed_quietly ext u symbols j' k c.table results now ended now_row status in
    subst (All (λ s. has_result ext u s c.saved ≡ true)) holds.same_names
      (names_have_results ext u c.saved header results loud holds.entries done reached)
