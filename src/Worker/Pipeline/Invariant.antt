-- ===== src/Worker/Pipeline/Invariant.antt =====
-- What holds of a cluster in every stage of the pipeline of job `u`, whose row was `j` when the pipeline
-- was sent.
use stock_trader.Prelude.{
  ℕ, zero, ◌≡◌, ◌≢◌, refl, sym, subst, ◌∙◌, inl, inr, Option, none, some, List, ◌∷◌, ◌++◌, filter,
  String, ◌==◌, ==_refl, ==_ne, Bool-cases, if◌then◌else◌,
}
use stock_trader.Errors.{Message, Exception, Result, ok, err}
use stock_trader.Models.{BacktestStatus, failed}
use stock_trader.Jobs.Repository.{set_status}
use stock_trader.Jobs.Repository.Update.{select-update, update_job_status_sync_found}
use stock_trader.Jobs.Finalize.{TaskResult, has_error, status_for, error_for}
use stock_trader.Jobs.Finalize.Outcome.{finalize_lem}
use stock_trader.Worker.Externals.{Externals, JobOf, json_types}
use stock_trader.Worker.Backtest.{SavedResult, backtest_result, run_backtest}
use stock_trader.Worker.Fetch.{
  Stored, ensure_market_data_for_job, is_retried, failure_error, on_fetch_failure,
}
use stock_trader.Worker.Pipeline.{
  Header, Stage, fetching, charting, finalized, abandoned, all_results, Cluster, fetch_ended,
  after_fetch, after_backtest, after_callback, Step, fetch, backtest, callback, Reach, here, next,
}
use stock_trader.Worker.Pipeline.Saved.{
  HeaderHolds, save_if_ok-saves, HeaderHolds-backtest, HeaderHolds-start,
}

-- The row and the header in each stage.
module _ (ext : Externals) (u : ℕ) (symbols : List String) (j : JobOf ext) where
  open ext use {floats, values, jobs}

  abbrev pub finished_row : BacktestStatus → Option Message → ℕ → JobOf ext
  finished_row status error now = set_status (json_types floats values) status error now j

  abbrev pub StageHolds : Stage → jobs.Table → List (SavedResult ext) → Type 0
  StageHolds (fetching retries) t saved = jobs.select_by_uuid u t ≡ some j
  StageHolds (charting header) t saved =
      (jobs.select_by_uuid u t ≡ some j) × HeaderHolds ext u symbols saved header
  StageHolds (finalized header) t saved =
      (now : ℕ) × (results : List TaskResult) × (all_results header ≡ some results)
      × HeaderHolds ext u symbols saved header
      × (jobs.select_by_uuid u t
          ≡ some (
              finished_row (status_for (filter has_error results))
                (error_for (filter has_error results) results) now))
  StageHolds (abandoned e) t saved =
      (now : ℕ) × (jobs.select_by_uuid u t
        ≡ some (finished_row failed (some (failure_error e)) now))

  pub record Holds (start : jobs.Table) (c : Cluster ext) : Type 0 where
    pub stage_holds : StageHolds c.stage c.table c.saved
    pub others : (v : ℕ) → u ≢ v → jobs.select_by_uuid v c.table ≡ jobs.select_by_uuid v start

  pub on_fetch_failure_lem :
      (now : ℕ) (e : Exception) (t : jobs.Table)
      → jobs.select_by_uuid u t ≡ some j
      → (t' : jobs.Table) × (on_fetch_failure ext (ok tt) u now e t ≡ ok t')
        × ((v : ℕ)
            → jobs.select_by_uuid v t' ≡ (
                if u == v
                then some (finished_row failed (some (failure_error e)) now)
                else jobs.select_by_uuid v t))
  unfolding on_fetch_failure
  on_fetch_failure_lem now e t h =
      let error = failure_error e in
      (
        jobs.write_back (finished_row failed (some error) now) t,
        update_job_status_sync_found (json_types floats values) jobs u now failed (some error) t j
            h,
        λ v. select-update (json_types floats values) jobs u v now failed (some error) t j h,
      )

  module _ (start : jobs.Table) (c : Cluster ext) where
    fetch_ended-Holds :
        (now retries : ℕ) (r : Result (Unit {0})) (w : Stored ext)
        → Holds start (record c { stage = fetching retries })
        → Holds start (fetch_ended ext u symbols now retries c (r, w))
    fetch_ended-Holds now retries (ok _) w h = record {
      stage_holds = (h.stage_holds, HeaderHolds-start ext u symbols c.saved);
      others = h.others;
    }
    fetch_ended-Holds now retries (err e) w h = elim (Bool-cases (is_retried retries e)) [
      | inl again ↦ rw again (record { stage_holds = h.stage_holds; others = h.others })
      | inr final ↦
          let (t', written, rows) = on_fetch_failure_lem now e c.table h.stage_holds in
          rw (final, written)
            (record {
              stage_holds = (now, rows u ∙ rw (==_refl u) refl);
              others = λ v n. rows v ∙ rw (==_ne u v n) (h.others v n);
            })
    ]

    callback-Holds :
        (now : ℕ) (header : Header) (results : List TaskResult)
        → all_results header ≡ some results
        → Holds start (record c { stage = charting header })
        → Holds start (after_callback ext u symbols now header results c)
    unfolding after_callback
    callback-Holds now header results done h =
        let (row, holds) = h.stage_holds in
        let (t', written, rows) =
          finalize_lem (json_types floats values) jobs u now results c.table j row in
        rw written (record {
          stage_holds = (now, results, done, holds, rows u ∙ rw (==_refl u) refl);
          others = λ v n. rows v ∙ rw (==_ne u v n) (h.others v n);
        })

    backtest-Holds :
        (before : Header) (s : String) (after : Header) (answer : Result (Unit {0}))
        → Holds start (record c { stage = charting (before ++ ((s, none) ∷ after)) })
        → Holds start (after_backtest ext u symbols answer before s after c)
    unfolding after_backtest run_backtest
    backtest-Holds before s after answer h =
        let (row, holds) = h.stage_holds in
        let (more, e, saves) =
          save_if_ok-saves ext u answer s c.saved
            (backtest_result ext u s c.table c.stored.table) in
        rw e (record {
          stage_holds =
              (row, HeaderHolds-backtest ext u symbols before after s _ c.saved more saves holds);
          others = h.others;
        })

  at_stage :
      (start : jobs.Table) (c : Cluster ext) (stage : Stage)
      → c.stage ≡ stage
      → Holds start c
      → Holds start (record c { stage = stage })
  at_stage start c stage e h = record {
    stage_holds = subst (λ z. StageHolds z c.table c.saved) e h.stage_holds;
    others = h.others;
  }

  Step-Holds :
      (start : jobs.Table) {c d : Cluster ext}
      → Step ext u symbols c d
      → Holds start c
      → Holds start d
  unfolding after_fetch
  Step-Holds start (fetch {c = c} {retries = retries} net now e) h =
      fetch_ended-Holds start c now retries
        (ensure_market_data_for_job ext net u c.table c.stored).0
        (ensure_market_data_for_job ext net u c.table c.stored).1
        (at_stage start c (fetching retries) e h)
  Step-Holds start (backtest {c = c} before s after answer e) h =
      backtest-Holds start c before s after answer
        (at_stage start c (charting (before ++ ((s, none) ∷ after))) e h)
  Step-Holds start (callback {c = c} header results now e done) h =
      callback-Holds start c now header results done (at_stage start c (charting header) e h)

  -- Every run of the pipeline keeps the invariant.
  pub Reach-Holds :
      {start c : Cluster ext} {n : ℕ}
      → start.stage ≡ fetching zero
      → jobs.select_by_uuid u start.table ≡ some j
      → Reach ext u symbols start n c
      → Holds start.table c
  Reach-Holds {start = start} e row here = record {
    stage_holds = subst (λ z. StageHolds z start.table start.saved) (sym e) row;
    others = λ v n. refl;
  }
  Reach-Holds {start = start} e row (next r st) = Step-Holds start.table st (Reach-Holds e row r)
