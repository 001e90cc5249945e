-- ===== src/Jobs/Service/Dispatch.antt =====
-- Dispatching a job, on every branch.
use stock_trader.Prelude.{
  ℕ, ◌≡◌, refl, ap, ◌∙◌, Bool, true, false, none, some, List, [], ◌∷◌, ◌++◌, String, ◌≢◌, ◌==◌,
  ==_refl, ==_ne, if◌then◌else◌,
}
use stock_trader.Errors.{ok, is_ok, raise, job_already_running_error, text, number}
use stock_trader.Models.{running, is_running}
use stock_trader.Jobs.Table.{JobTypes, Job, JobTables}
use stock_trader.Jobs.Repository.{set_status, get_backtest_job}
use stock_trader.Jobs.Repository.Update.{
  SameRequest, SameRequest-set_status, select-update, update_job_status_found,
}
use stock_trader.Jobs.Service.{
  World, dispatch_backtest, check_dispatch, commit_dispatch, dispatch_backtest_job,
}

module _ (types : JobTypes) (tables : JobTables types) where
  -- The table after the write to the row `k`, and the pipelines after the sending, if the broker is
  -- up, of the symbols of `j`.
  abbrev pub after_dispatch :
      Bool → ℕ → ℕ → Job types → Job types → World types tables → World types tables
  after_dispatch broker_up now u j k w = record {
    table = tables.write_back (set_status types running none now k) w.table;
    dispatched = if broker_up then w.dispatched ++ (u, j.symbols) ∷ [] else w.dispatched;
  }

  dispatch_backtest_lem :
      (broker_up : Bool) (u : ℕ) (symbols : List String) (w : World types tables)
      → (is_ok (dispatch_backtest types tables broker_up u symbols w).0 ≡ broker_up)
        × ((dispatch_backtest types tables broker_up u symbols w).1 ≡ record w {
          dispatched = if broker_up then w.dispatched ++ (u, symbols) ∷ [] else w.dispatched;
        })
  unfolding dispatch_backtest
  dispatch_backtest_lem true u symbols w = (refl, refl)
  dispatch_backtest_lem false u symbols w = (refl, refl)

  pub commit_dispatch_lem :
      (broker_up : Bool) (now u : ℕ) (j k : Job types) (w : World types tables)
      → tables.select_by_uuid u w.table ≡ some k
      → (is_ok (commit_dispatch types tables broker_up now u j w).0 ≡ broker_up)
        × ((commit_dispatch types tables broker_up now u j w).1
            ≡ after_dispatch broker_up now u j k w)
  unfolding commit_dispatch
  commit_dispatch_lem broker_up now u j k w h =
      rw (update_job_status_found types tables u now running none w.table k h) (
        dispatch_backtest_lem broker_up u j.symbols
          (record w { table = tables.write_back (set_status types running none now k) w.table }))

  pub check_dispatch_ok :
      (u : ℕ) (j : Job types) (w : World types tables)
      → tables.select_by_uuid u w.table ≡ some j
      → is_running j.status ≡ false
      → check_dispatch types tables u w ≡ ok j
  unfolding check_dispatch get_backtest_job
  check_dispatch_ok u j w h idle = rw h (simp idle refl)

  pub check_dispatch_running :
      (u : ℕ) (j : Job types) (w : World types tables)
      → tables.select_by_uuid u w.table ≡ some j
      → is_running j.status ≡ true
      → check_dispatch types tables u w
        ≡ raise job_already_running_error (text "Job " ∷ number u ∷ text " is already running" ∷ [])
  unfolding check_dispatch get_backtest_job
  check_dispatch_running u j w h busy = rw h (simp busy refl)

  dispatch_backtest_job_lem :
      (broker_up : Bool) (now u : ℕ) (j : Job types) (w : World types tables)
      → tables.select_by_uuid u w.table ≡ some j
      → is_running j.status ≡ false
      → (is_ok (dispatch_backtest_job types tables broker_up now u w).0 ≡ broker_up)
        × ((dispatch_backtest_job types tables broker_up now u w).1
            ≡ after_dispatch broker_up now u j j w)
  unfolding dispatch_backtest_job
  dispatch_backtest_job_lem broker_up now u j w h idle =
      rw (check_dispatch_ok u j w h idle) (commit_dispatch_lem broker_up now u j j w h)

-- The result of a dispatch, the pipelines and the rows.
pub dispatch_rows :
    (types : JobTypes) (tables : JobTables types) (broker_up : Bool) (now u v : ℕ) (j : Job types)
    (w : World types tables)
    → tables.select_by_uuid u w.table ≡ some j
    → is_running j.status ≡ false
    → (is_ok (dispatch_backtest_job types tables broker_up now u w).0 ≡ broker_up)
      × ((dispatch_backtest_job types tables broker_up now u w).1.dispatched
          ≡ (if broker_up then w.dispatched ++ (u, j.symbols) ∷ [] else w.dispatched))
      × (tables.select_by_uuid v (dispatch_backtest_job types tables broker_up now u w).1.table ≡ (
          if u == v
          then some (set_status types running none now j)
          else tables.select_by_uuid v w.table))
dispatch_rows types tables broker_up now u v j w h idle =
    let (result, world) = dispatch_backtest_job_lem types tables broker_up now u j w h idle in
    (
      result,
      ap (λ (z : World types tables). z.dispatched) world,
      ap (λ (z : World types tables). tables.select_by_uuid v z.table) world
          ∙ select-update types tables u v now running none w.table j h,
    )

-- Dispatching a job that exists and does not run: the call succeeds exactly if the broker is up; the
-- job is then RUNNING, started at `now` and with no error, its request and its end time as they
-- were, and no other job has changed; the broker has got one pipeline more, for the symbols of the
-- job, and none if it is down.
pub dispatch_effect :
    (types : JobTypes) (tables : JobTables types) (broker_up : Bool) (now u : ℕ) (j : Job types)
    (w : World types tables)
    → tables.select_by_uuid u w.table ≡ some j
    → is_running j.status ≡ false
    → let (result, w') = dispatch_backtest_job types tables broker_up now u w in
      (is_ok result ≡ broker_up)
      × (w'.dispatched ≡ (if broker_up then w.dispatched ++ (u, j.symbols) ∷ [] else w.dispatched))
      × ((k : Job types) × (tables.select_by_uuid u w'.table ≡ some k)
          × (k.status ≡ running)
          × (k.start_time ≡ some now)
          × (k.error ≡ none)
          × (k.end_time ≡ j.end_time)
          × SameRequest types j k)
      × ((v : ℕ) → u ≢ v → tables.select_by_uuid v w'.table ≡ tables.select_by_uuid v w.table)
unfolding set_status
dispatch_effect types tables broker_up now u j w h idle =
    let (result, pipelines, row) = dispatch_rows types tables broker_up now u u j w h idle in
    (
      result,
      pipelines,
      (
        set_status types running none now j,
        row ∙ rw (==_refl u) refl,
        refl,
        refl,
        refl,
        refl,
        SameRequest-set_status types running none now j,
      ),
      λ v other.
          (dispatch_rows types tables broker_up now u v j w h idle).2 ∙ rw (==_ne u v other) refl,
    )

-- After a dispatch of a job that did not run, a second dispatch is refused and changes nothing, as
-- long as no worker has written the job's status. So no pipeline is sent twice in a row; but where
-- the broker was down at the first call none is sent at all, and the job can no longer be
-- dispatched.
pub dispatch_twice :
    (types : JobTypes) (tables : JobTables types) (broker_up broker_up' : Bool) (now later u : ℕ)
    (j : Job types) (w : World types tables)
    → tables.select_by_uuid u w.table ≡ some j
    → is_running j.status ≡ false
    → dispatch_backtest_job types tables broker_up' later u
        (dispatch_backtest_job types tables broker_up now u w).1
      ≡ (
        raise job_already_running_error (text "Job " ∷ number u ∷ text " is already running" ∷ []),
        (dispatch_backtest_job types tables broker_up now u w).1,
      )
unfolding dispatch_backtest_job set_status
dispatch_twice types tables broker_up broker_up' now later u j w h idle =
    let w' = (dispatch_backtest_job types tables broker_up now u w).1 in
    let (_, _, row) = dispatch_rows types tables broker_up now u u j w h idle in
    let row' : tables.select_by_uuid u w'.table ≡ some (set_status types running none now j) =
      row ∙ rw (==_refl u) refl in
    rw (check_dispatch_running types tables u (set_status types running none now j) w' row' refl)
      refl
