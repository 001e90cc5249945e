-- ===== src/Worker/Pipeline/Lifecycle.antt =====
-- A job from its dispatch to the end of its pipeline.
use stock_trader.Prelude.{
  ℕ, zero, ◌≡◌, ◌≢◌, refl, ap, ◌∙◌, Bool, true, false, Option, none, some, ◌==◌, ==_refl, ==_ne,
  if◌then◌else◌,
}
use stock_trader.Models.{running, is_running}
use stock_trader.Jobs.Repository.{is_finished, set_status}
use stock_trader.Jobs.Service.{World, dispatch_backtest_job}
use stock_trader.Jobs.Service.Dispatch.{dispatch_rows}
use stock_trader.Worker.Externals.{Externals, JobOf, json_types}
use stock_trader.Worker.Pipeline.{Cluster, Reach, fetching}
use stock_trader.Worker.Pipeline.Refinement.{
  is_over, outcome_final, Life, waiting, finished, Reach-Life,
}

-- What a job is once its pipeline is over: finished, between two times.
pub record Ended (ext : Externals) (began : ℕ) (k : JobOf ext) : Type 0 where
  pub is_final : is_finished k.status ≡ true
  pub began_at : k.start_time ≡ some began
  pub ended_at : (later : ℕ) × (k.end_time ≡ some later)

module _ (ext : Externals) where
  Life-Ended :
      (j : JobOf ext) (began : ℕ) {row : Option (JobOf ext)} {over : Bool}
      → j.start_time ≡ some began
      → Life ext j row over
      → over ≡ true
      → (k : JobOf ext) × (row ≡ some k) × Ended ext began k
  Life-Ended j began h waiting e = absurd (cc)
  Life-Ended j began h (finished k done) e = (
    k,
    refl,
    record {
      is_final = outcome_final ext k done.outcome;
      began_at = done.same_start ∙ h;
      ended_at = done.ended_at;
    },
  )

-- Let a job that does not run be dispatched at `now` while the broker is up, and let the pipeline that
-- this sends run on the table as the dispatch has left it, in any way, until it is over. Then the
-- job is COMPLETED or FAILED, with `now` as its start time and with an end time, and every other job
-- is as it was before the dispatch.
pub dispatched_job_ends :
    (ext : Externals) (now u : ℕ) (j : JobOf ext)
    (w : World (json_types ext.floats ext.values) ext.jobs) {start c : Cluster ext} {n : ℕ}
    → ext.jobs.select_by_uuid u w.table ≡ some j
    → is_running j.status ≡ false
    → start.table
      ≡ (dispatch_backtest_job (json_types ext.floats ext.values) ext.jobs true now u w).1.table
    → start.stage ≡ fetching zero
    → Reach ext u j.symbols start n c
    → is_over c.stage ≡ true
    → ((k : JobOf ext) × (ext.jobs.select_by_uuid u c.table ≡ some k) × Ended ext now k)
      × ((v : ℕ) → u ≢ v → ext.jobs.select_by_uuid v c.table ≡ ext.jobs.select_by_uuid v w.table)
unfolding set_status
dispatched_job_ends ext now u j w {start = start} {c = c} row idle sent begin run over =
    let types = json_types ext.floats ext.values in
    let after = (dispatch_backtest_job types ext.jobs true now u w).1.table in
    let busy = set_status types running none now j in
    let at : (v : ℕ)
        → ext.jobs.select_by_uuid v start.table
          ≡ (if u == v then some busy else ext.jobs.select_by_uuid v w.table) =
      λ v.
        ap (λ t. ext.jobs.select_by_uuid v t) sent
        ∙ (dispatch_rows types ext.jobs true now u v j w row idle).2 in
    let (life, others) = Reach-Life ext u j.symbols busy begin (at u ∙ rw (==_refl u) refl) run in
    (
      Life-Ended ext busy now refl life over,
      λ v other. others v other ∙ at v ∙ rw (==_ne u v other) refl,
    )
