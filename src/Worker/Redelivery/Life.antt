-- ===== src/Worker/Redelivery/Life.antt =====
-- The row of a job whose tasks may run again.
use stock_trader.Prelude.{
  ℕ, ◌≡◌, ◌≢◌, ◌⊎◌, refl, ap, ◌∙◌, inl, inr, true, Option, some, List, String, filter, ◌==◌,
  ==_refl, ==_ne, Bool-cases, if◌then◌else◌,
}
use stock_trader.Errors.{Message, Result, ok, err}
use stock_trader.Models.{BacktestStatus, created, running, completed, failed}
use stock_trader.Jobs.Table.{JobTypes, Job}
use stock_trader.Jobs.Repository.{is_finished, set_status}
use stock_trader.Jobs.Finalize.{TaskResult, has_error}
use stock_trader.Jobs.Finalize.Outcome.{finalize_lem}
use stock_trader.Worker.Externals.{Externals, JobOf, json_types, Network}
use stock_trader.Worker.Fetch.{Stored, ensure_market_data_for_job, is_retried}
use stock_trader.Worker.Pipeline.{
  Cluster, Header, fetch_ended, after_fetch, after_backtest, after_callback, fetch, backtest,
  callback,
}
use stock_trader.Worker.Pipeline.Invariant.{on_fetch_failure_lem}
use stock_trader.Worker.Pipeline.Refinement.{status_for-finished}
use stock_trader.Worker.Redelivery.{
  Delivery, acknowledged, fetch_cut, fetch_lost, backtest_lost, callback_lost, Delivered, sent,
  delivered,
}

-- A row that a job may have later: the same request and start, and either no change at all or one of the
-- final states.
pub record Outlives (types : JobTypes) (j k : Job types) : Type 0 where
  pub same_uuid : k.uuid ≡ j.uuid
  pub same_strategy : k.strategy_name ≡ j.strategy_name
  pub same_symbols : k.symbols ≡ j.symbols
  pub same_parameters : k.parameters ≡ j.parameters
  pub same_start_date : k.start_date ≡ j.start_date
  pub same_end_date : k.end_date ≡ j.end_date
  pub same_create_time : k.create_time ≡ j.create_time
  pub same_start_time : k.start_time ≡ j.start_time
  pub is_kept : (k ≡ j) ⊎ (is_finished k.status ≡ true)

module _ (types : JobTypes) where
  ended_row :
      (status : BacktestStatus) (error : Option Message) (end_time : Option ℕ) (j : Job types)
      → let k = record j { status = status; error = error; end_time = end_time } in
        (k ≡ j) ⊎ (is_finished status ≡ true) → Outlives types j k
  ended_row status error end_time j h = record {
    same_uuid = refl;
    same_strategy = refl;
    same_symbols = refl;
    same_parameters = refl;
    same_start_date = refl;
    same_end_date = refl;
    same_create_time = refl;
    same_start_time = refl;
    is_kept = h;
  }

  Outlives-refl : (j : Job types) → Outlives types j j
  Outlives-refl j = ended_row j.status j.error j.end_time j (inl refl)

  kept_trans :
      (j k l : Job types)
      → (k ≡ j) ⊎ (is_finished k.status ≡ true)
      → (l ≡ k) ⊎ (is_finished l.status ≡ true)
      → (l ≡ j) ⊎ (is_finished l.status ≡ true)
  kept_trans j k l first (inr final) = inr final
  kept_trans j k l (inl same) (inl same') = inl (same' ∙ same)
  kept_trans j k l (inr final) (inl same') =
      inr (ap (λ (z : Job types). is_finished z.status) same' ∙ final)

  Outlives-trans :
      (j k l : Job types) → Outlives types j k → Outlives types k l → Outlives types j l
  Outlives-trans j k l a b = record {
    same_uuid = b.same_uuid ∙ a.same_uuid;
    same_strategy = b.same_strategy ∙ a.same_strategy;
    same_symbols = b.same_symbols ∙ a.same_symbols;
    same_parameters = b.same_parameters ∙ a.same_parameters;
    same_start_date = b.same_start_date ∙ a.same_start_date;
    same_end_date = b.same_end_date ∙ a.same_end_date;
    same_create_time = b.same_create_time ∙ a.same_create_time;
    same_start_time = b.same_start_time ∙ a.same_start_time;
    is_kept = kept_trans j k l a.is_kept b.is_kept;
  }

  Outlives-set_status :
      (status : BacktestStatus) (error : Option Message) (now : ℕ) (j : Job types)
      → is_finished status ≡ true
      → Outlives types j (set_status types status error now j)
  unfolding set_status
  Outlives-set_status created error now j h = absurd (cc)
  Outlives-set_status running error now j h = absurd (cc)
  Outlives-set_status completed error now j h = ended_row completed error (some now) j (inr refl)
  Outlives-set_status failed error now j h = ended_row failed error (some now) j (inr refl)

module _ (ext : Externals) (u : ℕ) where
  open ext use {floats, values, jobs}

  -- How the table may change: the row of the job as above, and no other row.
  pub record Evolves (j : JobOf ext) (t t' : jobs.Table) : Type 0 where
    pub row : JobOf ext
    pub is_there : jobs.select_by_uuid u t' ≡ some row
    pub outlives : Outlives (json_types floats values) j row
    pub others : (v : ℕ) → u ≢ v → jobs.select_by_uuid v t' ≡ jobs.select_by_uuid v t

  unchanged : (j : JobOf ext) (t : jobs.Table) → jobs.select_by_uuid u t ≡ some j → Evolves j t t
  unchanged j t h = record {
    row = j;
    is_there = h;
    outlives = Outlives-refl (json_types floats values) j;
    others = λ v n. refl;
  }

  -- One update to a final state.
  ended :
      (status : BacktestStatus) (error : Option Message) (now : ℕ) (j : JobOf ext)
      (t t' : jobs.Table)
      → is_finished status ≡ true
      → ((v : ℕ)
          → jobs.select_by_uuid v t' ≡ (
              if u == v
              then some (set_status (json_types floats values) status error now j)
              else jobs.select_by_uuid v t))
      → Evolves j t t'
  ended status error now j t t' final rows = record {
    row = set_status (json_types floats values) status error now j;
    is_there = rows u ∙ rw (==_refl u) refl;
    outlives = Outlives-set_status (json_types floats values) status error now j final;
    others = λ v n. rows v ∙ rw (==_ne u v n) refl;
  }

  pub Evolves-trans :
      (j : JobOf ext) (t t' t'' : jobs.Table) (e : Evolves j t t')
      → Evolves (e.row) t' t''
      → Evolves j t t''
  Evolves-trans j t t' t'' e f = record {
    row = f.row;
    is_there = f.is_there;
    outlives = Outlives-trans (json_types floats values) j e.row f.row e.outlives f.outlives;
    others = λ v n. f.others v n ∙ e.others v n;
  }

  module _ (symbols : List String) (j : JobOf ext) (c : Cluster ext) where
    fetch-Evolves :
        (net : Network ext) (now retries : ℕ)
        → jobs.select_by_uuid u c.table ≡ some j
        → Evolves j c.table (after_fetch ext u symbols net now retries c).table
    unfolding after_fetch
    fetch-Evolves net now retries h =
        let (result, w) = ensure_market_data_for_job ext net u c.table c.stored in
        by_result result w
      where
        by_result :
            (r : Result (Unit {0})) (w : Stored ext)
            → Evolves j c.table (fetch_ended ext u symbols now retries c (r, w)).table
        by_result (ok _) w = unchanged j c.table h
        by_result (err e) w = elim (Bool-cases (is_retried retries e)) [
          | inl again ↦ rw again (unchanged j c.table h)
          | inr final ↦
              let (t', written, rows) = on_fetch_failure_lem ext u symbols j now e c.table h in
              rw (final, written) (ended failed _ now j c.table t' refl rows)
        ]

    callback-Evolves :
        (header : Header) (results : List TaskResult) (now : ℕ)
        → jobs.select_by_uuid u c.table ≡ some j
        → Evolves j c.table (after_callback ext u symbols now header results c).table
    unfolding after_callback
    callback-Evolves header results now h =
        let (t', written, rows) =
          finalize_lem (json_types floats values) jobs u now results c.table j h in
        rw written
          (ended _ _ now j c.table t' (status_for-finished (filter has_error results)) rows)

  Delivery-Evolves :
      (symbols : List String) (j : JobOf ext) {c d : Cluster ext}
      → Delivery ext u symbols c d
      → jobs.select_by_uuid u c.table ≡ some j
      → Evolves j c.table d.table
  unfolding after_backtest
  Delivery-Evolves symbols j (acknowledged (fetch {c = c} {retries = retries} net now e)) h =
      fetch-Evolves symbols j c net now retries h
  Delivery-Evolves symbols j (acknowledged (backtest {c = c} before s after answer e)) h =
      unchanged j c.table h
  Delivery-Evolves symbols j (acknowledged (callback {c = c} header results now e done)) h =
      callback-Evolves symbols j c header results now h
  Delivery-Evolves symbols j (fetch_cut {c = c} net n e) h = unchanged j c.table h
  Delivery-Evolves symbols j (fetch_lost {c = c} {retries = retries} net now e) h =
      fetch-Evolves symbols j c net now retries h
  Delivery-Evolves symbols j (backtest_lost {c = c} before s after answer e) h =
      unchanged j c.table h
  Delivery-Evolves symbols j (callback_lost {c = c} header results now e done) h =
      callback-Evolves symbols j c header results now h

-- However often tasks run again, from any point of the pipeline on: the row of the job keeps its
-- request and its start, it is either as it was or in a final state, so a job that has ended does
-- not run again, and no other job changes.
pub Delivered-Evolves :
    (ext : Externals) (u : ℕ) (symbols : List String) (j : JobOf ext) {c d : Cluster ext} {n : ℕ}
    → Delivered ext u symbols c n d
    → ext.jobs.select_by_uuid u c.table ≡ some j
    → Evolves ext u j c.table d.table
Delivered-Evolves ext u symbols j {c = c} sent h = unchanged ext u j c.table h
Delivered-Evolves ext u symbols j (delivered r step) h =
    let before = Delivered-Evolves ext u symbols j r h in
    Evolves-trans ext u j _ _ _ before
      (Delivery-Evolves ext u symbols before.row step before.is_there)
