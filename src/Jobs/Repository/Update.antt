-- ===== src/Jobs/Repository/Update.antt =====
-- What the updates of a job's status do to the table.
use stock_trader.Prelude.{
  ℕ, ◌≡◌, refl, sym, subst, ◌∙◌, true, Option, none, some, inl, inr, Option-cases, ◌==◌,
  if◌then◌else◌,
}
use stock_trader.Errors.{Message, ok, ◌>>=◌}
use stock_trader.Models.{BacktestStatus, created, running, completed, failed}
use stock_trader.Jobs.Table.{JobTypes, Job, JobTables}
use stock_trader.Jobs.Repository.{
  is_finished, set_status, update_job_status, update_job_status_sync,
}

-- On a database that answers, the repository of the API and that of the workers leave the same table, or raise the same error.
pub update_job_status_agree :
    (types : JobTypes) (tables : JobTables types) (u now : ℕ) (status : BacktestStatus)
    (error : Option Message) (t : tables.Table)
    → (update_job_status types tables u status error now t >>= λ r. ok r.1)
      ≡ update_job_status_sync types tables (ok tt) u status error now t
unfolding update_job_status update_job_status_sync
update_job_status_agree types tables u now status error t =
    elim (Option-cases (tables.select_by_uuid u t)) [
      | inl missing ↦ rw missing refl
      | inr (j, found) ↦ rw found refl
    ]

set_status-uuid :
    (types : JobTypes) (status : BacktestStatus) (error : Option Message) (now : ℕ) (j : Job types)
    → (set_status types status error now j).uuid ≡ j.uuid
unfolding set_status
set_status-uuid types created error now j = refl
set_status-uuid types running error now j = refl
set_status-uuid types completed error now j = refl
set_status-uuid types failed error now j = refl

-- Updating a job that exists changes that job alone.
pub select-update :
    (types : JobTypes) (tables : JobTables types) (u v now : ℕ) (status : BacktestStatus)
    (error : Option Message) (t : tables.Table) (j : Job types)
    → tables.select_by_uuid u t ≡ some j
    → tables.select_by_uuid v (tables.write_back (set_status types status error now j) t)
      ≡ (if u == v then some (set_status types status error now j) else tables.select_by_uuid v t)
select-update types tables u v now status error t j h =
    let j' = set_status types status error now j in
    let e : j'.uuid ≡ u =
      set_status-uuid types status error now j ∙ tables.select_by_uuid-uuid u t j h in
    subst
      (λ z.
        tables.select_by_uuid v (tables.write_back j' t)
        ≡ (if z == v then some j' else tables.select_by_uuid v t))
      e
      (tables.select_by_uuid-write_back v j j' t
        (subst (λ z. tables.select_by_uuid z t ≡ some j) (sym e) h))

pub update_job_status_found :
    (types : JobTypes) (tables : JobTables types) (u now : ℕ) (status : BacktestStatus)
    (error : Option Message) (t : tables.Table) (j : Job types)
    → tables.select_by_uuid u t ≡ some j
    → update_job_status types tables u status error now t
      ≡ ok (
        set_status types status error now j,
        tables.write_back (set_status types status error now j) t,
      )
unfolding update_job_status
update_job_status_found types tables u now status error t j h = rw h refl

pub update_job_status_sync_found :
    (types : JobTypes) (tables : JobTables types) (u now : ℕ) (status : BacktestStatus)
    (error : Option Message) (t : tables.Table) (j : Job types)
    → tables.select_by_uuid u t ≡ some j
    → update_job_status_sync types tables (ok tt) u status error now t
      ≡ ok (tables.write_back (set_status types status error now j) t)
unfolding update_job_status_sync
update_job_status_sync_found types tables u now status error t j h = rw h refl

-- Running a finished job again clears its error and sets its start time, but leaves the end time of
-- the run before: until the new run ends, a job that started at `now` has ended before.
pub rerun_keeps_end_time :
    (types : JobTypes) (status : BacktestStatus) (error : Option Message) (now ended : ℕ)
    (j : Job types)
    → is_finished status ≡ true
    → let again = set_status types running none now (set_status types status error ended j) in
      (again.status ≡ running)
      × (again.error ≡ none)
      × (again.start_time ≡ some now)
      × (again.end_time ≡ some ended)
unfolding set_status
rerun_keeps_end_time types created error now ended j h = absurd (cc)
rerun_keeps_end_time types running error now ended j h = absurd (cc)
rerun_keeps_end_time types completed error now ended j h = (refl, refl, refl, refl)
rerun_keeps_end_time types failed error now ended j h = (refl, refl, refl, refl)

-- What a request and its creation have given to a job.
pub record SameRequest (types : JobTypes) (j k : Job types) : Type 0 where
  pub same_uuid : k.uuid ≡ j.uuid
  pub same_strategy : k.strategy_name ≡ j.strategy_name
  pub same_symbols : k.symbols ≡ j.symbols
  pub same_parameters : k.parameters ≡ j.parameters
  pub same_start_date : k.start_date ≡ j.start_date
  pub same_end_date : k.end_date ≡ j.end_date
  pub same_create_time : k.create_time ≡ j.create_time

SameRequest-fields :
    (types : JobTypes) (status : BacktestStatus) (error : Option Message)
    (start_time end_time : Option ℕ) (j : Job types)
    → SameRequest types j
        (record j { status = status; error = error; start_time = start_time; end_time = end_time })
SameRequest-fields types status error start_time end_time j = record {
  same_uuid = refl;
  same_strategy = refl;
  same_symbols = refl;
  same_parameters = refl;
  same_start_date = refl;
  same_end_date = refl;
  same_create_time = refl;
}

pub SameRequest-set_status :
    (types : JobTypes) (status : BacktestStatus) (error : Option Message) (now : ℕ) (j : Job types)
    → SameRequest types j (set_status types status error now j)
unfolding set_status
SameRequest-set_status types created error now j =
    SameRequest-fields types created error j.start_time j.end_time j
SameRequest-set_status types running error now j =
    SameRequest-fields types running error (some now) j.end_time j
SameRequest-set_status types completed error now j =
    SameRequest-fields types completed error j.start_time (some now) j
SameRequest-set_status types failed error now j =
    SameRequest-fields types failed error j.start_time (some now) j
