-- ===== src/Jobs/Table.antt =====
-- The job table. PostgreSQL and SQLAlchemy are not part of the repository, so the table is a
-- parameter: the statements that the repositories execute, with the laws that a table with the
-- primary key `uuid` is documented to obey.
use stock_trader.Prelude.{
  ℕ, ◌≡◌, Option, none, some, List, [], ◌∷◌, String, All, false, ◌==◌, if◌then◌else◌,
}
use stock_trader.Errors.{Message}
use stock_trader.Models.{BacktestStatus}

-- A request parameter is `str | int | float | bool`; jobs only carry it.
pub record JobTypes : Type 1 where
  pub Parameters : Type 0

module _ (types : JobTypes) where
  -- `BacktestJobTableSchema`. A UUID is its number, dates are ordinals, times are instants.
  pub record Job : Type 0 where
    pub uuid : ℕ
    pub status : BacktestStatus
    pub strategy_name : String
    pub symbols : List String
    pub parameters : types.Parameters
    pub start_date : ℕ
    pub end_date : ℕ
    pub error : Option Message
    pub create_time : ℕ
    pub start_time : Option ℕ
    pub end_time : Option ℕ

  -- No two of the jobs were created at the same time.
  abbrev pub HasDistinctTimes : List Job → Type 0
  HasDistinctTimes [] = Unit
  HasDistinctTimes (j ∷ js) =
      All (λ (k : Job). (j.create_time == k.create_time) ≡ false) js × HasDistinctTimes js

  pub record JobTables : Type 1 where
    pub Table : Type 0
    -- What decides, for one execution of a query, the order of rows with the same `create_time`.
    pub Ties : Type 0
    -- `select(...).where(uuid == u)` with `scalar_one_or_none`
    pub select_by_uuid : ℕ → Table → Option Job
    -- `session.add` and `commit` of a new row
    pub insert : Job → Table → Table
    -- `commit` of a row that was loaded and changed
    pub write_back : Job → Table → Table
    -- the rows of `select(...)`, perhaps with `where(status == ...)`, by `create_time.desc()`
    pub select_jobs : Ties → Option BacktestStatus → Table → List Job
    pub select_by_uuid-uuid :
        (u : ℕ) (t : Table) (j : Job) → select_by_uuid u t ≡ some j → j.uuid ≡ u
    pub select_by_uuid-insert :
        (u : ℕ) (j : Job) (t : Table)
        → select_by_uuid j.uuid t ≡ none
        → select_by_uuid u (insert j t) ≡ (if j.uuid == u then some j else select_by_uuid u t)
    pub select_by_uuid-write_back :
        (u : ℕ) (old j : Job) (t : Table)
        → select_by_uuid j.uuid t ≡ some old
        → select_by_uuid u (write_back j t) ≡ (if j.uuid == u then some j else select_by_uuid u t)
    pub select_jobs-status :
        (ties : Ties) (status : BacktestStatus) (t : Table)
        → All (λ (j : Job). j.status ≡ status) (select_jobs ties (some status) t)
    -- `ORDER BY` fixes the order of rows whose keys differ.
    pub select_jobs-HasDistinctTimes :
        (ties other : Ties) (status_filter : Option BacktestStatus) (t : Table)
        → HasDistinctTimes (select_jobs ties status_filter t)
        → select_jobs other status_filter t ≡ select_jobs ties status_filter t
