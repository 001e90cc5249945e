-- ===== src/Migrations/Head.antt =====
-- What the migrations of the repository arrive at, from `upgrade_head` and from a downgrade.
use stock_trader.Prelude.{
  ◌≡◌, refl, Bool, true, false, not, if◌then◌else◌, none, some, List, [], ◌∷◌, ◌++◌, String,
}
use stock_trader.Errors.{ok, is_ok}
use stock_trader.Migrations.Schema.{
  Column, Table, Catalog, effect, effects, date, text_type, retype_column,
}
use stock_trader.Migrations.Database.{Postgres, Versioned, upgrades, upgrade_head, run_migrations}
use stock_trader.Migrations.Plan.{run_migrations-plan}
use stock_trader.Migrations.Revisions.{
  revisions, add_date, change_type, created_jobs, created_results, created_events,
  created_market_data, created_index, status_index, events_index, market_data_index,
}
use stock_trader.Migrations.Tables.{declared_tables}
use mathlib.Core.List.{Perm, perm_middle}
use mathlib.Core.List.Perm

-- A table of the database is as a class declares it, up to the order of columns and of indexes.
pub record Matches (t d : Table) : Type 0 where
  pub name : t.name ≡ d.name
  pub columns : Perm t.columns d.columns
  pub primary_key : t.primary_key ≡ d.primary_key
  pub foreign_keys : t.foreign_keys ≡ d.foreign_keys
  pub unique_constraints : t.unique_constraints ≡ d.unique_constraints
  pub indexes : Perm t.indexes d.indexes

-- The tables of a database are those of the classes, in the order of their creation.
abbrev pub AllMatch : List (Table × Bool) → List Table → Type 0
AllMatch [] [] = Unit
AllMatch [] (d ∷ ds) = ⊥
AllMatch (t ∷ ts) [] = ⊥
AllMatch (t ∷ ts) (d ∷ ds) = Matches t.0 d × AllMatch ts ds

-- The catalog of revision 4b19bd66b772, with what tables have rows.
abbrev pub before_dates : Bool → Bool → Bool → Bool → Catalog
before_dates jobs results events bars = record {
  has_schema = true;
  types = "backtest_job_status" ∷ "interval_enum" ∷ [];
  tables =
      (record created_jobs { indexes = created_index ∷ status_index ∷ [] }, jobs)
      ∷ (created_results, results)
      ∷ (record created_events { indexes = events_index ∷ [] }, events)
      ∷ (record created_market_data { indexes = market_data_index ∷ [] }, bars)
      ∷ [];
}

-- The catalog of the last revision, with what tables have rows.

abbrev pub dated : String → Column
dated name = record { name = name; type = date; nullable = false; server_default = none }

same : (t : Table) → Matches t t
same t = record {
  name = refl;
  columns = Perm.refl t.columns;
  primary_key = refl;
  foreign_keys = refl;
  unique_constraints = refl;
  indexes = Perm.refl t.indexes;
}

again :
    (pg : Postgres) (s : Versioned pg)
    → s.version ≡ some "b3ad9bd1b1d3"
    → upgrade_head pg s ≡ (ok tt, s)
unfolding upgrade_head run_migrations
again pg s v = rw v refl

abbrev pub at_head : Bool → Bool → Bool → Bool → Catalog
at_head jobs results events bars = record {
  has_schema = true;
  types = "backtest_job_status" ∷ "interval_enum" ∷ [];
  tables =
      (
        record created_jobs {
          columns =
              retype_column "error" text_type created_jobs.columns
              ++ dated "start_date" ∷ dated "end_date" ∷ [];
          indexes = created_index ∷ status_index ∷ [];
        },
        jobs,
      )
      ∷ (created_results, results)
      ∷ (record created_events { indexes = events_index ∷ [] }, events)
      ∷ (record created_market_data { indexes = market_data_index ∷ [] }, bars)
      ∷ [];
}

at_head-AllMatch :
    (jobs results events bars : Bool)
    → AllMatch (at_head jobs results events bars).tables declared_tables
at_head-AllMatch jobs results events bars = (
  record {
    name = refl;
    columns = Perm.cons _ (
        Perm.cons _ (
          Perm.cons _ (
            Perm.cons _ (
              Perm.cons _ (
                Perm.trans (perm_middle (_ ∷ _ ∷ _ ∷ _ ∷ []) (_ ∷ []))
                  (Perm.cons _ (perm_middle (_ ∷ _ ∷ _ ∷ _ ∷ []) [])))))));
    primary_key = refl;
    foreign_keys = refl;
    unique_constraints = refl;
    indexes = Perm.swap status_index created_index [];
  },
  (
    same created_results,
    (
      same (record created_events { indexes = events_index ∷ [] }),
      (same (record created_market_data { indexes = market_data_index ∷ [] }), tt),
    ),
  ),
)

module _ (pg : Postgres) where
  -- On an empty schema `upgrade_head` succeeds at the last revision, the tables of the database
  -- are then those of the classes up to the order of columns and of indexes, with the types of the
  -- enumerations, and a second `upgrade_head` changes nothing.
  pub upgrade_head-AllMatch :
      (db : pg.Database) (has : Bool)
      → pg.catalog db ≡ record { has_schema = has; types = []; tables = [] }
      → let (result, s) = upgrade_head pg (record { version = none; database = db }) in
        (is_ok result ≡ true)
        × (s.version ≡ some "b3ad9bd1b1d3")
        × AllMatch (pg.catalog s.database).tables declared_tables
        × ((pg.catalog s.database).types ≡ "backtest_job_status" ∷ "interval_enum" ∷ [])
        × (upgrade_head pg s ≡ (ok tt, s))
  unfolding upgrade_head effect effects
  upgrade_head-AllMatch db has empty =
      let start : Versioned pg = record { version = none; database = db } in
      let (good, v, c) = run_migrations-plan pg (upgrades revisions) start _ empty refl in
      (
        good,
        v,
        rw c (at_head-AllMatch false false false false),
        rw c refl,
        again pg (upgrade_head pg start).1 v,
      )

  -- On a database at revision 4b19bd66b772, whatever its other tables hold, `upgrade_head`
  -- succeeds with the tables of the classes if the table of jobs is empty. If it has a row, the
  -- command fails, and the database stays at that revision with the catalog it had.
  pub upgrade_head_rows :
      (db : pg.Database) (jobs results events bars : Bool)
      → pg.catalog db ≡ before_dates jobs results events bars
      → let (result, s) =
          upgrade_head pg (record { version = some "4b19bd66b772"; database = db }) in
        (is_ok result ≡ not jobs)
        × (if jobs
            then (s.version ≡ some "4b19bd66b772")
              × (pg.catalog s.database ≡ before_dates jobs results events bars)
            else (s.version ≡ some "b3ad9bd1b1d3")
              × AllMatch (pg.catalog s.database).tables declared_tables)
  unfolding upgrade_head effect effects
  upgrade_head_rows db true results events bars e =
      let (failed, v, c) =
        run_migrations-plan pg (upgrades (add_date ∷ change_type ∷ []))
          (record { version = some "4b19bd66b772"; database = db }) _ e refl in
      (failed, (v, c))
  upgrade_head_rows db false results events bars e =
      let (good, v, c) =
        run_migrations-plan pg (upgrades (add_date ∷ change_type ∷ []))
          (record { version = some "4b19bd66b772"; database = db }) _ e refl in
      (good, (v, rw c (at_head-AllMatch false results events bars)))
