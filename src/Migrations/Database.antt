-- ===== src/Migrations/Database.antt =====
-- A database under migration: `apply_migrations` of db/db_helpers.py and db/migrations/env.py.
use stock_trader.Prelude.{
  ◌≡◌, true, Option, none, some, List, [], ◌∷◌, String, str_eq, if◌then◌else◌,
}
use stock_trader.Errors.{Message, Exception, Result, ok, err, ◌>>=◌}
use stock_trader.Migrations.Schema.{Catalog, Operation, effect}
use stock_trader.Migrations.Settled.{is_settled}
use stock_trader.Migrations.Revisions.{Revision, revisions}

-- PostgreSQL, by the operations of Alembic that the migrations call.
pub record Postgres : Type 1 where
  pub Database : Type 0
  pub catalog : Database → Catalog
  pub run : Operation → Database → Result Database
  pub run-ok :
      (op : Operation) (db : Database) (c : Catalog)
      → is_settled op (catalog db) ≡ true
      → effect op (catalog db) ≡ ok c
      → (db' : Database) × (run op db ≡ ok db') × (catalog db' ≡ c)
  pub run-err :
      (op : Operation) (db : Database) (e : Exception)
      → effect op (catalog db) ≡ err e
      → (e' : Exception) × (run op db ≡ err e')

-- The revisions after a version, and those up to it.
abbrev pub pending : Option String → List Revision → List Revision
pending none rs = rs
pending (some v) [] = []
pending (some v) (r ∷ rs) =
    let later = pending (some v) rs in if str_eq r.revision v then rs else later

abbrev pub applied : Option String → List Revision → List Revision
applied none rs = []
applied (some v) [] = []
applied (some v) (r ∷ rs) =
    let later = r ∷ applied (some v) rs in if str_eq r.revision v then r ∷ [] else later

abbrev pub upgrades : List Revision → List (List Operation × Option String)
upgrades [] = []
upgrades (r ∷ rs) = (r.upgrade, some r.revision) ∷ upgrades rs

-- The last revision first.
abbrev pub downgrades :
    List Revision → List (List Operation × Option String) → List (List Operation × Option String)
downgrades [] ms = ms
downgrades (r ∷ rs) ms = downgrades rs ((r.downgrade, r.down_revision) ∷ ms)

module _ (pg : Postgres) where
  open pg use {Database, catalog}

  -- The version is what Alembic has noted in the database.
  pub record Versioned : Type 0 where
    pub version : Option String
    pub database : Database

  unfoldable pub run_all : List Operation → Database → Result Database
  run_all [] db = ok db
  run_all (o ∷ os) db = pg.run o db >>= λ db'. run_all os db'

  -- Migrations in turn, each with the version after it and in a transaction of its own: one that
  -- fails is rolled back and ends the run.
  abbrev pub committed :
      Option String
      → Versioned
      → Result Database
      → (Versioned → Result (Unit {0}) × Versioned)
      → Result (Unit {0}) × Versioned
  committed v s (err e) rest = (err e, s)
  committed v s (ok db) rest = rest (record { version = v; database = db })

  unfoldable pub run_migrations :
      List (List Operation × Option String) → Versioned → Result (Unit {0}) × Versioned
  run_migrations [] s = (ok tt, s)
  run_migrations ((os, v) ∷ ms) s =
      committed v s (run_all os s.database) (λ s'. run_migrations ms s')

  -- `command.upgrade(alembic_cfg, "head")`
  unfoldable pub upgrade_head : Versioned → Result (Unit {0}) × Versioned
  upgrade_head s = run_migrations (upgrades (pending s.version revisions)) s

  abbrev pub once_set : Versioned → Result (Unit {0}) → Result (Unit {0}) × Versioned
  once_set s (err e) = (err e, s)
  once_set s (ok _) = upgrade_head s

  -- `set_main_option` of Alembic's configuration raises where the URL has a `%` that is not doubled.
  unfoldable pub apply_migrations :
      (Message → Result (Unit {0})) → Message → Versioned → Result (Unit {0}) × Versioned
  apply_migrations set_main_option db_url s = once_set s (set_main_option db_url)

  -- `alembic downgrade`: the applied revisions after the target, the last first.
  unfoldable pub downgrade : Option String → Versioned → Result (Unit {0}) × Versioned
  downgrade target s =
      run_migrations (downgrades (pending target (applied s.version revisions)) []) s
