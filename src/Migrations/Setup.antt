-- ===== src/Migrations/Setup.antt =====
-- The program of db/migrations/create_database.py. Whether the database exists and its creation are
-- the server's.
use stock_trader.Prelude.{
  ◌≡◌, refl, Bool, true, false, Option, none, some, [], ◌∷◌, String, ap, ◌∙◌, inl, inr,
}
use stock_trader.Errors.{Message, Result, ok, err, is_ok, Result-cases}
use stock_trader.Settings.{StockTraderConfig, get_database_url}
use stock_trader.Migrations.Database.{Postgres, Versioned, upgrade_head, apply_migrations}
use stock_trader.Migrations.Tables.{declared_tables}
use stock_trader.Migrations.Head.{AllMatch, upgrade_head-AllMatch}

module _ (pg : Postgres) where
  -- The server, with the database under the name, if there is one, and what `CREATE DATABASE` makes.
  pub record Server : Type 0 where
    pub blank : pg.Database
    pub database : Option (Versioned pg)

  -- Whether the database was created, and the database.
  unfoldable pub create_database : Server → Bool × Versioned pg
  create_database s = elim s.database [
    | none ↦ (true, record { version = none; database = s.blank })
    | some db ↦ (false, db)
  ]

  abbrev pub migrated : Server → Result (Unit {0}) × Versioned pg → Result (Unit {0}) × Server
  migrated s (r, db) = (r, record s { database = some db })

  module _ (quote_plus : String → String) (set_main_option : Message → Result (Unit {0}))
      (settings : StockTraderConfig) where
    abbrev pub db_url : Message
    db_url = get_database_url quote_plus settings.db_name settings false

    unfoldable pub main : Server → Result (Unit {0}) × Server
    main s =
        let (created, db) = create_database s in
        migrated s (apply_migrations pg set_main_option db_url db)

-- What the program leaves, by how the URL was taken.
abbrev pub Leaves :
    (pg : Postgres) → pg.Database → Result (Unit {0}) → Result (Unit {0}) → Versioned pg → Type 0
Leaves pg blank (ok _) result db =
    (is_ok result ≡ true)
    × (db.version ≡ some "b3ad9bd1b1d3")
    × AllMatch (pg.catalog db.database).tables declared_tables
    × ((pg.catalog db.database).types ≡ "backtest_job_status" ∷ "interval_enum" ∷ [])
Leaves pg blank (err e) result db = (result ≡ err e) × (db.version ≡ none) × (db.database ≡ blank)

ok_tt : (r : Result (Unit {0})) → is_ok r ≡ true → ok tt ≡ r
ok_tt (ok tt) h = refl
ok_tt (err e) h = absurd (cc)

-- Let there be no database, and a new one have no objects in the schema. If Alembic's configuration
-- takes the URL, the program succeeds: the database is then at the last revision, with the tables
-- of the classes up to the order of columns and of indexes and the types of the enumerations. If it
-- refuses the URL, the program raises that error and leaves a new database without them. The program
-- run again ends in the same way and changes nothing.
pub main-AllMatch :
    (pg : Postgres) (quote_plus : String → String) (set_main_option : Message → Result (Unit {0}))
    (settings : StockTraderConfig) (blank : pg.Database) (has : Bool)
    → pg.catalog blank ≡ record { has_schema = has; types = []; tables = [] }
    → let program = main pg quote_plus set_main_option settings in
      let (result, s) = program (record { blank = blank; database = none }) in
      ((db : Versioned pg) × (s.database ≡ some db)
        × Leaves pg blank
            (set_main_option (db_url pg quote_plus set_main_option settings))
            result
            db)
      × (program s ≡ (result, s))
unfolding main create_database apply_migrations
main-AllMatch pg quote_plus set_main_option settings blank has empty =
    let new : Versioned pg = record { version = none; database = blank } in
    let (good, version, match, types, same) = upgrade_head-AllMatch pg blank has empty in
    elim (Result-cases (set_main_option (db_url pg quote_plus set_main_option settings))) [
      | inr (e, refused_) ↦ rw refused_ ((new, refl, (refl, refl, refl)), refl)
      | inl (_, taken) ↦ rw taken (
        ((upgrade_head pg new).1, refl, (good, version, match, types)),
        ap (migrated pg (record { blank = blank; database = some (upgrade_head pg new).1 })) same
            ∙ ap (λ z. (z, record { blank = blank; database = some (upgrade_head pg new).1 }))
                (ok_tt (upgrade_head pg new).0 good),
      )
    ]
