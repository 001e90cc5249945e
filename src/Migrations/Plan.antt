-- ===== src/Migrations/Plan.antt =====
-- Migrations on catalogs, and that a database follows them.
use stock_trader.Prelude.{
  ◌≡◌, refl, inl, inr, Bool, true, false, ◌&&◌, Option, List, [], ◌∷◌, String, Bool-cases,
}
use stock_trader.Errors.{Result, ok, err, is_ok, Result-cases}
use stock_trader.Migrations.Schema.{Catalog, Operation, effect, effects}
use stock_trader.Migrations.Settled.{is_settled}
use stock_trader.Migrations.Database.{Postgres, Versioned, run_all, run_migrations}

-- The catalog settles all operations of a list, up to one that fails.
abbrev pub all_settled : List Operation → Catalog → Bool
all_settled [] c = true
all_settled (o ∷ os) c = elim (effect o c) [
  | err e ↦ true
  | ok c' ↦ is_settled o c && all_settled os c'
]

-- What migrations do to a catalog: whether they succeed, and the version and the catalog afterwards.
abbrev pub plan :
    List (List Operation × Option String) → Option String → Catalog → Bool × Option String × Catalog
plan [] v c = (true, v, c)
plan ((os, v') ∷ ms) v c = elim (effects os c) [ err e ↦ (false, v, c) | ok c' ↦ plan ms v' c' ]

abbrev pub plan_fits : List (List Operation × Option String) → Catalog → Bool
plan_fits [] c = true
plan_fits ((os, v') ∷ ms) c =
    all_settled os c && elim (effects os c) [ err e ↦ true | ok c' ↦ plan_fits ms c' ]

both : (a b : Bool) → (a && b) ≡ true → (a ≡ true) × (b ≡ true)
both true b h = (refl, h)
both false b h = absurd (cc)

module _ (pg : Postgres) where
  -- A database after some operations, and a catalog after them.
  abbrev Follows : Result pg.Database → Result Catalog → Type 0
  Follows (ok db) (ok c) = pg.catalog db ≡ c
  Follows (err e) (err f) = Unit
  Follows (ok db) (err f) = ⊥
  Follows (err e) (ok c) = ⊥

  run_all-Follows :
      (os : List Operation) (db : pg.Database) (c : Catalog)
      → pg.catalog db ≡ c
      → all_settled os c ≡ true
      → Follows (run_all pg os db) (effects os c)
  unfolding run_all effects
  run_all-Follows [] db c e h = e
  run_all-Follows (o ∷ os) db c e h = elim (Result-cases (effect o c)) [
    | inr (f, bad) ↦ let (f', failed) = pg.run-err o db f (rw e bad) in rw (bad, failed) tt
    | inl (c', good) ↦
        let h' = rw (good, all_settled) at h in
        elim (Bool-cases (is_settled o c)) [
          | inl settled ↦
              let (db', done, seen) = pg.run-ok o db c' (rw e settled) (rw e good) in
              rw (good, done) (run_all-Follows os db' c' seen (rw settled at h'))
          | inr open_ ↦ absurd (let k = rw open_ at h' in cc)
        ]
  ]

  -- The state after migrations, as planned.
  pub run_migrations-plan :
      (ms : List (List Operation × Option String)) (s : Versioned pg) (c : Catalog)
      → pg.catalog s.database ≡ c
      → plan_fits ms c ≡ true
      → let (result, s') = run_migrations pg ms s in
        let (good, v, c') = plan ms s.version c in
        (is_ok result ≡ good) × (s'.version ≡ v) × (pg.catalog s'.database ≡ c')
  unfolding run_migrations
  run_migrations-plan [] s c e h = (refl, refl, e)
  run_migrations-plan ((os, v) ∷ ms) s c e h =
      let (fit, later) = both (all_settled os c) _ h in
      let follows = run_all-Follows os s.database c e fit in
      elim (Result-cases (run_all pg os s.database)) [
        | inl (db, done) ↦ elim (Result-cases (effects os c)) [
          | inl (c', good) ↦
              rw (done, good, plan)
                (run_migrations-plan ms (record { version = v; database = db }) c'
                  (rw (done, good) at follows) (rw (good, plan_fits) at later))
          | inr (f, bad) ↦ absurd (rw (done, bad) at follows)
        ]
        | inr (f, failed) ↦ elim (Result-cases (effects os c)) [
          | inl (c', good) ↦ absurd (rw (failed, good) at follows)
          | inr (f', bad) ↦ rw (failed, bad, plan) (refl, refl, e)
        ]
      ]
