-- ===== src/Migrations/Return.antt =====
-- A downgrade, and the migrations after it.
use stock_trader.Prelude.{
  ◌≡◌, refl, Bool, true, false, not, ◌||◌, map, All, str_eq, if◌then◌else◌, Option, none, some,
  List, [], ◌∷◌, String,
}
use stock_trader.Errors.{is_ok}
use stock_trader.Migrations.Schema.{Catalog, effect, effects}
use stock_trader.Migrations.Database.{
  Postgres, Versioned, pending, upgrades, downgrades, upgrade_head, downgrade,
}
use stock_trader.Migrations.Plan.{plan, plan_fits, run_migrations-plan}
use stock_trader.Migrations.Revisions.{Revision, revisions}
use stock_trader.Migrations.Head.{at_head}

-- The revisions that an `alembic downgrade` can go to; none is `base`.
abbrev pub targets : List (Option String)
targets = none ∷ map (λ (r : Revision). some r.revision) revisions

-- The revisions whose tables have all or in part been dropped, but not the types with them.
abbrev pub keeps_types : Option String → Bool
keeps_types none = false
keeps_types (some v) = str_eq v "0d583eb2b2f7" || str_eq v "bcdd27605b96"

module _ (pg : Postgres) where
  -- A downgrade to a target and `upgrade_head` after it.
  abbrev pub Returns : Versioned pg → Option String → Type 0
  Returns s target =
      let (down, s') = downgrade pg target s in
      let (up, s'') = upgrade_head pg s' in
      (is_ok down ≡ true)
      × (is_ok up ≡ not (keeps_types target))
      × (s''.version ≡ (if keeps_types target then target else some "b3ad9bd1b1d3"))

  abbrev head_of : pg.Database → Versioned pg
  head_of db = record { version = some "b3ad9bd1b1d3"; database = db }

  returned :
      (db : pg.Database) (c c' c'' : Catalog) (target v : Option String) (good : Bool)
      → pg.catalog db ≡ c
      → let downs = downgrades (pending target revisions) [] in
        let ups = upgrades (pending target revisions) in
        plan_fits downs c ≡ true
        → plan downs (some "b3ad9bd1b1d3") c ≡ (true, target, c')
        → plan_fits ups c' ≡ true
        → plan ups target c' ≡ (good, v, c'')
        → let (down, s) = downgrade pg target (head_of db) in
          let (up, s') = upgrade_head pg s in
          (is_ok down ≡ true) × (is_ok up ≡ good) × (s'.version ≡ v)
  unfolding upgrade_head downgrade
  returned db c c' c'' target v good e fit downs fits ups =
      let ran =
        run_migrations-plan pg (downgrades (pending target revisions) []) (head_of db) c e fit in
      let (done, at_target, at_catalog) = rw downs at ran in
      let back =
        run_migrations-plan pg (upgrades (pending target revisions))
          (downgrade pg target (head_of db)).1 c' at_catalog fits in
      let (up, v', _) = rw (at_target, ups) at back in (done, rw at_target up, rw at_target v')

  -- Let a database be at the last revision, with an empty table of jobs. A downgrade to any target
  -- succeeds. The `upgrade_head` after it fails and stays at the target for the targets
  -- 0d583eb2b2f7 and bcdd27605b96, and arrives at the last revision again for every other.
  pub upgrade_head-downgrade :
      (db : pg.Database) (results events bars : Bool)
      → pg.catalog db ≡ at_head false results events bars
      → All (Returns (head_of db)) targets
  unfolding effect effects
  upgrade_head-downgrade db results events bars e = (
    returned db _ _ _ none _ _ e refl refl refl refl,
    (
      returned db _ _ _ (some "0d583eb2b2f7") _ _ e refl refl refl refl,
      (
        returned db _ _ _ (some "bcdd27605b96") _ _ e refl refl refl refl,
        (
          returned db _ _ _ (some "4b19bd66b772") _ _ e refl refl refl refl,
          (
            returned db _ _ _ (some "8bb6b5de95e4") _ _ e refl refl refl refl,
            (returned db _ _ _ (some "b3ad9bd1b1d3") _ _ e refl refl refl refl, tt),
          ),
        ),
      ),
    ),
  )
