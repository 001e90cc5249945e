-- ===== src/Examples/Rows.antt =====
-- A job table as the versions of its rows, newest first.
use stock_trader.Prelude.{
  ℕ, true, ◌≡◌, refl, inl, inr, Option, none, some, List, [], ◌∷◌, String, ◌==◌, filter, All,
  All-map, All-filter, ap, sym, ◌∙◌, ==_iff, Bool-cases, if◌then◌else◌,
}
use stock_trader.Models.{BacktestStatus, created, running, completed, failed}
use stock_trader.Jobs.Table.{JobTypes, Job, JobTables}

abbrev pub text_parameters : JobTypes
text_parameters = record { Parameters = List (String × String) }

abbrev status_number : BacktestStatus → ℕ
status_number created = 0
status_number running = 1
status_number completed = 2
status_number failed = 3

abbrev status_of : ℕ → BacktestStatus
status_of n =
    if n == 0 then created else if n == 1 then running else if n == 2 then completed else failed

status_of-status_number : (status : BacktestStatus) → status_of (status_number status) ≡ status
status_of-status_number created = refl
status_of-status_number running = refl
status_of-status_number completed = refl
status_of-status_number failed = refl

status_number_injective : (a b : BacktestStatus) → status_number a ≡ status_number b → a ≡ b
status_number_injective a b h =
    sym (status_of-status_number a) ∙ ap status_of h ∙ status_of-status_number b

module _ (types : JobTypes) where
  abbrev Versions : Type 0
  Versions = List (Job types)

  abbrev newest : ℕ → Versions → Option (Job types)
  newest u [] = none
  newest u (j ∷ t) = let rest = newest u t in if j.uuid == u then some j else rest

  pub newest-uuid : (u : ℕ) (t : Versions) (j : Job types) → newest u t ≡ some j → j.uuid ≡ u
  newest-uuid u [] j h = absurd (cc)
  newest-uuid u (k ∷ t) j h = elim (Bool-cases (k.uuid == u)) [
    | inl same ↦
        let e : some k ≡ some j = rw same at h in
        let k_j : k ≡ j = cc in let found = (==_iff k.uuid u).0 same in cc
    | inr other ↦ newest-uuid u t j (rw other at h)
  ]

  abbrev rows_by_status : Option BacktestStatus → Versions → List (Job types)
  rows_by_status none t = t
  rows_by_status (some status) t =
      filter (λ (j : Job types). status_number j.status == status_number status) t

  pub rows_by_status-status :
      (status : BacktestStatus) (t : Versions)
      → All (λ (j : Job types). j.status ≡ status) (rows_by_status (some status) t)
  rows_by_status-status status t =
      All-map (λ (j : Job types). (status_number j.status == status_number status) ≡ true)
        (λ (j : Job types). j.status ≡ status)
        (λ j h.
          status_number_injective j.status status
            ((==_iff (status_number j.status) (status_number status)).0 h))
        (filter (λ (j : Job types). status_number j.status == status_number status) t)
        (All-filter (λ (j : Job types). status_number j.status == status_number status) t)

  -- The versions are kept in one order, which no query changes.
  abbrev pub versions_of : JobTables types
  versions_of = record {
    Table = Versions;
    select_by_uuid = newest;
    Ties = Unit {0};
    select_jobs = λ ties. rows_by_status;
    select_jobs-status = λ ties. rows_by_status-status;
    select_jobs-HasDistinctTimes = λ ties other status_filter t distinct. refl;
    insert = λ j t. j ∷ t;
    write_back = λ j t. j ∷ t;
    select_by_uuid-uuid = newest-uuid;
    select_by_uuid-insert = λ u j t h. refl;
    select_by_uuid-write_back = λ u old j t h. refl;
  }

abbrev pub version_table : JobTables text_parameters
version_table = versions_of text_parameters
