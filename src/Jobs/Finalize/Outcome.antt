-- ===== src/Jobs/Finalize/Outcome.antt =====
-- Which status a job ends with.
use stock_trader.Prelude.{
  ℕ, ◌≡◌, ◌≢◌, ◌↔◌, refl, sym, ◌∙◌, inl, inr, true, false, none, some, List, [], ◌∷◌, map, String,
  filter, All, ==_refl, ==_ne, ◌==◌, Bool-cases, if◌then◌else◌,
}
use stock_trader.Errors.{is_empty_message, Result, ok, err, is_ok}
use stock_trader.Models.{completed}
use stock_trader.Jobs.Table.{JobTypes, Job, JobTables}
use stock_trader.Jobs.Repository.{set_status}
use stock_trader.Jobs.Repository.Update.{select-update, update_job_status_sync_found}
use stock_trader.Jobs.Finalize.{
  TaskResult, report, has_error, status_for, error_for, finalize_backtest_job,
}

-- How the symbols of a job ended.
abbrev pub Endings : Type 0
Endings = List (String × Result (Unit {0}))

abbrev pub reports : Endings → List TaskResult
reports endings = map (λ (e : String × Result (Unit {0})). report e.0 e.1) endings

-- A symbol that ended without an exception, or with one whose text is empty.
abbrev pub EndsQuietly : String × Result (Unit {0}) → Type 0
EndsQuietly (_, ok _) = Unit
EndsQuietly (_, err exc) = is_empty_message exc.message ≡ true

abbrev pub SpeaksUp : String × Result (Unit {0}) → Type 0
SpeaksUp (_, ok _) = Unit
SpeaksUp (_, err exc) = is_empty_message exc.message ≡ false

abbrev pub Succeeded : String × Result (Unit {0}) → Type 0
Succeeded (_, r) = is_ok r ≡ true

-- The job ends COMPLETED exactly if every symbol ended quietly.
quiet_iff :
    (endings : Endings)
    → (status_for (filter has_error (reports endings)) ≡ completed) ↔ All EndsQuietly endings
unfolding has_error report
quiet_iff [] = ((λ _. tt), (λ _. refl))
quiet_iff ((s, ok _) ∷ rest) = ((λ h. (tt, (quiet_iff rest).0 h)), (λ h. (quiet_iff rest).1 h.1))
quiet_iff ((s, err exc) ∷ rest) = elim (Bool-cases (is_empty_message exc.message)) [
  | inl quiet ↦ rw quiet ((λ h. (refl, (quiet_iff rest).0 h)), (λ h. (quiet_iff rest).1 h.1))
  | inr loud ↦ rw loud ((λ h. absurd (cc)), (λ h. absurd (cc)))
]

quiet_and_loud :
    (endings : Endings) → All SpeaksUp endings → All EndsQuietly endings ↔ All Succeeded endings
quiet_and_loud [] h = ((λ _. tt), (λ _. tt))
quiet_and_loud ((s, ok _) ∷ rest) h =
    let ih = quiet_and_loud rest h.1 in ((λ q. (refl, ih.0 q.1)), (λ q. (tt, ih.1 q.1)))
quiet_and_loud ((s, err exc) ∷ rest) h =
    ((λ q. absurd (let e = h.0 in let e' = q.0 in cc)), (λ q. absurd (cc)))

-- Finalizing a job that exists changes that job alone.
pub finalize_lem :
    (types : JobTypes) (tables : JobTables types) (u now : ℕ) (results : List TaskResult)
    (t : tables.Table) (j : Job types)
    → tables.select_by_uuid u t ≡ some j
    → (t' : tables.Table) × (finalize_backtest_job types tables (ok tt) results u now t ≡ ok t')
      × ((v : ℕ)
          → tables.select_by_uuid v t' ≡ (
              if u == v
              then some (
                  set_status types
                    (status_for (filter has_error results))
                    (error_for (filter has_error results) results)
                    now
                    j)
              else tables.select_by_uuid v t))
unfolding finalize_backtest_job
finalize_lem types tables u now results t j h =
    let status = status_for (filter has_error results) in
    let error = error_for (filter has_error results) results in
    (
      tables.write_back (set_status types status error now j) t,
      update_job_status_sync_found types tables u now status error t j h,
      λ v. select-update types tables u v now status error t j h,
    )

pub set_status-fields :
    (types : JobTypes) (failures results : List TaskResult) (now : ℕ) (j : Job types)
    → let k = set_status types (status_for failures) (error_for failures results) now j in
      (k.status ≡ status_for failures)
      × (k.error ≡ error_for failures results)
      × (k.end_time ≡ some now)
unfolding set_status
set_status-fields types [] results now j = (refl, refl, refl)
set_status-fields types (r ∷ rs) results now j = (refl, refl, refl)

-- Let every exception that ended a symbol's task have a text that is not empty. Then finalizing a job
-- that exists, on a database that answers, does not fail; it sets the end time, and the job is COMPLETED exactly if all of its
-- symbols succeeded. No other job changes.
pub finalize_status :
    (types : JobTypes) (tables : JobTables types) (u now : ℕ) (endings : Endings) (t : tables.Table)
    (j : Job types)
    → tables.select_by_uuid u t ≡ some j
    → All SpeaksUp endings
    → (t' : tables.Table) × (k : Job types) × (finalize_backtest_job types tables
          (ok tt)
          (reports endings)
          u
          now
          t
        ≡ ok t')
      × (tables.select_by_uuid u t' ≡ some k)
      × (k.end_time ≡ some now)
      × ((k.status ≡ completed) ↔ All Succeeded endings)
      × ((v : ℕ) → u ≢ v → tables.select_by_uuid v t' ≡ tables.select_by_uuid v t)
finalize_status types tables u now endings t j h loud =
    let failures = filter has_error (reports endings) in
    let (t', e, rows) = finalize_lem types tables u now (reports endings) t j h in
    let (status, _, ended) = set_status-fields types failures (reports endings) now j in
    let same = quiet_iff endings in
    let all = quiet_and_loud endings loud in
    (
      t',
      set_status types (status_for failures) (error_for failures (reports endings)) now j,
      e,
      rows u ∙ rw (==_refl u) refl,
      ended,
      ((λ q. all.0 (same.0 (sym status ∙ q))), (λ q. status ∙ same.1 (all.1 q))),
      λ v n. rows v ∙ rw (==_ne u v n) refl,
    )

-- An exception with an empty text counts as a success: if every symbol that failed did so with such
-- an exception, the job is COMPLETED and has no error, even where all of its symbols failed.
pub finalize_hides_blank :
    (types : JobTypes) (tables : JobTables types) (u now : ℕ) (endings : Endings) (t : tables.Table)
    (j : Job types)
    → tables.select_by_uuid u t ≡ some j
    → All EndsQuietly endings
    → (t' : tables.Table) × (k : Job types) × (finalize_backtest_job types tables
          (ok tt)
          (reports endings)
          u
          now
          t
        ≡ ok t')
      × (tables.select_by_uuid u t' ≡ some k)
      × (k.status ≡ completed)
      × (k.error ≡ none)
finalize_hides_blank types tables u now endings t j h quiet =
    let failures = filter has_error (reports endings) in
    let (t', e, rows) = finalize_lem types tables u now (reports endings) t j h in
    let (status, error, _) = set_status-fields types failures (reports endings) now j in
    let done = (quiet_iff endings).1 quiet in
    (
      t',
      set_status types (status_for failures) (error_for failures (reports endings)) now j,
      e,
      rows u ∙ rw (==_refl u) refl,
      status ∙ done,
      error ∙ no_error failures (reports endings) done,
    )
  where
    no_error :
        (failures results : List TaskResult)
        → status_for failures ≡ completed
        → error_for failures results ≡ none
    no_error [] results q = refl
    no_error (r ∷ rs) results q = absurd (cc)
