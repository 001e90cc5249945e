-- ===== src/Jobs/Service/Race.antt =====
-- Two requests to dispatch one job at the same time. The check and the write of a request are two
-- database sessions with an `await` in between, at which the other request can run.
use stock_trader.Prelude.{
  ℕ, ◌≡◌, refl, ap, ◌∙◌, Bool, true, false, not, some, none, List, [], ◌∷◌, ◌++◌, ==_refl, ◌+◌,
}
use stock_trader.Errors.{Result, ok, err, is_ok, raise, job_already_running_error, text, number}
use stock_trader.Models.{running, is_running}
use stock_trader.Jobs.Table.{JobTypes, Job, JobTables}
use stock_trader.Jobs.Repository.{set_status}
use stock_trader.Jobs.Repository.Update.{select-update}
use stock_trader.Jobs.Service.{World, check_dispatch, commit_dispatch}
use stock_trader.Jobs.Service.Dispatch.{
  commit_dispatch_lem, check_dispatch_ok, check_dispatch_running,
}

module _ (types : JobTypes) (tables : JobTables types) where
  -- A request before its check, between its check and its write, and at its end.
  pub data RequestProgress : Type 0 where
    arrived : RequestProgress
    checked : Job types → RequestProgress
    answered : Result (Unit {0}) → RequestProgress

  abbrev after_check : Result (Job types) → RequestProgress
  after_check (err e) = answered (err e)
  after_check (ok j) = checked j

  abbrev after_commit :
      Result (Unit {0}) × World types tables → RequestProgress × World types tables
  after_commit (result, w) = (answered result, w)

  -- One part of `dispatch_backtest_job`, up to the next `await` at which others run.
  unfoldable pub advance :
      Bool → ℕ → ℕ → RequestProgress → World types tables → RequestProgress × World types tables
  advance broker_up now u arrived w = (after_check (check_dispatch types tables u w), w)
  advance broker_up now u (checked j) w =
      after_commit (commit_dispatch types tables broker_up now u j w)
  advance broker_up now u (answered result) w = (answered result, w)

  pub record Both : Type 0 where
    pub first : RequestProgress
    pub second : RequestProgress
    pub world : World types tables

  abbrev turn : Bool → ℕ → ℕ → Bool → Both → Both
  turn broker_up now u true c =
      let (r, w) = advance broker_up now u c.first c.world in record c { first = r; world = w }
  turn broker_up now u false c =
      let (r, w) = advance broker_up now u c.second c.world in record c { second = r; world = w }

  -- Both requests in the order of the turns, with `true` for a turn of the first; the clock counts on.
  unfoldable pub interleave : Bool → ℕ → ℕ → List Bool → Both → Both
  interleave broker_up now u [] c = c
  interleave broker_up now u (who ∷ turns) c =
      interleave broker_up (now + 1) u turns (turn broker_up now u who c)

  abbrev pub arriving : World types tables → Both
  arriving w = record { first = arrived; second = arrived; world = w }

  abbrev pub accepted : RequestProgress → Bool
  accepted arrived = false
  accepted (checked j) = false
  accepted (answered result) = is_ok result

module _ (types : JobTypes) (tables : JobTables types) (u : ℕ) (j : Job types)
    (w : World types tables) (h : tables.select_by_uuid u w.table ≡ some j) where
  abbrev again : ℕ → Job types
  again now = set_status types running none now j

  written_row :
      (now : ℕ)
      → tables.select_by_uuid u (commit_dispatch types tables true now u j w).1.table
        ≡ some (again now)
  written_row now =
      ap (λ (z : World types tables). tables.select_by_uuid u z.table)
        (commit_dispatch_lem types tables true now u j j w h).1
      ∙ select-update types tables u u now running none w.table j h
      ∙ rw (==_refl u) refl

  refused_after :
      (now : ℕ)
      → check_dispatch types tables u (commit_dispatch types tables true now u j w).1
        ≡ raise job_already_running_error (text "Job " ∷ number u ∷ text " is already running" ∷ [])
  unfolding set_status
  refused_after now =
      let w₁ = (commit_dispatch types tables true now u j w).1 in
      check_dispatch_running types tables u (again now) w₁ (written_row now) refl

  two_commits :
      (now later : ℕ)
      → let w₁ = (commit_dispatch types tables true now u j w).1 in
        let (second, w₂) = commit_dispatch types tables true later u j w₁ in
        (is_ok second ≡ true)
        × (w₂.dispatched ≡ (w.dispatched ++ (u, j.symbols) ∷ []) ++ (u, j.symbols) ∷ [])
  two_commits now later =
      let w₁ = (commit_dispatch types tables true now u j w).1 in
      let (second, world) =
        commit_dispatch_lem types tables true later u j (again now) w₁ (written_row now) in
      (
        second,
        ap (λ (z : World types tables). z.dispatched) world
            ∙ ap (λ (z : World types tables). z.dispatched ++ (u, j.symbols) ∷ [])
                (commit_dispatch_lem types tables true now u j j w h).1,
      )

  overlapping :
      (now : ℕ) (writer : Bool)
      → is_running j.status ≡ false
      → let c =
          interleave types tables true now u
            (true ∷ false ∷ writer ∷ not writer ∷ [])
            (arriving types tables w) in
        (accepted types tables c.first ≡ true)
        × (accepted types tables c.second ≡ true)
        × (c.world.dispatched ≡ (w.dispatched ++ (u, j.symbols) ∷ []) ++ (u, j.symbols) ∷ [])
  unfolding interleave advance
  overlapping now true idle =
      let (good, pipelines) = two_commits (now + 1 + 1) (now + 1 + 1 + 1) in
      rw (check_dispatch_ok types tables u j w h idle)
        ((commit_dispatch_lem types tables true (now + 1 + 1) u j j w h).0, good, pipelines)
  overlapping now false idle =
      let (good, pipelines) = two_commits (now + 1 + 1) (now + 1 + 1 + 1) in
      rw (check_dispatch_ok types tables u j w h idle)
        (good, (commit_dispatch_lem types tables true (now + 1 + 1) u j j w h).0, pipelines)

  one_by_one :
      (now : ℕ)
      → is_running j.status ≡ false
      → let c =
          interleave types tables true now u
            (true ∷ true ∷ false ∷ false ∷ [])
            (arriving types tables w) in
        (accepted types tables c.first ≡ true)
        × (accepted types tables c.second ≡ false)
        × (c.world.dispatched ≡ w.dispatched ++ (u, j.symbols) ∷ [])
  unfolding interleave advance
  one_by_one now idle =
      let (good, world) = commit_dispatch_lem types tables true (now + 1) u j j w h in
      rw (check_dispatch_ok types tables u j w h idle) (
        rw (refused_after (now + 1))
          (good, refl, ap (λ (z : World types tables). z.dispatched) world))

-- Two requests to dispatch a job that exists and does not run, while the broker is up. If the second
-- makes its check after the write of the first, the first is accepted, the second is refused, and the
-- broker gets the pipeline once. If both make their checks before either writes, then, whichever
-- writes first, both are accepted and the broker gets the pipeline of the one job twice.
pub race_dispatches_twice :
    (types : JobTypes) (tables : JobTables types) (now u : ℕ) (writer : Bool) (j : Job types)
    (w : World types tables)
    → tables.select_by_uuid u w.table ≡ some j
    → is_running j.status ≡ false
    → let turns =
        λ (order : List Bool). interleave types tables true now u order (arriving types tables w) in
      let apart = turns (true ∷ true ∷ false ∷ false ∷ []) in
      let racing = turns (true ∷ false ∷ writer ∷ not writer ∷ []) in
      ((accepted types tables apart.first ≡ true)
        × (accepted types tables apart.second ≡ false)
        × (apart.world.dispatched ≡ w.dispatched ++ (u, j.symbols) ∷ []))
      × (accepted types tables racing.first ≡ true)
      × (accepted types tables racing.second ≡ true)
      × (racing.world.dispatched ≡ (w.dispatched ++ (u, j.symbols) ∷ []) ++ (u, j.symbols) ∷ [])
race_dispatches_twice types tables now u writer j w h idle =
    let (first, second, pipelines) = overlapping types tables u j w h now writer idle in
    (one_by_one types tables u j w h now idle, first, second, pipelines)
