-- ===== src/Worker/Pipeline/Budget.antt =====
-- The calls of the provider in a whole pipeline.
use stock_trader.Prelude.{
  ℕ, none, zero, suc, ◌+◌, ◌*◌, ◌≤◌, ◌<◌, ◌≡◌, sym, subst, inl, inr, some, List, ◌∷◌, ◌++◌, String,
  arith, Bool-cases,
}
use stock_trader.Errors.{Result, ok, err}
use stock_trader.MarketData.Service.{Effect}
use stock_trader.Worker.Externals.{Externals, JobOf}
use stock_trader.Worker.Fetch.{Stored, max_retries, is_retried, ensure_market_data_for_job}
use stock_trader.Worker.Fetch.Calls.{
  occurrences, Calls, Calls-refl, Calls-trans, Calls-more, ensure_market_data_for_job-Calls,
}
use stock_trader.Worker.Backtest.{run_backtest}
use stock_trader.Worker.Pipeline.{
  Stage, fetching, charting, finalized, abandoned, Cluster, fetch_ended, after_fetch,
  after_backtest, after_callback, Step, fetch, backtest, callback, Reach, here, next,
}
use stock_trader.Worker.Pipeline.Invariant.{Holds, StageHolds, Reach-Holds}
use stock_trader.Worker.Pipeline.Progress.{retried_fewer}

-- `n` calls for each of some attempts.
abbrev pub per_attempt : ℕ → ℕ → ℕ
per_attempt zero n = 0
per_attempt (suc attempts) n = per_attempt attempts n + n

per_attempt_mono : (a b n : ℕ) → a ≤ b → per_attempt a n ≤ per_attempt b n
per_attempt_mono zero b n le = omega arith
per_attempt_mono (suc a) zero n le = absurd (omega arith)
per_attempt_mono (suc a) (suc b) n le = omega (arith, per_attempt_mono a b n (omega arith))

-- The attempts that are over in a stage, at most.
abbrev pub attempts : Stage → ℕ
attempts (fetching retries) = retries
attempts (charting header) = suc max_retries
attempts (finalized header) = suc max_retries
attempts (abandoned e) = suc max_retries

abbrev pub InTime : Stage → Type 0
InTime (fetching retries) = retries ≤ max_retries
InTime (charting header) = Unit
InTime (finalized header) = Unit
InTime (abandoned e) = Unit

attempts_few : (stage : Stage) → InTime stage → attempts stage ≤ suc max_retries
attempts_few (fetching retries) h = omega arith
attempts_few (charting header) h = omega arith
attempts_few (finalized header) h = omega arith
attempts_few (abandoned e) h = omega arith

module _ (ext : Externals) (u : ℕ) (symbols : List String) (j : JobOf ext)
    (start : List Effect) where
  open ext use {jobs}

  record Spent (c : Cluster ext) : Type 0 where
    in_time : InTime c.stage
    calls :
        Calls ext j
          (λ s. per_attempt (attempts c.stage) (occurrences s j.symbols))
          start
          c.stored.effects

  -- All attempts that there can be.
  at_most :
      (retries : ℕ) {es : List Effect}
      → retries ≤ max_retries
      → Calls ext j (λ s. per_attempt (suc retries) (occurrences s j.symbols)) start es
      → Calls ext j (λ s. per_attempt (suc max_retries) (occurrences s j.symbols)) start es
  at_most retries le = Calls-more ext j (λ s.
      per_attempt_mono (suc retries) (suc max_retries) (occurrences s j.symbols) (omega arith))

  fetch_ended-Spent :
      (now retries : ℕ) (c : Cluster ext) (r : Result (Unit {0})) (w : Stored ext)
      → retries ≤ max_retries
      → Calls ext j (λ s. per_attempt (suc retries) (occurrences s j.symbols)) start w.effects
      → Spent (fetch_ended ext u symbols now retries c (r, w))
  fetch_ended-Spent now retries c (ok _) w le h = record {
    in_time = tt;
    calls = at_most retries le h;
  }
  fetch_ended-Spent now retries c (err e) w le h = elim (Bool-cases (is_retried retries e)) [
    | inl again ↦
        let fewer : retries < max_retries = retried_fewer retries e again in
        rw again (record { in_time = omega arith; calls = h })
    | inr final ↦ rw final (record { in_time = tt; calls = at_most retries le h })
  ]

  at_stage :
      (c : Cluster ext) (stage : Stage)
      → c.stage ≡ stage
      → Spent c
      → Spent (record c { stage = stage })
  at_stage c stage e h = record {
    in_time = subst InTime e h.in_time;
    calls =
        subst
          (λ z.
            Calls ext j (λ s. per_attempt (attempts z) (occurrences s j.symbols)) start
              c.stored.effects)
          e h.calls;
  }

  Step-Spent :
      (table : jobs.Table) {c d : Cluster ext}
      → Step ext u symbols c d
      → Holds ext u symbols j table c
      → Spent c
      → Spent d
  unfolding after_fetch after_backtest run_backtest after_callback
  Step-Spent table (fetch {c = c} {retries = retries} net now e) holds h =
      let before = at_stage c (fetching retries) e h in
      let row : jobs.select_by_uuid u c.table ≡ some j =
        subst (λ z. StageHolds ext u symbols j z c.table c.saved) e holds.stage_holds in
      let (result, w) = ensure_market_data_for_job ext net u c.table c.stored in
      fetch_ended-Spent now retries c result w before.in_time (
        Calls-trans ext j before.calls
          (ensure_market_data_for_job-Calls ext j net u c.table c.stored row))
  Step-Spent table (backtest {c = c} before s after answer e) holds h = record {
    in_time = tt;
    calls = (at_stage c (charting (before ++ ((s, none) ∷ after))) e h).calls;
  }
  Step-Spent table (callback {c = c} header results now e done) holds h = record {
    in_time = tt;
    calls = (at_stage c (charting header) e h).calls;
  }

module _ (ext : Externals) (u : ℕ) (symbols : List String) (j : JobOf ext) where
  Reach-Spent :
      {start c : Cluster ext} {n : ℕ}
      → start.stage ≡ fetching zero
      → ext.jobs.select_by_uuid u start.table ≡ some j
      → Reach ext u symbols start n c
      → Spent ext u symbols j start.stored.effects c
  Reach-Spent {start = start} e row here = record {
    in_time = subst InTime (sym e) (omega arith);
    calls =
        subst
          (λ z.
            Calls ext j (λ s. per_attempt (attempts z) (occurrences s j.symbols))
              start.stored.effects start.stored.effects)
          (sym e) (Calls-refl ext j start.stored.effects);
  }
  Reach-Spent {start = start} e row (next r st) =
      Step-Spent ext u symbols j start.stored.effects start.table st
        (Reach-Holds ext u symbols j e row r) (Reach-Spent e row r)

-- Over the whole pipeline of a job, retries included, every call of the provider directly follows a
-- call of the limiter and asks for minute bars of the dates of the job, and for each symbol there are
-- at most four of them for each of its places among the symbols of the job, so none for any other.
pub Reach-Calls :
    (ext : Externals) (u : ℕ) (symbols : List String) (j : JobOf ext) {start c : Cluster ext}
    {n : ℕ}
    → start.stage ≡ fetching zero
    → ext.jobs.select_by_uuid u start.table ≡ some j
    → Reach ext u symbols start n c
    → Calls ext j (λ s. 4 * occurrences s j.symbols) start.stored.effects c.stored.effects
Reach-Calls ext u symbols j {c = c} e row r =
    let spent = Reach-Spent ext u symbols j e row r in
    Calls-more ext j
      (λ s. omega (
        arith,
        per_attempt_mono (attempts c.stage) (suc max_retries) (occurrences s j.symbols)
            (attempts_few c.stage spent.in_time),
      ))
      spent.calls
