-- ===== src/Worker/Pipeline/Progress.antt =====
-- The pipeline never stops half-way, and comes to its end.
use stock_trader.Prelude.{
  ℕ, zero, suc, ◌+◌, ◌-◌, ◌≤◌, ◌<◌, ◌≡◌, refl, ap, ◌∙◌, inl, inr, ◌⊎◌, Bool, true, false, none,
  some, List, [], ◌∷◌, ◌++◌, length, String, arith, Bool-cases, ltb→lt, ◌&&◌, ◌||◌,
}
use stock_trader.Errors.{Exception, Result, ok, err, is_instance, provider_error, redis_error}
use stock_trader.Jobs.Finalize.{TaskResult}
use stock_trader.Worker.Externals.{Externals, Network}
use stock_trader.Worker.Backtest.{run_backtest}
use stock_trader.Worker.Fetch.{Stored, max_retries, ensure_market_data_for_job, is_retried}
use stock_trader.Worker.Pipeline.{
  Header, task_group, Stage, fetching, charting, finalized, abandoned, all_results, Cluster,
  fetch_ended, after_fetch, after_backtest, after_callback, Step, fetch, backtest, callback, Reach,
  here, next,
}
use stock_trader.Worker.Pipeline.Refinement.{is_over}

-- The tasks of a chord that have not finished.
abbrev pub open_tasks : Header → ℕ
open_tasks [] = 0
open_tasks ((s, none) ∷ rest) = suc (open_tasks rest)
open_tasks ((s, some r) ∷ rest) = open_tasks rest

-- How many steps are left at most, for `n` symbols.
abbrev pub steps_left : ℕ → Stage → ℕ
steps_left n (fetching retries) = (max_retries - retries) + (n + 2)
steps_left n (charting header) = open_tasks header + 1
steps_left n (finalized header) = 0
steps_left n (abandoned e) = 0

open_tasks-task_group : (symbols : List String) → open_tasks (task_group symbols) ≡ length symbols
open_tasks-task_group [] = refl
open_tasks-task_group (s ∷ symbols) = ap suc (open_tasks-task_group symbols)

open_tasks-finish :
    (before after : Header) (s : String) (r : TaskResult)
    → open_tasks (before ++ ((s, none) ∷ after))
      ≡ suc (open_tasks (before ++ ((s, some r) ∷ after)))
open_tasks-finish [] after s r = refl
open_tasks-finish ((k, none) ∷ before) after s r = ap suc (open_tasks-finish before after s r)
open_tasks-finish ((k, some o) ∷ before) after s r = open_tasks-finish before after s r

-- A header whose tasks have not all finished has one that can run.
find_open :
    (header : Header)
    → ((results : List TaskResult) × (all_results header ≡ some results))
      ⊎ ((before : Header) × (s : String) × (after : Header) × (header
            ≡ before ++ ((s, none) ∷ after)))
find_open [] = inl ([], refl)
find_open ((s, none) ∷ rest) = inr ([], s, rest, refl)
find_open ((s, some r) ∷ rest) = elim (find_open rest) [
  | inl (results, q) ↦ inl (r ∷ results, rw q refl)
  | inr (before, k, after, q) ↦ inr ((s, some r) ∷ before, k, after, ap (λ z. (s, some r) ∷ z) q)
]

and_right : (a b : Bool) → (a && b) ≡ true → b ≡ true
and_right true b h = h
and_right false b h = cc

pub retried_fewer :
    (retries : ℕ) (e : Exception) → is_retried retries e ≡ true → retries < max_retries
unfolding is_retried
retried_fewer retries e h =
    ltb→lt retries max_retries
      (and_right (is_instance e provider_error || is_instance e redis_error) _ h)

module _ (ext : Externals) (u : ℕ) (symbols : List String) where
  fetch_ended-steps_left :
      (now retries : ℕ) (c : Cluster ext) (r : Result (Unit {0})) (w : Stored ext)
      → steps_left (length symbols) (fetch_ended ext u symbols now retries c (r, w)).stage
        < steps_left (length symbols) (fetching retries)
  fetch_ended-steps_left now retries c (ok _) w = omega (arith, open_tasks-task_group symbols)
  fetch_ended-steps_left now retries c (err e) w = elim (Bool-cases (is_retried retries e)) [
    | inr final ↦ rw final (omega arith)
    | inl again ↦
        rw again (let fewer : retries < max_retries = retried_fewer retries e again in omega arith)
  ]

  Step-steps_left :
      {c d : Cluster ext}
      → Step ext u symbols c d
      → steps_left (length symbols) d.stage < steps_left (length symbols) c.stage
  unfolding after_fetch after_backtest run_backtest after_callback
  Step-steps_left (fetch {c = c} {retries = retries} net now e) = rw e (
      fetch_ended-steps_left now retries c (ensure_market_data_for_job ext net u c.table c.stored).0
        (ensure_market_data_for_job ext net u c.table c.stored).1)
  Step-steps_left (backtest {c = c} before s after answer e) = rw e (
      omega (
        arith,
        open_tasks-finish before after s
            (run_backtest ext answer u s c.table c.stored.table c.saved).0,
      ))
  Step-steps_left (callback {c = c} header results now e done) = rw e (omega arith)

  Reach-steps_left :
      {start c : Cluster ext} {n : ℕ}
      → Reach ext u symbols start n c
      → n + steps_left (length symbols) c.stage ≤ steps_left (length symbols) start.stage
  Reach-steps_left here = omega arith
  Reach-steps_left (next r st) = omega (arith, Reach-steps_left r, Step-steps_left st)

  can_step :
      (net : Network ext) (c : Cluster ext) (stage : Stage)
      → c.stage ≡ stage
      → is_over stage ≡ false
      → (d : Cluster ext) × Step ext u symbols c d
  can_step net c (fetching retries) e h = (_, fetch net 0 e)
  can_step net c (charting header) e h = elim (find_open header) [
    | inl (results, q) ↦ (_, callback header results 0 e q)
    | inr (before, s, after, q) ↦ (_, backtest before s after (ok tt) (e ∙ ap (λ z. charting z) q))
  ]
  can_step net c (finalized header) e h = cc
  can_step net c (abandoned x) e h = cc

-- Every run of the pipeline of `n` symbols makes at most n + 5 steps, the three retries included; and
-- while it is not over, there is a next step, whatever has happened so far. So every run that goes
-- on ends, and it ends with the callback or with the failure handler.
pub pipeline_ends :
    (ext : Externals) (net : Network ext) (u : ℕ) (symbols : List String) {start c : Cluster ext}
    {n : ℕ}
    → start.stage ≡ fetching zero
    → Reach ext u symbols start n c
    → (n ≤ length symbols + 5)
      × (is_over c.stage ≡ false → (d : Cluster ext) × Step ext u symbols c d)
pipeline_ends ext net u symbols {c = c} e r = (
  (let k = rw e at (Reach-steps_left ext u symbols r) in omega arith),
  can_step ext u symbols net c c.stage refl,
)
