-- ===== src/Worker/Pipeline/Refinement.antt =====
-- The pipeline as a refinement of the life of a job.
use stock_trader.Prelude.{
  ℕ, zero, ◌≡◌, ◌≢◌, ◌⊎◌, refl, sym, ap, subst, ◌∙◌, inl, inr, Bool, true, false, Option, none,
  some, List, [], ◌∷◌, filter, String, All, Option-cases,
}
use stock_trader.Errors.{Message, is_empty_message}
use stock_trader.Models.{completed, failed}
use stock_trader.Jobs.Repository.{is_finished, set_status}
use stock_trader.Jobs.Repository.Update.{SameRequest, SameRequest-set_status}
use stock_trader.Jobs.Finalize.{TaskResult, has_error, status_for, error_for}
use stock_trader.Jobs.Finalize.Outcome.{set_status-fields}
use stock_trader.Worker.Externals.{Externals, JobOf, json_types}
use stock_trader.Worker.Backtest.{SavedResult}
use stock_trader.Worker.Pipeline.{
  Header, Stage, fetching, charting, finalized, abandoned, all_results, Cluster, Reach,
}
use stock_trader.Worker.Pipeline.Saved.{has_result, EntryHolds, names}
use stock_trader.Worker.Pipeline.Invariant.{StageHolds, Reach-Holds, finished_row}

abbrev pub is_over : Stage → Bool
is_over (fetching _) = false
is_over (charting _) = false
is_over (finalized _) = true
is_over (abandoned _) = true

-- COMPLETED without an error, or FAILED with one.
abbrev pub Outcome : (ext : Externals) → JobOf ext → Type 0
Outcome ext k =
    ((k.status ≡ completed) × (k.error ≡ none))
    ⊎ ((k.status ≡ failed) × ((msg : Message) × (k.error ≡ some msg)))

pub outcome_final : (ext : Externals) (k : JobOf ext) → Outcome ext k → is_finished k.status ≡ true
outcome_final ext k (inl (status, _)) = rw status refl
outcome_final ext k (inr (status, _)) = rw status refl

-- The row of a job that has ended: its request and its start are those of the row before.
pub record IsEndOf (ext : Externals) (j k : JobOf ext) : Type 0 where
  pub outcome : Outcome ext k
  pub ended_at : (now : ℕ) × (k.end_time ≡ some now)
  pub same_start : k.start_time ≡ j.start_time
  pub same_request : SameRequest (json_types ext.floats ext.values) j k

-- The abstract life of a job that was dispatched with row `j`: its row stays as it is until the
-- pipeline is over, and has then ended.
pub data Life (ext : Externals) (j : JobOf ext) : Option (JobOf ext) → Bool → Type 0 where
  waiting : Life ext j (some j) false
  finished : (k : JobOf ext) → IsEndOf ext j k → Life ext j (some k) true

set_status-IsEndOf :
    (ext : Externals) (j : JobOf ext) (now : ℕ) (failures results : List TaskResult)
    → IsEndOf ext j (
        set_status
          (json_types ext.floats ext.values)
          (status_for failures)
          (error_for failures results)
          now
          j)
unfolding set_status
set_status-IsEndOf ext j now [] results = record {
  outcome = inl (refl, refl);
  ended_at = (now, refl);
  same_start = refl;
  same_request = SameRequest-set_status (json_types ext.floats ext.values) completed none now j;
}
set_status-IsEndOf ext j now (r ∷ rs) results = record {
  outcome = inr (refl, (_, refl));
  ended_at = (now, refl);
  same_start = refl;
  same_request = SameRequest-set_status (json_types ext.floats ext.values) failed _ now j;
}

abandoned-IsEndOf :
    (ext : Externals) (j : JobOf ext) (now : ℕ) (msg : Message)
    → IsEndOf ext j (set_status (json_types ext.floats ext.values) failed (some msg) now j)
unfolding set_status
abandoned-IsEndOf ext j now msg = record {
  outcome = inr (refl, (msg, refl));
  ended_at = (now, refl);
  same_start = refl;
  same_request = SameRequest-set_status (json_types ext.floats ext.values) failed (some msg) now j;
}

pub status_for-finished : (failures : List TaskResult) → is_finished (status_for failures) ≡ true
status_for-finished [] = refl
status_for-finished (r ∷ rs) = refl

Holds-Life :
    (ext : Externals) (u : ℕ) (symbols : List String) (j : JobOf ext) (stage : Stage)
    (t : ext.jobs.Table) (saved : List (SavedResult ext))
    → StageHolds ext u symbols j stage t saved
    → Life ext j (ext.jobs.select_by_uuid u t) (is_over stage)
Holds-Life ext u symbols j (fetching retries) t saved h = rw h waiting
Holds-Life ext u symbols j (charting header) t saved h = rw (h.0) waiting
Holds-Life ext u symbols j (finalized header) t saved (now, results, _, _, row) =
    rw row (finished _ (set_status-IsEndOf ext j now (filter has_error results) results))
Holds-Life ext u symbols j (abandoned e) t saved (now, row) =
    rw row (finished _ (abandoned-IsEndOf ext j now _))

-- Whatever the network answers, and in whatever order the tasks of the chord run, every run of the
-- pipeline of a job that exists is a life of that job, as long as the statements on the table of
-- jobs do not fail: the row is as it was dispatched until the pipeline is over. From then on it is
-- COMPLETED without an error or FAILED with one, with an end time and with the request and the start
-- that it had. No other job ever changes.
pub Reach-Life :
    (ext : Externals) (u : ℕ) (symbols : List String) (j : JobOf ext) {start c : Cluster ext}
    {n : ℕ}
    → start.stage ≡ fetching zero
    → ext.jobs.select_by_uuid u start.table ≡ some j
    → Reach ext u symbols start n c
    → Life ext j (ext.jobs.select_by_uuid u c.table) (is_over c.stage)
      × ((v : ℕ)
          → u ≢ v
          → ext.jobs.select_by_uuid v c.table ≡ ext.jobs.select_by_uuid v start.table)
Reach-Life ext u symbols j {c = c} e row r =
    let h = Reach-Holds ext u symbols j e row r in
    (Holds-Life ext u symbols j c.stage c.table c.saved h.stage_holds, h.others)

-- A task that has finished reports no error, or one with a text.
abbrev pub SpeaksUp : String × Option TaskResult → Type 0
SpeaksUp (s, none) = Unit
SpeaksUp (s, some r) = elim r.error [ none ↦ Unit | some msg ↦ is_empty_message msg ≡ false ]

quiet_error :
    (r : TaskResult) (rs : List TaskResult) (s : String)
    → SpeaksUp (s, some r)
    → status_for (filter has_error (r ∷ rs)) ≡ completed
    → (r.error ≡ none) × (status_for (filter has_error rs) ≡ completed)
unfolding has_error
quiet_error r rs s loud status = elim (Option-cases r.error) [
  | inl quiet ↦ (quiet, rw quiet at status)
  | inr (msg, said) ↦ absurd (
      let k : is_empty_message msg ≡ false = rw said at loud in
      let k' = rw (said, k) at status in cc)
]

module _ (ext : Externals) (u : ℕ) where
  pub names_have_results :
      (saved : List (SavedResult ext)) (header : Header) (results : List TaskResult)
      → All SpeaksUp header
      → All (EntryHolds ext u saved) header
      → all_results header ≡ some results
      → status_for (filter has_error results) ≡ completed
      → All (λ s. has_result ext u s saved ≡ true) (names ext u header)
  names_have_results saved [] results loud entries done status = tt
  names_have_results saved ((s, none) ∷ rest) results loud entries done status = absurd (cc)
  names_have_results saved ((s, some r) ∷ rest) results loud entries done status =
      elim (Option-cases (all_results rest)) [
        | inl missing ↦ absurd (let k = rw missing at done in cc)
        | inr (rs, q) ↦
            let k = rw q at done in
            let same : r ∷ rs ≡ results = cc in
            let (quiet, rest_status) = quiet_error r rs s (loud.0) (rw (sym same) at status) in
            (entries.0 quiet, names_have_results saved rest rs loud.1 entries.1 q rest_status)
      ]

-- A job that the callback left COMPLETED had no results with an error.
pub completed_quietly :
    (ext : Externals) (u : ℕ) (symbols : List String) (j k : JobOf ext) (t : ext.jobs.Table)
    (results : List TaskResult) (now : ℕ)
    → ext.jobs.select_by_uuid u t
      ≡ some (
          finished_row ext u symbols j
            (status_for (filter has_error results))
            (error_for (filter has_error results) results)
            now)
    → ext.jobs.select_by_uuid u t ≡ some k
    → k.status ≡ completed
    → status_for (filter has_error results) ≡ completed
completed_quietly ext u symbols j k t results now ended now_row status =
    let failures = filter has_error results in
    let final =
      finished_row ext u symbols j (status_for failures) (error_for failures results) now in
    let same : some final ≡ some k = sym ended ∙ now_row in
    let same' : final ≡ k = cc in
    sym (set_status-fields (json_types ext.floats ext.values) failures results now j).0
    ∙ ap (λ (z : JobOf ext). z.status) same'
    ∙ status

-- Let the pipeline of a job that exists have come to its end by the callback, and let no task of the
-- chord have reported an error with an empty text. If the job is COMPLETED, then a result of the job
-- is saved for each symbol of the pipeline.
pub completed_saved :
    (ext : Externals) (u : ℕ) (symbols : List String) (j k : JobOf ext) {start c : Cluster ext}
    {n : ℕ} (header : Header)
    → start.stage ≡ fetching zero
    → ext.jobs.select_by_uuid u start.table ≡ some j
    → Reach ext u symbols start n c
    → c.stage ≡ finalized header
    → All SpeaksUp header
    → ext.jobs.select_by_uuid u c.table ≡ some k
    → k.status ≡ completed
    → All (λ s. has_result ext u s c.saved ≡ true) symbols
completed_saved ext u symbols j k {c = c} header e row r over loud now_row status =
    let h = Reach-Holds ext u symbols j e row r in
    let (now, results, done, holds, ended) =
      subst (λ z. StageHolds ext u symbols j z c.table c.saved) over h.stage_holds in
    let reached = completed_quietly ext u symbols j k c.table results now ended now_row status in
    subst (All (λ s. has_result ext u s c.saved ≡ true)) holds.same_names
      (names_have_results ext u c.saved header results loud holds.entries done reached)
