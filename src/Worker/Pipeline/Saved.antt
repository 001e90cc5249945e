-- ===== src/Worker/Pipeline/Saved.antt =====
-- What the results of finished tasks say of the saved results.
use stock_trader.Prelude.{
  ℕ, ◌≡◌, refl, sym, ap, ◌∙◌, inl, inr, Bool, true, false, ◌&&◌, ◌||◌, Option, none, some, List, [],
  ◌∷◌, ◌++◌, map, String, arith, str_eq, eq_iff, ◌==◌, ==_refl, All, Bool-cases,
}
use mathlib.Core.List.{append-nil}
use stock_trader.Errors.{Result, ok, err}
use stock_trader.Strategy.Bollinger.{BacktestResult}
use stock_trader.Jobs.Finalize.{TaskResult, report}
use stock_trader.Worker.Externals.{Externals}
use stock_trader.Worker.Backtest.{SavedResult, saved_result, save_job_result, save_if_ok}
use stock_trader.Worker.Pipeline.{Header, task_group}

module _ (ext : Externals) (u : ℕ) where
  open ext use {floats, values, jobs}

  -- Whether a result of the job is saved for a symbol.
  abbrev pub has_result : String → List (SavedResult ext) → Bool
  has_result s [] = false
  has_result s (row ∷ rows) = ((row.job_id == u) && str_eq row.symbol s) || has_result s rows

  pub has_result-append :
      (s : String) (xs ys : List (SavedResult ext))
      → has_result s xs ≡ true
      → has_result s (xs ++ ys) ≡ true
  has_result-append s [] ys h = cc
  has_result-append s (x ∷ xs) ys h = elim (Bool-cases ((x.job_id == u) && str_eq x.symbol s)) [
    | inl found ↦ rw found refl
    | inr other ↦ rw other (has_result-append s xs ys (rw other at h))
  ]

  pub has_result-snoc :
      (s : String) (xs : List (SavedResult ext)) (row : SavedResult ext)
      → row.job_id ≡ u
      → row.symbol ≡ s
      → has_result s (xs ++ row ∷ []) ≡ true
  has_result-snoc s [] row e f = rw (e, f) (rw (==_refl u, (eq_iff s s).1 refl) refl)
  has_result-snoc s (x ∷ xs) row e f = rw (has_result-snoc s xs row e f) (ground arith)

  -- A task that reports no error has saved its result.
  abbrev pub EntryHolds : List (SavedResult ext) → String × Option TaskResult → Type 0
  EntryHolds saved (s, none) = Unit
  EntryHolds saved (s, some r) = r.error ≡ none → has_result s saved ≡ true

  abbrev pub names : Header → List String
  names header = map (λ (e : String × Option TaskResult). e.0) header

  -- The header of a chord for these symbols.
  pub record HeaderHolds (symbols : List String) (saved : List (SavedResult ext)) (header : Header)
      : Type 0 where
    pub same_names : names header ≡ symbols
    pub entries : All (EntryHolds saved) header

  pub EntryHolds-more :
      (xs ys : List (SavedResult ext)) (header : Header)
      → All (EntryHolds xs) header
      → All (EntryHolds (xs ++ ys)) header
  EntryHolds-more xs ys [] h = tt
  EntryHolds-more xs ys ((s, none) ∷ rest) h = (tt, EntryHolds-more xs ys rest h.1)
  EntryHolds-more xs ys ((s, some r) ∷ rest) h =
      ((λ e. has_result-append s xs ys (h.0 e)), EntryHolds-more xs ys rest h.1)

  -- `run_backtest` only appends, and a report without an error has a saved result.
  pub save_if_ok-saves :
      (answer : Result (Unit {0})) (s : String) (saved : List (SavedResult ext))
      (result : Result (BacktestResult floats))
      → (more : List (SavedResult ext)) × ((save_if_ok ext answer u s saved result).1
          ≡ saved ++ more)
        × ((report s (save_if_ok ext answer u s saved result).0).error ≡ none
            → has_result s (saved ++ more) ≡ true)
  unfolding report save_job_result
  save_if_ok-saves answer s saved (err e) = ([], sym (append-nil saved), λ h. absurd (cc))
  save_if_ok-saves (ok _) s saved (ok r) = (
    saved_result ext u s r ∷ [],
    refl,
    λ h. has_result-snoc s saved (saved_result ext u s r) refl refl,
  )
  save_if_ok-saves (err e) s saved (ok r) = ([], sym (append-nil saved), λ h. absurd (cc))

  pub HeaderHolds-backtest :
      (symbols : List String) (before after : Header) (s : String) (r : TaskResult)
      (saved more : List (SavedResult ext))
      → (r.error ≡ none → has_result s (saved ++ more) ≡ true)
      → HeaderHolds symbols saved (before ++ ((s, none) ∷ after))
      → HeaderHolds symbols (saved ++ more) (before ++ ((s, some r) ∷ after))
  HeaderHolds-backtest symbols before after s r saved more h holds = record {
    same_names = same before ∙ holds.same_names;
    entries = go before (EntryHolds-more saved more (before ++ ((s, none) ∷ after)) holds.entries);
  }
    where
      same : (xs : Header) → names (xs ++ ((s, some r) ∷ after)) ≡ names (xs ++ ((s, none) ∷ after))
      same [] = refl
      same ((k, o) ∷ xs) = ap (λ z. k ∷ z) (same xs)

      go :
          (xs : Header)
          → All (EntryHolds (saved ++ more)) (xs ++ ((s, none) ∷ after))
          → All (EntryHolds (saved ++ more)) (xs ++ ((s, some r) ∷ after))
      go [] k = (h, k.1)
      go (x ∷ xs) k = (k.0, go xs k.1)

  pub HeaderHolds-start :
      (symbols : List String) (saved : List (SavedResult ext))
      → HeaderHolds symbols saved (task_group symbols)
  HeaderHolds-start symbols saved = record { same_names = same symbols; entries = go symbols }
    where
      same : (xs : List String) → names (task_group xs) ≡ xs
      same [] = refl
      same (x ∷ xs) = ap (λ z. x ∷ z) (same xs)

      go : (xs : List String) → All (EntryHolds saved) (task_group xs)
      go [] = tt
      go (x ∷ xs) = (tt, go xs)
