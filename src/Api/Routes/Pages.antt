-- ===== src/Api/Routes/Pages.antt =====
-- The pages that GET /backtests gives.
use stock_trader.Prelude.{
  ℕ, suc, ◌+◌, ◌≤◌, ◌<◌, ◌≡◌, refl, ap, ◌∙◌, true, Option, none, some, List, [], ◌∷◌, ◌++◌, map,
  take, drop, length, All,
}
use stock_trader.Prelude.Slices.{
  take_add, drop-drop, length-take, take-drop_short, All-take, All-drop,
}
use stock_trader.Models.{BacktestStatus}
use stock_trader.Jobs.Table.{JobTypes, Job, HasDistinctTimes, JobTables}
use stock_trader.Jobs.Service
use stock_trader.Jobs.Repository.{list_backtest_jobs}
use stock_trader.Api.Responses.{BacktestResponse, from_job}
use stock_trader.Api.Routes.{returned, is_page_size, list_backtests}

-- A response that passes the filter of a listing.
abbrev pub Passes : {types : JobTypes} → Option BacktestStatus → BacktestResponse types → Type 0
Passes none r = Unit
Passes (some status) r = r.status ≡ status

module _ (types : JobTypes) where
  map-++ :
      (xs ys : List (Job types))
      → map (from_job types) (xs ++ ys) ≡ map (from_job types) xs ++ map (from_job types) ys
  map-++ [] ys = refl
  map-++ (x ∷ xs) ys = ap (λ z. from_job types x ∷ z) (map-++ xs ys)

  length-map : (xs : List (Job types)) → length (map (from_job types) xs) ≡ length xs
  length-map [] = refl
  length-map (x ∷ xs) = ap suc (length-map xs)

  All-map-from_job :
      (status : BacktestStatus) (xs : List (Job types))
      → All (λ (j : Job types). j.status ≡ status) xs
      → All (Passes (some status)) (map (from_job types) xs)
  unfolding from_job
  All-map-from_job status [] h = tt
  All-map-from_job status (x ∷ xs) h = (h.0, All-map-from_job status xs h.1)

  All-unfiltered : (rs : List (BacktestResponse types)) → All (Passes none) rs
  All-unfiltered [] = tt
  All-unfiltered (r ∷ rs) = (tt, All-unfiltered rs)

module _ (types : JobTypes) (tables : JobTables types) (status_filter : Option BacktestStatus)
    (ties : tables.Ties) (t : tables.Table) where
  -- The rows of a page, and the responses for them.
  abbrev rows : ℕ → ℕ → List (Job types)
  rows offset limit = take limit (drop offset (tables.select_jobs ties status_filter t))

  abbrev page : ℕ → ℕ → List (BacktestResponse types)
  page offset limit = map (from_job types) (rows offset limit)

  list_backtests-page :
      (offset limit : ℕ)
      → is_page_size limit ≡ true
      → list_backtests types tables ties status_filter offset limit t ≡ returned (page offset limit)
  unfolding list_backtests Service.list_backtest_jobs list_backtest_jobs
  list_backtests-page offset limit h = rw h refl

  -- Every execution of the query gives the same page.
  list_backtests-same :
      (other : tables.Ties) (offset limit : ℕ)
      → HasDistinctTimes types (tables.select_jobs ties status_filter t)
      → is_page_size limit ≡ true
      → list_backtests types tables other status_filter offset limit t
        ≡ returned (page offset limit)
  unfolding list_backtests Service.list_backtest_jobs list_backtest_jobs
  list_backtests-same other offset limit distinct h =
      rw (h, tables.select_jobs-HasDistinctTimes ties other status_filter t distinct) refl

  page_add : (offset m n : ℕ) → page offset (m + n) ≡ page offset m ++ page (offset + m) n
  page_add offset m n =
      let jobs = tables.select_jobs ties status_filter t in
      rw (take_add m n (drop offset jobs), drop-drop offset m jobs)
        (map-++ types (take m (drop offset jobs)) (take n (drop m (drop offset jobs))))

  page_short : (offset m n : ℕ) → length (page offset m) < m → page (offset + m) n ≡ []
  page_short offset m n h =
      let jobs = tables.select_jobs ties status_filter t in
      let short : length (rows offset m) < m = rw (length-map types (rows offset m)) at h in
      rw (drop-drop offset m jobs, take-drop_short m n (drop offset jobs) short) refl

page-Passes :
    (types : JobTypes) (tables : JobTables types) (status_filter : Option BacktestStatus)
    (ties : tables.Ties) (t : tables.Table) (offset m : ℕ)
    → All (Passes status_filter) (page types tables status_filter ties t offset m)
page-Passes types tables none ties t offset m =
    All-unfiltered types (page types tables none ties t offset m)
page-Passes types tables (some status) ties t offset m =
    let jobs = tables.select_jobs ties (some status) t in
    All-map-from_job types status (take m (drop offset jobs)) (
      All-take (λ (j : Job types). j.status ≡ status) m (drop offset jobs)
        (All-drop (λ (j : Job types). j.status ≡ status) offset jobs
          (tables.select_jobs-status ties status t)))

-- If no two of the jobs that pass the filter were created at the same time, the table does not change,
-- and the sizes `m`, `n` and `m + n` are allowed (1 to 100), then two consecutive pages of `m` and of
-- `n`, each from a query of its own, are together the one page of `m + n` that a third query gives.
-- The first page has at most `m` responses, all with the status that was asked for, and if it has
-- fewer than `m`, the second is empty.
pub list_pages :
    (types : JobTypes) (tables : JobTables types) (status_filter : Option BacktestStatus)
    (offset m n : ℕ) (ties ties' ties'' : tables.Ties) (t : tables.Table)
    → HasDistinctTimes types (tables.select_jobs ties status_filter t)
    → is_page_size m ≡ true
    → is_page_size n ≡ true
    → is_page_size (m + n) ≡ true
    → (first second : List (BacktestResponse types)) × (list_backtests types tables ties
          status_filter offset m t
        ≡ returned first)
      × (list_backtests types tables ties' status_filter (offset + m) n t ≡ returned second)
      × (list_backtests types tables ties'' status_filter offset (m + n) t
          ≡ returned (first ++ second))
      × (length first ≤ m)
      × All (Passes status_filter) first
      × (length first < m → second ≡ [])
list_pages types tables status_filter offset m n ties ties' ties'' t distinct allowed allowed'
      joint =
    let jobs = tables.select_jobs ties status_filter t in
    (
      page types tables status_filter ties t offset m,
      page types tables status_filter ties t (offset + m) n,
      list_backtests-page types tables status_filter ties t offset m allowed,
      list_backtests-same types tables status_filter ties t ties' (offset + m) n distinct allowed',
      list_backtests-same types tables status_filter ties t ties'' offset (m + n) distinct joint
          ∙ ap returned (page_add types tables status_filter ties t offset m n),
      rw (length-map types (take m (drop offset jobs))) (length-take m (drop offset jobs)),
      page-Passes types tables status_filter ties t offset m,
      page_short types tables status_filter ties t offset m n,
    )
