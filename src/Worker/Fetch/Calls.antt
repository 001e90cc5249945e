-- ===== src/Worker/Fetch/Calls.antt =====
-- The calls of the limiter and of the provider that an attempt of the market data task makes.
use stock_trader.Prelude.{
  str_eq, ℕ, suc, ◌+◌, ◌≤◌, ◌≡◌, refl, sym, ◌∙◌, inl, inr, Bool, true, false, some, List, [], ◌∷◌,
  ◌++◌, String, All, All-append, arith,
}
use mathlib.Core.List.{append-nil, append_assoc}
use stock_trader.Errors.{Result, ok, err}
use stock_trader.Models.{one_minute}
use stock_trader.Jobs.Repository.{get_backtest_job}
use stock_trader.MarketData.Bars.{Request}
use stock_trader.MarketData.Service.{Effect, acquired, fetched, ensure_data}
use stock_trader.MarketData.Service.Cache.{Effects, ensure_data-effects}
use stock_trader.Worker.Externals.{Externals, JobOf, Network}
use stock_trader.Worker.Fetch.{
  Stored, next_symbol, forget, ensure_symbols, ensure_market_data_for_job,
}

-- Every call of the provider directly follows a call of the limiter; `ready` says whether one came
-- just before.
abbrev pub is_paced : Bool → List Effect → Bool
is_paced ready [] = true
is_paced ready (acquired ∷ es) = is_paced true es
is_paced true (fetched r ∷ es) = is_paced false es
is_paced false (fetched r ∷ es) = false

abbrev pub one : Bool → ℕ
one true = 1
one false = 0

-- The places of a symbol among the symbols.
abbrev pub occurrences : String → List String → ℕ
occurrences s [] = 0
occurrences s (k ∷ ks) = one (str_eq k s) + occurrences s ks

-- The calls of the provider for a symbol.
abbrev pub fetches : String → List Effect → ℕ
fetches s [] = 0
fetches s (acquired ∷ es) = fetches s es
fetches s (fetched r ∷ es) = one (str_eq r.symbol s) + fetches s es

is_paced-sooner : (es : List Effect) → is_paced false es ≡ true → is_paced true es ≡ true
is_paced-sooner [] h = refl
is_paced-sooner (acquired ∷ es) h = h
is_paced-sooner (fetched r ∷ es) h = absurd (cc)

is_paced-append :
    (ready : Bool) (es fs : List Effect)
    → is_paced ready es ≡ true
    → is_paced false fs ≡ true
    → is_paced ready (es ++ fs) ≡ true
is_paced-append false [] fs h k = k
is_paced-append true [] fs h k = is_paced-sooner fs k
is_paced-append ready (acquired ∷ es) fs h k = is_paced-append true es fs h k
is_paced-append true (fetched r ∷ es) fs h k = is_paced-append false es fs h k
is_paced-append false (fetched r ∷ es) fs h k = absurd (cc)

fetches-append :
    (s : String) (es fs : List Effect) → fetches s (es ++ fs) ≡ fetches s es + fetches s fs
fetches-append s [] fs = omega arith
fetches-append s (acquired ∷ es) fs = fetches-append s es fs
fetches-append s (fetched r ∷ es) fs = omega (arith, fetches-append s es fs)

-- A call on behalf of a job.
abbrev pub IsCallOf : (ext : Externals) → JobOf ext → Effect → Type 0
IsCallOf ext j acquired = Unit
IsCallOf ext j (fetched r) =
    (r.interval ≡ one_minute) × (r.start_date ≡ j.start_date) × (r.end_date ≡ j.end_date)

-- What has been added to the calls since `before`: they are paced, on behalf of the job, and at most
-- `n s` of them ask the provider for a symbol `s`.
pub record Calls (ext : Externals) (j : JobOf ext) (n : String → ℕ) (before after : List Effect)
    : Type 0 where
  pub more : List Effect
  pub appended : after ≡ before ++ more
  pub paced : is_paced false more ≡ true
  pub few : (s : String) → fetches s more ≤ n s
  pub of_job : All (IsCallOf ext j) more

module _ (ext : Externals) (j : JobOf ext) where
  open ext use {floats, values, jobs, truncate, market, midnight}

  pub Calls-refl : (es : List Effect) → Calls ext j (λ s. 0) es es
  Calls-refl es = record {
    more = [];
    appended = sym (append-nil es);
    paced = refl;
    few = λ s. omega arith;
    of_job = tt;
  }

  pub Calls-trans :
      {m n : String → ℕ} {before between after : List Effect}
      → Calls ext j m before between
      → Calls ext j n between after
      → Calls ext j (λ s. m s + n s) before after
  Calls-trans {before = before} h k = record {
    more = h.more ++ k.more;
    appended = k.appended ∙ rw h.appended (append_assoc before h.more k.more);
    paced = is_paced-append false h.more k.more h.paced k.paced;
    few = λ s. omega (arith, h.few s, k.few s, fetches-append s h.more k.more);
    of_job = All-append (IsCallOf ext j) h.more k.more h.of_job k.of_job;
  }

  pub Calls-more :
      {m n : String → ℕ} {before after : List Effect}
      → ((s : String) → m s ≤ n s)
      → Calls ext j m before after
      → Calls ext j n before after
  Calls-more le h = record {
    more = h.more;
    appended = h.appended;
    paced = h.paced;
    few = λ s. omega (arith, le s, h.few s);
    of_job = h.of_job;
  }

  -- One call of `ensure_data` for the job.
  Effects-Calls :
      (net : Network ext) (answer : Result (Unit {0})) (r : Request) {before after : List Effect}
      → IsCallOf ext j (fetched r)
      → Effects floats.Float truncate market midnight net.list_aggs answer r before after
      → Calls ext j (λ s. one (str_eq r.symbol s)) before after
  Effects-Calls net answer r {before = before} of_job (inl same) = record {
    more = [];
    appended = same ∙ sym (append-nil before);
    paced = refl;
    few = λ s. omega arith;
    of_job = tt;
  }
  Effects-Calls net answer r of_job (inr (inl (e, _))) = record {
    more = acquired ∷ [];
    appended = e;
    paced = refl;
    few = λ s. omega arith;
    of_job = (tt, tt);
  }
  Effects-Calls net answer r of_job (inr (inr (e, _))) = record {
    more = acquired ∷ fetched r ∷ [];
    appended = e;
    paced = refl;
    few = λ s. omega arith;
    of_job = (tt, (of_job, tt));
  }

  next_symbol-Calls :
      {A : Type 0} {m n : String → ℕ} {before : List Effect}
      (rest : Stored ext → Result (Unit {0}) × Stored ext) (r : Result A) (w : Stored ext)
      → Calls ext j m before w.effects
      → ((w' : Stored ext) → Calls ext j n w'.effects (rest w').1.effects)
      → Calls ext j (λ s. m s + n s) before (next_symbol ext rest (forget ext (r, w))).1.effects
  next_symbol-Calls rest (err e) w first later = Calls-more (λ s. omega arith) first
  next_symbol-Calls rest (ok a) w first later = Calls-trans first (later w)

  ensure_symbols-Calls :
      (net : Network ext) (i : ℕ) (symbols : List String) (w : Stored ext)
      → Calls ext j
          (λ k. occurrences k symbols)
          w.effects
          (ensure_symbols ext net j i symbols w).1.effects
  unfolding ensure_symbols
  ensure_symbols-Calls net i [] w = Calls-refl w.effects
  ensure_symbols-Calls net i (s ∷ symbols) w =
      let r : Request = record {
        symbol = s;
        interval = one_minute;
        start_date = j.start_date;
        end_date = j.end_date;
      } in
      let (answer, w') =
        ensure_data floats.Float truncate market midnight net.list_aggs (some (net.limiter i)) r
          w in
      next_symbol-Calls (ensure_symbols ext net j (suc i) symbols) answer w'
        (Effects-Calls net (net.limiter i) r (refl, refl, refl)
          (ensure_data-effects floats.Float truncate market midnight net.list_aggs (net.limiter i) r
            w))
        (λ w''. ensure_symbols-Calls net (suc i) symbols w'')

  -- An attempt of the task of a job that exists.
  pub ensure_market_data_for_job-Calls :
      (net : Network ext) (u : ℕ) (t : jobs.Table) (w : Stored ext)
      → jobs.select_by_uuid u t ≡ some j
      → Calls ext j
          (λ k. occurrences k j.symbols)
          w.effects
          (ensure_market_data_for_job ext net u t w).1.effects
  unfolding ensure_market_data_for_job get_backtest_job
  ensure_market_data_for_job-Calls net u t w h = rw h (ensure_symbols-Calls net 0 j.symbols w)
