-- ===== src/MarketData/Fetcher.antt =====
-- `MarketDataFetcher.fetch` of api/services/market_data_fetcher.py. Dates are ordinals.
use stock_trader.Prelude.{
  ℕ, ◌+◌, ◌-◌, ◌≤◌, ◌≡◌, ◌≢◌, ◌↔◌, inl, inr, refl, String, false, Option, none, some, List, [], ◌∷◌,
  Bool-cases, ltb→lt, sym, ap, subst, arith, str_eq, eq_iff, ltb, if◌then◌else◌,
}
use stock_trader.Errors.{
  Result, ok, err, raise, range_validation_error, runtime_error, text, number,
}
use stock_trader.Models.{
  Interval, one_minute, five_minute, fifteen_minute, thirty_minute, one_hour, daily, interval_value,
}

-- `_MAX_SPAN_DAYS`, which has an entry for every interval
abbrev pub max_span_days : Interval → Option ℕ
max_span_days one_minute = some 30
max_span_days five_minute = some 60
max_span_days fifteen_minute = some 120
max_span_days thirty_minute = some 180
max_span_days one_hour = some 365
max_span_days daily = some 1825

-- The arguments of `ensure_market_data_for_symbol.delay`.
pub record Task : Type 0 where
  pub symbol : String
  pub interval : Interval
  pub start_date : ℕ
  pub end_date : ℕ

-- The test of the span against the cap. The dates are in order there, so `-` does not stop at 0.
unfoldable pub check_span : Task → Option ℕ → Result Task
check_span task none =
    raise runtime_error
      (text "No span cap configured for interval " ∷ text (interval_value task.interval) ∷ [])
check_span task (some cap) =
    let span = task.end_date - task.start_date in
    if ltb cap span
    then raise range_validation_error (
        text "Requested span "
        ∷ number span
        ∷ text "d exceeds max "
        ∷ number cap
        ∷ text "d for interval "
        ∷ text (interval_value task.interval)
        ∷ [])
    else ok task

module _ (normalize : String → String) where
  -- The part of `fetch` before the task is sent: the task, or the error. `normalize` is Python's
  -- `s.strip().upper()`.
  unfoldable pub validate : String → Interval → ℕ → ℕ → Result Task
  validate raw interval start_date end_date =
      let symbol = normalize raw in
      if str_eq symbol ""
      then raise range_validation_error (text "symbol must not be empty" ∷ [])
      else if ltb end_date start_date
      then raise range_validation_error (text "start_date must be <= end_date" ∷ [])
      else check_span
          (record {
            symbol = symbol;
            interval = interval;
            start_date = start_date;
            end_date = end_date;
          })
          (max_span_days interval)

  abbrev await {ℓ} : {A : Type ℓ} → (Task → Result A) → Result Task → Result A × List Task
  await worker (err e) = (err e, [])
  await worker (ok task) = (worker task, task ∷ [])

  -- `fetch`: the result, and the tasks that it has sent. `worker` is what waiting for a task gives, a
  -- timeout included.
  unfoldable pub fetch {ℓ} :
      {A : Type ℓ} → (Task → Result A) → String → Interval → ℕ → ℕ → Result A × List Task
  fetch worker raw interval start_date end_date =
      await worker (validate raw interval start_date end_date)

check_span-ok :
    (task : Task) (cap : ℕ) (sent : Task)
    → task.start_date ≤ task.end_date
    → (check_span task (some cap) ≡ ok sent)
      ↔ ((task.end_date ≤ task.start_date + cap) × (sent ≡ task))
unfolding check_span
check_span-ok task cap sent le = elim (Bool-cases (ltb cap (task.end_date - task.start_date))) [
  | inl long ↦
      simp long ((λ h. absurd (cc)), (λ h. absurd (let k = ltb→lt _ _ long in omega (arith, h.0))))
  | inr fits ↦ simp fits ((λ h. (ground arith, sym (ok_inj h))), (λ h. ap ok (sym h.1)))
]
  where
    ok_inj : {a b : Task} → ok a ≡ ok b → a ≡ b
    ok_inj h = cc

-- The cap of an interval.
cap_of : (i : Interval) → (cap : ℕ) × (max_span_days i ≡ some cap)
cap_of one_minute = (30, refl)
cap_of five_minute = (60, refl)
cap_of fifteen_minute = (120, refl)
cap_of thirty_minute = (180, refl)
cap_of one_hour = (365, refl)
cap_of daily = (1825, refl)

-- A request is accepted exactly if its symbol is not blank, its dates are in order and its span is at
-- most the cap of its interval; the task then carries the normalized symbol and the request's interval
-- and dates. Every interval has a cap.
pub validate_iff :
    (normalize : String → String) (raw : String) (interval : Interval) (start_date end_date : ℕ)
    (sent : Task)
    → (validate normalize raw interval start_date end_date ≡ ok sent) ↔ (
        (normalize raw ≢ "")
        × (start_date ≤ end_date)
        × (cap : ℕ) × (max_span_days interval ≡ some cap)
        × (end_date ≤ start_date + cap)
        × (sent ≡ record {
          symbol = normalize raw;
          interval = interval;
          start_date = start_date;
          end_date = end_date;
        }))
unfolding validate
validate_iff normalize raw interval start_date end_date sent =
    let (cap, found) = cap_of interval in
    let task : Task = record {
      symbol = normalize raw;
      interval = interval;
      start_date = start_date;
      end_date = end_date;
    } in
    elim (Bool-cases (str_eq (normalize raw) "")) [
      | inl blank ↦
          simp blank ((λ h. absurd (cc)), (λ h. absurd (h.0 ((eq_iff (normalize raw) "").0 blank))))
      | inr named ↦ elim (Bool-cases (ltb end_date start_date)) [
        | inl backwards ↦
            simp (named, backwards)
              (
                (λ h. absurd (cc)),
                (λ h. absurd (let k = ltb→lt _ _ backwards in omega (arith, h.1))),
              )
        | inr ordered ↦
            let le : start_date ≤ end_date = ground arith in
            let (left, right) = check_span-ok task cap sent le in
            simp (named, ordered, found)
              (
                (λ h. (not_blank named, le, cap, refl, (left h).0, (left h).1)),
                (λ h. right (subst (λ c. end_date ≤ start_date + c) (sym (some_inj h.3)) h.4, h.5)),
              )
      ]
    ]
  where
    not_blank : str_eq (normalize raw) "" ≡ false → normalize raw ≢ ""
    not_blank h e = absurd (let k = (eq_iff (normalize raw) "").1 e in cc)

    some_inj : {a b : ℕ} → some a ≡ some b → a ≡ b
    some_inj h = cc
