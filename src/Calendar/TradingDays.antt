-- ===== src/Calendar/TradingDays.antt =====
-- `addTradingDays` ends, and counts weekdays.
use shamarx_app.Prelude.{
  ℕ, zero, suc, ◌+◌, ◌*◌, ◌≤◌, ◌≡◌, refl, false, ◌⊎◌, some, arith, ◌==◌, if◌then◌else◌, Bool-cases,
  inl, inr,
}
use shamarx_app.Calendar.{advance, add_trading_days, is_weekend, weekday}

-- The weekdays among the `n` days after `date`.
unfoldable pub weekdays_in : ℕ → ℕ → ℕ
weekdays_in date zero = 0
weekdays_in date (suc n) = weekdays_in (date + 1) n + (if is_weekend (date + 1) then 0 else 1)

weekdays_in-le : (date n : ℕ) → weekdays_in date n ≤ n
unfolding weekdays_in
weekdays_in-le date zero = omega arith
weekdays_in-le date (suc n) = ground (arith, weekdays_in-le (date + 1) n)

-- The date `result` is `n` days after `date`; `left` of these are weekdays, and the last one is,
-- unless there is none.
pub record IsTradingDays (date left result : ℕ) : Type 0 where
  pub span : ℕ
  pub later : result ≡ date + span
  pub counted : weekdays_in date span ≡ left
  pub open_day : (span ≡ 0) ⊎ (is_weekend result ≡ false)

-- The steps of a weekend that are behind the date.
abbrev spent : ℕ → ℕ
spent date = if weekday date == 6 then 1 else if weekday date == 0 then 2 else 0

-- One step of the loop, before the rest of it.
IsTradingDays-step :
    (date left left' result : ℕ)
    → left' ≡ (if is_weekend (date + 1) then suc left else left)
    → IsTradingDays (date + 1) left' result
    → IsTradingDays date (suc left) result
unfolding weekdays_in
IsTradingDays-step date left left' result e t = elim (Bool-cases (is_weekend (date + 1))) [
  | inl weekend ↦ record {
    span = suc t.span;
    later = omega (arith, t.later);
    counted = rw weekend (ground (arith, t.counted));
    open_day =
        inr (ground (arith, t.open_day, t.later, t.counted, weekdays_in-le (date + 1) t.span));
  }
  | inr open_day ↦ record {
    span = suc t.span;
    later = omega (arith, t.later);
    counted = rw open_day (ground (arith, t.counted));
    open_day =
        inr (ground (arith, t.open_day, t.later, t.counted, weekdays_in-le (date + 1) t.span));
  }
]

advance_lem :
    (fuel left date : ℕ)
    → 3 * left ≤ fuel + spent date
    → (result : ℕ) × (advance fuel left date ≡ some result) × IsTradingDays date left result
unfolding advance weekdays_in
advance_lem fuel zero date h =
    (date, refl, record { span = 0; later = omega arith; counted = refl; open_day = inl refl })
advance_lem zero (suc left) date h = absurd (ground arith)
advance_lem (suc fuel) (suc left) date h =
    let left' = if is_weekend (date + 1) then suc left else left in
    let (result, e, t) = advance_lem fuel left' (date + 1) (ground arith) in
    (result, e, IsTradingDays-step date left left' result refl t)

-- `addTradingDays` always ends: the fuel of three steps for each day suffices. Its result is the
-- date by which the given number of weekdays has passed, and is a weekday itself.
pub add_trading_days-IsTradingDays :
    (date days : ℕ)
    → (advance (3 * days) days date ≡ some (add_trading_days date days))
      × IsTradingDays date days (add_trading_days date days)
unfolding add_trading_days
add_trading_days-IsTradingDays date days =
    let (result, e, t) = advance_lem (3 * days) days date (omega arith) in rw e (refl, t)

-- So it lies at least that many days ahead.
pub add_trading_days_later : (date days : ℕ) → date + days ≤ add_trading_days date days
add_trading_days_later date days =
    let t = (add_trading_days-IsTradingDays date days).1 in
    omega (arith, t.later, t.counted, weekdays_in-le date t.span)
