-- ===== src/Calendar/Weeks.antt =====
-- `getISOWeek` is defined for every date and stays in range.
use shamarx_app.Prelude.{
  ℕ, zero, suc, ◌+◌, ◌-◌, ◌≤◌, ◌<◌, ◌≡◌, refl, some, arith, ltb, Bool-cases, inl, inr,
}
use shamarx_app.Calendar.{year_walk, iso_week, year_length, date_of}

year_walk_lem :
    (fuel year date : ℕ)
    → date < fuel
    → (n : ℕ) × (year_walk fuel year date ≡ some n) × (1 ≤ n) × (n ≤ 366)
unfolding year_walk
year_walk_lem zero year date h = absurd (omega arith)
year_walk_lem (suc fuel) year date h = elim (Bool-cases (ltb date (year_length year))) [
  | inl here ↦ (date + 1, rw here refl, omega arith, ground arith)
  | inr later ↦ rw later (year_walk_lem fuel (year + 1) (date - year_length year) (ground arith))
]

-- The week number of a time lies between 1 and 53.
pub iso_week_bounds : (t : ℕ) → (1 ≤ iso_week t) × (iso_week t ≤ 53)
unfolding iso_week
iso_week_bounds t =
    let (n, e, lo, hi) = year_walk_lem (date_of t + 1) 1970 (date_of t) (omega arith) in
    rw e (omega arith)
