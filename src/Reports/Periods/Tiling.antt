-- ===== src/Reports/Periods/Tiling.antt =====
-- The periods of a year one after the other, and their dates.
use epr_backend.Prelude.{
  All-entries, array_from, subst, ap, All, ℕ, zero, suc, ◌≡◌, ◌+◌, ◌*◌, ◌/◌, ◌%◌, ◌≤◌, ◌<◌, arith,
  List, [], ◌∷◌, Bool-cases, ltb, ◌==◌, inl, inr, false, entries,
}
use epr_backend.Reports.Calendar.{
  IsoDate, iso_date, digits, days_in_month, days_in_month_bounds, next_day,
}
use epr_backend.Reports.Periods.{
  Cadence, monthly, quarterly, ReportingPeriod, period_at, periods_per_year, months_per_period,
  generate_all_periods_for_year, period_for_date,
}
use epr_backend.Reports.Periods.Containment.{
  start_date-period_at, end_date-period_at, due_date-period_at, last_month,
}

-- The periods follow one another, from a first day to the day after the last of them.
abbrev pub Tiles : IsoDate → List ReportingPeriod → IsoDate → Type 0
Tiles first [] after = first ≡ after
Tiles first (p ∷ ps) after = (p.start_date ≡ first) × Tiles (next_day p.end_date) ps after

-- The day after the last of a month, by the number of months passed.
next_day_of_last :
    (y m : ℕ)
    → 1 ≤ m
    → m ≤ 12
    → next_day (iso_date y m (days_in_month y m)) ≡ iso_date (y + m / 12) (m % 12 + 1) 1
unfolding next_day
next_day_of_last y m h k = elim (Bool-cases (m == 12)) [
  | inl december ↦
      let last : ltb (days_in_month y m) (days_in_month y m) ≡ false = ground arith in
      rw (last, december) (ground arith)
  | inr other ↦
      let last : ltb (days_in_month y m) (days_in_month y m) ≡ false = ground arith in
      rw (last, other) (ground arith)
]

next_day-end_date :
    (c : Cadence) (y i : ℕ)
    → 100 ≤ y
    → i < periods_per_year c
    → next_day (period_at c y i).end_date
      ≡ iso_date (y + last_month c i / 12) (last_month c i % 12 + 1) 1
next_day-end_date monthly y i h k =
    rw (end_date-period_at monthly y i h k)
      (next_day_of_last y (last_month monthly i) (omega arith) (omega arith))
next_day-end_date quarterly y i h k =
    rw (end_date-period_at quarterly y i h k)
      (next_day_of_last y (last_month quarterly i) (omega arith) (omega arith))

-- The first day of the period at a place, the place after the last included.
first_day : Cadence → ℕ → ℕ → IsoDate
first_day c y i = let m : ℕ = i * months_per_period c in iso_date (y + m / 12) (m % 12 + 1) 1

first_day_next :
    (c : Cadence) (y i : ℕ)
    → 100 ≤ y
    → i < periods_per_year c
    → next_day (period_at c y i).end_date ≡ first_day c y (suc i)
unfolding first_day
first_day_next monthly y i h k = ground (arith, next_day-end_date monthly y i h k)
first_day_next quarterly y i h k = ground (arith, next_day-end_date quarterly y i h k)

first_day_lem :
    (c : Cadence) (y i : ℕ)
    → 100 ≤ y
    → i < periods_per_year c
    → (period_at c y i).start_date ≡ first_day c y i
unfolding first_day
first_day_lem monthly y i h k = ground (arith, start_date-period_at monthly y i h k)
first_day_lem quarterly y i h k = ground (arith, start_date-period_at quarterly y i h k)

year_end : (c : Cadence) (y : ℕ) → first_day c y (periods_per_year c) ≡ iso_date (y + 1) 1 1
unfolding first_day
year_end monthly y = ground arith
year_end quarterly y = ground arith

entries-Tiles :
    (c : Cadence) (y : ℕ) (n i : ℕ)
    → 100 ≤ y
    → i + n ≡ periods_per_year c
    → Tiles (first_day c y i) (entries (period_at c y) n i) (first_day c y (periods_per_year c))
entries-Tiles c y zero i h e = ap (first_day c y) (omega arith)
entries-Tiles c y (suc n) i h e = (
  first_day_lem c y i h (omega arith),
  rw (first_day_next c y i h (omega arith)) (entries-Tiles c y n (suc i) h (omega arith)),
)

-- The periods of a year (from 100 on) tile it: the first starts on January 1, each next one starts
-- the day after the one before it ends, and the last ends the day before January 1 of the next year.
pub generate_all_periods_for_year-Tiles :
    (c : Cadence) (y : ℕ)
    → 100 ≤ y
    → Tiles (iso_date y 1 1) (generate_all_periods_for_year c y) (iso_date (y + 1) 1 1)
unfolding generate_all_periods_for_year first_day
generate_all_periods_for_year-Tiles c y h =
    let from : first_day c y 0 ≡ iso_date y 1 1 = ground arith in
    let to : first_day c y (periods_per_year c) ≡ iso_date (y + 1) 1 1 = year_end c y in
    subst (λ b. Tiles b (array_from (period_at c y) (periods_per_year c)) (iso_date (y + 1) 1 1))
      from
      (subst (Tiles (first_day c y 0) (array_from (period_at c y) (periods_per_year c))) to
        (entries-Tiles c y (periods_per_year c) 0 h (omega arith)))

-- A due date and a first and last day in the period.
abbrev pub IsWellDated : Cadence → ℕ → ReportingPeriod → Type 0
IsWellDated c y p =
    (digits p.start_date ≤ digits p.end_date)
    × (p.due_date ≡ record (next_day p.end_date) { day = 20 })
    × (digits p.end_date < digits p.due_date)
    × (period_for_date p.start_date c ≡ record { year = y; period = p.period })
    × (period_for_date p.end_date c ≡ record { year = y; period = p.period })

period_at-IsWellDated :
    (c : Cadence) (y i : ℕ) → 100 ≤ y → i < periods_per_year c → IsWellDated c y (period_at c y i)
unfolding period_for_date period_at
period_at-IsWellDated monthly y i h k =
    let s = start_date-period_at monthly y i h k in
    let e = end_date-period_at monthly y i h k in
    let d = due_date-period_at monthly y i h k in
    let n = next_day-end_date monthly y i h k in
    let b = days_in_month_bounds y (last_month monthly i) in
    (
      rw (s, e) (ground (arith, b)),
      rw n d,
      rw (e, d) (ground (arith, b)),
      rw s (ground arith),
      rw e (ground arith),
    )
period_at-IsWellDated quarterly y i h k =
    let s = start_date-period_at quarterly y i h k in
    let e = end_date-period_at quarterly y i h k in
    let d = due_date-period_at quarterly y i h k in
    let n = next_day-end_date quarterly y i h k in
    let b = days_in_month_bounds y (last_month quarterly i) in
    (
      rw (s, e) (ground (arith, b)),
      rw n d,
      rw (e, d) (ground (arith, b)),
      rw s (ground arith),
      rw e (ground arith),
    )

-- Every period of a year (from 100 on) ends on or after its first day, is due on the 20th of the
-- month that follows its last day, and so after it, and is the period that `periodForDate` names for
-- its first day and for its last day.
pub generate_all_periods_for_year-IsWellDated :
    (c : Cadence) (y : ℕ) → 100 ≤ y → All (IsWellDated c y) (generate_all_periods_for_year c y)
unfolding generate_all_periods_for_year
generate_all_periods_for_year-IsWellDated c y h =
    All-entries (period_at c y) (IsWellDated c y) (periods_per_year c) 0
      (λ i k. period_at-IsWellDated c y i h (omega arith))
