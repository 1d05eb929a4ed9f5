-- ===== src/Reports/Periods/Containment.antt =====
-- A date and the periods of its year.
use epr_backend.Prelude.{
  filter-entries_one, ◌-◌, ℕ, suc, ◌≡◌, ◌+◌, ◌*◌, ◌/◌, ◌%◌, ◌≤◌, ◌<◌, arith, Bool, ◌&&◌, leb, ◌==◌,
  filter, [], ◌∷◌,
}
use epr_backend.Reports.Periods.{
  generate_all_periods_for_year, Cadence, monthly, quarterly, ReportingPeriod, period_at,
  periods_per_year, months_per_period, period_for_date,
}
use epr_backend.Reports.Calendar.{
  IsoDate, IsValid, iso_date, digits, days_in_month, days_in_month_bounds, format_date_iso,
  format_date_iso_day, format_date_iso_zero,
}

-- A month counted from 0 that lies in the year.
format_date_iso_first :
    (y month : ℕ) → 100 ≤ y → month < 12 → format_date_iso y month 1 ≡ iso_date y (month + 1) 1
format_date_iso_first y month h k = ground (arith, format_date_iso_day y month 0)

format_date_iso_last :
    (y month : ℕ)
    → 100 ≤ y
    → month < 12
    → format_date_iso y (month + 1) 0 ≡ iso_date y (month + 1) (days_in_month y (month + 1))
format_date_iso_last y month h k =
    let e : month + 1 ≡ suc month = omega arith in
    rw e (ground (arith, format_date_iso_zero y month))

pub start_date-period_at :
    (c : Cadence) (y i : ℕ)
    → 100 ≤ y
    → i < periods_per_year c
    → (period_at c y i).start_date ≡ iso_date y (i * months_per_period c + 1) 1
unfolding period_at
start_date-period_at monthly y i h k = format_date_iso_first y (i * 1) h (omega arith)
start_date-period_at quarterly y i h k = format_date_iso_first y (i * 3) h (omega arith)

-- The last month of a period.
abbrev pub last_month : Cadence → ℕ → ℕ
last_month c i = i * months_per_period c + months_per_period c

pub end_date-period_at :
    (c : Cadence) (y i : ℕ)
    → 100 ≤ y
    → i < periods_per_year c
    → (period_at c y i).end_date ≡ iso_date y (last_month c i) (days_in_month y (last_month c i))
unfolding period_at
end_date-period_at monthly y i h k = ground (arith, format_date_iso_last y (i * 1 + 1 - 1))
end_date-period_at quarterly y i h k = ground (arith, format_date_iso_last y (i * 3 + 3 - 1))

pub due_date-period_at :
    (c : Cadence) (y i : ℕ)
    → 100 ≤ y
    → i < periods_per_year c
    → (period_at c y i).due_date ≡ iso_date (y + last_month c i / 12) (last_month c i % 12 + 1) 20
unfolding period_at
due_date-period_at monthly y i h k = ground (arith, format_date_iso_day y (i * 1 + 1 - 1 + 1) 19)
due_date-period_at quarterly y i h k = ground (arith, format_date_iso_day y (i * 3 + 3 - 1 + 1) 19)

-- The period's first and last dates hold the date between them.
abbrev pub holds : IsoDate → ReportingPeriod → Bool
holds d p = leb (digits p.start_date) (digits d) && leb (digits d) (digits p.end_date)

-- The place of a date's period among those of the year.
abbrev pub place_of : IsoDate → Cadence → ℕ
place_of d c = (period_for_date d c).period - 1

place_of-lt : (d : IsoDate) (c : Cadence) → IsValid d → place_of d c < periods_per_year c
unfolding period_for_date
place_of-lt d monthly v = omega arith
place_of-lt d quarterly v = omega arith

holds-period_at :
    (d : IsoDate) (c : Cadence) (j : ℕ)
    → IsValid d
    → 100 ≤ d.year
    → j < periods_per_year c
    → holds d (period_at c d.year j) ≡ (j == place_of d c)
unfolding period_for_date
holds-period_at d monthly j v h k =
    rw (start_date-period_at monthly d.year j h k, end_date-period_at monthly d.year j h k)
      (ground (arith, days_in_month_bounds d.year d.month, days_in_month_bounds d.year (j * 1 + 1)))
holds-period_at d quarterly j v h k =
    rw (start_date-period_at quarterly d.year j h k, end_date-period_at quarterly d.year j h k)
      (ground (arith, days_in_month_bounds d.year d.month, days_in_month_bounds d.year (j * 3 + 3)))

-- Of the periods of a valid date's year (from 100 on), exactly one has the date between its first
-- and last days, and it is the one that `periodForDate` names, for both cadences.
pub filter-generate_all_periods_for_year :
    (d : IsoDate) (c : Cadence)
    → IsValid d
    → 100 ≤ d.year
    → filter (holds d) (generate_all_periods_for_year c d.year)
      ≡ period_at c d.year ((period_for_date d c).period - 1) ∷ []
unfolding generate_all_periods_for_year
filter-generate_all_periods_for_year d c v h =
    filter-entries_one (period_at c d.year) (holds d) (place_of d c) (periods_per_year c) 0
      (omega arith) (ground (arith, place_of-lt d c v))
      (λ j k. holds-period_at d c j v h (omega arith))
