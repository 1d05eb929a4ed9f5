-- ===== src/Reports/Periods/Ended.antt =====
-- The periods that have ended, and those from a date on.
use epr_backend.Prelude.{
  ap₂, ℕ, ◌≡◌, ◌+◌, ◌≤◌, ◌<◌, arith, refl, ltb, leb, ◌&&◌, true, false, none, some, Bool, filter,
  filter-and, filter_eq-entries, ap, ◌∙◌, sym, Option,
}
use epr_backend.Reports.Calendar.{IsoDate, IsValid, digits, days_in_month_bounds}
use epr_backend.Reports.Calendar.Order.{next_day_le}
use epr_backend.Reports.Periods.{
  Cadence, monthly, quarterly, period_at, periods_per_year, generate_all_periods_for_year,
  generate_reporting_periods, filter_periods_from_date, overlaps, has_ended, period_for_date,
  derive_period_status, PeriodStatus, due, overdue,
}
use epr_backend.Reports.Periods.Containment.{start_date-period_at, end_date-period_at, last_month}

abbrev pub is_due : Option PeriodStatus → Bool
is_due (some due) = true
is_due (some overdue) = true
is_due _ = false

pub end_date-IsValid :
    (c : Cadence) (y i : ℕ) → 100 ≤ y → i < periods_per_year c → IsValid (period_at c y i).end_date
end_date-IsValid monthly y i h k =
    rw (end_date-period_at monthly y i h k)
      (ground (arith, days_in_month_bounds y (last_month monthly i)))
end_date-IsValid quarterly y i h k =
    rw (end_date-period_at quarterly y i h k)
      (ground (arith, days_in_month_bounds y (last_month quarterly i)))

is_due-derive_period_status :
    (today end_date due_date : IsoDate)
    → is_due (derive_period_status today end_date due_date none)
      ≡ ltb (digits end_date) (digits today)
unfolding derive_period_status
is_due-derive_period_status today e d = ground arith

-- The periods of a year (from 100 on) that `generateReportingPeriods` gives on a valid date are
-- exactly those that `derivePeriodStatus` calls due or overdue on that date when they have no
-- report, in the order of the year.
pub generate_reporting_periods-due :
    (c : Cadence) (y : ℕ) (now : IsoDate)
    → 100 ≤ y
    → IsValid now
    → generate_reporting_periods c y now none
      ≡ filter
          (λ p. is_due (derive_period_status now p.end_date p.due_date none))
          (generate_all_periods_for_year c y)
unfolding generate_reporting_periods generate_all_periods_for_year
generate_reporting_periods-due c y now h v =
    filter_eq-entries (period_at c y) (has_ended now) _ (periods_per_year c) 0 (λ i k.
      next_day_le (period_at c y i).end_date now (end_date-IsValid c y i h (omega arith)) v
      ∙ sym (is_due-derive_period_status now (period_at c y i).end_date (period_at c y i).due_date))

period-period_at : (c : Cadence) (y i : ℕ) → (period_at c y i).period ≡ i + 1
unfolding period_at
period-period_at c y i = refl

leb-end_date :
    (c : Cadence) (d : IsoDate) (i : ℕ)
    → IsValid d
    → 100 ≤ d.year
    → i < periods_per_year c
    → leb (digits d) (digits (period_at c d.year i).end_date)
      ≡ leb (period_for_date d c).period (period_at c d.year i).period
unfolding period_for_date
leb-end_date monthly d i v h k =
    rw (end_date-period_at monthly d.year i h k, period-period_at monthly d.year i)
      (ground (
        arith,
        days_in_month_bounds d.year d.month,
        days_in_month_bounds d.year (last_month monthly i),
      ))
leb-end_date quarterly d i v h k =
    rw (end_date-period_at quarterly d.year i h k, period-period_at quarterly d.year i)
      (ground (
        arith,
        days_in_month_bounds d.year d.month,
        days_in_month_bounds d.year (last_month quarterly i),
      ))

leb-start_date :
    (c : Cadence) (d : IsoDate) (i y : ℕ)
    → IsValid d
    → d.year ≡ y
    → 100 ≤ y
    → i < periods_per_year c
    → leb (digits (period_at c y i).start_date) (digits d)
      ≡ leb (period_at c y i).period (period_for_date d c).period
unfolding period_for_date
leb-start_date monthly d i y v e h k =
    rw (start_date-period_at monthly y i h k, period-period_at monthly y i)
      (ground (arith, days_in_month_bounds d.year d.month))
leb-start_date quarterly d i y v e h k =
    rw (start_date-period_at quarterly y i h k, period-period_at quarterly y i)
      (ground (arith, days_in_month_bounds d.year d.month))

-- For two valid dates of one year (from 100 on), the periods of that year that
-- `filterPeriodsFromDate` keeps between them are those numbered from the period that
-- `periodForDate` names for the first to the one that it names for the second, both included.
pub filter_periods_from_date-between :
    (c : Cadence) (from to : IsoDate)
    → IsValid from
    → IsValid to
    → 100 ≤ from.year
    → to.year ≡ from.year
    → filter_periods_from_date (generate_all_periods_for_year c from.year) from (some to)
      ≡ filter
          (λ p.
            leb (period_for_date from c).period p.period
            && leb p.period (period_for_date to c).period)
          (generate_all_periods_for_year c from.year)
unfolding filter_periods_from_date generate_all_periods_for_year
filter_periods_from_date-between c from to v w h e =
    filter_eq-entries (period_at c from.year) (overlaps from (some to)) _ (periods_per_year c) 0
      (λ i k.
        ap₂ (λ a b. a && b) (leb-end_date c from i v h (omega arith))
          (leb-start_date c to i from.year w e h (omega arith)))

open_end :
    (c : Cadence) (from : IsoDate) (i : ℕ)
    → overlaps from none (period_at c from.year i)
      ≡ leb (digits from) (digits (period_at c from.year i).end_date)
unfolding overlaps
open_end c from i = ground arith

-- With a valid first date of the same year (from 100 on), `generateReportingPeriods` drops exactly
-- the ended periods that are numbered before the one that `periodForDate` names for that date.
pub generate_reporting_periods-from :
    (c : Cadence) (now from : IsoDate)
    → IsValid from
    → 100 ≤ from.year
    → generate_reporting_periods c from.year now (some from)
      ≡ filter
          (λ p. leb (period_for_date from c).period p.period)
          (generate_reporting_periods c from.year now none)
unfolding generate_reporting_periods filter_periods_from_date generate_all_periods_for_year
generate_reporting_periods-from c now from w h =
    sym
      (filter-and (has_ended now) (overlaps from none) (generate_all_periods_for_year c from.year))
    ∙ filter_eq-entries (period_at c from.year) _
        (λ p. has_ended now p && leb (period_for_date from c).period p.period) (periods_per_year c)
        0
        (λ i k.
          ap (λ b. has_ended now (period_at c from.year i) && b)
            (open_end c from i ∙ leb-end_date c from i w h (omega arith)))
    ∙ filter-and (has_ended now) _ (generate_all_periods_for_year c from.year)
