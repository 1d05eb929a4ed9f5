-- ===== src/Reports/Periods.antt =====
-- Code: cadence.js, generate-reporting-periods.js, filter-periods-from-date.js, period-for-date.js,
-- period-status.js and derive-period-status.js of src/reports/domain. The current instant is known by
-- its date in UTC.
use epr_backend.Prelude.{
  ℕ, suc, ◌+◌, ◌-◌, ◌*◌, ◌/◌, Bool, true, false, not, ◌&&◌, ltb, leb, if◌then◌else◌, Option, none,
  some, List, filter, array_from,
}
use epr_backend.Reports.Calendar.{IsoDate, digits, format_date_iso, next_day}
use epr_backend.Reports.ReportStatus.{ReportStatus}
pub mod Containment
pub mod Tiling
pub mod Ended

-- `CADENCE`
pub data Cadence : Type 0 where
  monthly quarterly : Cadence

-- `MONTHS_PER_PERIOD`
abbrev pub months_per_period : Cadence → ℕ
months_per_period monthly = 1
months_per_period quarterly = 3

-- `periodsPerYear`
abbrev pub periods_per_year : Cadence → ℕ
periods_per_year c = 12 / months_per_period c

pub record YearPeriod : Type 0 where
  pub year : ℕ
  pub period : ℕ

-- `periodForDate`
unfoldable pub period_for_date : IsoDate → Cadence → YearPeriod
period_for_date d c = record {
  year = d.year;
  period = (d.month + (months_per_period c - 1)) / months_per_period c;
}

pub record ReportingPeriod : Type 0 where
  pub year : ℕ
  pub period : ℕ
  pub start_date : IsoDate
  pub end_date : IsoDate
  pub due_date : IsoDate

-- `computeDueDate`
compute_due_date : ℕ → ℕ → IsoDate
compute_due_date year end_month = format_date_iso year (end_month + 1) 20

-- The body of the loop in `generateAllPeriodsForYear`.
unfoldable pub period_at : Cadence → ℕ → ℕ → ReportingPeriod
unfolding compute_due_date
period_at c year i =
    let start_month : ℕ = i * months_per_period c in
    let end_month : ℕ = start_month + months_per_period c - 1 in
    record {
      year = year;
      period = i + 1;
      start_date = format_date_iso year start_month 1;
      end_date = format_date_iso year (end_month + 1) 0;
      due_date = compute_due_date year end_month;
    }

-- `generateAllPeriodsForYear`
unfoldable pub generate_all_periods_for_year : Cadence → ℕ → List ReportingPeriod
unfolding period_at
generate_all_periods_for_year c year = array_from (period_at c year) (periods_per_year c)

-- The test of `filterPeriodsFromDate`
abbrev until : Option IsoDate → IsoDate → Bool
until none start_date = true
until (some to_date) start_date = leb (digits start_date) (digits to_date)

unfoldable pub overlaps : IsoDate → Option IsoDate → ReportingPeriod → Bool
overlaps from_date to_date p =
    leb (digits from_date) (digits p.end_date) && until to_date p.start_date

-- `filterPeriodsFromDate`
unfoldable pub filter_periods_from_date :
    List ReportingPeriod → IsoDate → Option IsoDate → List ReportingPeriod
unfolding overlaps
filter_periods_from_date periods from_date to_date = filter (overlaps from_date to_date) periods

-- `dayAfterEnd <= now`
unfoldable pub has_ended : IsoDate → ReportingPeriod → Bool
has_ended now p = leb (digits (next_day p.end_date)) (digits now)

trimmed : Option IsoDate → List ReportingPeriod → List ReportingPeriod
unfolding filter_periods_from_date
trimmed none ended = ended
trimmed (some from_date) ended = filter_periods_from_date ended from_date none

-- `generateReportingPeriods`
unfoldable pub generate_reporting_periods :
    Cadence → ℕ → IsoDate → Option IsoDate → List ReportingPeriod
unfolding has_ended generate_all_periods_for_year trimmed
generate_reporting_periods c year now from_date =
    trimmed from_date (filter (has_ended now) (generate_all_periods_for_year c year))

-- `PERIOD_STATUS`
pub data PeriodStatus : Type 0 where
  of_report : ReportStatus → PeriodStatus
  due overdue requires_resubmission : PeriodStatus

-- `derivePeriodStatus` of a period's end and due dates, and the status of its report if it has one
unfoldable pub derive_period_status :
    IsoDate → IsoDate → IsoDate → Option ReportStatus → Option PeriodStatus
derive_period_status today end_date due_date (some status) = some (of_report status)
derive_period_status today end_date due_date none =
    if not (ltb (digits end_date) (digits today))
    then none
    else if ltb (digits due_date) (digits today)
    then some overdue
    else some due
