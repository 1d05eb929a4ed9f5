-- ===== src/Reports/Compliance.antt =====
-- Code: compliance-reporting-periods.js of src/reports/domain. A period's key and label are known by
-- its cadence, year and number, which they are made of.
use epr_backend.Reports.Calendar.{days_in_month, iso_date, IsoDate, digits, next_day}
use epr_backend.Prelude.{
  ap₂, leb, ℕ, zero, suc, ◌+◌, ◌-◌, ◌*◌, ◌/◌, ◌%◌, ◌≡◌, ◌<◌, ◌≤◌, refl, ap, sym, ◌∙◌, arith, ◌==◌,
  Bool, true, false, if◌then◌else◌, Option, none, some, Option-cases, Bool-cases, inl, inr, List,
  [], ◌∷◌, filter, All, entries, array_from, Result, ok, err, ◌>>=◌, unknown_kind,
}
use epr_backend.Reports.Periods.{
  Cadence, monthly, quarterly, ReportingPeriod, generate_reporting_periods,
  generate_all_periods_for_year, period_at, periods_per_year, has_ended,
}
use epr_backend.Reports.Periods.Containment.{end_date-period_at, last_month}
pub mod Quarters
pub mod Schedule

-- `CompliancePeriod`
pub record CompliancePeriod : Type 0 where
  pub cadence : Cadence
  pub year : ℕ
  pub period : ℕ
  pub start_date : IsoDate
  pub end_date : IsoDate
  pub due_date : IsoDate

-- `annotate`
abbrev pub annotate : ReportingPeriod → Cadence → CompliancePeriod
annotate p c = record {
  cadence = c;
  year = p.year;
  period = p.period;
  start_date = p.start_date;
  end_date = p.end_date;
  due_date = p.due_date;
}

-- `isQuarterEnd`
abbrev pub is_quarter_end : ReportingPeriod → Bool
is_quarter_end p = p.period % 3 == 0

-- `new Map(…).get(period)`: a later entry replaces an earlier one.
unfoldable pub map_get : ℕ → List ReportingPeriod → Option ReportingPeriod
map_get k [] = none
map_get k (p ∷ ps) = elim (map_get k ps) [
  | some later ↦ some later
  | none ↦ if p.period == k then some p else none
]

-- `annotate(quarter, …)`, which throws when there is no quarter
unfoldable pub annotate_found : Option ReportingPeriod → Result CompliancePeriod
annotate_found none = err unknown_kind
annotate_found (some q) = ok (annotate q quarterly)

-- The loop over the months.
unfoldable pub push_periods :
    List ReportingPeriod → List ReportingPeriod → Result (List CompliancePeriod)
unfolding map_get annotate_found
push_periods quarters [] = ok []
push_periods quarters (p ∷ ps) =
    let rest = push_periods quarters ps in
    if is_quarter_end p
    then (do
      quarter ← annotate_found (map_get (p.period / 3) quarters)
      result ← rest
      ok (annotate p monthly ∷ quarter ∷ result))
    else (do result ← rest; ok (annotate p monthly ∷ result))

-- `generateComplianceReportingPeriods` at an instant
unfoldable pub generate_compliance_reporting_periods : IsoDate → Result (List CompliancePeriod)
unfolding push_periods
generate_compliance_reporting_periods now =
    push_periods (generate_reporting_periods quarterly now.year now none)
      (generate_reporting_periods monthly now.year now none)
