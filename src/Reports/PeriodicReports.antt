-- ===== src/Reports/PeriodicReports.antt =====
-- Code: `groupAsPeriodicReports` of src/reports/repository/helpers.js, and submission-lookup.js of
-- src/reports/application. A stored date is a bare date.
use epr_backend.Prelude.{
  if◌then◌else◌, ℕ, ◌==◌, Bool, Option, none, some, List, [], ◌∷◌, map, filter, group_by, group_of,
  lookup, map_values, sort_by_descending,
}
use epr_backend.Reports.Calendar.{iso_date}
use epr_backend.Reports.Periods.{Cadence, monthly, quarterly}
use epr_backend.Reports.Model.{
  Report, ReportSummary, ReportPerPeriod, PeriodicReport, PeriodicReportSlots, SlotKey, same_slot,
  same_cadence, cadence_slots,
}
use mathlib.Core.Option
pub mod Lookup
pub mod Slots
pub mod Stored
pub mod Submissions
mod Tests

-- `toSubmission`
unfoldable pub to_submission : Report → ReportSummary
to_submission doc = record {
  id = doc.id;
  status = doc.status.current_status;
  submission_number = doc.submission_number;
  submitted_at = doc.status.submitted;
  resubmission_required = doc.resubmission_required;
}

abbrev pub number_of : Report → ℕ
number_of doc = doc.submission_number

-- The documents of a period, the latest first. A group has a member, so the first clause is not
-- reached.
unfoldable pub summary_of : List Report → ReportPerPeriod
unfolding to_submission
summary_of [] = record {
  start_date = iso_date 0 1 1;
  end_date = iso_date 0 1 1;
  due_date = iso_date 0 1 1;
  current = none;
  previous_submissions = [];
}
summary_of (first ∷ rest) = record {
  start_date = first.start_date;
  end_date = first.end_date;
  due_date = first.due_date;
  current = some (to_submission first);
  previous_submissions = map to_submission rest;
}

-- `buildPeriodSummary`
unfoldable pub build_period_summary : List Report → ReportPerPeriod
unfolding summary_of
build_period_summary docs = summary_of (sort_by_descending number_of docs)

-- `groupTransform(cadenceDocs, (doc) => doc.period, buildPeriodSummary)`, where there are any
pub slots_of : Cadence → List Report → Option PeriodicReportSlots
unfolding build_period_summary
slots_of c docs =
    Option.map (λ group. map_values build_period_summary (group_by (λ doc. doc.slot.period) group))
      (group_of (filter (λ doc. same_cadence doc.slot.cadence c) docs))

year_reports : List (ℕ × List Report) → List PeriodicReport
unfolding slots_of
year_reports [] = []
year_reports ((year, docs) ∷ years) =
    record {
      year = year;
      monthly_slots = slots_of monthly docs;
      quarterly_slots = slots_of quarterly docs;
    }
    ∷ year_reports years

-- `groupAsPeriodicReports`
unfoldable pub group_as_periodic_reports : List Report → List PeriodicReport
unfolding year_reports
group_as_periodic_reports docs = year_reports (group_by (λ doc. doc.slot.year) docs)

-- `periodicReports.find((pr) => pr.year === year)`
abbrev find_year : ℕ → List PeriodicReport → Option PeriodicReport
find_year year [] = none
find_year year (pr ∷ prs) = if pr.year == year then some pr else find_year year prs

-- `…?.reports?.[cadence]?.[period]`
unfoldable pub find_slot : ℕ → Cadence → ℕ → List PeriodicReport → Option ReportPerPeriod
find_slot year c period prs =
    Option.bind (Option.bind (find_year year prs) (cadence_slots c)) (lookup period)

-- `find((s) => s.submissionNumber === submissionNumber)`
abbrev pub find_number : ℕ → List ReportSummary → Option ReportSummary
find_number n [] = none
find_number n (s ∷ ss) = if s.submission_number == n then some s else find_number n ss

abbrev find_in_slot : ℕ → Option ReportPerPeriod → Option ReportSummary
find_in_slot n none = none
find_in_slot n (some slot) = elim slot.current [
  | none ↦ find_number n slot.previous_submissions
  | some current ↦
      if current.submission_number == n
      then some current
      else find_number n slot.previous_submissions
]

-- `findSubmissionByNumber`
unfoldable pub find_submission_by_number :
    List PeriodicReport → ℕ → Cadence → ℕ → ℕ → Option ReportSummary
unfolding find_slot
find_submission_by_number prs year c period n = find_in_slot n (find_slot year c period prs)

-- `findReportIdBySubmissionNumber`
unfoldable pub find_report_id_by_submission_number :
    List PeriodicReport → ℕ → Cadence → ℕ → ℕ → Option ℕ
unfolding find_submission_by_number
find_report_id_by_submission_number prs year c period n =
    Option.map (λ (s : ReportSummary). s.id) (find_submission_by_number prs year c period n)
