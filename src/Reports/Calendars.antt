-- ===== src/Reports/Calendars.antt =====
-- Code: the selections over a merged period of src/reports/domain: `selectSubmittedReports` of
-- merge-reporting-periods.js, build-calendar-periods.js and build-all-submission-periods.js.
use epr_backend.Prelude.{
  ℕ, ◌+◌, ltb, ◌==◌, Bool, true, false, not, ◌&&◌, if◌then◌else◌, Option, none, some, List, [], ◌∷◌,
  ◌++◌, map, filter, any, sort_by, sort_by_descending, head?,
}
use epr_backend.Reports.Calendar.{IsoDate}
use epr_backend.Reports.ReportStatus.{ReportStatus, submitted}
use epr_backend.Reports.Periods.{
  PeriodStatus, of_report, requires_resubmission, derive_period_status,
}
use epr_backend.Reports.Model.{ReportSummary, is_submitted_status, is_resubmission_required}
pub mod Selected
pub mod Surfaced

-- `MergedPeriod`
pub record MergedPeriod : Type 0 where
  pub year : ℕ
  pub period : ℕ
  pub start_date : IsoDate
  pub end_date : IsoDate
  pub due_date : IsoDate
  pub submission_number : ℕ
  pub report : Option ReportSummary
  pub previous_submissions : List ReportSummary

-- `CalendarPeriod`: `...period` is the merged period that it is made of.
pub record CalendarPeriod : Type 0 where
  pub period : MergedPeriod
  pub submission_number : ℕ
  pub report : Option ReportSummary
  pub period_status : Option PeriodStatus

abbrev pub summary_number : ReportSummary → ℕ
summary_number r = r.submission_number

-- `[current, ...previousSubmissions]`, without the null
abbrev pub all_reports : Option ReportSummary → List ReportSummary → List ReportSummary
all_reports none previous = previous
all_reports (some current) previous = current ∷ previous

-- `hasBeenSubmitted`
abbrev pub has_been_submitted : ReportSummary → Bool
has_been_submitted r = elim r.submitted_at [ none ↦ false | some at ↦ true ]

-- `selectSubmittedReports`
unfoldable pub select_submitted_reports :
    Option ReportSummary → List ReportSummary → List ReportSummary
select_submitted_reports current previous =
    sort_by summary_number (filter has_been_submitted (all_reports current previous))

-- `isSubmitted`
abbrev pub is_submitted : ReportSummary → Bool
is_submitted r = is_submitted_status r.status

-- `latestSubmitted`
unfoldable pub latest_submitted : Option ReportSummary → List ReportSummary → Option ReportSummary
latest_submitted current previous =
    head? (sort_by_descending summary_number (filter is_submitted (all_reports current previous)))

abbrev status_of_report : Option ReportSummary → Option ReportStatus
status_of_report none = none
status_of_report (some r) = some r.status

-- The one item of a period with nothing to submit again.
abbrev pub single_item : IsoDate → MergedPeriod → List CalendarPeriod
single_item today p =
    record {
      period = p;
      submission_number = p.submission_number;
      report = p.report;
      period_status = derive_period_status today p.end_date p.due_date (status_of_report p.report);
    }
    ∷ []

-- The draft that follows the flagged report.
abbrev pub draft_after : ReportSummary → Option ReportSummary → Option ReportSummary
draft_after flagged none = none
draft_after flagged (some r) =
    if ltb flagged.submission_number r.submission_number then some r else none

abbrev pub flagged_items : ReportSummary → MergedPeriod → List CalendarPeriod
flagged_items flagged p =
    record {
      period = p;
      submission_number = flagged.submission_number;
      report = some flagged;
      period_status = some (of_report submitted);
    }
    ∷ record {
      period = p;
      submission_number = flagged.submission_number + 1;
      report = draft_after flagged p.report;
      period_status = some requires_resubmission;
    }
    ∷ []

-- The body of `buildCalendarPeriods`, by the latest submitted report.
unfoldable pub items_for : IsoDate → MergedPeriod → Option ReportSummary → List CalendarPeriod
items_for today p none = single_item today p
items_for today p (some latest) =
    if is_resubmission_required latest.resubmission_required
    then flagged_items latest p
    else single_item today p

unfoldable pub calendar_items : IsoDate → MergedPeriod → List CalendarPeriod
unfolding items_for latest_submitted
calendar_items today p = items_for today p (latest_submitted p.report p.previous_submissions)

-- `flatMap`
abbrev flat_map {ℓ κ} : {A : Type ℓ} {B : Type κ} → (A → List B) → List A → List B
flat_map f [] = []
flat_map f (x ∷ xs) = f x ++ flat_map f xs

-- `buildCalendarPeriods`
unfoldable pub build_calendar_periods : IsoDate → List MergedPeriod → List CalendarPeriod
unfolding calendar_items
build_calendar_periods today = flat_map (calendar_items today)

-- `surfacedReportIds.has(id)`
abbrev pub shows : ℕ → CalendarPeriod → Bool
shows id item = elim item.report [ none ↦ false | some r ↦ r.id == id ]

abbrev pub surfaces : ℕ → List CalendarPeriod → Bool
surfaces id = any (shows id)

abbrev pub item_number : CalendarPeriod → ℕ
item_number item = item.submission_number

abbrev historical_item : MergedPeriod → ReportSummary → CalendarPeriod
historical_item p r = record {
  period = p;
  submission_number = r.submission_number;
  report = some r;
  period_status = some (of_report submitted);
}

-- The body of `buildAllSubmissionPeriods`
unfoldable pub all_submission_items : IsoDate → MergedPeriod → List CalendarPeriod
unfolding calendar_items
all_submission_items today p =
    let current = calendar_items today p in
    sort_by item_number (
      current
      ++ map (historical_item p)
          (filter (λ r. is_submitted r && not (surfaces r.id current)) p.previous_submissions))

-- `buildAllSubmissionPeriods`
unfoldable pub build_all_submission_periods : IsoDate → List MergedPeriod → List CalendarPeriod
unfolding all_submission_items
build_all_submission_periods today = flat_map (all_submission_items today)
