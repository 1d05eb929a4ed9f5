-- ===== src/Reports/PeriodicReports/Tests.antt =====
-- A run over the stored reports of a registration.
use epr_backend.Prelude.{
  IsOrdered, Option, ℕ, ◌≡◌, refl, true, none, some, List, [], ◌∷◌, here, sort_with, group_by,
  Member,
}
use epr_backend.Reports.PeriodicReports.Submissions.{
  IsSubmissionOf, select_submitted_reports-stored,
}
use epr_backend.Reports.PeriodicReports.Lookup.{in_period}
use epr_backend.Reports.Calendars.{
  select_submitted_reports, is_submitted, MergedPeriod, surfaces, all_submission_items,
}
use epr_backend.Reports.Calendar.{iso_date}
use epr_backend.Reports.ReportStatus.{ReportStatus, in_progress, submitted}
use epr_backend.Reports.Periods.{monthly}
use epr_backend.Reports.Model.{ReportSummary, Report}
use epr_backend.Reports.PeriodicReports.{to_submission, group_as_periodic_reports}
use epr_backend.Reports.PeriodicReports.Stored.{all_submission_items-stored}
use epr_backend.Reports.Merging.{
  merge_reporting_periods, index_persisted_slots, set_persisted, set_computed,
}

abbrev report_of : ℕ → ReportStatus → Option ℕ → ℕ → Report
report_of id status at n = record {
  id = id;
  version = 1;
  slot = record {
    organisation_id = 1;
    registration_id = 2;
    year = 2028;
    cadence = monthly;
    period = 1;
  };
  submission_number = n;
  start_date = iso_date 2028 1 1;
  end_date = iso_date 2028 1 31;
  due_date = iso_date 2028 2 20;
  status = record {
    current_status = status;
    current_status_at = 800;
    created = some 700;
    ready = none;
    submitted = at;
    unsubmitted = none;
    history = [];
  };
  source_summary_log_id = none;
  stale = none;
  resubmission_required = none;
  figures = 0;
}

abbrev first_of_january : Report
first_of_january = report_of 51 submitted (some 800) 1

abbrev second_of_january : Report
second_of_january = report_of 52 in_progress none 2

abbrev january_reports : List Report
january_reports = first_of_january ∷ second_of_january ∷ []

-- The period that is merged from the two reports.
abbrev january : MergedPeriod
january = record {
  year = 2028;
  period = 1;
  start_date = iso_date 2028 1 1;
  end_date = iso_date 2028 1 31;
  due_date = iso_date 2028 2 20;
  submission_number = 2;
  report = some (to_submission second_of_january);
  previous_submissions = to_submission first_of_january ∷ [];
}

january_merged :
    merge_reporting_periods [] (group_as_periodic_reports january_reports) monthly ≡ january ∷ []
unfolding merge_reporting_periods group_as_periodic_reports sort_with set_persisted
    index_persisted_slots group_by set_computed
january_merged = refl

january_is_merged :
    Member january (merge_reporting_periods [] (group_as_periodic_reports january_reports) monthly)
january_is_merged = rw january_merged (here refl)

first_is_submitted : is_submitted (to_submission first_of_january) ≡ true
unfolding to_submission
first_is_submitted = refl

all_submission_items-stored_example :
    surfaces (to_submission first_of_january).id (all_submission_items (iso_date 2028 7 1) january)
    ≡ true
all_submission_items-stored_example =
    all_submission_items-stored (iso_date 2028 7 1) [] january_reports monthly january
      first_of_january january_is_merged (here refl) first_is_submitted

-- The first report is selected though a draft is the current one.
select_submitted_reports-stored_example :
    IsOrdered
      (λ (s : ReportSummary). s.submission_number)
      (select_submitted_reports january.report january.previous_submissions)
    × ((s : ReportSummary)
        → Member s (select_submitted_reports january.report january.previous_submissions)
        → (d : Report) × Member d (in_period 2028 monthly 1 january_reports)
          × ((at : ℕ) × (d.status.submitted ≡ some at))
          × IsSubmissionOf s d)
    × ((d : Report) (at : ℕ)
        → Member d (in_period 2028 monthly 1 january_reports)
        → d.status.submitted ≡ some at
        → (s : ReportSummary) × Member s
            (select_submitted_reports january.report january.previous_submissions)
          × IsSubmissionOf s d)
select_submitted_reports-stored_example =
    select_submitted_reports-stored [] january_reports monthly january january_is_merged
