-- ===== src/Reports/Lifecycle/Tests.antt =====
-- The theorems on the life of reports along a run of the handlers.
use epr_backend.Prelude.{group_by, ◌≡◌, refl, true, none, some, [], ◌∷◌, here, Result, ok, err}
use epr_backend.Reports.Calendar.{format_date_iso, next_day, IsoDate, iso_date, days_in_month}
use epr_backend.Reports.ReportStatus.{in_progress, ready_to_submit, is_valid_report_transition}
use epr_backend.Reports.Periods.{generate_all_periods_for_year, monthly}
use epr_backend.Reports.Model.{Report, SlotKey}
use epr_backend.Reports.PeriodicReports.{
  group_as_periodic_reports, find_submission_by_number, find_slot,
  find_report_id_by_submission_number, build_period_summary,
}
use epr_backend.Reports.Stale.{normalise_stale, assert_not_stale}
use epr_backend.Reports.Store.{
  create_report, find_periodic_reports, find_report_by_id, update_report_status, ReportStore,
}
use epr_backend.Reports.Service.{
  assert_cadence, create_report_for_period, get_validated_period_info,
  fetch_report_by_submission_number, ReportData,
}
use epr_backend.Reports.Routes.{post_report, post_status}
use epr_backend.Reports.Lifecycle.Invariant.{IsWellFormed}
use epr_backend.Reports.Lifecycle.Steps.{
  Reach, start, next, posted, moved, empty-IsWellFormed, Reach-IsWellFormed, Reach-one_draft,
}
use mathlib.Core.Option

abbrev key : SlotKey
key = record {
  organisation_id = 1;
  registration_id = 2;
  year = 2028;
  cadence = monthly;
  period = 1;
}

abbrev today : IsoDate
today = iso_date 2028 2 3

abbrev report_data : Result ReportData
report_data = ok (record { source_summary_log_id = some 40; figures = 7 })

abbrev store_of : Result (Report × ReportStore) → ReportStore
store_of (err e) = []
store_of (ok (r, store)) = store

abbrev out_of : Report → Result (Report × ReportStore) → Report
out_of fallback (err e) = fallback
out_of fallback (ok (r, store)) = r

abbrev first_draft : Report
first_draft = record {
  id = 100;
  version = 1;
  slot = key;
  submission_number = 1;
  start_date = iso_date 2028 1 1;
  end_date = iso_date 2028 1 31;
  due_date = iso_date 2028 2 20;
  status = record {
    current_status = in_progress;
    current_status_at = 500;
    created = some 500;
    ready = none;
    submitted = none;
    unsubmitted = none;
    history = record { status = in_progress; at = 500 } ∷ [];
  };
  source_summary_log_id = some 40;
  stale = none;
  resubmission_required = none;
  figures = 7;
}

created : post_report today 500 100 true key 1 report_data [] ≡ ok (first_draft, first_draft ∷ [])
unfolding post_report assert_cadence create_report_for_period get_validated_period_info
    generate_all_periods_for_year format_date_iso next_day days_in_month find_periodic_reports
    group_as_periodic_reports group_by find_submission_by_number find_slot Option.bind create_report
created = refl

-- Each later handler, at the store that the one before it leaves.
abbrev ready_run : Result (Report × ReportStore)
ready_run = post_status 600 (λ r. true) key 1 ready_to_submit 1 (first_draft ∷ [])

readied : ready_run ≡ ok (out_of first_draft ready_run, store_of ready_run)
unfolding post_status fetch_report_by_submission_number find_report_id_by_submission_number
    find_periodic_reports group_as_periodic_reports group_by find_submission_by_number find_slot
    Option.bind find_report_by_id build_period_summary normalise_stale assert_not_stale
    is_valid_report_transition update_report_status
readied = refl

after_created : Reach [] (first_draft ∷ [])
after_created =
    next start (posted today 500 100 true key 1 report_data first_draft (λ z m. elim m [ ]) created)

Reach-IsWellFormed_example : IsWellFormed (store_of ready_run)
Reach-IsWellFormed_example = Reach-IsWellFormed empty-IsWellFormed (
    next after_created
      (moved 600 (λ r. true) key 1 ready_to_submit 1 (out_of first_draft ready_run) readied))

Reach-one_draft_example : first_draft.id ≡ first_draft.id
Reach-one_draft_example =
    Reach-one_draft after_created first_draft first_draft (here refl) (here refl) refl refl refl
