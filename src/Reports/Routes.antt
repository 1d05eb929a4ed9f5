-- ===== src/Reports/Routes.antt =====
-- Code: the handlers of src/reports/routes that change reports (post.js, status.js, patch.js,
-- unsubmit.js, delete.js, request-resubmission.js), and the handlers of uploads and cancellations in
-- src/reports/application. What a handler writes to the audit log is left out.
use epr_backend.Prelude.{
  ℕ, Bool, not, Option, none, some, List, Result, ok, err, ◌>>=◌, ◌>>◌, throw_if, not_found,
  conflict, bad_request,
}
use epr_backend.Reports.Calendar.{IsoDate}
use epr_backend.Reports.ReportStatus.{
  ReportStatus, in_progress, ready_to_submit, is_valid_report_transition, status_to_slot,
  unsubmitted, same_report_status,
}
use epr_backend.Reports.Periods.{monthly, period_for_date}
use epr_backend.Reports.Model.{Report, SlotKey, is_submitted_status, is_resubmission_required}
use epr_backend.Reports.Stale.{assert_not_stale}
use epr_backend.Reports.Store.{
  ReportStore, update_report, update_report_status, delete_report, find_report_by_id,
}
use epr_backend.Reports.Service.{
  ReportData, assert_cadence, create_report_for_period, fetch_report_by_submission_number,
  is_latest_submission, request_operator_resubmission,
}
use epr_backend.Reports.Flagging.{
  PeriodRef, mark_active_reports_stale_for_summary_log,
  mark_active_reports_stale_for_prn_cancellation, mark_submitted_reports_requiring_resubmission,
}

-- `reportsPost`
unfoldable pub post_report :
    IsoDate
    → ℕ
    → ℕ
    → Bool
    → SlotKey
    → ℕ
    → Result ReportData
    → ReportStore
    → Result (Report × ReportStore)
post_report today now id accredited key n aggregated store = do
  assert_cadence key.cadence accredited
  create_report_for_period today now id key n aggregated store

-- A report, or 404.
abbrev pub found_or_404 : Option Report → Result Report
found_or_404 none = err not_found
found_or_404 (some r) = ok r

abbrev pub fetch_or_404 : SlotKey → ℕ → ReportStore → Result Report
fetch_or_404 key n store = do
  found ← fetch_report_by_submission_number key n store
  found_or_404 found

-- `reportsStatus`. Whether the report's figures are complete is a check of a Joi schema, and is given.
unfoldable pub post_status :
    ℕ
    → (Report → Bool)
    → SlotKey
    → ℕ
    → ReportStatus
    → ℕ
    → ReportStore
    → Result (Report × ReportStore)
post_status now is_complete key n new version store = do
  report ← fetch_or_404 key n store
  assert_not_stale report.stale report.status.current_status
  throw_if (not (is_valid_report_transition report.status.current_status new)) bad_request
  throw_if (not (is_complete report)) bad_request
  update_report_status now report.id version new (status_to_slot new) store

-- `reportsPatch`, of figures that are given with the guards on them
unfoldable pub patch_report :
    (Report → Result ℕ) → SlotKey → ℕ → ReportStore → Result (Report × ReportStore)
patch_report new_figures key n store = do
  report ← fetch_or_404 key n store
  assert_not_stale report.stale report.status.current_status
  throw_if (not (same_report_status report.status.current_status in_progress)) bad_request
  figures ← new_figures report
  update_report report.id report.version figures store

-- `reportsUnsubmit`
unfoldable pub unsubmit_report : ℕ → SlotKey → ℕ → ReportStore → Result (Report × ReportStore)
unsubmit_report now key n store = do
  report ← fetch_or_404 key n store
  throw_if (not (is_submitted_status report.status.current_status)) conflict
  throw_if (is_resubmission_required report.resubmission_required) conflict
  throw_if (not (is_latest_submission key n store)) conflict
  update_report_status now report.id report.version ready_to_submit unsubmitted store

-- `reportsDelete`
unfoldable pub delete_route : SlotKey → ℕ → ReportStore → Result ReportStore
delete_route key n store = do
  report ← fetch_or_404 key n store
  throw_if (is_submitted_status report.status.current_status) conflict
  previous ← find_report_by_id report.id store
  delete_report key report.submission_number store

-- `reportsRequestResubmission`
unfoldable pub request_resubmission :
    ℕ → ℕ → SlotKey → ℕ → ReportStore → Result (Report × ReportStore)
request_resubmission now requested_by key n store =
    request_operator_resubmission now requested_by key n store

-- `createOnSummaryLogUploaded`
unfoldable pub on_summary_log_uploaded : ℕ → ℕ → ℕ → ℕ → List PeriodRef → ReportStore → ReportStore
on_summary_log_uploaded now organisation registration log closed_periods store =
    let marked =
      (mark_active_reports_stale_for_summary_log organisation registration log now store).1 in
    (mark_submitted_reports_requiring_resubmission organisation registration log now closed_periods
      marked).1

-- `createOnPrnCancelled`, of a PRN that was issued on a date
unfoldable pub on_prn_cancelled : ℕ → ℕ → ℕ → ℕ → IsoDate → ReportStore → ReportStore
on_prn_cancelled now organisation registration prn issued_at store =
    let issued = period_for_date issued_at monthly in
    (mark_active_reports_stale_for_prn_cancellation
      (record {
        organisation_id = organisation;
        registration_id = registration;
        year = issued.year;
        cadence = monthly;
        period = issued.period;
      })
      prn now store).1
