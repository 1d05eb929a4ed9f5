-- ===== src/Reports/Store.antt =====
-- Code: src/reports/repository/inmemory.js, `mapReport` and `prepareCreateReportParams` of helpers.js,
-- and the bounds on numbers of schema.js. The store is the `Map` of reports, in insertion order.
use epr_backend.Prelude.{
  ℕ, suc, ◌+◌, ◌-◌, ltb, leb, ◌==◌, Bool, true, false, not, ◌&&◌, ◌||◌, if◌then◌else◌, Option, none,
  some, List, [], ◌∷◌, ◌++◌, map, filter, any, Result, ok, err, ◌>>=◌, ◌>>◌, throw_if, not_found,
  conflict, bad_request,
}
use epr_backend.Reports.Calendar.{IsoDate}
use epr_backend.Reports.ReportStatus.{
  ReportStatus, ReportStatusSlot, in_progress, created, ready, unsubmitted,
}
use epr_backend.Reports.Model.{
  Report, ReportStatusObject, SlotKey, same_slot, HistoryItem, PeriodicReport, is_submitted_status,
}
use epr_backend.Reports.Stale.{normalise_stale}
use epr_backend.Reports.PeriodicReports.{group_as_periodic_reports}
pub mod Found

abbrev pub ReportStore : Type 0
ReportStore = List Report

-- `reports.get(id)`
pub get_report : ℕ → ReportStore → Option Report
get_report id [] = none
get_report id (r ∷ rs) = if r.id == id then some r else get_report id rs

-- `reports.set(report.id, report)`
pub set_report : Report → ReportStore → ReportStore
set_report r [] = r ∷ []
set_report r (s ∷ rs) = if s.id == r.id then r ∷ rs else s ∷ set_report r rs

-- `reports.delete(id)`
pub remove_report : ℕ → ReportStore → ReportStore
remove_report id [] = []
remove_report id (r ∷ rs) = if r.id == id then rs else r ∷ remove_report id rs

-- `values().find(…)`
abbrev pub find_report : (Report → Bool) → ReportStore → Option Report
find_report p [] = none
find_report p (r ∷ rs) = if p r then some r else find_report p rs

-- `mapReport`
unfoldable pub map_report : Report → Report
map_report r = record r { stale = normalise_stale r.stale }

-- `START_YEAR`, `MAX_YEAR`, `PERIOD_START`, `PERIOD_END`, and the least submission number
abbrev pub is_in_schema : SlotKey → ℕ → Bool
is_in_schema key n =
    leb 2024 key.year && leb key.year 2100 && leb 1 key.period && leb key.period 12 && leb 1 n

-- What `createReport` is given, `changedBy` left out.
pub record CreateReportParams : Type 0 where
  pub slot : SlotKey
  pub submission_number : ℕ
  pub start_date : IsoDate
  pub end_date : IsoDate
  pub due_date : IsoDate
  pub source_summary_log_id : Option ℕ
  pub figures : ℕ

-- `prepareCreateReportParams` with a fresh identifier
unfoldable pub prepare_create_report_params : ℕ → ℕ → CreateReportParams → Report
prepare_create_report_params now id p = record {
  id = id;
  version = 1;
  slot = p.slot;
  submission_number = p.submission_number;
  start_date = p.start_date;
  end_date = p.end_date;
  due_date = p.due_date;
  status = record {
    current_status = in_progress;
    current_status_at = now;
    created = some now;
    ready = none;
    submitted = none;
    unsubmitted = none;
    history = record { status = in_progress; at = now } ∷ [];
  };
  source_summary_log_id = p.source_summary_log_id;
  stale = none;
  resubmission_required = none;
  figures = p.figures;
}

-- A report that is not submitted.
abbrev pub is_active : Report → Bool
is_active r = not (is_submitted_status r.status.current_status)

-- `findActiveBySlot` with a submission number, and without
abbrev pub active_at : SlotKey → ℕ → Report → Bool
active_at key n r = same_slot r.slot key && (r.submission_number == n) && is_active r

abbrev pub active_in : SlotKey → Report → Bool
active_in key r = same_slot r.slot key && is_active r

-- `createReport`
unfoldable pub create_report :
    ℕ → ℕ → CreateReportParams → ReportStore → Result (Report × ReportStore)
unfolding prepare_create_report_params set_report
create_report now id p store = do
  throw_if (not (is_in_schema p.slot p.submission_number)) bad_request
  throw_if (any (active_at p.slot p.submission_number) store) conflict
  throw_if (any (active_in p.slot) store) conflict
  let report = prepare_create_report_params now id p
  ok (report, set_report report store)

-- `reports.get(reportId)`, which throws when there is none
unfoldable pub require_report : ℕ → ReportStore → Result Report
unfolding get_report
require_report id store = elim (get_report id store) [ none ↦ err not_found | some r ↦ ok r ]

-- `updateReport` of the figures
unfoldable pub update_report : ℕ → ℕ → ℕ → ReportStore → Result (Report × ReportStore)
unfolding require_report set_report map_report
update_report id version figures store = do
  existing ← require_report id store
  throw_if (not (existing.version == version)) conflict
  let updated = record existing { figures = figures; version = existing.version + 1 }
  ok (map_report updated, set_report updated store)

-- `[slot]: slotValue`
with_slot : ReportStatusSlot → ℕ → ReportStatusObject → ReportStatusObject
with_slot created now status = record status { created = some now }
with_slot ready now status = record status { ready = some now }
with_slot ReportStatusSlot.submitted now status = record status { submitted = some now }
with_slot unsubmitted now status = record status { unsubmitted = some now }

-- The status object after a transition.
moved_status : ℕ → ReportStatus → ReportStatusSlot → ReportStatusObject → ReportStatusObject
unfolding with_slot
moved_status now new slot status = with_slot slot now (record status {
  current_status = new;
  current_status_at = now;
  history = status.history ++ (record { status = new; at = now } ∷ []);
})

unfoldable pub moved_report : ℕ → ReportStatus → ReportStatusSlot → Report → Report
unfolding moved_status
moved_report now new slot r = record r {
  version = r.version + 1;
  status = moved_status now new slot r.status;
}

-- `updateReportStatus`
unfoldable pub update_report_status :
    ℕ → ℕ → ℕ → ReportStatus → ReportStatusSlot → ReportStore → Result (Report × ReportStore)
unfolding require_report set_report moved_report map_report
update_report_status now id version new slot store = do
  existing ← require_report id store
  throw_if (not (existing.version == version)) conflict
  let updated = moved_report now new slot existing
  ok (map_report updated, set_report updated store)

-- `isReportAtSubmissionSlot`
abbrev pub at_submission : SlotKey → ℕ → Report → Bool
at_submission key n r = same_slot r.slot key && (r.submission_number == n)

unfoldable pub delete_found : Option Report → ReportStore → Result ReportStore
delete_found none store = err not_found
delete_found (some r) store = ok (remove_report r.id store)

-- `deleteReport`
unfoldable pub delete_report : SlotKey → ℕ → ReportStore → Result ReportStore
unfolding delete_found remove_report
delete_report key n store = do
  throw_if (not (is_in_schema key n)) bad_request
  delete_found (find_report (at_submission key n) store) store

-- `findReportById`
unfoldable pub find_report_by_id : ℕ → ReportStore → Result Report
unfolding require_report map_report
find_report_by_id id store = do r ← require_report id store; ok (map_report r)

abbrev pub of_registration : ℕ → ℕ → Report → Bool
of_registration organisation registration r =
    (r.slot.organisation_id == organisation) && (r.slot.registration_id == registration)

-- `findPeriodicReports`
unfoldable pub find_periodic_reports : ℕ → ℕ → ReportStore → List PeriodicReport
find_periodic_reports organisation registration store =
    group_as_periodic_reports (filter (of_registration organisation registration) store)
