-- ===== src/Reports/Flagging.antt =====
-- Code: the marking operations of src/reports/repository/inmemory.js and `latestSubmissionPerPeriod` of
-- helpers.js. An operation returns the reports that it reports on, whole, with the store.
use epr_backend.Prelude.{
  ℕ, ◌+◌, ◌==◌, Bool, false, not, ◌&&◌, if◌then◌else◌, Option, none, some, List, [], ◌∷◌, map,
  filter, any, sort_by_descending,
}
use epr_backend.Reports.Model.{
  Report, SlotKey, same_slot, same_cadence, Marker, marker, ReportStale, is_submitted_status,
  resubmission_or_empty,
}
use epr_backend.Reports.Stale.{is_present}
use epr_backend.Reports.PeriodicReports.{number_of}
use epr_backend.Reports.Periods.{Cadence}
use epr_backend.Reports.Store.{
  ReportStore, set_report, find_report, is_active, of_registration, at_submission,
}

abbrev no_stale : ReportStale
no_stale = record {
  summary_log_changed = none;
  prn_cancelled = none;
  uploaded_at = none;
  summary_log_id = none;
  reason = none;
}

-- `...report.stale`
abbrev stale_or_empty : Option ReportStale → ReportStale
stale_or_empty none = no_stale
stale_or_empty (some s) = s

-- `…?.summaryLogId === id`
abbrev refers_to : ℕ → Option Marker → Bool
refers_to id none = false
refers_to id (some m) = elim m.reference [ none ↦ false | some n ↦ n == id ]

abbrev is_source : ℕ → Option ℕ → Bool
is_source id none = false
is_source id (some n) = n == id

-- What an update does to the reports that a test selects.
abbrev pub update_where : (Report → Bool) → (Report → Report) → ReportStore → ReportStore
update_where p f = map (λ r. if p r then f r else r)

-- The test of `markActiveReportsStaleForSummaryLog`
unfoldable pub stale_for_summary_log : ℕ → ℕ → ℕ → Report → Bool
stale_for_summary_log organisation registration log r =
    of_registration organisation registration r
    && is_active r
    && not (is_present (stale_or_empty r.stale).summary_log_changed)
    && not (is_source log r.source_summary_log_id)

unfoldable pub with_summary_log_changed : Marker → Report → Report
with_summary_log_changed m r = record r {
  stale = some (let s = stale_or_empty r.stale in record s { summary_log_changed = some m });
  version = r.version + 1;
}

-- `markActiveReportsStaleForSummaryLog`
unfoldable pub mark_active_reports_stale_for_summary_log :
    ℕ → ℕ → ℕ → ℕ → ReportStore → List Report × ReportStore
unfolding stale_for_summary_log with_summary_log_changed
mark_active_reports_stale_for_summary_log organisation registration log uploaded_at store =
    let selected = stale_for_summary_log organisation registration log in
    let after = update_where selected (with_summary_log_changed (marker uploaded_at log)) store in
    (
      if any selected store
          then filter
              (λ r.
                of_registration organisation registration r
                && refers_to log (stale_or_empty r.stale).summary_log_changed)
              after
          else [],
      after,
    )

-- `isActiveReportForPrnCancellationSlot`
unfoldable pub stale_for_prn : SlotKey → Report → Bool
stale_for_prn key r =
    same_slot r.slot key && is_active r && not (is_present (stale_or_empty r.stale).prn_cancelled)

unfoldable pub with_prn_cancelled : Marker → Report → Report
with_prn_cancelled m r = record r {
  stale = some (let s = stale_or_empty r.stale in record s { prn_cancelled = some m });
  version = r.version + 1;
}

-- `markActiveReportsStaleForPrnCancellation`
unfoldable pub mark_active_reports_stale_for_prn_cancellation :
    SlotKey → ℕ → ℕ → ReportStore → List Report × ReportStore
unfolding stale_for_prn with_prn_cancelled
mark_active_reports_stale_for_prn_cancellation key prn occurred_at store =
    let selected = stale_for_prn key in
    let after = update_where selected (with_prn_cancelled (marker occurred_at prn)) store in
    (
      if any selected store
          then filter
              (λ r. same_slot r.slot key && refers_to prn (stale_or_empty r.stale).prn_cancelled)
              after
          else [],
      after,
    )

-- `PeriodRef`
pub record PeriodRef : Type 0 where
  pub year : ℕ
  pub cadence : Cadence
  pub period : ℕ

-- `periodKey`, compared
abbrev pub has_period : PeriodRef → Report → Bool
has_period p r =
    (r.slot.year == p.year) && same_cadence r.slot.cadence p.cadence && (r.slot.period == p.period)

abbrev pub period_of : Report → PeriodRef
period_of r = record { year = r.slot.year; cadence = r.slot.cadence; period = r.slot.period }

-- The first report of each period, as the `reduce` keeps them.
unfoldable pub first_per_period : List PeriodRef → List Report → List Report
first_per_period seen [] = []
first_per_period seen (r ∷ rs) =
    let kept = r ∷ first_per_period (period_of r ∷ seen) rs in
    let dropped = first_per_period seen rs in
    if any (λ p. has_period p r) seen then dropped else kept

-- `latestSubmissionPerPeriod`
unfoldable pub latest_submission_per_period : List Report → List Report
unfolding first_per_period
latest_submission_per_period reports = first_per_period [] (sort_by_descending number_of reports)

-- `resubmissionRequired?.closedPeriodRestated?.summaryLogId === summaryLogId`
abbrev pub already_handled : ℕ → Report → Bool
already_handled log r =
    refers_to log (resubmission_or_empty r.resubmission_required).closed_period_restated

unfoldable pub with_closed_period_restated : Marker → Report → Report
with_closed_period_restated m r = record r {
  resubmission_required = some (
      let q = resubmission_or_empty r.resubmission_required in
      record q { closed_period_restated = some m });
  version = r.version + 1;
}

-- `toFlag.forEach(persistResubmissionFlag)`
unfoldable pub set_all : (Report → Report) → List Report → ReportStore → ReportStore
set_all f [] store = store
set_all f (r ∷ rs) store = set_all f rs (set_report (f r) store)

-- The submitted reports of the wanted periods.
abbrev pub submitted_in : ℕ → ℕ → List PeriodRef → Report → Bool
submitted_in organisation registration periods r =
    of_registration organisation registration r
    && is_submitted_status r.status.current_status
    && any (λ p. has_period p r) periods

-- `markSubmittedReportsRequiringResubmission`
unfoldable pub mark_submitted_reports_requiring_resubmission :
    ℕ → ℕ → ℕ → ℕ → List PeriodRef → ReportStore → List Report × ReportStore
unfolding latest_submission_per_period with_closed_period_restated set_all
mark_submitted_reports_requiring_resubmission organisation registration log uploaded_at periods
      store =
    let to_flag =
      filter (λ r. not (already_handled log r))
        (latest_submission_per_period
          (filter (submitted_in organisation registration periods) store)) in
    (to_flag, set_all (with_closed_period_restated (marker uploaded_at log)) to_flag store)

unfoldable pub with_operator_requested : Marker → Report → Report
with_operator_requested m r = record r {
  resubmission_required = some (
      let q = resubmission_or_empty r.resubmission_required in
      record q { operator_requested = some m });
  version = r.version + 1;
}

abbrev pub is_requestable : Report → Bool
is_requestable r =
    is_submitted_status r.status.current_status
    && not (is_present (resubmission_or_empty r.resubmission_required).operator_requested)

unfoldable pub flag_found : Marker → Option Report → ReportStore → Option Report × ReportStore
unfolding with_operator_requested
flag_found m none store = (none, store)
flag_found m (some r) store =
    if is_requestable r
    then (some (with_operator_requested m r), set_report (with_operator_requested m r) store)
    else (none, store)

-- `markSubmittedReportRequiringResubmissionByOperator`
unfoldable pub mark_submitted_report_requiring_resubmission_by_operator :
    SlotKey → ℕ → ℕ → ℕ → ReportStore → Option Report × ReportStore
unfolding flag_found
mark_submitted_report_requiring_resubmission_by_operator key n requested_at requested_by store =
    flag_found (marker requested_at requested_by) (find_report (at_submission key n) store) store
