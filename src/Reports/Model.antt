-- ===== src/Reports/Model.antt =====
-- Code: the types of src/reports/repository/port.js, `periodKey` of src/reports/domain/period-key.js,
-- and resubmission.js of src/reports/domain. An instant is a number of milliseconds; identifiers are
-- numbers.
use epr_backend.Reports.Calendar.{IsoDate}
use epr_backend.Prelude.{
  ◌++◌, ℕ, ltb, Bool, true, false, ◌&&◌, ◌==◌, Option, none, some, List, [], ◌∷◌, length,
}
use epr_backend.Reports.ReportStatus.{ReportStatus, submitted}
use epr_backend.Reports.Periods.{Cadence, monthly, quarterly}

abbrev pub same_cadence : Cadence → Cadence → Bool
same_cadence monthly monthly = true
same_cadence monthly quarterly = false
same_cadence quarterly monthly = false
same_cadence quarterly quarterly = true

-- `ReportPerPeriodKey`: the organisation, the registration and the period that a report is for.
pub record SlotKey : Type 0 where
  pub organisation_id : ℕ
  pub registration_id : ℕ
  pub year : ℕ
  pub cadence : Cadence
  pub period : ℕ

-- `isReportInPeriodSlot`, on the keys
abbrev pub same_slot : SlotKey → SlotKey → Bool
same_slot a b =
    (a.organisation_id == b.organisation_id)
    && (a.registration_id == b.registration_id)
    && (a.year == b.year)
    && same_cadence a.cadence b.cadence
    && (a.period == b.period)

-- What a marker records: an instant, and the summary log or the PRN or the user. A field may be
-- absent from a marker that was made of an old document.
pub record Marker : Type 0 where
  pub at : Option ℕ
  pub reference : Option ℕ

abbrev pub marker : ℕ → ℕ → Marker
marker at reference = record { at = some at; reference = some reference }

-- `ReportStale`, with the fields of the old flat shape that a stored document may still have.
pub record ReportStale : Type 0 where
  pub summary_log_changed : Option Marker
  pub prn_cancelled : Option Marker
  pub uploaded_at : Option ℕ
  pub summary_log_id : Option ℕ
  pub reason : Option ℕ

-- `ReportResubmissionRequired`
pub record ReportResubmissionRequired : Type 0 where
  pub closed_period_restated : Option Marker
  pub operator_requested : Option Marker

-- `Object.keys`, by how many there are
abbrev marker_count : Option Marker → List Marker
marker_count none = []
marker_count (some m) = m ∷ []

abbrev pub no_resubmission : ReportResubmissionRequired
no_resubmission = record { closed_period_restated = none; operator_requested = none }

-- `resubmissionRequired ?? {}`
abbrev pub resubmission_or_empty : Option ReportResubmissionRequired → ReportResubmissionRequired
resubmission_or_empty none = no_resubmission
resubmission_or_empty (some r) = r

abbrev has_marker : ReportResubmissionRequired → Bool
has_marker r =
    ltb 0 (length (marker_count r.closed_period_restated ++ marker_count r.operator_requested))

-- `isResubmissionRequired`
unfoldable pub is_resubmission_required : Option ReportResubmissionRequired → Bool
is_resubmission_required required = has_marker (resubmission_or_empty required)

-- `RESUBMISSION_INELIGIBLE_REASON`
pub data ResubmissionIneligibleReason : Type 0 where
  not_submitted already_requested not_latest_submission eligible : ResubmissionIneligibleReason

-- `ReportStatusHistoryItem`
pub record HistoryItem : Type 0 where
  pub status : ReportStatus
  pub at : ℕ

-- `ReportStatusObject`: an operation's slot holds its instant.
pub record ReportStatusObject : Type 0 where
  pub current_status : ReportStatus
  pub current_status_at : ℕ
  pub created : Option ℕ
  pub ready : Option ℕ
  pub submitted : Option ℕ
  pub unsubmitted : Option ℕ
  pub history : List HistoryItem

-- `Report`: `figures` stands for what the report says of tonnages.
pub record Report : Type 0 where
  pub id : ℕ
  pub version : ℕ
  pub slot : SlotKey
  pub submission_number : ℕ
  pub start_date : IsoDate
  pub end_date : IsoDate
  pub due_date : IsoDate
  pub status : ReportStatusObject
  pub source_summary_log_id : Option ℕ
  pub stale : Option ReportStale
  pub resubmission_required : Option ReportResubmissionRequired
  pub figures : ℕ

-- `ReportSummary`
pub record ReportSummary : Type 0 where
  pub id : ℕ
  pub status : ReportStatus
  pub submission_number : ℕ
  pub submitted_at : Option ℕ
  pub resubmission_required : Option ReportResubmissionRequired

-- `ReportPerPeriod`
pub record ReportPerPeriod : Type 0 where
  pub start_date : IsoDate
  pub end_date : IsoDate
  pub due_date : IsoDate
  pub current : Option ReportSummary
  pub previous_submissions : List ReportSummary

-- `PeriodicReportSlots`: the slots by their periods.
abbrev pub PeriodicReportSlots : Type 0
PeriodicReportSlots = List (ℕ × ReportPerPeriod)

-- `PeriodicReport`
pub record PeriodicReport : Type 0 where
  pub year : ℕ
  pub monthly_slots : Option PeriodicReportSlots
  pub quarterly_slots : Option PeriodicReportSlots

-- `reports[cadence]`
abbrev pub cadence_slots : Cadence → PeriodicReport → Option PeriodicReportSlots
cadence_slots monthly pr = pr.monthly_slots
cadence_slots quarterly pr = pr.quarterly_slots

abbrev pub is_submitted_status : ReportStatus → Bool
is_submitted_status submitted = true
is_submitted_status _ = false
