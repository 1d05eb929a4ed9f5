-- ===== src/Reports/ReportStatus.antt =====
-- Code: report-status.js and report-transitions.js of src/reports/domain.
use epr_backend.Prelude.{ℕ, Bool, ◌==◌, List, [], ◌∷◌, any}

-- `REPORT_STATUS`
pub data ReportStatus : Type 0 where
  in_progress ready_to_submit submitted : ReportStatus

abbrev status_place : ReportStatus → ℕ
status_place in_progress = 0
status_place ready_to_submit = 1
status_place submitted = 2

-- `===`
abbrev pub same_report_status : ReportStatus → ReportStatus → Bool
same_report_status s t = status_place s == status_place t

-- `REPORT_STATUS_SLOT`
pub data ReportStatusSlot : Type 0 where
  created ready submitted unsubmitted : ReportStatusSlot

-- `STATUS_TO_SLOT`
unfoldable pub status_to_slot : ReportStatus → ReportStatusSlot
status_to_slot in_progress = created
status_to_slot ready_to_submit = ready
status_to_slot submitted = ReportStatusSlot.submitted

-- `ACTIVE_REPORT_STATUSES`
unfoldable pub active_report_statuses : List ReportStatus
active_report_statuses = in_progress ∷ ready_to_submit ∷ []

-- `REPORT_STATUS_TRANSITIONS`
unfoldable pub report_status_transitions : ReportStatus → List ReportStatus
report_status_transitions in_progress = ready_to_submit ∷ []
report_status_transitions ready_to_submit = submitted ∷ []
report_status_transitions submitted = []

-- `isValidReportTransition`
unfoldable pub is_valid_report_transition : ReportStatus → ReportStatus → Bool
unfolding report_status_transitions
is_valid_report_transition current new =
    any (same_report_status new) (report_status_transitions current)
