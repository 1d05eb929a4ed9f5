-- ===== src/SummaryLogs/Failure.antt =====
-- Code: src/application/summary-logs/mark-as-failed.js. Every error is caught and logged, so the
-- result is the store alone. The first store is the replica that `findById` reads.
use epr_backend.SummaryLogs.Store.{SummaryLogDocument, LogStore, find_log, update_log}
use epr_backend.Prelude.{Option, ℕ, not, none, some, ok, err, if◌then◌else◌, List}
use epr_backend.SummaryLogs.Status.{
  SummaryLogStatus, validation_failed, submission_failed, transition_status, includes_status,
  processing_statuses, submission_processing_statuses,
}

-- The common body once the log was looked up: the statuses that it acts on, and the one that it
-- sets.
abbrev pub mark_found :
    List SummaryLogStatus
    → SummaryLogStatus
    → ℕ
    → ℕ
    → LogStore
    → Option SummaryLogDocument
    → LogStore
mark_found acts_on failed now id store none = store
mark_found acts_on failed now id store (some result) =
    if not (includes_status result.summary_log.status acts_on)
    then store
    else elim (transition_status now result.summary_log.status failed) [
      | err _ ↦ store
      | ok u ↦ (update_log store id result.version u).1
    ]

unfoldable pub mark_as_validation_failed : ℕ → LogStore → ℕ → LogStore → LogStore
mark_as_validation_failed now replica id store =
    mark_found processing_statuses validation_failed now id store (find_log replica id)

unfoldable pub mark_as_submission_failed : ℕ → LogStore → ℕ → LogStore → LogStore
mark_as_submission_failed now replica id store =
    mark_found submission_processing_statuses submission_failed now id store (find_log replica id)
