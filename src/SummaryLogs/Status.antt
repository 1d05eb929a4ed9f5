-- ===== src/SummaryLogs/Status.antt =====
-- Code: src/domain/summary-logs/status.js. An expiry is an instant in milliseconds, or none.
use epr_backend.Prelude.{
  ℕ, ◌+◌, ◌*◌, Bool, ◌==◌, not, Option, none, some, List, [], ◌∷◌, any, Result, ok, ◌>>◌, throw_if,
  invalid_transition,
}

-- `SUMMARY_LOG_STATUS`
pub data SummaryLogStatus : Type 0 where
  preprocessing rejected validating invalid validated : SummaryLogStatus
  submitting submitted superseded validation_failed submission_failed : SummaryLogStatus

-- `===` on statuses, by the place in the enumeration
abbrev status_place : SummaryLogStatus → ℕ
status_place preprocessing = 0
status_place rejected = 1
status_place validating = 2
status_place invalid = 3
status_place validated = 4
status_place submitting = 5
status_place submitted = 6
status_place superseded = 7
status_place validation_failed = 8
status_place submission_failed = 9

abbrev pub same_log_status : SummaryLogStatus → SummaryLogStatus → Bool
same_log_status s t = status_place s == status_place t

-- `includes`
abbrev pub includes_status : SummaryLogStatus → List SummaryLogStatus → Bool
includes_status s = any (λ t. same_log_status t s)

abbrev milliseconds_per_minute : ℕ
milliseconds_per_minute = 1000 * 60

abbrev minutes : ℕ → ℕ
minutes n = n * milliseconds_per_minute

abbrev days : ℕ → ℕ
days n = n * (milliseconds_per_minute * 60 * 24)

abbrev weeks : ℕ → ℕ
weeks n = n * (milliseconds_per_minute * 60 * 24 * 7)

-- `STATUS_TO_TTL`
unfoldable pub status_to_ttl : SummaryLogStatus → Option ℕ
status_to_ttl preprocessing = some (days 1)
status_to_ttl validating = some (days 1)
status_to_ttl validated = some (weeks 1)
status_to_ttl superseded = some (days 1)
status_to_ttl rejected = some (days 1)
status_to_ttl invalid = some (weeks 1)
status_to_ttl validation_failed = some (days 1)
status_to_ttl submission_failed = some (days 1)
status_to_ttl submitting = some (minutes 20)
status_to_ttl submitted = none

-- `calculateExpiresAt` at the time `now`
unfoldable pub calculate_expires_at : ℕ → SummaryLogStatus → Option ℕ
unfolding status_to_ttl
calculate_expires_at now status = elim (status_to_ttl status) [
  | none ↦ none
  | some ttl ↦ some (now + ttl)
]

-- `PROCESSING_STATUSES`, `SUBMISSION_PROCESSING_STATUSES`
abbrev pub processing_statuses : List SummaryLogStatus
processing_statuses = preprocessing ∷ validating ∷ []

abbrev pub submission_processing_statuses : List SummaryLogStatus
submission_processing_statuses = submitting ∷ []

pub data UploadStatus : Type 0 where
  complete upload_rejected pending : UploadStatus

unfoldable pub determine_status_from_upload : UploadStatus → SummaryLogStatus
determine_status_from_upload upload_rejected = rejected
determine_status_from_upload pending = preprocessing
determine_status_from_upload complete = validating

-- `VALID_TRANSITIONS`
unfoldable pub valid_transitions : SummaryLogStatus → List SummaryLogStatus
valid_transitions preprocessing = preprocessing ∷ rejected ∷ validating ∷ validation_failed ∷ []
valid_transitions validating = validated ∷ invalid ∷ validation_failed ∷ []
valid_transitions validated = submitting ∷ []
valid_transitions submitting = submitted ∷ superseded ∷ submission_failed ∷ []
valid_transitions _ = []

-- What a transition writes into a summary log.
pub record StatusUpdate : Type 0 where
  pub status : SummaryLogStatus
  pub expires_at : Option ℕ

-- `transitionStatus` of a log that has a status
unfoldable pub transition_status : ℕ → SummaryLogStatus → SummaryLogStatus → Result StatusUpdate
unfolding valid_transitions calculate_expires_at
transition_status now from new_status =
    throw_if (not (includes_status new_status (valid_transitions from))) invalid_transition
    >> ok (record { status = new_status; expires_at = calculate_expires_at now new_status })
