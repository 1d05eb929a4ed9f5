-- ===== src/Reports/Stale.antt =====
-- Code: stale.js of src/reports/domain.
use epr_backend.Prelude.{
  if◌then◌else◌, ℕ, ltb, Bool, true, false, not, ◌&&◌, ◌||◌, Option, none, some, List, [], ◌∷◌,
  ◌++◌, length, any, Result, ok, err, ◌>>◌, throw_if, conflict, bad_implementation,
}
use epr_backend.Reports.ReportStatus.{ReportStatus}
use epr_backend.Reports.Model.{Marker, ReportStale, is_submitted_status}
pub mod Normal

-- `STALE_REASON`
pub data StaleReason : Type 0 where
  summary_log_changed prn_cancelled : StaleReason

abbrev pub is_present {ℓ} : {A : Type ℓ} → Option A → Bool
is_present none = false
is_present (some m) = true

-- `push` if the field is there
abbrev reasons_of : Option Marker → StaleReason → List StaleReason
reasons_of none reason = []
reasons_of (some m) reason = reason ∷ []

-- `staleReasons`
unfoldable pub stale_reasons : Option ReportStale → List StaleReason
stale_reasons none = []
stale_reasons (some stale) =
    reasons_of stale.summary_log_changed summary_log_changed
    ++ reasons_of stale.prn_cancelled prn_cancelled

-- The fields of the old shape, without `reason`, as a marker.
abbrev rest_marker : ReportStale → Marker
rest_marker stale = record { at = stale.uploaded_at; reference = stale.summary_log_id }

abbrev nested : Option Marker → Option Marker → ReportStale
nested changed cancelled = record {
  summary_log_changed = changed;
  prn_cancelled = cancelled;
  uploaded_at = none;
  summary_log_id = none;
  reason = none;
}

-- `normaliseStale`
unfoldable pub normalise_stale : Option ReportStale → Option ReportStale
normalise_stale none = none
normalise_stale (some stale) =
    if is_present stale.summary_log_changed || is_present stale.prn_cancelled
    then some (nested stale.summary_log_changed stale.prn_cancelled)
    else some (nested (some (rest_marker stale)) none)

-- A key of the old shape.
pub data LegacyKey : Type 0 where
  uploaded_at summary_log_id reason : LegacyKey

abbrev key_of : Option ℕ → LegacyKey → List LegacyKey
key_of none key = []
key_of (some n) key = key ∷ []

-- `legacyStaleKeys`
unfoldable pub legacy_stale_keys : Option ReportStale → List LegacyKey
legacy_stale_keys none = []
legacy_stale_keys (some stale) =
    key_of stale.uploaded_at uploaded_at
    ++ key_of stale.summary_log_id summary_log_id
    ++ key_of stale.reason reason

-- `assertValidStaleReasonsCode`: every `StaleReason` is a known one, so the rest of the schema is
-- that there is a reason.
unfoldable pub assert_valid_stale_reasons_code : List StaleReason → Result (Unit {0})
assert_valid_stale_reasons_code reasons = throw_if (not (ltb 0 (length reasons))) bad_implementation

-- `assertNotStale` of a report's stale field and its status
unfoldable pub assert_not_stale : Option ReportStale → ReportStatus → Result (Unit {0})
unfolding stale_reasons assert_valid_stale_reasons_code
assert_not_stale stale status =
    if ltb 0 (length (stale_reasons stale)) && not (is_submitted_status status)
    then (assert_valid_stale_reasons_code (stale_reasons stale) >> err conflict)
    else ok tt
