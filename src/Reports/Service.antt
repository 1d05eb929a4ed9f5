-- ===== src/Reports/Service.antt =====
-- Code: create-report-validation.js, resubmission-service.js, assert-cadence.js and, of
-- report-service.js, the look-up and creation of reports, in src/reports/application;
-- `resubmissionIneligibleReasonToErrorCode` of src/reports/domain/resubmission.js.
use epr_backend.Prelude.{
  ℕ, ◌+◌, ◌-◌, ltb, leb, ◌==◌, Bool, true, false, not, ◌&&◌, ◌||◌, if◌then◌else◌, Option, none,
  some, List, [], ◌∷◌, ◌++◌, map, Result, ok, err, Error, ◌>>=◌, ◌>>◌, throw_if, not_found,
  conflict, bad_request, unknown_kind,
}
use epr_backend.Reports.Calendar.{IsoDate, digits, next_day}
use epr_backend.Reports.ReportStatus.{ReportStatus}
use epr_backend.Reports.Periods.{
  Cadence, monthly, quarterly, ReportingPeriod, generate_all_periods_for_year, has_ended,
}
use epr_backend.Reports.Model.{
  Report, ReportSummary, ReportPerPeriod, SlotKey, PeriodicReport, same_cadence,
  is_submitted_status, is_resubmission_required, ResubmissionIneligibleReason, not_submitted,
  already_requested, not_latest_submission, eligible, ReportResubmissionRequired,
}
use epr_backend.Reports.PeriodicReports.{
  find_slot, find_submission_by_number, find_report_id_by_submission_number,
}
use epr_backend.Reports.Store.{
  ReportStore, CreateReportParams, create_report, find_report_by_id, find_periodic_reports,
}
use epr_backend.Reports.Flagging.{mark_submitted_report_requiring_resubmission_by_operator}
pub mod Fetched

-- `allPeriods.find((p) => p.period === period)`
abbrev pub find_period : ℕ → List ReportingPeriod → Option ReportingPeriod
find_period period [] = none
find_period period (p ∷ ps) = if p.period == period then some p else find_period period ps

-- `assertValidPeriod`
assert_valid_period : ℕ → List ReportingPeriod → Result ReportingPeriod
assert_valid_period period all_periods = elim (find_period period all_periods) [
  | none ↦ err bad_request
  | some p ↦ ok p
]

-- `assertPeriodEnded`: the day after the period's end is not after now.
assert_period_ended : IsoDate → ReportingPeriod → Result (Unit {0})
assert_period_ended now p = throw_if (ltb (digits now) (digits (next_day p.end_date))) bad_request

-- `getValidatedPeriodInfo`
unfoldable pub get_validated_period_info : IsoDate → Cadence → ℕ → ℕ → Result ReportingPeriod
unfolding assert_valid_period assert_period_ended
get_validated_period_info now c year period = do
  info ← assert_valid_period period (generate_all_periods_for_year c year)
  assert_period_ended now info
  ok info

abbrev pub is_found {ℓ} : {A : Type ℓ} → Option A → Bool
is_found none = false
is_found (some a) = true

-- `assertNoExistingReport`; an identifier is not an empty text
unfoldable pub assert_no_existing_report : List PeriodicReport → SlotKey → ℕ → Result (Unit {0})
assert_no_existing_report prs key n =
    throw_if (is_found (find_submission_by_number prs key.year key.cadence key.period n)) conflict

-- `permitted`
abbrev pub permits_resubmission : Option ReportSummary → Bool
permits_resubmission none = false
permits_resubmission (some previous) =
    is_submitted_status previous.status && is_resubmission_required previous.resubmission_required

-- `assertResubmissionAllowed`
unfoldable pub assert_resubmission_allowed : List PeriodicReport → SlotKey → ℕ → Result (Unit {0})
assert_resubmission_allowed prs key n =
    if leb n 1
    then ok tt
    else throw_if
        (not (
          permits_resubmission
            (find_submission_by_number prs key.year key.cadence key.period (n - 1))))
        conflict

-- `assertCadence` of a registration that is accredited or not
unfoldable pub assert_cadence : Cadence → Bool → Result (Unit {0})
assert_cadence c accredited =
    throw_if (not (same_cadence c (if accredited then monthly else quarterly))) bad_request

-- What the report's figures are made of: the latest submitted summary log, and the figures.
pub record ReportData : Type 0 where
  pub source_summary_log_id : Option ℕ
  pub figures : ℕ

-- `createReportForPeriod`. The aggregation of waste records and PRNs is given, and may throw.
unfoldable pub create_report_for_period :
    IsoDate → ℕ → ℕ → SlotKey → ℕ → Result ReportData → ReportStore → Result (Report × ReportStore)
unfolding get_validated_period_info assert_no_existing_report assert_resubmission_allowed
create_report_for_period today now id key n aggregated store = do
  info ← get_validated_period_info today key.cadence key.year key.period
  let prs = find_periodic_reports key.organisation_id key.registration_id store
  assert_no_existing_report prs key n
  assert_resubmission_allowed prs key n
  figures ← aggregated
  create_report now id
      (record {
        slot = key;
        submission_number = n;
        start_date = info.start_date;
        end_date = info.end_date;
        due_date = info.due_date;
        source_summary_log_id = figures.source_summary_log_id;
        figures = figures.figures;
      })
      store

fetch_found : Option ℕ → ReportStore → Result (Option Report)
fetch_found none store = ok none
fetch_found (some id) store = do r ← find_report_by_id id store; ok (some r)

-- `fetchReportBySubmissionNumber`
unfoldable pub fetch_report_by_submission_number :
    SlotKey → ℕ → ReportStore → Result (Option Report)
unfolding fetch_found
fetch_report_by_submission_number key n store =
    fetch_found
      (find_report_id_by_submission_number
        (find_periodic_reports key.organisation_id key.registration_id store) key.year key.cadence
        key.period n)
      store

-- `[slot?.current, ...(slot?.previousSubmissions ?? [])].flatMap(…)`, by submission number
abbrev slot_numbers : Option ReportPerPeriod → List ℕ
slot_numbers none = []
slot_numbers (some slot) =
    (elim slot.current [ none ↦ [] | some s ↦ s.submission_number ∷ [] ])
    ++ map (λ (s : ReportSummary). s.submission_number) slot.previous_submissions

-- `Math.max`
abbrev pub maximum : ℕ → List ℕ → ℕ
maximum m [] = m
maximum m (n ∷ ns) = maximum (if ltb m n then n else m) ns

abbrev is_maximum : ℕ → List ℕ → Bool
is_maximum n [] = false
is_maximum n (m ∷ ms) = maximum m ms == n

-- `isLatestSubmissionOf`
unfoldable pub is_latest_submission_of : List PeriodicReport → ℕ → Cadence → ℕ → ℕ → Bool
is_latest_submission_of prs year c period n =
    is_maximum n (slot_numbers (find_slot year c period prs))

-- `isLatestSubmission`
unfoldable pub is_latest_submission : SlotKey → ℕ → ReportStore → Bool
unfolding is_latest_submission_of
is_latest_submission key n store =
    is_latest_submission_of (find_periodic_reports key.organisation_id key.registration_id store)
      key.year key.cadence key.period n

-- `resubmissionEligibility`
unfoldable pub resubmission_eligibility :
    List PeriodicReport
    → ReportStatus
    → Option ReportResubmissionRequired
    → ℕ
    → Cadence
    → ℕ
    → ℕ
    → ResubmissionIneligibleReason
unfolding is_latest_submission_of
resubmission_eligibility prs status required year c period n =
    if not (is_submitted_status status)
    then not_submitted
    else if is_resubmission_required required
    then already_requested
    else if not (is_latest_submission_of prs year c period n)
    then not_latest_submission
    else eligible

abbrev pub is_eligible : ResubmissionIneligibleReason → Bool
is_eligible eligible = true
is_eligible _ = false

-- `canRequestResubmission`
unfoldable pub can_request_resubmission :
    List PeriodicReport
    → ReportStatus
    → Option ReportResubmissionRequired
    → ℕ
    → Cadence
    → ℕ
    → ℕ
    → Bool
unfolding resubmission_eligibility
can_request_resubmission prs status required year c period n =
    is_eligible (resubmission_eligibility prs status required year c period n)

-- `resubmissionIneligibleReasonToErrorCode` with the `conflict` that is thrown with the code
unfoldable pub ineligible_error : ResubmissionIneligibleReason → Error
ineligible_error not_submitted = conflict
ineligible_error already_requested = conflict
ineligible_error not_latest_submission = conflict
ineligible_error eligible = unknown_kind

unfoldable pub marked : Option Report × ReportStore → Result (Report × ReportStore)
marked (none, store) = err conflict
marked (some r, store) = ok (r, store)

unfoldable pub request_found :
    ℕ
    → ℕ
    → SlotKey
    → ℕ
    → List PeriodicReport
    → ReportStore
    → Option ReportSummary
    → Result (Report × ReportStore)
unfolding resubmission_eligibility ineligible_error marked
request_found now requested_by key n prs store none = err not_found
request_found now requested_by key n prs store (some target) =
    let eligibility =
      resubmission_eligibility prs target.status target.resubmission_required key.year key.cadence
        key.period n in
    throw_if (not (is_eligible eligibility)) (ineligible_error eligibility)
    >> marked
        (mark_submitted_report_requiring_resubmission_by_operator key n now requested_by store)

-- `requestOperatorResubmission`
unfoldable pub request_operator_resubmission :
    ℕ → ℕ → SlotKey → ℕ → ReportStore → Result (Report × ReportStore)
unfolding request_found
request_operator_resubmission now requested_by key n store =
    let prs = find_periodic_reports key.organisation_id key.registration_id store in
    request_found now requested_by key n prs store
      (find_submission_by_number prs key.year key.cadence key.period n)
