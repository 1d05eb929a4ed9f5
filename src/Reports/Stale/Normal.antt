-- ===== src/Reports/Stale/Normal.antt =====
-- A stale field after it is normalised on read.
use epr_backend.Prelude.{
  ℕ, ◌≡◌, refl, arith, [], ◌∷◌, ◌||◌, ◌&&◌, not, none, some, err, ok, conflict, if◌then◌else◌,
  Option,
}
use epr_backend.Reports.ReportStatus.{ReportStatus}
use epr_backend.Reports.Model.{Marker, ReportStale, is_submitted_status}
use epr_backend.Reports.Stale.{
  is_present, normalise_stale, stale_reasons, legacy_stale_keys, assert_not_stale,
  summary_log_changed,
}

abbrev Normalised : ReportStale → Type 0
Normalised s =
    (legacy_stale_keys (normalise_stale (some s)) ≡ [])
    × (normalise_stale (normalise_stale (some s)) ≡ normalise_stale (some s))
    × (stale_reasons (normalise_stale (some s)) ≡ (
        if is_present s.summary_log_changed || is_present s.prn_cancelled
        then stale_reasons (some s)
        else summary_log_changed ∷ []))

abbrev stored : Option Marker → Option Marker → Option ℕ → Option ℕ → Option ℕ → ReportStale
stored changed cancelled at log why = record {
  summary_log_changed = changed;
  prn_cancelled = cancelled;
  uploaded_at = at;
  summary_log_id = log;
  reason = why;
}

stored-Normalised :
    (changed cancelled : Option Marker) (at log why : Option ℕ)
    → Normalised (stored changed cancelled at log why)
unfolding normalise_stale legacy_stale_keys stale_reasons
stored-Normalised none none at log why = (refl, refl, refl)
stored-Normalised none (some c) at log why = (refl, refl, refl)
stored-Normalised (some c) none at log why = (refl, refl, refl)
stored-Normalised (some c) (some d) at log why = (refl, refl, refl)

-- Once normalised, a stale field has no key of the old shape, normalising it again changes nothing,
-- and its reasons are the ones that it named before, or that the summary log changed if it named
-- none.
pub normalise_stale_lem :
    (s : ReportStale)
    → (legacy_stale_keys (normalise_stale (some s)) ≡ [])
      × (normalise_stale (normalise_stale (some s)) ≡ normalise_stale (some s))
      × (stale_reasons (normalise_stale (some s)) ≡ (
          if is_present s.summary_log_changed || is_present s.prn_cancelled
          then stale_reasons (some s)
          else summary_log_changed ∷ []))
normalise_stale_lem s =
    stored-Normalised s.summary_log_changed s.prn_cancelled s.uploaded_at s.summary_log_id s.reason

abbrev Refuses : ReportStale → ReportStatus → Type 0
Refuses s status =
    assert_not_stale (normalise_stale (some s)) status
    ≡ (if not (is_submitted_status status) then err conflict else ok tt)

stored-Refuses :
    (changed cancelled : Option Marker) (at log why : Option ℕ) (status : ReportStatus)
    → Refuses (stored changed cancelled at log why) status
unfolding normalise_stale assert_not_stale
stored-Refuses none none at log why status = ground arith
stored-Refuses none (some c) at log why status = ground arith
stored-Refuses (some c) none at log why status = ground arith
stored-Refuses (some c) (some d) at log why status = ground arith

-- A report that is read with a stale field, in the old shape or the new, is refused with a conflict
-- unless it is submitted; one without the field, or submitted, passes. No other error arises.
pub assert_not_stale-normalise_stale :
    (stale : Option ReportStale) (status : ReportStatus)
    → assert_not_stale (normalise_stale stale) status
      ≡ (if is_present stale && not (is_submitted_status status) then err conflict else ok tt)
unfolding normalise_stale assert_not_stale
assert_not_stale-normalise_stale none status = refl
assert_not_stale-normalise_stale (some s) status =
    stored-Refuses s.summary_log_changed s.prn_cancelled s.uploaded_at s.summary_log_id s.reason
      status
