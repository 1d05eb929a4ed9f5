-- ===== src/Organisations/Tests.antt =====
-- The history of an accreditation at a concrete history.
use epr_backend.Prelude.{◌≡◌, refl, true, List, [], ◌∷◌, any}
use epr_backend.Organisations.Model.{AccreditationStatus}
use epr_backend.Organisations.History.{is_status, suspended_before_cancelled}
use epr_backend.Organisations.Status.{
  assert_accreditation_status_transition_valid, is_accreditation_status_transition_valid,
  valid_acc_transitions,
}

abbrev revoked : List AccreditationStatus
revoked =
    AccreditationStatus.approved ∷ AccreditationStatus.suspended ∷ AccreditationStatus.cancelled
    ∷ []

suspended_before_cancelled_example : any (is_status AccreditationStatus.suspended) revoked ≡ true
unfolding assert_accreditation_status_transition_valid is_accreditation_status_transition_valid
    valid_acc_transitions
suspended_before_cancelled_example =
    suspended_before_cancelled AccreditationStatus.created revoked refl refl refl refl
