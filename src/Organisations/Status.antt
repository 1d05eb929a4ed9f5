-- ===== src/Organisations/Status.antt =====
-- Code: src/domain/organisations/status.js. A status is a string; the tables are keyed by the
-- statuses of the enumerations.
use epr_backend.Prelude.{ℕ, Bool, ◌==◌, List, [], ◌∷◌, any, Result, bad_data, not, throw_if}
use epr_backend.Organisations.Model.{RegistrationStatus, AccreditationStatus, OrganisationStatus}

-- `===` on each enumeration, by the place in it
abbrev organisation_place : OrganisationStatus → ℕ
organisation_place OrganisationStatus.created = 0
organisation_place OrganisationStatus.approved = 1
organisation_place OrganisationStatus.active = 2
organisation_place OrganisationStatus.rejected = 3

abbrev registration_place : RegistrationStatus → ℕ
registration_place RegistrationStatus.created = 0
registration_place RegistrationStatus.approved = 1
registration_place RegistrationStatus.cancelled = 2
registration_place RegistrationStatus.rejected = 3

abbrev pub accreditation_place : AccreditationStatus → ℕ
accreditation_place AccreditationStatus.created = 0
accreditation_place AccreditationStatus.approved = 1
accreditation_place AccreditationStatus.cancelled = 2
accreditation_place AccreditationStatus.rejected = 3
accreditation_place AccreditationStatus.suspended = 4

unfoldable pub valid_org_transitions : OrganisationStatus → List OrganisationStatus
valid_org_transitions OrganisationStatus.created =
    OrganisationStatus.approved ∷ OrganisationStatus.rejected ∷ []
valid_org_transitions OrganisationStatus.approved =
    OrganisationStatus.active ∷ OrganisationStatus.created ∷ []
valid_org_transitions OrganisationStatus.active = []
valid_org_transitions OrganisationStatus.rejected = OrganisationStatus.created ∷ []

unfoldable pub valid_reg_transitions : RegistrationStatus → List RegistrationStatus
valid_reg_transitions RegistrationStatus.created =
    RegistrationStatus.approved ∷ RegistrationStatus.rejected ∷ []
valid_reg_transitions RegistrationStatus.approved =
    RegistrationStatus.created ∷ RegistrationStatus.cancelled ∷ []
valid_reg_transitions RegistrationStatus.cancelled = RegistrationStatus.approved ∷ []
valid_reg_transitions RegistrationStatus.rejected = RegistrationStatus.created ∷ []

unfoldable pub valid_acc_transitions : AccreditationStatus → List AccreditationStatus
valid_acc_transitions AccreditationStatus.created =
    AccreditationStatus.approved ∷ AccreditationStatus.rejected ∷ []
valid_acc_transitions AccreditationStatus.approved =
    AccreditationStatus.suspended ∷ AccreditationStatus.created ∷ []
valid_acc_transitions AccreditationStatus.suspended =
    AccreditationStatus.approved ∷ AccreditationStatus.cancelled ∷ []
valid_acc_transitions AccreditationStatus.cancelled = AccreditationStatus.approved ∷ []
valid_acc_transitions AccreditationStatus.rejected = AccreditationStatus.created ∷ []

unfoldable pub assert_org_status_transition_valid :
    OrganisationStatus → OrganisationStatus → Result (Unit {0})
unfolding valid_org_transitions
assert_org_status_transition_valid from to =
    throw_if
      (not (any (λ s. organisation_place s == organisation_place to) (valid_org_transitions from)))
      bad_data

unfoldable pub is_registration_status_transition_valid :
    RegistrationStatus → RegistrationStatus → Bool
unfolding valid_reg_transitions
is_registration_status_transition_valid from to =
    any (λ s. registration_place s == registration_place to) (valid_reg_transitions from)

unfoldable pub is_accreditation_status_transition_valid :
    AccreditationStatus → AccreditationStatus → Bool
unfolding valid_acc_transitions
is_accreditation_status_transition_valid from to =
    any (λ s. accreditation_place s == accreditation_place to) (valid_acc_transitions from)

-- `makeAssertStatusTransitionValid`
abbrev assert_status_transition_valid : {S : Type 0} → (S → S → Bool) → S → S → Result (Unit {0})
assert_status_transition_valid is_valid from to = throw_if (not (is_valid from to)) bad_data

unfoldable pub assert_registration_status_transition_valid :
    RegistrationStatus → RegistrationStatus → Result (Unit {0})
unfolding is_registration_status_transition_valid
assert_registration_status_transition_valid =
    assert_status_transition_valid is_registration_status_transition_valid

unfoldable pub assert_accreditation_status_transition_valid :
    AccreditationStatus → AccreditationStatus → Result (Unit {0})
unfolding is_accreditation_status_transition_valid
assert_accreditation_status_transition_valid =
    assert_status_transition_valid is_accreditation_status_transition_valid
