-- ===== src/Organisations/History.antt =====
-- Which statuses an accreditation passes through by changes that are checked against the transition
-- table (src/domain/organisations/status.js).
use epr_backend.Prelude.{
  ◌≡◌, Bool, true, false, ◌&&◌, ◌==◌, List, [], ◌∷◌, any, arith, Result, ok, err, Bool-cases, inl,
  inr,
}
use epr_backend.Organisations.Model.{AccreditationStatus}
use epr_backend.Organisations.Status.{
  accreditation_place, assert_accreditation_status_transition_valid,
  is_accreditation_status_transition_valid, valid_acc_transitions,
}

abbrev accepts : Result (Unit {0}) → Bool
accepts (ok _) = true
accepts (err _) = false

-- Every change of the history, from the given status on, is one that the code accepts.
abbrev pub follows : AccreditationStatus → List AccreditationStatus → Bool
follows s [] = true
follows s (t ∷ ts) = accepts (assert_accreditation_status_transition_valid s t) && follows t ts

abbrev pub last_status : AccreditationStatus → List AccreditationStatus → AccreditationStatus
last_status s [] = s
last_status s (t ∷ ts) = last_status t ts

abbrev pub is_status : AccreditationStatus → AccreditationStatus → Bool
is_status s t = accreditation_place s == accreditation_place t

step_to :
    (s t : AccreditationStatus)
    → accepts (assert_accreditation_status_transition_valid s t) ≡ true
    → is_status s AccreditationStatus.suspended ≡ false
    → is_status t AccreditationStatus.cancelled ≡ false
unfolding assert_accreditation_status_transition_valid is_accreditation_status_transition_valid
    valid_acc_transitions
step_to s t h live = ground arith

-- A history of changes that `assertAccreditationStatusTransitionValid` accepts one by one, from a status
-- that is neither suspended nor cancelled, passes through `suspended` if it ends in `cancelled`. Changes
-- that are made without this check, as when the cancellation of a registration cancels its
-- accreditation, are not such changes.
pub suspended_before_cancelled :
    (s : AccreditationStatus) (ts : List AccreditationStatus)
    → is_status s AccreditationStatus.suspended ≡ false
    → is_status s AccreditationStatus.cancelled ≡ false
    → follows s ts ≡ true
    → last_status s ts ≡ AccreditationStatus.cancelled
    → any (is_status AccreditationStatus.suspended) ts ≡ true
suspended_before_cancelled s [] live here h last = cc
suspended_before_cancelled s (t ∷ ts) live here h last =
    elim (Bool-cases (is_status t AccreditationStatus.suspended)) [
      | inl there ↦ ground (arith, there)
      | inr elsewhere ↦
          let rest =
            suspended_before_cancelled t ts elsewhere (step_to s t (ground (arith, h)) live)
              (ground (arith, h)) last in
          ground (arith, rest)
    ]
