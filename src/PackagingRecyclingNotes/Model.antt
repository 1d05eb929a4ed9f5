-- ===== src/PackagingRecyclingNotes/Model.antt =====
-- Code: src/packaging-recycling-notes/domain/model.js. Of a PRN's fields, those that no modelled
-- code reads or writes are left out (schema version, issued-to organisation, notes, December waste,
-- creation stamp).
use Prim.Native.String.{String}
use epr_backend.Prelude.{
  ℕ, Bool, true, false, ◌&&◌, ◌==◌, not, Option, none, some, List, [], ◌∷◌, any, ℤ, Result, ok, err,
  ◌>>◌, throw_if, status_conflict, unauthorised_transition, accreditation_status,
}
use epr_backend.Organisations.Model.{AccreditationStatus, Material}

-- `PRN_STATUS`
pub data PrnStatus : Type 0 where
  draft awaiting_authorisation awaiting_acceptance accepted : PrnStatus
  awaiting_cancellation cancelled deleted discarded : PrnStatus

-- `CANCELLED_PRN_STATUSES.has`
abbrev pub is_cancelled_status : PrnStatus → Bool
is_cancelled_status awaiting_cancellation = true
is_cancelled_status cancelled = true
is_cancelled_status _ = false

-- `PRN_ACTOR`
pub data PrnActor : Type 0 where
  reprocessor_exporter signatory producer : PrnActor

pub record PrnTransition : Type 0 where
  pub status : PrnStatus
  pub actors : List PrnActor

-- `PRN_STATUS_TRANSITIONS`
unfoldable pub prn_status_transitions : PrnStatus → List PrnTransition
prn_status_transitions draft =
    record { status = awaiting_authorisation; actors = reprocessor_exporter ∷ [] }
    ∷ record { status = discarded; actors = reprocessor_exporter ∷ [] }
    ∷ []
prn_status_transitions awaiting_authorisation =
    record { status = awaiting_acceptance; actors = signatory ∷ [] }
    ∷ record { status = deleted; actors = signatory ∷ [] }
    ∷ []
prn_status_transitions awaiting_acceptance =
    record { status = accepted; actors = producer ∷ [] }
    ∷ record { status = awaiting_cancellation; actors = producer ∷ [] }
    ∷ []
prn_status_transitions accepted = []
prn_status_transitions awaiting_cancellation =
    record { status = cancelled; actors = signatory ∷ [] } ∷ []
prn_status_transitions cancelled = []
prn_status_transitions deleted = []
prn_status_transitions discarded = []

-- `===` on the enumerations, by the place in them
abbrev status_place : PrnStatus → ℕ
status_place draft = 0
status_place awaiting_authorisation = 1
status_place awaiting_acceptance = 2
status_place accepted = 3
status_place awaiting_cancellation = 4
status_place cancelled = 5
status_place deleted = 6
status_place discarded = 7

abbrev pub same_status : PrnStatus → PrnStatus → Bool
same_status s t = status_place s == status_place t

abbrev actor_place : PrnActor → ℕ
actor_place reprocessor_exporter = 0
actor_place signatory = 1
actor_place producer = 2

-- `undefined` is no actor: the status route has none for some statuses.
abbrev includes : List PrnActor → Option PrnActor → Bool
includes actors none = false
includes actors (some actor) = any (λ a. actor_place a == actor_place actor) actors

unfoldable pub is_valid_transition : PrnStatus → PrnStatus → Option PrnActor → Bool
unfolding prn_status_transitions
is_valid_transition current new actor =
    any (λ (t : PrnTransition). same_status t.status new && includes t.actors actor)
      (prn_status_transitions current)

unfoldable pub validate_transition : PrnStatus → PrnStatus → Option PrnActor → Result (Unit {0})
unfolding prn_status_transitions
validate_transition current new actor = do
  let transitions = prn_status_transitions current
  throw_if (not (any (λ (t : PrnTransition). same_status t.status new) transitions)) status_conflict
  throw_if
      (not (
        any (λ (t : PrnTransition). same_status t.status new && includes t.actors actor)
          transitions))
      unauthorised_transition

-- `accreditation?.status`
unfoldable pub assert_accreditation_can_issue : Option AccreditationStatus → Result (Unit {0})
assert_accreditation_can_issue (some AccreditationStatus.suspended) = err accreditation_status
assert_accreditation_can_issue (some AccreditationStatus.cancelled) = err accreditation_status
assert_accreditation_can_issue _ = ok tt

pub record Actor : Type 0 where
  pub id : ℕ
  pub name : Option String

pub record BusinessOperation : Type 0 where
  pub at : ℕ
  pub by : Actor

pub record PrnStatusHistoryItem : Type 0 where
  pub status : PrnStatus
  pub at : ℕ
  pub by : Actor

pub record OrganisationNameAndId : Type 0 where
  pub id : ℕ
  pub name : String

pub record AccreditationSnapshot : Type 0 where
  pub id : ℕ
  pub accreditation_year : ℕ
  pub material : Material

-- The `status` of a PRN document.
pub record PrnStatusRecord : Type 0 where
  pub current_status : PrnStatus
  pub current_status_at : ℕ
  pub created : Option BusinessOperation
  pub issued : Option BusinessOperation
  pub accepted : Option BusinessOperation
  pub rejected : Option BusinessOperation
  pub cancelled : Option BusinessOperation
  pub deleted : Option BusinessOperation
  pub history : List PrnStatusHistoryItem

-- A PRN number is its characters' codes.
pub record PackagingRecyclingNote : Type 0 where
  pub id : ℕ
  pub version : ℕ
  pub last_applied_event_number : Option ℕ
  pub prn_number : Option (List ℕ)
  pub organisation : OrganisationNameAndId
  pub registration_id : ℕ
  pub accreditation : AccreditationSnapshot
  pub tonnage : ℤ
  pub is_export : Bool
  pub status : PrnStatusRecord
  pub updated_at : ℕ
  pub updated_by : Option Actor
