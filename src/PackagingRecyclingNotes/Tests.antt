-- ===== src/PackagingRecyclingNotes/Tests.antt =====
-- The theorems on PRNs at the small ledger of WasteBalances/Examples.antt.
use epr_backend.WasteBalances.Commands
use epr_backend.PackagingRecyclingNotes.Notices.{update_prn_status_notifies}
use epr_backend.PackagingRecyclingNotes.UpdateStatus.{
  update_prn_status, is_discard, UpdateRequest, World, perform_ledger_write, resolve_prn_for_update,
  perform_stream_write, issuable,
}
use epr_backend.PackagingRecyclingNotes.Lifecycle.{
  Lifecycle, here, next, stage, permitted, lifecycle_bound, validate_transition_lem,
}
use epr_backend.PackagingRecyclingNotes.Tables.{
  has_command, prn_command_for_permitted, prn_command_for_projects,
}
use epr_backend.PackagingRecyclingNotes.Issuance.{Surroundings, persist}
use epr_backend.PackagingRecyclingNotes.Model.{
  is_valid_transition, validate_transition, PrnActor, PackagingRecyclingNote, PrnStatus,
}
use epr_backend.Prelude.{
  ◌++◌, ◌≤◌, ◌+◌, ◌&&◌, not, if◌then◌else◌, unauthorised_transition, status_conflict, some, ◌∷◌,
  not_found, arith, sort_by, false, refl, pos, ◌≡◌, none, err, ok, [],
}
use epr_backend.PackagingRecyclingNotes.Recovery.{
  IsCaughtUp, Recovers, perform_ledger_write-Recovers,
}
use epr_backend.PackagingRecyclingNotes.Progress.{
  command_event, perform_ledger_write_appends, IsReady, perform_ledger_write_succeeds,
}
use epr_backend.PackagingRecyclingNotes.Store.{
  find_by_id, persist_projection, enforce_monotonic_watermark,
}
use epr_backend.WasteBalances.Service.{create_prn, PrnMethod, prn_catchup_events}
use epr_backend.PackagingRecyclingNotes.Applying.{Applies, perform_ledger_write-Applies}
use epr_backend.PackagingRecyclingNotes.History.{fold_prn_from_tail_events_lem, IsFolded}
use epr_backend.PackagingRecyclingNotes.Projection.{
  ledger_event_kind_to_prn_status, apply_event, fold_prn_from_tail_events,
}
use epr_backend.PackagingRecyclingNotes.BalanceEffects.{prn_command_for, apply_prn_balance_command}
use epr_backend.WasteBalances.Decisions.{event_kind}
use epr_backend.WasteBalances.Examples.{
  user, credited_store, credited-IsLedgerStore, decimals, created_store, created-IsLedgerStore, run,
}
use epr_backend.WasteBalances.Repository.{find_events_by_prn_id_after}
use epr_backend.PackagingRecyclingNotes.Reading.{project_prn}
use epr_backend.PackagingRecyclingNotes.Catchup.{unseen, project_prn_lem, project_prn_idempotent}
use epr_backend.Organisations.Model.{Material}

-- The names that a projection computes through.
unfoldable read : Unit {0}
unfolding run sort_by prn_catchup_events find_events_by_prn_id_after fold_prn_from_tail_events
    apply_event
read = tt

-- The PRN of 30 as its document was before the ledger took its creation.
abbrev draft_prn : PackagingRecyclingNote
draft_prn = record {
  id = 8;
  version = 1;
  last_applied_event_number = none;
  prn_number = none;
  organisation = record { id = 1; name = "Recycler" };
  registration_id = 2;
  accreditation = record { id = 3; accreditation_year = 2026; material = Material.glass };
  tonnage = pos 30;
  is_export = false;
  status = record {
    current_status = PrnStatus.draft;
    current_status_at = 1500;
    created = none;
    issued = none;
    accepted = none;
    rejected = none;
    cancelled = none;
    deleted = none;
    history = [];
  };
  updated_at = 1500;
  updated_by = none;
}

abbrev projected : PackagingRecyclingNote
projected = elim (project_prn draft_prn created_store) [ err _ ↦ draft_prn | ok prn ↦ prn ]

project_prn_lem_example :
    (prn' : PackagingRecyclingNote) × (project_prn draft_prn created_store ≡ ok prn')
    × IsFolded draft_prn (unseen draft_prn created_store) prn'
project_prn_lem_example = project_prn_lem created_store created-IsLedgerStore draft_prn refl

project_prn_idempotent_example : project_prn projected created_store ≡ ok projected
unfolding read
project_prn_idempotent_example =
    project_prn_idempotent created_store created-IsLedgerStore draft_prn projected refl

status_example : projected.status.current_status ≡ PrnStatus.awaiting_authorisation
unfolding read
status_example = refl

-- The creation of the PRN of 30 on the credited ledger.
abbrev create_request : UpdateRequest
create_request = record {
  id = 8;
  organisation_id = 1;
  registration_id = 2;
  accreditation_id = 3;
  new_status = PrnStatus.awaiting_authorisation;
  actor = some PrnActor.reprocessor_exporter;
  user = user;
  provided_prn = none;
  updated_at = none;
}

abbrev surroundings : Surroundings
surroundings = record {
  now = 2000;
  find_accreditation_by_id = λ o a. err not_found;
  random_int = λ n. n;
}

abbrev world : World
world = record { ledger = credited_store; prns = draft_prn ∷ []; notified = [] }

draft-IsCaughtUp : IsCaughtUp draft_prn credited_store
unfolding run
draft-IsCaughtUp = record { nothing = refl; within = omega arith }

perform_ledger_write-Recovers_example :
    Recovers surroundings create_request draft_prn world credited-IsLedgerStore draft-IsCaughtUp
      refl refl
      (perform_ledger_write surroundings create_request draft_prn world)
perform_ledger_write-Recovers_example =
    perform_ledger_write-Recovers surroundings create_request draft_prn world credited-IsLedgerStore
      draft-IsCaughtUp refl refl

perform_ledger_write-Applies_example :
    Applies surroundings create_request draft_prn world credited-IsLedgerStore
      (perform_ledger_write surroundings create_request draft_prn world)
perform_ledger_write-Applies_example =
    perform_ledger_write-Applies surroundings create_request draft_prn world credited-IsLedgerStore

fold_prn_from_tail_events_lem_example :
    (prn' : PackagingRecyclingNote) × (fold_prn_from_tail_events draft_prn
        (unseen draft_prn created_store)
      ≡ ok prn')
    × IsFolded draft_prn (unseen draft_prn created_store) prn'
unfolding run
fold_prn_from_tail_events_lem_example =
    fold_prn_from_tail_events_lem draft_prn (unseen draft_prn created_store) (refl, tt)

prn_command_for_projects_example :
    ledger_event_kind_to_prn_status (event_kind PrnMethod.issue_prn)
    ≡ some PrnStatus.awaiting_acceptance
unfolding prn_command_for
prn_command_for_projects_example =
    prn_command_for_projects PrnStatus.awaiting_authorisation PrnStatus.awaiting_acceptance
      PrnMethod.issue_prn refl

issued : Lifecycle PrnStatus.draft PrnStatus.awaiting_acceptance 2
unfolding is_valid_transition
issued =
    next {t = PrnStatus.awaiting_authorisation} PrnActor.signatory
      (next PrnActor.reprocessor_exporter here refl) refl

lifecycle_bound_example :
    (2 ≤ 4) × (2 + stage PrnStatus.draft ≤ stage PrnStatus.awaiting_acceptance)
lifecycle_bound_example = lifecycle_bound issued

validate_transition_lem_example :
    validate_transition PrnStatus.draft PrnStatus.accepted (some PrnActor.producer) ≡ (
      if is_valid_transition PrnStatus.draft PrnStatus.accepted (some PrnActor.producer)
      then ok tt
      else if permitted PrnStatus.draft PrnStatus.accepted
      then err unauthorised_transition
      else err status_conflict)
validate_transition_lem_example =
    validate_transition_lem PrnStatus.draft PrnStatus.accepted (some PrnActor.producer)

prn_command_for_permitted_example : has_command PrnStatus.draft PrnStatus.discarded ≡ (
    permitted PrnStatus.draft PrnStatus.discarded
    && not (is_discard PrnStatus.draft PrnStatus.discarded))
prn_command_for_permitted_example = prn_command_for_permitted PrnStatus.draft PrnStatus.discarded

create-IsReady : IsReady surroundings create_request draft_prn world create_prn
unfolding read prn_command_for find_by_id
create-IsReady = record {
  command = refl;
  no_issue = refl;
  stored = refl;
  free = refl;
  within = omega arith;
  opened = λ e. cc;
  positive = omega arith;
  enough = refl;
}

perform_ledger_write_succeeds_example :
    (q : PackagingRecyclingNote) × ((perform_ledger_write surroundings create_request draft_prn
        world).0
      ≡ ok q)
    × (q.status.current_status ≡ PrnStatus.awaiting_authorisation)
    × (q.version ≡ draft_prn.version + 1)
    × (find_by_id
          (perform_ledger_write surroundings create_request draft_prn world).1.prns
          draft_prn.id
        ≡ some q)
perform_ledger_write_succeeds_example =
    perform_ledger_write_succeeds surroundings create_request draft_prn world create_prn
      credited-IsLedgerStore create-IsReady

-- The creation is in the ledger, but the document was not stored: the same request again.
abbrev lost_write : World
lost_write = record { ledger = created_store; prns = draft_prn ∷ []; notified = [] }

again-IsReady : IsReady surroundings create_request draft_prn lost_write create_prn
unfolding read prn_command_for find_by_id
again-IsReady = record {
  command = refl;
  no_issue = refl;
  stored = refl;
  free = refl;
  within = omega arith;
  opened = λ e. cc;
  positive = omega arith;
  enough = refl;
}

perform_ledger_write_appends_example :
    (perform_ledger_write surroundings create_request draft_prn lost_write).1.ledger
    ≡ created_store
      ++ command_event surroundings create_request draft_prn lost_write create_prn
          created-IsLedgerStore again-IsReady
        ∷ []
perform_ledger_write_appends_example =
    perform_ledger_write_appends surroundings create_request draft_prn lost_write create_prn
      created-IsLedgerStore again-IsReady

-- A PRN that was issued at 1700 and sent back by its buyer, and its cancellation.
abbrev issued_prn : PackagingRecyclingNote
issued_prn = record draft_prn {
  status = record draft_prn.status {
    current_status = PrnStatus.awaiting_cancellation;
    issued = some (record { at = 1700; by = record { id = 7; name = none } });
  };
}

abbrev cancel_request : UpdateRequest
cancel_request = record create_request {
  new_status = PrnStatus.cancelled;
  actor = some PrnActor.signatory;
}

abbrev issued_world : World
issued_world = record { ledger = credited_store; prns = issued_prn ∷ []; notified = [] }

update_prn_status_notifies_example :
    (update_prn_status surroundings cancel_request issued_world).1.notified
    ≡ record { organisation_id = 1; registration_id = 2; prn_id = 8; issued_at = 1700 } ∷ []
unfolding update_prn_status read resolve_prn_for_update find_by_id validate_transition
    perform_ledger_write perform_stream_write issuable apply_prn_balance_command
    Commands.cancel_issued_prn persist persist_projection enforce_monotonic_watermark
update_prn_status_notifies_example =
    update_prn_status_notifies surroundings cancel_request issued_world
