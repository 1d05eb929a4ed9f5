-- ===== src/PackagingRecyclingNotes/Tables.antt =====
-- The tables agree: what a transition does to the ledger projects back to that transition.
use epr_backend.Prelude.{◌≡◌, Bool, true, false, some, none, arith, not, ◌&&◌}
use epr_backend.WasteBalances.Service.{
  PrnMethod, create_prn, issue_prn, cancel_prn_creation, cancel_issued_prn, accept_prn, reject_prn,
}
use epr_backend.WasteBalances.Decisions.{event_kind}
use epr_backend.PackagingRecyclingNotes.Model.{PrnStatus, is_valid_transition}
use epr_backend.PackagingRecyclingNotes.Projection.{ledger_event_kind_to_prn_status}
use epr_backend.PackagingRecyclingNotes.BalanceEffects.{prn_command_for}
use epr_backend.PackagingRecyclingNotes.UpdateStatus.{is_discard}
use epr_backend.PackagingRecyclingNotes.Lifecycle.{permitted}

-- The event of the command that a transition runs projects to the status that the transition
-- leads to.
pub prn_command_for_projects :
    (s t : PrnStatus) (m : PrnMethod)
    → prn_command_for s t ≡ some m
    → ledger_event_kind_to_prn_status (event_kind m) ≡ some t
unfolding prn_command_for ledger_event_kind_to_prn_status
prn_command_for_projects s t create_prn h = ground arith
prn_command_for_projects s t issue_prn h = ground arith
prn_command_for_projects s t cancel_prn_creation h = ground arith
prn_command_for_projects s t cancel_issued_prn h = ground arith
prn_command_for_projects s t accept_prn h = ground arith
prn_command_for_projects s t reject_prn h = ground arith

abbrev pub has_command : PrnStatus → PrnStatus → Bool
has_command s t = elim (prn_command_for s t) [ none ↦ false | some _ ↦ true ]

-- A transition has a balance command exactly if some actor may make it and it is not the discard
-- of a draft.
pub prn_command_for_permitted :
    (s t : PrnStatus) → has_command s t ≡ (permitted s t && not (is_discard s t))
unfolding is_valid_transition prn_command_for
prn_command_for_permitted s t = ground arith
