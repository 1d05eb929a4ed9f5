-- ===== src/PackagingRecyclingNotes/BalanceEffects.antt =====
-- Code: src/packaging-recycling-notes/application/update-status-balance-effects.js. The
-- operational log is left out.
use epr_backend.Prelude.{
  ℕ, Option, none, some, List, ℤ, Error, Result, ok, err, bad_request, conflict, bad_implementation,
}
use epr_backend.Decimals.{DecimalArithmetic}
use epr_backend.WasteBalances.Schema.{WasteBalanceLedgerId, LedgerEvent, LedgerUserSummary}
use epr_backend.WasteBalances.Commands.{
  PrnCommandRejection, no_ledger, insufficient_available_balance, insufficient_total_balance,
}
use epr_backend.WasteBalances.Repository.{Storage}
use epr_backend.WasteBalances.Service.{
  PrnMethod, create_prn, issue_prn, cancel_prn_creation, cancel_issued_prn, accept_prn, reject_prn,
  PrnCommandResult, committed, command_rejected, prn_command,
}
use epr_backend.PackagingRecyclingNotes.Model.{PrnStatus}

-- `TRANSITION_TO_COMMAND`, by `prnCommandFor`
unfoldable pub prn_command_for : PrnStatus → PrnStatus → Option PrnMethod
prn_command_for PrnStatus.draft PrnStatus.awaiting_authorisation = some create_prn
prn_command_for PrnStatus.awaiting_authorisation PrnStatus.awaiting_acceptance = some issue_prn
prn_command_for PrnStatus.awaiting_acceptance PrnStatus.accepted = some accept_prn
prn_command_for PrnStatus.awaiting_acceptance PrnStatus.awaiting_cancellation = some reject_prn
prn_command_for PrnStatus.awaiting_authorisation PrnStatus.deleted = some cancel_prn_creation
prn_command_for PrnStatus.awaiting_cancellation PrnStatus.cancelled = some cancel_issued_prn
prn_command_for _ _ = none

-- A missing ledger is a broken invariant for the commands on an issued PRN
-- (`COMMANDS_REQUIRING_OPEN_LEDGER`); any other rejection is the caller's error
-- (`REJECTION_TO_ERROR`).
unfoldable pub rejection_error : PrnMethod → PrnCommandRejection → Error
rejection_error accept_prn no_ledger = bad_implementation
rejection_error reject_prn no_ledger = bad_implementation
rejection_error _ no_ledger = bad_request
rejection_error _ insufficient_available_balance = conflict
rejection_error _ insufficient_total_balance = conflict

abbrev pub command_events : PrnMethod → Result PrnCommandResult → Result (List LedgerEvent)
command_events method (err x) = err x
command_events method (ok (command_rejected reason)) = err (rejection_error method reason)
command_events method (ok (committed events)) = ok events

module _ ⦃d : DecimalArithmetic⦄ where
  -- `applyPrnBalanceCommand` for the command of the transition
  unfoldable pub apply_prn_balance_command :
      PrnMethod
      → WasteBalanceLedgerId
      → ℕ
      → ℤ
      → LedgerUserSummary
      → ℕ
      → Storage
      → Result (List LedgerEvent) × Storage
  apply_prn_balance_command method l prn_id tonnage created_by now store =
      let (r, store') =
        prn_command method l (record { prn_id = prn_id; amount = tonnage }) created_by now store
          store store in
      (command_events method r, store')
