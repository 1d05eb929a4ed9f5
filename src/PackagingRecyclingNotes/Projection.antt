-- ===== src/PackagingRecyclingNotes/Projection.antt =====
-- Code: src/packaging-recycling-notes/application/fold-prn-from-tail-events.js.
use epr_backend.Prelude.{
  Option, none, some, List, [], ◌∷◌, ◌++◌, Result, ok, err, ◌>>=◌, unknown_kind,
}
use epr_backend.WasteBalances.Schema.{
  LedgerEventKind, summary_log_submitted, prn_created, prn_issued, prn_creation_cancelled,
  prn_cancelled_after_issue, prn_accepted, prn_rejected, LedgerEvent,
}
use epr_backend.PackagingRecyclingNotes.Model.{
  PrnStatus, Actor, BusinessOperation, PrnStatusRecord, PackagingRecyclingNote,
}

-- `LEDGER_EVENT_KIND_TO_PRN_STATUS`; a kind without an entry is `undefined`.
unfoldable pub ledger_event_kind_to_prn_status : LedgerEventKind → Option PrnStatus
ledger_event_kind_to_prn_status prn_created = some PrnStatus.awaiting_authorisation
ledger_event_kind_to_prn_status prn_issued = some PrnStatus.awaiting_acceptance
ledger_event_kind_to_prn_status prn_accepted = some PrnStatus.accepted
ledger_event_kind_to_prn_status prn_rejected = some PrnStatus.awaiting_cancellation
ledger_event_kind_to_prn_status prn_creation_cancelled = some PrnStatus.deleted
ledger_event_kind_to_prn_status prn_cancelled_after_issue = some PrnStatus.cancelled
ledger_event_kind_to_prn_status summary_log_submitted = none

-- `[LEDGER_EVENT_KIND_TO_STATUS_SLOT[kind]]: slotValue`
unfoldable pub set_status_slot :
    LedgerEventKind → BusinessOperation → PrnStatusRecord → PrnStatusRecord
set_status_slot prn_created value s = record s { created = some value }
set_status_slot prn_issued value s = record s { issued = some value }
set_status_slot prn_accepted value s = record s { accepted = some value }
set_status_slot prn_rejected value s = record s { rejected = some value }
set_status_slot prn_creation_cancelled value s = record s { deleted = some value }
set_status_slot prn_cancelled_after_issue value s = record s { cancelled = some value }
set_status_slot summary_log_submitted value s = s

-- The body of `applyEvent` once the new status is known.
abbrev pub applied : PrnStatus → LedgerEvent → PackagingRecyclingNote → PackagingRecyclingNote
applied new_status event prn =
    let by : Actor = record { id = event.created_by.id; name = event.created_by.name } in
    let slotted =
      set_status_slot event.kind (record { at = event.created_at; by = by })
        (record prn.status { current_status = new_status; current_status_at = event.created_at }) in
    record prn {
      updated_at = event.created_at;
      updated_by = some by;
      last_applied_event_number = some event.number;
      status = record slotted {
        history =
            prn.status.history
            ++ record { status = new_status; at = event.created_at; by = by } ∷ [];
      };
    }

unfoldable pub apply_event : PackagingRecyclingNote → LedgerEvent → Result PackagingRecyclingNote
unfolding ledger_event_kind_to_prn_status set_status_slot
apply_event prn event = elim (ledger_event_kind_to_prn_status event.kind) [
  | none ↦ err unknown_kind
  | some new_status ↦ ok (applied new_status event prn)
]

unfoldable pub fold_prn_from_tail_events :
    PackagingRecyclingNote → List LedgerEvent → Result PackagingRecyclingNote
fold_prn_from_tail_events prn [] = ok prn
fold_prn_from_tail_events prn (event ∷ events) =
    apply_event prn event >>= λ prn'. fold_prn_from_tail_events prn' events
