-- ===== src/PackagingRecyclingNotes/Reading.antt =====
-- Code: src/packaging-recycling-notes/application/get-projected-prn.js.
use epr_backend.Prelude.{ℕ, Option, none, some, List, Result, ok, ◌>>=◌, if◌then◌else◌}
use epr_backend.WasteBalances.Schema.{WasteBalanceLedgerId, LedgerEvent}
use epr_backend.WasteBalances.Repository.{Storage}
use epr_backend.WasteBalances.Service.{prn_catchup_events}
use epr_backend.PackagingRecyclingNotes.Model.{PrnStatus, PackagingRecyclingNote, same_status}
use epr_backend.PackagingRecyclingNotes.Projection.{fold_prn_from_tail_events}
use epr_backend.PackagingRecyclingNotes.Store.{PrnStore, find_by_id, find_by_prn_number}

-- `prn.lastAppliedEventNumber ?? 0`
abbrev pub watermark : PackagingRecyclingNote → ℕ
watermark prn = elim prn.last_applied_event_number [ none ↦ 0 | some n ↦ n ]

abbrev pub prn_ledger : PackagingRecyclingNote → WasteBalanceLedgerId
prn_ledger prn = record {
  organisation_id = prn.organisation.id;
  registration_id = prn.registration_id;
  accreditation_id = some prn.accreditation.id;
}

-- The events past a PRN's watermark.
abbrev pub tail_events : PackagingRecyclingNote → Storage → List LedgerEvent
tail_events prn store = prn_catchup_events store (prn_ledger prn) prn.id (watermark prn)

abbrev pub project_prn : PackagingRecyclingNote → Storage → Result PackagingRecyclingNote
project_prn prn store =
    if same_status prn.status.current_status PrnStatus.deleted
    then ok prn
    else fold_prn_from_tail_events prn (tail_events prn store)

unfoldable pub project_from_stream_tail :
    Option PackagingRecyclingNote → Storage → Result (Option PackagingRecyclingNote)
project_from_stream_tail none store = ok none
project_from_stream_tail (some prn) store = project_prn prn store >>= λ p. ok (some p)

unfoldable pub get_projected_prn_by_id :
    PrnStore → Storage → ℕ → Result (Option PackagingRecyclingNote)
get_projected_prn_by_id prns store prn_id = project_from_stream_tail (find_by_id prns prn_id) store

unfoldable pub get_projected_prn_by_number :
    PrnStore → Storage → List ℕ → Result (Option PackagingRecyclingNote)
get_projected_prn_by_number prns store prn_number =
    project_from_stream_tail (find_by_prn_number prns prn_number) store
