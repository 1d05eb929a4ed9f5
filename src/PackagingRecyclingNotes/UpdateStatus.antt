-- ===== src/PackagingRecyclingNotes/UpdateStatus.antt =====
-- Code: src/packaging-recycling-notes/application/update-status.js. One update runs to its end
-- here; WasteBalances/Concurrency has what its ledger write does when other writers run between.
-- Metrics and logging are left out.
use epr_backend.Prelude.{
  ℕ, Bool, ◌&&◌, ◌||◌, not, ◌==◌, Option, none, some, List, [], ◌∷◌, ◌++◌, Result, ok, err, ◌>>=◌,
  ◌>>◌, if◌then◌else◌, not_found, bad_implementation,
}
use epr_backend.Decimals.{DecimalArithmetic}
use epr_backend.WasteBalances.Schema.{WasteBalanceLedgerId, LedgerUserSummary}
use epr_backend.WasteBalances.Repository.{Storage}
use epr_backend.WasteBalances.Service.{PrnMethod}
use epr_backend.PackagingRecyclingNotes.Issuance.{Accreditation, Surroundings, required, persist}
use epr_backend.PackagingRecyclingNotes.Model.{
  PrnStatus, PrnActor, PackagingRecyclingNote, same_status, is_cancelled_status,
  validate_transition, assert_accreditation_can_issue,
}
use epr_backend.PackagingRecyclingNotes.Projection.{fold_prn_from_tail_events}
use epr_backend.PackagingRecyclingNotes.Store.{PrnStore, find_by_id, update_status}
use epr_backend.PackagingRecyclingNotes.BalanceEffects.{prn_command_for, apply_prn_balance_command}

-- The `onCancelled` event.
pub record PrnCancelled : Type 0 where
  pub organisation_id : ℕ
  pub registration_id : ℕ
  pub prn_id : ℕ
  pub issued_at : ℕ

-- The ledger, the PRN documents, and the cancellation events raised so far.
pub record World : Type 0 where
  pub ledger : Storage
  pub prns : PrnStore
  pub notified : List PrnCancelled

pub record UpdateRequest : Type 0 where
  pub id : ℕ
  pub organisation_id : ℕ
  pub registration_id : ℕ
  pub accreditation_id : ℕ
  pub new_status : PrnStatus
  pub actor : Option PrnActor
  pub user : LedgerUserSummary
  pub provided_prn : Option PackagingRecyclingNote
  pub updated_at : Option ℕ

-- The issuable check, made before anything is written: the accreditation on the issuance path.
unfoldable pub issuable : Surroundings → UpdateRequest → Result (Option Accreditation)
issuable env req =
    if same_status req.new_status PrnStatus.awaiting_acceptance
    then (do
      accreditation ← env.find_accreditation_by_id req.organisation_id req.accreditation_id
      assert_accreditation_can_issue (some accreditation.status)
      ok (some accreditation))
    else ok none

abbrev pub ledger_of : UpdateRequest → WasteBalanceLedgerId
ledger_of req = record {
  organisation_id = req.organisation_id;
  registration_id = req.registration_id;
  accreditation_id = some req.accreditation_id;
}

-- The documents after a write, in the world.
abbrev pub with_prns :
    World → Result PackagingRecyclingNote × PrnStore → Result PackagingRecyclingNote × World
with_prns w (r, prns) = (r, record w { prns = prns })

-- The rest of `performStreamWrite` once the events are in the ledger.
abbrev pub persist_folded :
    Surroundings
    → Option Accreditation
    → PackagingRecyclingNote
    → World
    → Result PackagingRecyclingNote
    → Result PackagingRecyclingNote × World
persist_folded env accreditation prn w (err x) = (err x, w)
persist_folded env accreditation prn w (ok projection) =
    with_prns w (persist env accreditation prn projection w.prns)

module _ ⦃d : DecimalArithmetic⦄ where
  -- `performStreamWrite`: the events first, then the document.
  unfoldable pub perform_stream_write :
      Surroundings
      → UpdateRequest
      → PackagingRecyclingNote
      → PrnMethod
      → World
      → Result PackagingRecyclingNote × World
  perform_stream_write env req prn method w = elim (issuable env req) [
    | err x ↦ (err x, w)
    | ok accreditation ↦
        let (r, ledger) =
          apply_prn_balance_command method (ledger_of req) req.id prn.tonnage req.user env.now
            w.ledger in
        persist_folded env accreditation prn (record w { ledger = ledger })
          (r >>= fold_prn_from_tail_events prn)
  ]

  -- `performLedgerWrite`
  unfoldable pub perform_ledger_write :
      Surroundings
      → UpdateRequest
      → PackagingRecyclingNote
      → World
      → Result PackagingRecyclingNote × World
  unfolding prn_command_for
  perform_ledger_write env req prn w =
      elim (prn_command_for prn.status.current_status req.new_status) [
        | none ↦ (err bad_implementation, w)
        | some method ↦ perform_stream_write env req prn method w
      ]

-- `updatedAt ?? new Date()`
abbrev stamp_at : Surroundings → UpdateRequest → ℕ
stamp_at env req = elim req.updated_at [ none ↦ env.now | some t ↦ t ]

-- `performDiscardWrite`, with the parameters of `buildWriteContext`
unfoldable pub perform_discard_write :
    Surroundings
    → UpdateRequest
    → PackagingRecyclingNote
    → World
    → Result PackagingRecyclingNote × World
perform_discard_write env req prn w =
    let (r, prns) = update_status w.prns (record {
      id = req.id;
      version = prn.version;
      status = req.new_status;
      updated_by = record { id = req.user.id; name = req.user.name };
      updated_at = stamp_at env req;
      last_applied_event_number = prn.last_applied_event_number;
    }) in
    (r >>= required, record w { prns = prns })

-- `resolvePrnForUpdate`
unfoldable pub resolve_prn_for_update : UpdateRequest → PrnStore → Result PackagingRecyclingNote
resolve_prn_for_update req store =
    let found : Option PackagingRecyclingNote = elim req.provided_prn [
      | some prn ↦ some prn
      | none ↦ find_by_id store req.id
    ] in
    elim found [
      | none ↦ err not_found
      | some prn ↦
          if not (prn.organisation.id == req.organisation_id)
            || not (prn.accreditation.id == req.accreditation_id)
          then err not_found
          else ok prn
    ]

-- `notifyPrnCancelled`: the event that is raised. A failure to raise it is caught and logged.
unfoldable pub cancellation : PrnStatus → PackagingRecyclingNote → List PrnCancelled
cancellation new_status prn =
    if is_cancelled_status new_status
    then elim prn.status.issued [
      | none ↦ []
      | some issued ↦
          record {
            organisation_id = prn.organisation.id;
            registration_id = prn.registration_id;
            prn_id = prn.id;
            issued_at = issued.at;
          }
          ∷ []
    ]
    else []

abbrev pub notify :
    PrnStatus → Result PackagingRecyclingNote × World → Result PackagingRecyclingNote × World
notify new_status (err x, w) = (err x, w)
notify new_status (ok prn, w) =
    (ok prn, record w { notified = w.notified ++ cancellation new_status prn })

abbrev pub is_discard : PrnStatus → PrnStatus → Bool
is_discard current new = same_status current PrnStatus.draft && same_status new PrnStatus.discarded

module _ ⦃d : DecimalArithmetic⦄ where
  abbrev pub write_status :
      Surroundings
      → UpdateRequest
      → PackagingRecyclingNote
      → World
      → Result PackagingRecyclingNote × World
  write_status env req prn w =
      if is_discard prn.status.current_status req.new_status
      then perform_discard_write env req prn w
      else perform_ledger_write env req prn w

  unfoldable pub update_prn_status :
      Surroundings → UpdateRequest → World → Result PackagingRecyclingNote × World
  update_prn_status env req w = elim (resolve_prn_for_update req w.prns) [
    | err x ↦ (err x, w)
    | ok prn ↦ elim (validate_transition prn.status.current_status req.new_status req.actor) [
      | err x ↦ (err x, w)
      | ok _ ↦ notify req.new_status (write_status env req prn w)
    ]
  ]
