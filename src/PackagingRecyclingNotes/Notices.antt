-- ===== src/PackagingRecyclingNotes/Notices.antt =====
-- The cancellation events that an update raises: update-status.js.
use epr_backend.Prelude.{
  ◌∷◌, Result-cases, Option-cases, ◌≡◌, refl, sym, ap, ◌∙◌, List, [], ◌++◌, append-nil, Option,
  none, some, Result, ok, err, Bool-cases, inl, inr,
}
use epr_backend.Decimals.{DecimalArithmetic}
use epr_backend.PackagingRecyclingNotes.Model.{
  PackagingRecyclingNote, PrnStatus, validate_transition,
}
use epr_backend.PackagingRecyclingNotes.Issuance.{Surroundings, Accreditation}
use epr_backend.PackagingRecyclingNotes.BalanceEffects.{prn_command_for}
use epr_backend.WasteBalances.Service.{PrnMethod}
use epr_backend.PackagingRecyclingNotes.UpdateStatus.{
  World, UpdateRequest, PrnCancelled, cancellation, notify, persist_folded, perform_stream_write,
  perform_ledger_write, perform_discard_write, write_status, update_prn_status, is_discard,
  issuable, resolve_prn_for_update,
}

-- The event of a PRN that was issued, field by field.
abbrev pub event_of_issued : PackagingRecyclingNote → List PrnCancelled
event_of_issued note = elim note.status.issued [
  | none ↦ []
  | some issued ↦
      record {
        organisation_id = note.organisation.id;
        registration_id = note.registration_id;
        prn_id = note.id;
        issued_at = issued.at;
      }
      ∷ []
]

-- The events that have to go with a reply: none with an error, and none for a status that leaves a
-- PRN in force, to be issued, or withdrawn before its issue.
abbrev pub raised : PrnStatus → Result PackagingRecyclingNote → List PrnCancelled
raised new_status (err x) = []
raised PrnStatus.awaiting_cancellation (ok note) = event_of_issued note
raised PrnStatus.cancelled (ok note) = event_of_issued note
raised PrnStatus.draft (ok note) = []
raised PrnStatus.awaiting_authorisation (ok note) = []
raised PrnStatus.awaiting_acceptance (ok note) = []
raised PrnStatus.accepted (ok note) = []
raised PrnStatus.deleted (ok note) = []
raised PrnStatus.discarded (ok note) = []

cancellation_lem :
    (new_status : PrnStatus) (note : PackagingRecyclingNote)
    → cancellation new_status note ≡ raised new_status (ok note)
unfolding cancellation
cancellation_lem PrnStatus.draft note = refl
cancellation_lem PrnStatus.awaiting_authorisation note = refl
cancellation_lem PrnStatus.awaiting_acceptance note = refl
cancellation_lem PrnStatus.accepted note = refl
cancellation_lem PrnStatus.awaiting_cancellation note = refl
cancellation_lem PrnStatus.cancelled note = refl
cancellation_lem PrnStatus.deleted note = refl
cancellation_lem PrnStatus.discarded note = refl

notified-persist_folded :
    (env : Surroundings) (accreditation : Option Accreditation) (note : PackagingRecyclingNote)
    (w : World) (r : Result PackagingRecyclingNote)
    → (persist_folded env accreditation note w r).1.notified ≡ w.notified
notified-persist_folded env accreditation note w (err x) = refl
notified-persist_folded env accreditation note w (ok projection) = refl

notified-notify :
    (new_status : PrnStatus) (w : World) (r : Result PackagingRecyclingNote × World)
    → r.1.notified ≡ w.notified
    → (notify new_status r).1.notified ≡ w.notified ++ raised new_status (notify new_status r).0
notified-notify new_status w (err x, w') h = h ∙ sym (append-nil w.notified)
notified-notify new_status w (ok note, w') h =
    ap (λ ns. ns ++ cancellation new_status note) h
    ∙ ap (λ ns. w.notified ++ ns) (cancellation_lem new_status note)

module _ ⦃d : DecimalArithmetic⦄ (env : Surroundings) (req : UpdateRequest) (w : World) where
  notified-stream_write :
      (note : PackagingRecyclingNote) (m : PrnMethod)
      → (perform_stream_write env req note m w).1.notified ≡ w.notified
  unfolding perform_stream_write
  notified-stream_write note m = elim (Result-cases (issuable env req)) [
    | inl (x, p) ↦ rw (p, perform_stream_write) refl
    | inr (accreditation, p) ↦
        rw (p, perform_stream_write) (notified-persist_folded env accreditation note _ _)
  ]

  notified-ledger_write :
      (note : PackagingRecyclingNote)
      → (perform_ledger_write env req note w).1.notified ≡ w.notified
  unfolding perform_ledger_write
  notified-ledger_write note =
      elim (Option-cases (prn_command_for note.status.current_status req.new_status)) [
        | inl p ↦ rw (p, perform_ledger_write) refl
        | inr (m, p) ↦ rw (p, perform_ledger_write) (notified-stream_write note m)
      ]

  notified-write_status :
      (note : PackagingRecyclingNote) → (write_status env req note w).1.notified ≡ w.notified
  unfolding perform_discard_write
  notified-write_status note =
      elim (Bool-cases (is_discard note.status.current_status req.new_status)) [
        | inl discard ↦ rw discard refl
        | inr other ↦ rw other (notified-ledger_write note)
      ]

  -- An update that throws raises no cancellation event. One that succeeds raises an event exactly when
  -- its new status is awaiting cancellation or cancelled and the PRN that it returns has been issued:
  -- then one, with the ids of that PRN, its organisation and its registration, and the time of its
  -- issue. The events raised before stay, in their order.
  pub update_prn_status_notifies :
      (update_prn_status env req w).1.notified
      ≡ w.notified ++ raised req.new_status (update_prn_status env req w).0
  unfolding update_prn_status
  update_prn_status_notifies = elim (Result-cases (resolve_prn_for_update req w.prns)) [
    | inl (x, p) ↦ rw (p, update_prn_status) (sym (append-nil w.notified))
    | inr (note, p) ↦
        elim (Result-cases
          (validate_transition note.status.current_status req.new_status req.actor)) [
            | inl (x, q) ↦ rw (p, update_prn_status) (rw q (sym (append-nil w.notified)))
            | inr (u, q) ↦
                rw (p, update_prn_status)
                  (rw q (
                    notified-notify req.new_status w (write_status env req note w)
                      (notified-write_status note)))
          ]
  ]
