-- ===== src/PackagingRecyclingNotes/Recovery.antt =====
-- An update that reaches the ledger is not lost: update-status.js against get-projected-prn.js.
use epr_backend.PackagingRecyclingNotes.UpdateStatus.{
  issuable, UpdateRequest, World, ledger_of, persist_folded, perform_ledger_write,
  perform_stream_write,
}
use epr_backend.PackagingRecyclingNotes.Issuance.{Accreditation, Surroundings}
use epr_backend.PackagingRecyclingNotes.Projection.{
  fold_prn_from_tail_events, ledger_event_kind_to_prn_status,
}
use epr_backend.Prelude.{
  ◌>>=◌, sym, bad_implementation, filter-append, ◌&&◌, ◌∙◌, filter, Option, ltb, ap, refl, subst,
  ◌≡◌, [], ◌∷◌, ◌++◌, Result, ok, err, Error, some, none, arith, inl, inr, ◌⊎◌, length, ◌≤◌, true,
  false,
}
use epr_backend.PackagingRecyclingNotes.History.{entries-event, entries, status_after}
use epr_backend.PackagingRecyclingNotes.Tables.{prn_command_for_projects}
use epr_backend.WasteBalances.Slots.{in_ledger-push_self}
use epr_backend.PackagingRecyclingNotes.Catchup.{project_prn_lem, unseen}
use epr_backend.PackagingRecyclingNotes.Reading.{watermark, prn_ledger, project_prn}
use epr_backend.PackagingRecyclingNotes.BalanceEffects.{apply_prn_balance_command, prn_command_for}
use epr_backend.WasteBalances.Repository.{in_ledger, is_about, Storage}
use epr_backend.WasteBalances.Schema.{LedgerEvent}
use epr_backend.PackagingRecyclingNotes.Model.{same_status, PrnStatus, PackagingRecyclingNote}
use epr_backend.WasteBalances.Chain.{IsLedgerStore}
use epr_backend.WasteBalances.Service.{PrnMethod}
use epr_backend.Decimals.{DecimalArithmetic}
use epr_backend.PackagingRecyclingNotes.CommandEvents.{IsCommandEvent, apply_cases}

-- The document's watermark is a number of its ledger, and no event about it lies past that.
pub record IsCaughtUp (prn : PackagingRecyclingNote) (store : Storage) : Type 0 where
  pub nothing : unseen prn store ≡ []
  pub within : watermark prn ≤ length (in_ledger (prn_ledger prn) store)

live_of_command :
    (s t : PrnStatus) (m : PrnMethod)
    → prn_command_for s t ≡ some m
    → same_status s PrnStatus.deleted ≡ false
unfolding prn_command_for
live_of_command s t m h = ground arith

-- The document as it stands, projected on a ledger with one more event of it.
module _ ⦃d : DecimalArithmetic⦄ (store : Storage) (note : PackagingRecyclingNote) (e : LedgerEvent)
    (m : PrnMethod) (t : PrnStatus) where
  unseen-push :
      IsCaughtUp note store
      → IsCommandEvent m (prn_ledger note) note.id (length (in_ledger (prn_ledger note) store)) e
      → unseen note (store ++ e ∷ []) ≡ e ∷ []
  unseen-push caught r =
      let past : ltb (watermark note) e.number ≡ true = ground (arith, caught.within, r.number) in
      let pushed =
        subst (λ k. in_ledger k (store ++ e ∷ []) ≡ in_ledger k store ++ e ∷ []) r.ledger
          (in_ledger-push_self e store) in
      ap (filter (λ x. is_about note.id x.payload && ltb (watermark note) x.number)) pushed
      ∙ filter-append (λ x. is_about note.id x.payload && ltb (watermark note) x.number)
          (in_ledger (prn_ledger note) store) (e ∷ [])
      ∙ rw (caught.nothing, r.about, past) refl

  project_prn-push :
      IsCaughtUp note store
      → IsCommandEvent m (prn_ledger note) note.id (length (in_ledger (prn_ledger note) store)) e
      → IsLedgerStore (store ++ e ∷ [])
      → prn_command_for note.status.current_status t ≡ some m
      → (q : PackagingRecyclingNote) × (project_prn note (store ++ e ∷ []) ≡ ok q)
        × (q.status.current_status ≡ t)
  project_prn-push caught r ledgers command =
      let (q, p, folded) =
        project_prn_lem (store ++ e ∷ []) ledgers note
          (live_of_command note.status.current_status t m command) in
      let known =
        ap ledger_event_kind_to_prn_status r.kind
        ∙ prn_command_for_projects note.status.current_status t m command in
      (
        q,
        p,
        folded.status
            ∙ ap (λ es. status_after note.status.current_status (entries es)) (unseen-push caught r)
            ∙ ap (status_after note.status.current_status) (entries-event e [] t known),
      )

pub ledger-persist_folded :
    (env : Surroundings) (accreditation : Option Accreditation) (note : PackagingRecyclingNote)
    (w : World) (r : Result PackagingRecyclingNote)
    → (persist_folded env accreditation note w r).1.ledger ≡ w.ledger
ledger-persist_folded env accreditation note w (err x) = refl
ledger-persist_folded env accreditation note w (ok projection) = refl

module _ ⦃d : DecimalArithmetic⦄ (env : Surroundings) (req : UpdateRequest)
    (note : PackagingRecyclingNote) (w : World) (ledgers : IsLedgerStore w.ledger)
    (caught : IsCaughtUp note w.ledger) (own : prn_ledger note ≡ ledger_of req)
    (same : note.id ≡ req.id) where
  -- What the world holds after a write: nothing new, or a ledger that projects the document that
  -- was there before to the new status.
  abbrev pub Recovers : Result PackagingRecyclingNote × World → Type 0
  Recovers r =
      ((x : Error) × (r ≡ (err x, w)))
      ⊎ ((q : PackagingRecyclingNote) × (project_prn note r.1.ledger ≡ ok q)
          × (q.status.current_status ≡ req.new_status)
          × IsLedgerStore r.1.ledger)

  persist_folded-Recovers :
      (m : PrnMethod) (accreditation : Option Accreditation) (e : LedgerEvent)
      (r : Result PackagingRecyclingNote)
      → prn_command_for note.status.current_status req.new_status ≡ some m
      → IsCommandEvent m (ledger_of req) req.id (length (in_ledger (ledger_of req) w.ledger)) e
      → IsLedgerStore (w.ledger ++ e ∷ [])
      → Recovers
          (persist_folded env accreditation note (record w { ledger = w.ledger ++ e ∷ [] }) r)
  persist_folded-Recovers m accreditation e r command event after =
      let mine =
        subst
          (λ i.
            IsCommandEvent m (prn_ledger note) i (length (in_ledger (prn_ledger note) w.ledger)) e)
          (sym same)
          (subst (λ l. IsCommandEvent m l req.id (length (in_ledger l w.ledger)) e) (sym own)
            event) in
      let (q, p, s) = project_prn-push w.ledger note e m req.new_status caught mine after command in
      let kept = sym (
        ledger-persist_folded env accreditation note (record w { ledger = w.ledger ++ e ∷ [] })
          r) in
      inr (
        q,
        subst (λ store. project_prn note store ≡ ok q) kept p,
        s,
        subst IsLedgerStore kept after,
      )

  -- What follows the issuable check.
  checked-Recovers :
      (m : PrnMethod) (check : Result (Option Accreditation))
      → prn_command_for note.status.current_status req.new_status ≡ some m
      → Recovers (elim check [
        | err x ↦ (err x, w)
        | ok accreditation ↦
            let (r, ledger) =
              apply_prn_balance_command m
                (ledger_of req)
                req.id
                note.tonnage
                req.user
                env.now
                w.ledger in
            persist_folded env accreditation note
              (record w { ledger = ledger })
              (r >>= fold_prn_from_tail_events note)
      ])
  checked-Recovers m (err x) command = inl (x, refl)
  checked-Recovers m (ok accreditation) command =
      elim (apply_cases w.ledger ledgers m (ledger_of req) req.accreditation_id refl req.id
        note.tonnage req.user env.now) [
          | inl (x, p) ↦ rw p (inl (x, refl))
          | inr (e, p, event, after) ↦
              rw p (persist_folded-Recovers m accreditation e _ command event after)
        ]

  command-Recovers :
      (command : Option PrnMethod)
      → prn_command_for note.status.current_status req.new_status ≡ command
      → Recovers (elim command [
        | none ↦ (err bad_implementation, w)
        | some method ↦ perform_stream_write env req note method w
      ])
  unfolding perform_stream_write
  command-Recovers none known = inl (bad_implementation, refl)
  command-Recovers (some m) known = checked-Recovers m (issuable env req) known

  -- With well-formed ledgers, and a PRN that has the id of the request, is caught up with its ledger
  -- and belongs to the organisation, registration and accreditation of the request: a ledger write
  -- either throws and leaves the ledger, the documents and the notifications as they were, or the
  -- ledger stays well-formed and then projects the PRN that was read to the new status, whether or not
  -- the document write that follows succeeds. The code does not check the id of a PRN that is provided.
  pub perform_ledger_write-Recovers : Recovers (perform_ledger_write env req note w)
  unfolding perform_ledger_write
  perform_ledger_write-Recovers =
      command-Recovers (prn_command_for note.status.current_status req.new_status) refl
