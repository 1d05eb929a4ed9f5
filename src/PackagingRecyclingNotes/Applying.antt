-- ===== src/PackagingRecyclingNotes/Applying.antt =====
-- What a successful update returns and stores: update-status.js.
use epr_backend.Prelude.{
  ◌≡◌, [], ◌∷◌, ◌++◌, Result, ok, err, Error, some, none, arith, inl, inr, ◌⊎◌, ◌+◌, true, ap,
  subst, ◌∙◌, refl, Option, bad_implementation, ◌>>=◌,
}
use epr_backend.Decimals.{DecimalArithmetic}
use epr_backend.WasteBalances.Schema.{is_prn_kind, LedgerEvent}
use epr_backend.WasteBalances.Repository.{Storage}
use epr_backend.WasteBalances.Service.{PrnMethod}
use epr_backend.WasteBalances.Decisions.{event_kind}
use epr_backend.WasteBalances.Chain.{IsLedgerStore}
use epr_backend.PackagingRecyclingNotes.Model.{PackagingRecyclingNote, PrnStatusRecord}
use epr_backend.PackagingRecyclingNotes.Store.{find_by_id}
use epr_backend.PackagingRecyclingNotes.Projection.{
  ledger_event_kind_to_prn_status, fold_prn_from_tail_events,
}
use epr_backend.PackagingRecyclingNotes.BalanceEffects.{prn_command_for, apply_prn_balance_command}
use epr_backend.PackagingRecyclingNotes.Tables.{prn_command_for_projects}
use epr_backend.PackagingRecyclingNotes.History.{
  fold_prn_from_tail_events_lem, entries-event, status_after,
}
use epr_backend.PackagingRecyclingNotes.UpdateStatus.{
  UpdateRequest, World, ledger_of, issuable, persist_folded, perform_ledger_write,
  perform_stream_write,
}
use epr_backend.PackagingRecyclingNotes.Issuance.{Surroundings, Accreditation, persist}
use epr_backend.PackagingRecyclingNotes.CommandEvents.{apply_cases}
use epr_backend.PackagingRecyclingNotes.Persisting.{persist-Stores}

command_kind : (m : PrnMethod) → is_prn_kind (event_kind m) ≡ true
command_kind m = ground arith

module _ ⦃d : DecimalArithmetic⦄ (env : Surroundings) (req : UpdateRequest)
    (note : PackagingRecyclingNote) (w : World) (ledgers : IsLedgerStore w.ledger) where
  -- The reply of a write: an error, or the PRN that its document now is, in the new status and
  -- one version on.
  abbrev pub Applies : Result PackagingRecyclingNote × World → Type 0
  Applies r =
      ((x : Error) × (r.0 ≡ err x))
      ⊎ ((p : PackagingRecyclingNote) × (r.0 ≡ ok p)
          × (p.status.current_status ≡ req.new_status)
          × (p.version ≡ note.version + 1)
          × (find_by_id r.1.prns note.id ≡ some p))

  persist_folded-Applies :
      (m : PrnMethod) (accreditation : Option Accreditation) (e : LedgerEvent) (ledger : Storage)
      → prn_command_for note.status.current_status req.new_status ≡ some m
      → e.kind ≡ event_kind m
      → Applies (
          persist_folded env accreditation note
            (record w { ledger = ledger })
            (fold_prn_from_tail_events note (e ∷ [])))
  persist_folded-Applies m accreditation e ledger command kind =
      let known =
        ap ledger_event_kind_to_prn_status kind
        ∙ prn_command_for_projects note.status.current_status req.new_status m command in
      let (projection, p, folded) =
        fold_prn_from_tail_events_lem note (e ∷ []) (ap is_prn_kind kind ∙ command_kind m, tt) in
      let reached =
        folded.status
        ∙ ap (status_after note.status.current_status) (entries-event e [] req.new_status known) in
      rw p (elim (persist-Stores env accreditation note projection w.prns) [
        | inl (x, q) ↦ inl (x, λ i. (q i).0)
        | inr (result, q, stored) ↦ inr (
          result,
          q,
          ap (λ (s : PrnStatusRecord). s.current_status) stored.status ∙ reached,
          stored.version,
          subst
              (λ i. find_by_id (persist env accreditation note projection w.prns).1 i ≡ some result)
              folded.id stored.found,
        )
      ])

  checked-Applies :
      (m : PrnMethod) (check : Result (Option Accreditation))
      → prn_command_for note.status.current_status req.new_status ≡ some m
      → Applies (elim check [
        | err x ↦ (err x, w)
        | ok accreditation ↦
            let (r, ledger) =
              apply_prn_balance_command m
                (ledger_of req)
                req.id
                note.tonnage
                req.user
                env.now
                w.ledger in
            persist_folded env accreditation note
              (record w { ledger = ledger })
              (r >>= fold_prn_from_tail_events note)
      ])
  checked-Applies m (err x) command = inl (x, refl)
  checked-Applies m (ok accreditation) command =
      elim (apply_cases w.ledger ledgers m (ledger_of req) req.accreditation_id refl req.id
        note.tonnage req.user env.now) [
          | inl (x, p) ↦ rw p (inl (x, refl))
          | inr (e, p, event, after) ↦
              rw p
                (persist_folded-Applies m accreditation e (w.ledger ++ e ∷ []) command event.kind)
        ]

  command-Applies :
      (command : Option PrnMethod)
      → prn_command_for note.status.current_status req.new_status ≡ command
      → Applies (elim command [
        | none ↦ (err bad_implementation, w)
        | some method ↦ perform_stream_write env req note method w
      ])
  unfolding perform_stream_write
  command-Applies none known = inl (bad_implementation, refl)
  command-Applies (some m) known = checked-Applies m (issuable env req) known

  -- With well-formed ledgers, a ledger write throws, or it returns a PRN in the new status, one
  -- version after the PRN that was read, and that is what the document store then holds under the
  -- id of the PRN that was read.
  pub perform_ledger_write-Applies : Applies (perform_ledger_write env req note w)
  unfolding perform_ledger_write
  perform_ledger_write-Applies =
      command-Applies (prn_command_for note.status.current_status req.new_status) refl
