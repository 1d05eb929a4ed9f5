-- ===== src/PackagingRecyclingNotes/Progress.antt =====
-- When an update cannot fail: update-status.js on a stored PRN and a ledger that covers it.
use epr_backend.PackagingRecyclingNotes.Applying.{perform_ledger_write-Applies}
use epr_backend.PackagingRecyclingNotes.Recovery.{ledger-persist_folded}
use epr_backend.Prelude.{
  inl, inr, length, throw_if_pass, not, ◌==◌, ==_refl, conflict, bad_implementation,
  prn_number_conflict, ℕ, ◌≡◌, ◌≢◌, refl, List, [], ◌∷◌, ◌++◌, ok, some, none, arith, ◌+◌, ◌≤◌,
  true, false, ap, ◌∙◌, Option, ◌<ℤ◌, pos, ltb_ℤ, ◌>>=◌,
}
use epr_backend.PackagingRecyclingNotes.History.{fold_prn_from_tail_events_lem}
use epr_backend.PackagingRecyclingNotes.Model.{PrnStatus, same_status, PackagingRecyclingNote}
use epr_backend.PackagingRecyclingNotes.BalanceEffects.{
  command_events, apply_prn_balance_command, prn_command_for,
}
use epr_backend.PackagingRecyclingNotes.UpdateStatus.{
  issuable, perform_ledger_write, ledger_of, perform_stream_write, World, UpdateRequest,
}
use epr_backend.PackagingRecyclingNotes.Issuance.{required, Surroundings, persist}
use epr_backend.WasteBalances.Decisions.{event_kind, covered}
use epr_backend.WasteBalances.Schema.{
  is_prn_kind, LedgerEvent, LedgerUserSummary, WasteBalanceLedgerId, PrnPayload, zero_balance,
}
use epr_backend.Decimals.{DecimalArithmetic}
use epr_backend.WasteBalances.Repository.{Storage, in_ledger}
use epr_backend.WasteBalances.Service.{PrnMethod, committed, prn_command}
use epr_backend.WasteBalances.Chain.{IsLedgerStore}
use epr_backend.WasteBalances.Slots.{balance_after}
use epr_backend.WasteBalances.Cover.{outcome, prn_command-outcome}
use epr_backend.WasteBalances.Writes.{prn_event}
use epr_backend.PackagingRecyclingNotes.Store.{
  persist_found, PrnStore, find_by_id, number_taken, persist_over, persist_projection,
  enforce_monotonic_watermark, is_watermark_regression,
}
use epr_backend.PackagingRecyclingNotes.Reading.{watermark}

module _ ⦃d : DecimalArithmetic⦄ (store : Storage) (ledgers : IsLedgerStore store) (m : PrnMethod)
    (l : WasteBalanceLedgerId) (a : ℕ) (accredited : l.accreditation_id ≡ some a) (p : PrnPayload)
    (user : LedgerUserSummary) (now : ℕ) where
  outcome-covered :
      (es : List LedgerEvent)
      → es ≢ []
      → covered m (balance_after zero_balance es) p.amount ≡ true
      → outcome m l p user now es store ≡ (
        ok (committed (prn_event m l p user now es ∷ [])),
        store ++ prn_event m l p user now es ∷ [],
      )
  outcome-covered [] open' c = absurd (open' refl)
  outcome-covered (e ∷ es) open' c = rw c refl

  prn_command-covered :
      in_ledger l store ≢ []
      → pos 0 <ℤ p.amount
      → covered m (balance_after zero_balance (in_ledger l store)) p.amount ≡ true
      → prn_command m l p user now store store store ≡ (
        ok (committed (prn_event m l p user now (in_ledger l store) ∷ [])),
        store ++ prn_event m l p user now (in_ledger l store) ∷ [],
      )
  prn_command-covered open' positive c =
      let yes : ltb_ℤ (pos 0) p.amount ≡ true = ground arith in
      prn_command-outcome store ledgers m l a accredited p user now
      ∙ rw yes (outcome-covered (in_ledger l store) open' c)

no_regression :
    (stored : Option ℕ) (n : ℕ)
    → (elim stored [ none ↦ 0 | some k ↦ k ]) ≤ n
    → is_watermark_regression stored (some n) ≡ false
unfolding is_watermark_regression
no_regression none n h = refl
no_regression (some k) n h = ground arith

-- A projection of the stored PRN, ahead of its watermark and with a free number, is stored.
module _ (note projection : PackagingRecyclingNote) (n : ℕ) (prns : PrnStore)
    (free : number_taken prns note.id note.prn_number ≡ false) (same : projection.id ≡ note.id)
    (number : projection.prn_number ≡ note.prn_number)
    (reached : projection.last_applied_event_number ≡ some n) (ahead : watermark note ≤ n) where
  persist_over_ok :
      persist_over prns note note.version projection
      ≡ ok (record projection { version = note.version + 1 })
  unfolding enforce_monotonic_watermark
  persist_over_ok =
      throw_if_pass (not (note.version == note.version)) conflict _ (ap not (==_refl note.version))
      ∙ throw_if_pass
          (is_watermark_regression note.last_applied_event_number
            projection.last_applied_event_number)
          bad_implementation _
          (ap (is_watermark_regression note.last_applied_event_number) reached
            ∙ no_regression note.last_applied_event_number n ahead)
      ∙ throw_if_pass (number_taken prns projection.id projection.prn_number) prn_number_conflict _
          ((λ i. number_taken prns (same i) (number i)) ∙ free)

  persist_ok :
      (env : Surroundings)
      → find_by_id prns note.id ≡ some note
      → (persist env none note projection prns).0
        ≡ ok (record projection { version = note.version + 1 })
  unfolding persist persist_projection
  persist_ok env stored =
      ap (λ o. (persist_found prns projection note.version o).0 >>= required)
        (ap (find_by_id prns) same ∙ stored)
      ∙ rw persist_over_ok refl

command_kind_prn : (m : PrnMethod) → is_prn_kind (event_kind m) ≡ true
command_kind_prn m = ground arith

module _ ⦃d : DecimalArithmetic⦄ (env : Surroundings) (req : UpdateRequest)
    (note : PackagingRecyclingNote) (w : World) (m : PrnMethod) where
  -- What a write needs in order to go through: a transition with a balance command other than the
  -- issue, the document in the store as it was read and its number its own, its watermark within
  -- the ledger, and a ledger that covers a positive tonnage.
  pub record IsReady : Type 0 where
    pub command : prn_command_for note.status.current_status req.new_status ≡ some m
    pub no_issue : same_status req.new_status PrnStatus.awaiting_acceptance ≡ false
    pub stored : find_by_id w.prns note.id ≡ some note
    pub free : number_taken w.prns note.id note.prn_number ≡ false
    pub within : watermark note ≤ length (in_ledger (ledger_of req) w.ledger)
    pub opened : in_ledger (ledger_of req) w.ledger ≢ []
    pub positive : pos 0 <ℤ note.tonnage
    pub enough :
        covered m (balance_after zero_balance (in_ledger (ledger_of req) w.ledger)) note.tonnage
        ≡ true

  module _ (ledgers : IsLedgerStore w.ledger) (ready : IsReady) where
    abbrev pub command_event : LedgerEvent
    command_event =
        prn_event m (ledger_of req) (record { prn_id = req.id; amount = note.tonnage }) req.user
          env.now (in_ledger (ledger_of req) w.ledger)

    applied_ok :
        apply_prn_balance_command m (ledger_of req) req.id note.tonnage req.user env.now w.ledger
        ≡ (ok (command_event ∷ []), w.ledger ++ command_event ∷ [])
    unfolding apply_prn_balance_command
    applied_ok =
        ap (λ r. (command_events m r.0, r.1))
          (prn_command-covered w.ledger ledgers m (ledger_of req) req.accreditation_id refl
            (record { prn_id = req.id; amount = note.tonnage }) req.user env.now ready.opened
            ready.positive ready.enough)

    issuable-none : issuable env req ≡ ok none
    unfolding issuable
    issuable-none = rw (ready.no_issue) refl

    stream_write_succeeds :
        (q : PackagingRecyclingNote) × ((perform_stream_write env req note m w).0 ≡ ok q)
    unfolding perform_stream_write issuable
    stream_write_succeeds =
        let (projection, p, folded) =
          fold_prn_from_tail_events_lem note (command_event ∷ []) (command_kind_prn m, tt) in
        (
          record projection { version = note.version + 1 },
          rw (issuable-none, perform_stream_write)
              (rw (applied_ok) (
                rw p (
                  persist_ok note projection command_event.number w.prns ready.free folded.id
                    folded.prn_number folded.watermark (omega (arith, ready.within)) env
                    ready.stored))),
        )

    write_succeeds : (q : PackagingRecyclingNote) × ((perform_ledger_write env req note w).0 ≡ ok q)
    unfolding perform_ledger_write
    write_succeeds = rw (ready.command, perform_ledger_write) stream_write_succeeds

    -- With well-formed ledgers, a ledger write that is ready (a balance command that is not the
    -- issue, the document stored as it was read, under a PRN number of its own, its watermark
    -- within the ledger, and a ledger that covers a positive tonnage) does not throw: it returns
    -- the PRN in the new status, one version on, and stores it.
    pub perform_ledger_write_succeeds :
        (q : PackagingRecyclingNote) × ((perform_ledger_write env req note w).0 ≡ ok q)
        × (q.status.current_status ≡ req.new_status)
        × (q.version ≡ note.version + 1)
        × (find_by_id (perform_ledger_write env req note w).1.prns note.id ≡ some q)
    perform_ledger_write_succeeds = elim (perform_ledger_write-Applies env req note w ledgers) [
      | inl (x, p) ↦ let (q, r) = write_succeeds in absurd cc
      | inr applied ↦ applied
    ]

    appends_stream :
        (perform_stream_write env req note m w).1.ledger ≡ w.ledger ++ command_event ∷ []
    unfolding perform_stream_write
    appends_stream =
        rw (issuable-none, perform_stream_write)
          (rw applied_ok (ledger-persist_folded env none note _ _))

    -- With well-formed ledgers, a ledger write that is ready appends the event of its command at
    -- the end of the ledger, whether or not the ledger already has events about the PRN that the
    -- document has not taken.
    pub perform_ledger_write_appends :
        (perform_ledger_write env req note w).1.ledger ≡ w.ledger ++ command_event ∷ []
    unfolding perform_ledger_write
    perform_ledger_write_appends = rw (ready.command, perform_ledger_write) appends_stream
