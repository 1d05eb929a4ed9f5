-- ===== src/WasteBalances/Submissions.antt =====
-- Summary-log submissions under concurrent writers.
use epr_backend.WasteBalances.ClosingBalance.{credited, closing_for_summary_log_submitted_lem}
use epr_backend.WasteBalances.Schema.{
  validate_ledger_event_insert, zero_balance, LedgerEvent, LedgerUserSummary, WasteBalanceLedgerId,
  SummaryLogSubmittedPayload,
}
use epr_backend.Prelude.{
  ℕ, ◌+◌, ◌<◌, ◌≡◌, refl, sym, ◌∙◌, ap, inl, inr, List, [], ◌∷◌, pos, ok, err, slot_conflict,
  length, arith,
}
use epr_backend.Decimals.{DecimalArithmetic}
use epr_backend.WasteBalances.Repository.{Storage, in_ledger}
use epr_backend.WasteBalances.Service.{commit_summary_log_submitted_event}
use epr_backend.WasteBalances.Chain.{IsLedgerStore}
use epr_backend.WasteBalances.Slots.{balance_after, credit_total_after, append_events_taken}
use epr_backend.WasteBalances.Appending.{Grows, IsNext, IsLedgerStore-push, append_events_one}
use epr_backend.WasteBalances.Writes.{
  submitted_event, credit_read, seen_same, commit_summary_log_submitted_event_lem,
}

credit_read_all : (es : List LedgerEvent) → credit_read es es ≡ credit_total_after (pos 0) es
credit_read_all [] = refl
credit_read_all (e ∷ es) = refl

module _ ⦃d : DecimalArithmetic⦄ (l : WasteBalanceLedgerId) (seen seen' store : Storage)
    (ledgers : IsLedgerStore store) (first : Grows l seen seen') (second : Grows l seen' store)
    (p : SummaryLogSubmittedPayload) (created_by : LedgerUserSummary) (created_at : ℕ) where
  event-IsNext :
      (es later : List LedgerEvent)
      → in_ledger l store ≡ es
      → in_ledger l store ≡ later
      → validate_ledger_event_insert (submitted_event l p created_by created_at es later)
        ≡ ok (submitted_event l p created_by created_at es later)
      → IsNext store (submitted_event l p created_by created_at es later)
  event-IsNext es later q r valid = rw q (record {
    numbered = refl;
    opens = refl;
    closes = ap ok (
        closing_for_summary_log_submitted_lem (balance_after zero_balance es) p.credit_total
          (credit_total_after (pos 0) es)
        ∙ ap (credited (balance_after zero_balance es) p.credit_total)
            (sym (credit_read_all es) ∙ ap (credit_read es) (sym q ∙ r)));
    valid = valid;
  })

  -- With well-formed ledgers, the commit of a submission leaves every ledger of the store
  -- well-formed, whatever other writers appended to its ledger between its reads and its write.
  pub commit_summary_log_submitted_event-IsLedgerStore :
      IsLedgerStore
        (commit_summary_log_submitted_event l p created_by created_at seen seen' store).1
  commit_summary_log_submitted_event-IsLedgerStore =
      rw
        (commit_summary_log_submitted_event_lem l seen seen' store ledgers first second p created_by
          created_at)
        (elim (append_events_one store
          (submitted_event l p created_by created_at (in_ledger l seen) (in_ledger l seen'))
          ledgers) [
            | inl (x, refused) ↦ rw refused ledgers
            | inr (appended, numbered, valid) ↦
                let same = seen_same l seen seen' store ledgers first second (omega arith) in
                rw appended (
                  IsLedgerStore-push store
                    (submitted_event l p created_by created_at (in_ledger l seen)
                      (in_ledger l seen'))
                    ledgers
                    (event-IsNext (in_ledger l seen) (in_ledger l seen') same.0 same.1 valid))
          ])

  -- With well-formed ledgers: the commit of a submission whose ledger has gained events between
  -- its first read and its write throws the conflict on the slot after the events that it read,
  -- and leaves the store as it was.
  pub commit_summary_log_submitted_event_stale :
      length (in_ledger l seen) < length (in_ledger l store)
      → commit_summary_log_submitted_event l p created_by created_at seen seen' store
        ≡ (err (slot_conflict (length (in_ledger l seen) + 1)), store)
  commit_summary_log_submitted_event_stale n =
      commit_summary_log_submitted_event_lem l seen seen' store ledgers first second p created_by
        created_at
      ∙ append_events_taken store
          (submitted_event l p created_by created_at (in_ledger l seen) (in_ledger l seen'))
          zero_balance (pos 0) (ledgers l) (omega arith) (omega arith)
