-- ===== src/WasteBalances/Tests.antt =====
-- The theorems on waste balances at the small ledger of Examples.antt.
use epr_backend.Prelude.{
  pos, [], ◌∷◌, sequence_error, arith, ◌+◌, length, slot_conflict, err, refl, ◌≡◌,
}
use epr_backend.WasteBalances.Service.{
  create_prn, issue_prn, prn_command, commit_summary_log_submitted_event,
}
use epr_backend.WasteBalances.Examples.{
  user, decimals, drop_first, created-IsLedgerStore, thirty, hundred, credited_store, ledger, run,
  created_store,
}
use epr_backend.WasteBalances.Concurrency.{
  prn_command_stale, prn_command_serial, prn_command-IsLedgerStore,
}
use epr_backend.WasteBalances.Submissions.{
  commit_summary_log_submitted_event_stale, commit_summary_log_submitted_event-IsLedgerStore,
}
use epr_backend.WasteBalances.Slots.{append_events_gap, balance_after}
use epr_backend.WasteBalances.Repository.{append_events, in_ledger}
use epr_backend.WasteBalances.Writes.{prn_event}
use epr_backend.WasteBalances.Schema.{LedgerEvent, zero_balance}
use epr_backend.WasteBalances.Cover.{prn_command-IsCovered, prn_command-outcome, outcome, IsCovered}
use epr_backend.WasteBalances.Accounts.{current_waste_balance_accounts, balance_report}
use epr_backend.WasteBalances.Appending.{Grows-refl, Grows}
use epr_backend.WasteBalances.CurrentBalance.{current_waste_balance}
use epr_backend.WasteBalances.Chain.{IsLedgerStore}

-- A later command that read the ledger before the PRN was created.
behind : Grows ledger credited_store created_store
unfolding run
behind = (drop_first (in_ledger ledger created_store), refl)

commit_summary_log_submitted_event-IsLedgerStore_example :
    IsLedgerStore
      (commit_summary_log_submitted_event ledger hundred user 3000 credited_store credited_store
        created_store).1
commit_summary_log_submitted_event-IsLedgerStore_example =
    commit_summary_log_submitted_event-IsLedgerStore ledger credited_store credited_store
      created_store created-IsLedgerStore (Grows-refl ledger credited_store) behind hundred user
      3000

prn_command-IsLedgerStore_example :
    IsLedgerStore
      (prn_command issue_prn ledger thirty user 3000 credited_store created_store created_store).1
prn_command-IsLedgerStore_example =
    prn_command-IsLedgerStore ledger credited_store created_store created_store
      created-IsLedgerStore behind (Grows-refl ledger created_store) issue_prn thirty user 3000

prn_command_serial_example :
    prn_command issue_prn ledger thirty user 3000 created_store created_store created_store
    ≡ prn_command issue_prn ledger thirty user 3000 created_store created_store created_store
unfolding run
prn_command_serial_example =
    prn_command_serial ledger created_store created_store created_store created-IsLedgerStore
      (Grows-refl ledger created_store) (Grows-refl ledger created_store) issue_prn thirty user 3000
      refl

prn_command_stale_example :
    prn_command issue_prn ledger thirty user 3000 credited_store created_store created_store
    ≡ (err (slot_conflict (length (in_ledger ledger credited_store) + 1)), created_store)
unfolding run
prn_command_stale_example =
    prn_command_stale ledger credited_store created_store created_store created-IsLedgerStore behind
      (Grows-refl ledger created_store) issue_prn thirty user 3000 (omega arith) (λ e. cc)
      (omega arith) refl

commit_summary_log_submitted_event_stale_example :
    commit_summary_log_submitted_event ledger hundred user 3000 credited_store created_store
      created_store
    ≡ (err (slot_conflict (length (in_ledger ledger credited_store) + 1)), created_store)
unfolding run
commit_summary_log_submitted_event_stale_example =
    commit_summary_log_submitted_event_stale ledger credited_store created_store created_store
      created-IsLedgerStore behind (Grows-refl ledger created_store) hundred user 3000 (omega arith)

current_waste_balance_accounts_example :
    current_waste_balance created_store created_store ledger
    ≡ balance_report ledger (in_ledger ledger created_store)
current_waste_balance_accounts_example =
    current_waste_balance_accounts created_store ledger created-IsLedgerStore

prn_command-outcome_example :
    prn_command issue_prn ledger thirty user 3000 created_store created_store created_store
    ≡ outcome issue_prn ledger thirty user 3000 (in_ledger ledger created_store) created_store
prn_command-outcome_example =
    prn_command-outcome created_store created-IsLedgerStore issue_prn ledger 3 refl thirty user 3000

prn_command-IsCovered_example : IsCovered (
    balance_after zero_balance (
      in_ledger ledger
        (prn_command issue_prn ledger thirty user 3000 created_store created_store
          created_store).1))
unfolding run
prn_command-IsCovered_example =
    prn_command-IsCovered created_store created-IsLedgerStore issue_prn ledger 3 refl thirty user
      3000 (omega arith)

-- The event of the PRN, with a number past the next slot.
abbrev ahead : LedgerEvent
ahead = record (prn_event create_prn ledger thirty user 2000 []) { number = 9 }

append_events_gap_example :
    append_events created_store (ahead ∷ [])
    ≡ (err (sequence_error 9 (length (in_ledger ledger created_store) + 1)), created_store)
unfolding run
append_events_gap_example =
    append_events_gap created_store ahead zero_balance (pos 0) (created-IsLedgerStore ledger)
      (omega arith)
