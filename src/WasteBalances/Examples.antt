-- ===== src/WasteBalances/Examples.antt =====
-- A small ledger: a submission of 100, and a PRN of 30 created on it.
use epr_backend.WasteBalances.Commands
use epr_backend.WasteBalances.ClosingBalance.{closing_for_summary_log_submitted, closing_for_prn}
use epr_backend.WasteBalances.Service.{
  run_prn_command, append, fold, decider, create_prn, prn_command,
  commit_summary_log_submitted_event,
}
use epr_backend.WasteBalances.Repository.{
  append_events, find_latest_in_ledger, find_latest_in_ledger_by_kind, matches_ledger, Storage,
}
use epr_backend.WasteBalances.Schema.{
  validate_ledger_event_insert, LedgerEvent, LedgerUserSummary, WasteBalanceLedgerId, PrnPayload,
  SummaryLogSubmittedPayload,
}
use epr_backend.Decimals.{add, to_decimal, subtract, DecimalArithmetic, exact_decimals}
use epr_backend.Prelude.{◌+ℤ◌, ◌-ℤ◌, none, some, List, [], ◌∷◌, pos}
use epr_backend.WasteBalances.Appending.{Grows-refl}
use epr_backend.WasteBalances.Submissions.{commit_summary_log_submitted_event-IsLedgerStore}
use epr_backend.WasteBalances.Concurrency.{prn_command-IsLedgerStore}
use epr_backend.WasteBalances.Chain.{IsLedgerStore}

instance abbrev pub decimals : DecimalArithmetic
decimals = exact_decimals

abbrev pub ledger : WasteBalanceLedgerId
ledger = record { organisation_id = 1; registration_id = 2; accreditation_id = some 3 }

abbrev pub user : LedgerUserSummary
user = record { id = 7; name = none; email = none }

abbrev pub hundred : SummaryLogSubmittedPayload
hundred = record { summary_log_id = 5; credit_total = pos 100 }

abbrev pub thirty : PrnPayload
thirty = record { prn_id = 8; amount = pos 30 }

pub no_ledgers : IsLedgerStore []
no_ledgers l = tt

abbrev pub drop_first : List LedgerEvent → List LedgerEvent
drop_first [] = []
drop_first (e ∷ es) = es

-- The store after a submission, and after a PRN is created on it.
unfoldable pub credited_store : Storage
credited_store = (commit_summary_log_submitted_event ledger hundred user 1000 [] [] []).1

unfoldable pub created_store : Storage
created_store =
    (prn_command create_prn ledger thirty user 2000 credited_store credited_store credited_store).1

pub credited-IsLedgerStore : IsLedgerStore credited_store
unfolding credited_store
credited-IsLedgerStore =
    commit_summary_log_submitted_event-IsLedgerStore ledger [] [] [] no_ledgers
      (Grows-refl ledger []) (Grows-refl ledger []) hundred user 1000

pub created-IsLedgerStore : IsLedgerStore created_store
unfolding created_store
created-IsLedgerStore =
    prn_command-IsLedgerStore ledger credited_store credited_store credited_store
      credited-IsLedgerStore (Grows-refl ledger credited_store) (Grows-refl ledger credited_store)
      create_prn thirty user 2000

-- The names that a run computes through.
unfoldable pub run : Unit {0}
unfolding created_store credited_store prn_command commit_summary_log_submitted_event
    run_prn_command append fold append_events find_latest_in_ledger find_latest_in_ledger_by_kind
    Commands.submit_summary_log validate_ledger_event_insert matches_ledger decider
    Commands.create_prn Commands.issue_prn closing_for_summary_log_submitted add to_decimal subtract
    ◌+ℤ◌ ◌-ℤ◌ closing_for_prn
run = tt
