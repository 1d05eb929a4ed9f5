-- ===== src/WasteBalances/Service.antt =====
-- Code: src/waste-balances/application/waste-balance-service.js. A command awaits its reads and
-- then its write, and other writers run between: `seen` and `seen'` are the stores that the two
-- reads of the fold see, `store` the one that the append meets.
use epr_backend.Prelude.{
  ℕ, ◌+◌, not, Option, none, some, List, [], ◌∷◌, pos, ltb_ℤ, if◌then◌else◌, Result, ok, err,
  bad_implementation, ◌>>=◌,
}
use epr_backend.Decimals.{DecimalArithmetic}
use epr_backend.WasteBalances.Schema.{
  LedgerBalanceSnapshot, LedgerUserSummary, SummaryLogSubmittedPayload, PrnPayload,
  WasteBalanceLedgerId, LedgerEvent,
}
use epr_backend.WasteBalances.Commands.{
  LedgerState, BalanceEvent, PrnCommandRejection, no_ledger, PrnDecision, committed_events,
  rejected,
}
use epr_backend.WasteBalances.Repository.{Storage, append_events, find_events_by_prn_id_after}
use epr_backend.WasteBalances.CurrentBalance.{WasteBalance, current_waste_balance}
use epr_backend.WasteBalances.Commands

abbrev pub decidable : Option WasteBalance → Option LedgerState × ℕ
decidable none = (none, 0)
decidable (some w) = (
  some (record {
    balance = record { amount = w.amount; available_amount = w.available_amount };
    credit_total = w.credit_total;
  }),
  w.event_number,
)

-- The state that a command decides against, and the head that it was read at.
unfoldable pub fold : Storage → Storage → WasteBalanceLedgerId → Option LedgerState × ℕ
unfolding current_waste_balance
fold seen seen' l = decidable (current_waste_balance seen seen' l)

-- Identity, slot and provenance for each decided event.
abbrev pub stamp :
    WasteBalanceLedgerId → ℕ → List BalanceEvent → LedgerUserSummary → ℕ → List LedgerEvent
stamp l head [] created_by created_at = []
stamp l head (e ∷ es) created_by created_at =
    record {
      ledger_id = l;
      number = head + 1;
      kind = e.kind;
      payload = e.payload;
      opening_balance = e.opening_balance;
      closing_balance = e.closing_balance;
      created_at = created_at;
      created_by = created_by;
    }
    ∷ stamp l (head + 1) es created_by created_at

unfoldable pub append :
    WasteBalanceLedgerId
    → ℕ
    → List BalanceEvent
    → LedgerUserSummary
    → ℕ
    → Storage
    → Result (List LedgerEvent) × Storage
append l head events created_by created_at store =
    append_events store (stamp l head events created_by created_at)

pub data PrnCommandResult : Type 0 where
  committed : List LedgerEvent → PrnCommandResult
  command_rejected : PrnCommandRejection → PrnCommandResult

abbrev pub PrnDecider : Type 0
PrnDecider = LedgerBalanceSnapshot → PrnPayload → Result PrnDecision

-- What `runPrnCommand` does with the decision.
abbrev pub carry_out :
    WasteBalanceLedgerId
    → ℕ
    → Result PrnDecision
    → LedgerUserSummary
    → ℕ
    → Storage
    → Result PrnCommandResult × Storage
carry_out l head (err x) created_by now store = (err x, store)
carry_out l head (ok (rejected reason)) created_by now store = (ok (command_rejected reason), store)
carry_out l head (ok (committed_events events)) created_by now store =
    let (r, store') = append l head events created_by now store in
    (r >>= λ appended. ok (committed appended), store')

abbrev pub decide_at :
    PrnDecider
    → WasteBalanceLedgerId
    → PrnPayload
    → Option LedgerState × ℕ
    → LedgerUserSummary
    → ℕ
    → Storage
    → Result PrnCommandResult × Storage
decide_at decide l payload (none, head) created_by now store =
    (ok (command_rejected no_ledger), store)
decide_at decide l payload (some state, head) created_by now store =
    carry_out l head (decide state.balance payload) created_by now store

unfoldable pub run_prn_command :
    PrnDecider
    → WasteBalanceLedgerId
    → PrnPayload
    → LedgerUserSummary
    → ℕ
    → Storage
    → Storage
    → Storage
    → Result PrnCommandResult × Storage
run_prn_command decide l payload created_by now seen seen' store =
    if not (ltb_ℤ (pos 0) payload.amount)
    then (err bad_implementation, store)
    else decide_at decide l payload (fold seen seen' l) created_by now store

-- The PRN commands of the service, by method name.
pub data PrnMethod : Type 0 where
  create_prn issue_prn cancel_prn_creation cancel_issued_prn accept_prn reject_prn : PrnMethod

-- `prnCatchupEvents`, of a ledger whose accreditation id is there, as it is for every caller: the check
-- that refuses a missing one is left out.
unfoldable pub prn_catchup_events : Storage → WasteBalanceLedgerId → ℕ → ℕ → List LedgerEvent
unfolding find_events_by_prn_id_after
prn_catchup_events store l prn_id after_event_number =
    find_events_by_prn_id_after store l prn_id after_event_number

module _ ⦃d : DecimalArithmetic⦄ where
  unfoldable pub decider : PrnMethod → PrnDecider
  decider create_prn = Commands.create_prn
  decider issue_prn = Commands.issue_prn
  decider cancel_prn_creation = Commands.cancel_prn_creation
  decider cancel_issued_prn = Commands.cancel_issued_prn
  decider accept_prn = Commands.accept_prn
  decider reject_prn = Commands.reject_prn

  -- `service[method](ledgerId, payload, createdBy)`
  unfoldable pub prn_command :
      PrnMethod
      → WasteBalanceLedgerId
      → PrnPayload
      → LedgerUserSummary
      → ℕ
      → Storage
      → Storage
      → Storage
      → Result PrnCommandResult × Storage
  prn_command method = run_prn_command (decider method)

  unfoldable pub commit_summary_log_submitted_event :
      WasteBalanceLedgerId
      → SummaryLogSubmittedPayload
      → LedgerUserSummary
      → ℕ
      → Storage
      → Storage
      → Storage
      → Result (List LedgerEvent) × Storage
  commit_summary_log_submitted_event l submission created_by created_at seen seen' store =
      let (state, head) = fold seen seen' l in
      append l head (Commands.submit_summary_log state submission) created_by created_at store
