-- ===== src/WasteBalances/CurrentBalance.antt =====
-- Code: src/waste-balances/application/current-waste-balance.js, src/waste-balances/domain/model.js.
use epr_backend.Prelude.{ℕ, Option, none, some, ℤ, pos}
use epr_backend.WasteBalances.Schema.{
  WasteBalanceLedgerId, LedgerEvent, Payload, submission, prn, summary_log_submitted,
}
use epr_backend.WasteBalances.Repository.{
  Storage, find_latest_in_ledger, find_latest_in_ledger_by_kind,
}

pub record WasteBalance : Type 0 where
  pub ledger_id : WasteBalanceLedgerId
  pub amount : ℤ
  pub available_amount : ℤ
  pub event_number : ℕ
  pub credit_total : ℤ

abbrev pub credit_total_of_payload : Payload → ℤ
credit_total_of_payload (submission p) = p.credit_total
credit_total_of_payload (prn _) = pos 0

-- `latestSubmission ? latestSubmission.payload.creditTotal : 0`
abbrev pub submitted_credit_total : Option LedgerEvent → ℤ
submitted_credit_total none = pos 0
submitted_credit_total (some e) = credit_total_of_payload e.payload

-- The two reads are awaited one after the other: the first sees the store `seen`, the second
-- `seen'`, which may hold later events.
unfoldable pub current_waste_balance :
    Storage → Storage → WasteBalanceLedgerId → Option WasteBalance
current_waste_balance seen seen' l = elim (find_latest_in_ledger seen l) [
  | none ↦ none
  | some latest ↦ some (record {
    ledger_id = l;
    amount = latest.closing_balance.amount;
    available_amount = latest.closing_balance.available_amount;
    event_number = latest.number;
    credit_total =
        submitted_credit_total (find_latest_in_ledger_by_kind seen' l summary_log_submitted);
  })
]
