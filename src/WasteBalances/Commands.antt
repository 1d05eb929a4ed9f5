-- ===== src/WasteBalances/Commands.antt =====
-- Code: src/waste-balances/domain/commands.js.
use epr_backend.Prelude.{
  Option, none, some, List, [], ◌∷◌, ℤ, pos, ltb_ℤ, if◌then◌else◌, Result, ok, ◌>>=◌,
}
use epr_backend.Decimals.{DecimalArithmetic}
use epr_backend.WasteBalances.Schema.{
  LedgerEventKind, summary_log_submitted, prn_created, prn_issued, prn_creation_cancelled,
  prn_cancelled_after_issue, prn_accepted, prn_rejected, LedgerBalanceSnapshot, zero_balance,
  SummaryLogSubmittedPayload, PrnPayload, Payload, submission, prn,
}
use epr_backend.WasteBalances.ClosingBalance.{closing_for_summary_log_submitted, closing_for_prn}

pub record LedgerState : Type 0 where
  pub balance : LedgerBalanceSnapshot
  pub credit_total : ℤ

pub record BalanceEvent : Type 0 where
  pub kind : LedgerEventKind
  pub payload : Payload
  pub opening_balance : LedgerBalanceSnapshot
  pub closing_balance : LedgerBalanceSnapshot

-- `PRN_COMMAND_REJECTION`
pub data PrnCommandRejection : Type 0 where
  no_ledger insufficient_available_balance insufficient_total_balance : PrnCommandRejection

pub data PrnDecision : Type 0 where
  committed_events : List BalanceEvent → PrnDecision
  rejected : PrnCommandRejection → PrnDecision

abbrev pub empty_state : LedgerState
empty_state = record { balance = zero_balance; credit_total = pos 0 }

-- `state ?? EMPTY_STATE`
abbrev pub state_or_empty : Option LedgerState → LedgerState
state_or_empty none = empty_state
state_or_empty (some s) = s

module _ ⦃d : DecimalArithmetic⦄ where
  unfoldable pub submit_summary_log :
      Option LedgerState → SummaryLogSubmittedPayload → List BalanceEvent
  submit_summary_log state p =
      let s = state_or_empty state in
      record {
        kind = summary_log_submitted;
        payload = submission p;
        opening_balance = s.balance;
        closing_balance = closing_for_summary_log_submitted s.balance p.credit_total s.credit_total;
      }
      ∷ []

  -- A decider that could throw returns a `Result`.
  unfoldable pub committed :
      LedgerEventKind → LedgerBalanceSnapshot → PrnPayload → Result PrnDecision
  committed kind opening payload = do
    closing ← closing_for_prn opening kind payload.amount
    ok (
        committed_events (
          record {
            kind = kind;
            payload = prn payload;
            opening_balance = opening;
            closing_balance = closing;
          }
          ∷ []))

  unfoldable pub create_prn : LedgerBalanceSnapshot → PrnPayload → Result PrnDecision
  unfolding committed
  create_prn balance payload =
      if ltb_ℤ balance.available_amount payload.amount
      then ok (rejected insufficient_available_balance)
      else committed prn_created balance payload

  unfoldable pub issue_prn : LedgerBalanceSnapshot → PrnPayload → Result PrnDecision
  unfolding committed
  issue_prn balance payload =
      if ltb_ℤ balance.amount payload.amount
      then ok (rejected insufficient_total_balance)
      else committed prn_issued balance payload

  unfoldable pub cancel_prn_creation : LedgerBalanceSnapshot → PrnPayload → Result PrnDecision
  unfolding committed
  cancel_prn_creation = committed prn_creation_cancelled

  unfoldable pub cancel_issued_prn : LedgerBalanceSnapshot → PrnPayload → Result PrnDecision
  unfolding committed
  cancel_issued_prn = committed prn_cancelled_after_issue

  unfoldable pub accept_prn : LedgerBalanceSnapshot → PrnPayload → Result PrnDecision
  unfolding committed
  accept_prn = committed prn_accepted

  unfoldable pub reject_prn : LedgerBalanceSnapshot → PrnPayload → Result PrnDecision
  unfolding committed
  reject_prn = committed prn_rejected
