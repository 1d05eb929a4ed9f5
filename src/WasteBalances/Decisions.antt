-- ===== src/WasteBalances/Decisions.antt =====
-- What the six PRN deciders decide, in one table.
use epr_backend.Prelude.{◌≡◌, refl, Bool, true, not, [], ◌∷◌, ℤ, ltb_ℤ, ok, if◌then◌else◌, arith}
use epr_backend.Decimals.{DecimalArithmetic}
use epr_backend.WasteBalances.Schema.{
  LedgerEventKind, prn_created, prn_issued, prn_creation_cancelled, prn_cancelled_after_issue,
  prn_accepted, prn_rejected, LedgerBalanceSnapshot, PrnPayload, prn,
}
use epr_backend.WasteBalances.ClosingBalance.{
  closing_for_prn, moved, closing_for_prn_created, closing_for_prn_issued,
  closing_for_prn_creation_cancelled, closing_for_prn_cancelled_after_issue,
}
use epr_backend.WasteBalances.Commands.{
  BalanceEvent, PrnCommandRejection, insufficient_available_balance, insufficient_total_balance,
  no_ledger, PrnDecision, committed_events, rejected,
}
use epr_backend.WasteBalances.Service.{
  PrnMethod, create_prn, issue_prn, cancel_prn_creation, cancel_issued_prn, accept_prn, reject_prn,
  decider,
}
use epr_backend.WasteBalances.Commands

abbrev pub event_kind : PrnMethod → LedgerEventKind
event_kind create_prn = prn_created
event_kind issue_prn = prn_issued
event_kind cancel_prn_creation = prn_creation_cancelled
event_kind cancel_issued_prn = prn_cancelled_after_issue
event_kind accept_prn = prn_accepted
event_kind reject_prn = prn_rejected

-- Creation needs available balance, and issue total balance.
abbrev pub covered : PrnMethod → LedgerBalanceSnapshot → ℤ → Bool
covered create_prn b x = not (ltb_ℤ b.available_amount x)
covered issue_prn b x = not (ltb_ℤ b.amount x)
covered _ b x = true

abbrev pub shortfall : PrnMethod → PrnCommandRejection
shortfall create_prn = insufficient_available_balance
shortfall _ = insufficient_total_balance

abbrev pub decided_event : PrnMethod → LedgerBalanceSnapshot → PrnPayload → BalanceEvent
decided_event m b p = record {
  kind = event_kind m;
  payload = prn p;
  opening_balance = b;
  closing_balance = moved b (event_kind m) p.amount;
}

module _ ⦃d : DecimalArithmetic⦄ where
  pub closing_for_prn_lem :
      (m : PrnMethod) (b : LedgerBalanceSnapshot) (x : ℤ)
      → closing_for_prn b (event_kind m) x ≡ ok (moved b (event_kind m) x)
  unfolding closing_for_prn
  closing_for_prn_lem create_prn b x = closing_for_prn_created b x
  closing_for_prn_lem issue_prn b x = closing_for_prn_issued b x
  closing_for_prn_lem cancel_prn_creation b x = closing_for_prn_creation_cancelled b x
  closing_for_prn_lem cancel_issued_prn b x = closing_for_prn_cancelled_after_issue b x
  closing_for_prn_lem accept_prn b x = refl
  closing_for_prn_lem reject_prn b x = refl

  pub decider_lem :
      (m : PrnMethod) (b : LedgerBalanceSnapshot) (p : PrnPayload)
      → decider m b p ≡ (
          if covered m b p.amount
          then ok (committed_events (decided_event m b p ∷ []))
          else ok (rejected (shortfall m)))
  unfolding decider Commands.create_prn Commands.issue_prn Commands.cancel_prn_creation
      Commands.cancel_issued_prn Commands.accept_prn Commands.reject_prn
  decider_lem create_prn b p = ground (arith, closing_for_prn_created b p.amount)
  decider_lem issue_prn b p = ground (arith, closing_for_prn_issued b p.amount)
  decider_lem cancel_prn_creation b p =
      ground (arith, closing_for_prn_creation_cancelled b p.amount)
  decider_lem cancel_issued_prn b p =
      ground (arith, closing_for_prn_cancelled_after_issue b p.amount)
  decider_lem accept_prn b p = ground (arith, closing_for_prn_lem accept_prn b p.amount)
  decider_lem reject_prn b p = ground (arith, closing_for_prn_lem reject_prn b p.amount)
