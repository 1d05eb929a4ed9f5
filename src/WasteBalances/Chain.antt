-- ===== src/WasteBalances/Chain.antt =====
-- A well-formed ledger: its events are numbered 1, 2, 3, …, each opens with the closing balance of
-- the one before, and closes with what the code computes from it.
use epr_backend.Prelude.{ℕ, ◌+◌, ◌≡◌, List, [], ◌∷◌, ℤ, pos, Result, ok}
use epr_backend.Decimals.{DecimalArithmetic}
use epr_backend.WasteBalances.Schema.{
  LedgerEventKind, LedgerBalanceSnapshot, zero_balance, Payload, submission, prn, LedgerEvent,
  WasteBalanceLedgerId, validate_ledger_event_insert,
}
use epr_backend.WasteBalances.ClosingBalance.{closing_for_summary_log_submitted, closing_for_prn}
use epr_backend.WasteBalances.Repository.{Storage, in_ledger}

-- The running credit total after a payload.
abbrev pub credit_after : Payload → ℤ → ℤ
credit_after (submission p) previous = p.credit_total
credit_after (prn _) previous = previous

module _ ⦃d : DecimalArithmetic⦄ where
  abbrev pub closing_from :
      LedgerBalanceSnapshot → LedgerEventKind → Payload → ℤ → Result LedgerBalanceSnapshot
  closing_from opening kind (submission p) previous =
      ok (closing_for_summary_log_submitted opening p.credit_total previous)
  closing_from opening kind (prn p) previous = closing_for_prn opening kind p.amount

  pub record IsLink (n : ℕ) (b : LedgerBalanceSnapshot) (c : ℤ) (e : LedgerEvent) : Type 0 where
    pub numbered : e.number ≡ n + 1
    pub opens : e.opening_balance ≡ b
    pub closes : closing_from e.opening_balance e.kind e.payload c ≡ ok e.closing_balance
    pub valid : validate_ledger_event_insert e ≡ ok e

  abbrev pub IsChain : ℕ → LedgerBalanceSnapshot → ℤ → List LedgerEvent → Type 0
  IsChain n b c [] = Unit
  IsChain n b c (e ∷ es) =
      IsLink n b c e × IsChain (n + 1) e.closing_balance (credit_after e.payload c) es

  -- Every ledger in the store is well-formed.
  abbrev pub IsLedgerStore : Storage → Type 0
  IsLedgerStore store =
      (l : WasteBalanceLedgerId) → IsChain 0 zero_balance (pos 0) (in_ledger l store)
