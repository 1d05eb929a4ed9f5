-- ===== src/WasteBalances/ClosingBalance.antt =====
-- Code: src/waste-balances/domain/ledger-closing-balance.js.
use epr_backend.Prelude.{◌≡◌, ℤ, ◌+ℤ◌, ◌-ℤ◌, Result, ok, err, unknown_kind}
use epr_backend.Decimals.{
  DecimalArithmetic, number, decimal, add, subtract, to_number, add_lem, subtract_lem,
}
use epr_backend.WasteBalances.Schema.{
  LedgerEventKind, summary_log_submitted, prn_created, prn_issued, prn_creation_cancelled,
  prn_cancelled_after_issue, prn_accepted, prn_rejected, LedgerBalanceSnapshot,
}

module _ ⦃d : DecimalArithmetic⦄ where
  unfoldable pub closing_for_summary_log_submitted :
      LedgerBalanceSnapshot → ℤ → ℤ → LedgerBalanceSnapshot
  closing_for_summary_log_submitted opening credit_total previous_credit_total =
      let delta = subtract (number credit_total) (number previous_credit_total) in
      record {
        amount = to_number (decimal (add (number opening.amount) (decimal delta)));
        available_amount =
            to_number (decimal (add (number opening.available_amount) (decimal delta)));
      }

  unfoldable pub closing_for_prn :
      LedgerBalanceSnapshot → LedgerEventKind → ℤ → Result LedgerBalanceSnapshot
  closing_for_prn opening prn_created prn_amount = ok (record opening {
    available_amount =
        to_number (decimal (subtract (number opening.available_amount) (number prn_amount)));
  })
  closing_for_prn opening prn_issued prn_amount = ok (record opening {
    amount = to_number (decimal (subtract (number opening.amount) (number prn_amount)));
  })
  closing_for_prn opening prn_creation_cancelled prn_amount = ok (record opening {
    available_amount =
        to_number (decimal (add (number opening.available_amount) (number prn_amount)));
  })
  closing_for_prn opening prn_cancelled_after_issue prn_amount = ok (record {
    amount = to_number (decimal (add (number opening.amount) (number prn_amount)));
    available_amount =
        to_number (decimal (add (number opening.available_amount) (number prn_amount)));
  })
  closing_for_prn opening prn_accepted prn_amount = ok opening
  closing_for_prn opening prn_rejected prn_amount = ok opening
  closing_for_prn opening summary_log_submitted prn_amount = err unknown_kind

-- The same in integers: what a PRN event of each kind does to the two amounts.
abbrev pub moved : LedgerBalanceSnapshot → LedgerEventKind → ℤ → LedgerBalanceSnapshot
moved b prn_created x = record b { available_amount = b.available_amount -ℤ x }
moved b prn_issued x = record b { amount = b.amount -ℤ x }
moved b prn_creation_cancelled x = record b { available_amount = b.available_amount +ℤ x }
moved b prn_cancelled_after_issue x = record {
  amount = b.amount +ℤ x;
  available_amount = b.available_amount +ℤ x;
}
moved b _ x = b

abbrev pub credited : LedgerBalanceSnapshot → ℤ → ℤ → LedgerBalanceSnapshot
credited b total previous = record {
  amount = b.amount +ℤ (total -ℤ previous);
  available_amount = b.available_amount +ℤ (total -ℤ previous);
}

module _ ⦃d : DecimalArithmetic⦄ where
  pub closing_for_summary_log_submitted_lem :
      (b : LedgerBalanceSnapshot) (total previous : ℤ)
      → closing_for_summary_log_submitted b total previous ≡ credited b total previous
  unfolding closing_for_summary_log_submitted
  closing_for_summary_log_submitted_lem b total previous = rw (add_lem, add_lem, subtract_lem)

  pub closing_for_prn_created :
      (b : LedgerBalanceSnapshot) (x : ℤ)
      → closing_for_prn b prn_created x ≡ ok (moved b prn_created x)
  unfolding closing_for_prn
  closing_for_prn_created b x = rw (subtract_lem)

  pub closing_for_prn_issued :
      (b : LedgerBalanceSnapshot) (x : ℤ)
      → closing_for_prn b prn_issued x ≡ ok (moved b prn_issued x)
  unfolding closing_for_prn
  closing_for_prn_issued b x = rw (subtract_lem)

  pub closing_for_prn_creation_cancelled :
      (b : LedgerBalanceSnapshot) (x : ℤ)
      → closing_for_prn b prn_creation_cancelled x ≡ ok (moved b prn_creation_cancelled x)
  unfolding closing_for_prn
  closing_for_prn_creation_cancelled b x = rw (add_lem)

  pub closing_for_prn_cancelled_after_issue :
      (b : LedgerBalanceSnapshot) (x : ℤ)
      → closing_for_prn b prn_cancelled_after_issue x ≡ ok (moved b prn_cancelled_after_issue x)
  unfolding closing_for_prn
  closing_for_prn_cancelled_after_issue b x = rw (add_lem, add_lem)
