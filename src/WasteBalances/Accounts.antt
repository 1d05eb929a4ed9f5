-- ===== src/WasteBalances/Accounts.antt =====
-- What a balance is: the latest credit total, less what was issued and not cancelled; the available
-- part of it leaves out what is created and neither issued nor cancelled.
use epr_backend.Prelude.{
  refl, length, some, ap, none, Option, subst, ℕ, ◌+◌, ◌≡◌, ◌∙◌, List, [], ◌∷◌, ℤ, pos, ◌+ℤ◌, ◌-ℤ◌,
  +ℤ_parts, -ℤ_parts, eq_of_parts, arith, ok,
}
use epr_backend.WasteBalances.Schema.{
  zero_balance, WasteBalanceLedgerId, LedgerEventKind, summary_log_submitted, prn_created,
  prn_issued, prn_creation_cancelled, prn_cancelled_after_issue, prn_accepted, prn_rejected,
  LedgerBalanceSnapshot, LedgerEvent, Payload, submission, prn,
}
use epr_backend.WasteBalances.CurrentBalance.{WasteBalance, current_waste_balance}
use epr_backend.WasteBalances.Repository.{Storage, in_ledger}
use epr_backend.WasteBalances.Slots.{last_number, balance_after, credit_total_after}
use epr_backend.WasteBalances.Folding.{latest_at, find_latest_in_ledger_by_kind_lem}
use epr_backend.WasteBalances.Chain.{IsLedgerStore, IsChain, credit_after, closing_from}
use epr_backend.WasteBalances.ClosingBalance.{
  closing_for_prn_created, closing_for_prn_issued, closing_for_prn_creation_cancelled,
  closing_for_prn_cancelled_after_issue, closing_for_prn, moved, credited,
  closing_for_summary_log_submitted_lem,
}
use epr_backend.Decimals.{DecimalArithmetic}

-- The amounts that the PRN events of a ledger carry, by kind.
pub record Totals : Type 0 where
  pub created : ℤ
  pub issued : ℤ
  pub creation_cancelled : ℤ
  pub cancelled_after_issue : ℤ

abbrev pub no_totals : Totals
no_totals = record {
  created = pos 0;
  issued = pos 0;
  creation_cancelled = pos 0;
  cancelled_after_issue = pos 0;
}

abbrev counted : LedgerEventKind → ℤ → Totals → Totals
counted prn_created x t = record t { created = x +ℤ t.created }
counted prn_issued x t = record t { issued = x +ℤ t.issued }
counted prn_creation_cancelled x t = record t { creation_cancelled = x +ℤ t.creation_cancelled }
counted prn_cancelled_after_issue x t = record t {
  cancelled_after_issue = x +ℤ t.cancelled_after_issue;
}
counted _ x t = t

abbrev counted_payload : LedgerEventKind → Payload → Totals → Totals
counted_payload kind (submission _) t = t
counted_payload kind (prn p) t = counted kind p.amount t

abbrev pub totals : List LedgerEvent → Totals
totals [] = no_totals
totals (e ∷ es) = counted_payload e.kind e.payload (totals es)

-- The balance that the totals account for, over a start `b` at credit total `c`.
abbrev pub accounted : LedgerBalanceSnapshot → ℤ → ℤ → Totals → LedgerBalanceSnapshot
accounted b c credit t = record {
  amount = b.amount +ℤ (credit -ℤ c) -ℤ t.issued +ℤ t.cancelled_after_issue;
  available_amount =
      b.available_amount
      +ℤ (credit -ℤ c)
      -ℤ t.created
      +ℤ t.creation_cancelled
      +ℤ t.cancelled_after_issue;
}

ruleset sums = (arith, +ℤ_parts, -ℤ_parts, eq_of_parts)

snapshot_eq :
    (a b : LedgerBalanceSnapshot)
    → a.amount ≡ b.amount
    → a.available_amount ≡ b.available_amount
    → a ≡ b
snapshot_eq a b p q = λ i. record { amount = p i; available_amount = q i }

step_moved :
    (kind : LedgerEventKind) (x : ℤ) (b : LedgerBalanceSnapshot) (c credit : ℤ) (t : Totals)
    → accounted (moved b kind x) c credit t ≡ accounted b c credit (counted kind x t)
step_moved prn_created x b c credit t = snapshot_eq _ _ (omega sums) (omega sums)
step_moved _ x b c credit t = snapshot_eq _ _ (omega sums) (omega sums)

step_credited :
    (b : LedgerBalanceSnapshot) (total c credit : ℤ) (t : Totals)
    → accounted (credited b total c) total credit t ≡ accounted b c credit t
step_credited b total c credit t = snapshot_eq _ _ (omega sums) (omega sums)

nothing_accounted : (b : LedgerBalanceSnapshot) (c : ℤ) → b ≡ accounted b c c no_totals
nothing_accounted b c = snapshot_eq _ _ (omega sums) (omega sums)

module _ ⦃d : DecimalArithmetic⦄ where
  closing_moved :
      (kind : LedgerEventKind) (b closing : LedgerBalanceSnapshot) (x : ℤ)
      → closing_for_prn b kind x ≡ ok closing
      → closing ≡ moved b kind x
  unfolding closing_for_prn
  closing_moved summary_log_submitted b closing x h = cc
  closing_moved prn_created b closing x h = cc (h, closing_for_prn_created b x)
  closing_moved prn_issued b closing x h = cc (h, closing_for_prn_issued b x)
  closing_moved prn_creation_cancelled b closing x h =
      cc (h, closing_for_prn_creation_cancelled b x)
  closing_moved prn_cancelled_after_issue b closing x h =
      cc (h, closing_for_prn_cancelled_after_issue b x)
  closing_moved prn_accepted b closing x h = cc
  closing_moved prn_rejected b closing x h = cc

  step_accounted :
      (e : LedgerEvent) (payload : Payload) (b : LedgerBalanceSnapshot) (c credit : ℤ) (t : Totals)
      → closing_from b e.kind payload c ≡ ok e.closing_balance
      → accounted e.closing_balance (credit_after payload c) credit t
        ≡ accounted b c credit (counted_payload e.kind payload t)
  step_accounted e (submission p) b c credit t h =
      let q : e.closing_balance ≡ credited b p.credit_total c =
        cc (h, closing_for_summary_log_submitted_lem b p.credit_total c) in
      rw q (step_credited b p.credit_total c credit t)
  step_accounted e (prn p) b c credit t h =
      rw (closing_moved e.kind b e.closing_balance p.amount h)
        (step_moved e.kind p.amount b c credit t)

  pub balance_accounts :
      (n : ℕ) (b : LedgerBalanceSnapshot) (c : ℤ) (es : List LedgerEvent)
      → IsChain n b c es
      → balance_after b es ≡ accounted b c (credit_total_after c es) (totals es)
  balance_accounts n b c [] h = nothing_accounted b c
  balance_accounts n b c (e ∷ es) h =
      balance_accounts (n + 1) e.closing_balance (credit_after e.payload c) es h.1
      ∙ step_accounted e e.payload b c (credit_total_after (credit_after e.payload c) es)
          (totals es)
          (subst (λ o. closing_from o e.kind e.payload c ≡ ok e.closing_balance) h.0.opens
            h.0.closes)

-- The balance of a ledger by its totals: pending is what is created and neither cancelled nor
-- issued.
abbrev pub balance_report : WasteBalanceLedgerId → List LedgerEvent → Option WasteBalance
balance_report l [] = none
balance_report l (e ∷ es) =
    let t = totals (e ∷ es) in
    let credit = credit_total_after (pos 0) (e ∷ es) in
    let amount = credit -ℤ t.issued +ℤ t.cancelled_after_issue in
    some (record {
      ledger_id = l;
      amount = amount;
      available_amount = amount -ℤ (t.created -ℤ t.creation_cancelled -ℤ t.issued);
      event_number = length (e ∷ es);
      credit_total = credit;
    })

rearranged :
    (b : LedgerBalanceSnapshot) (credit : ℤ) (t : Totals)
    → b ≡ accounted zero_balance (pos 0) credit t
    → b ≡ record {
      amount = credit -ℤ t.issued +ℤ t.cancelled_after_issue;
      available_amount =
          credit
          -ℤ t.issued
          +ℤ t.cancelled_after_issue
          -ℤ (t.created -ℤ t.creation_cancelled -ℤ t.issued);
    }
rearranged b credit t h = h ∙ snapshot_eq _ _ (omega sums) (omega sums)

module _ ⦃d : DecimalArithmetic⦄ where
  reported :
      (e : LedgerEvent) (es : List LedgerEvent) (l : WasteBalanceLedgerId) (store : Storage)
      → in_ledger l store ≡ e ∷ es
      → IsChain 0 zero_balance (pos 0) (e ∷ es)
      → current_waste_balance store store l ≡ balance_report l (e ∷ es)
  unfolding current_waste_balance
  reported e es l store q h =
      let (x, p, n, r) = last_number 0 zero_balance (pos 0) e es h in
      let latest = latest_at (e ∷ es) store l q ∙ p in
      let credit =
        find_latest_in_ledger_by_kind_lem store l (rw q h) ∙ ap (credit_total_after (pos 0)) q in
      let balance = r ∙ balance_accounts 0 zero_balance (pos 0) (e ∷ es) h in
      ground (
        arith,
        latest,
        n,
        credit,
        rearranged x.closing_balance (credit_total_after (pos 0) (e ∷ es)) (totals (e ∷ es))
            balance,
      )

  at_events :
      (es : List LedgerEvent) (l : WasteBalanceLedgerId) (store : Storage)
      → in_ledger l store ≡ es
      → IsChain 0 zero_balance (pos 0) es
      → current_waste_balance store store l ≡ balance_report l es
  unfolding current_waste_balance
  at_events [] l store q h = ground (arith, latest_at [] store l q)
  at_events (e ∷ es) l store q h = reported e es l store q h

  -- The current balance of a well-formed ledger: the latest credit total, less what was issued,
  -- plus what was cancelled after issue; and the available part leaves out what is pending.
  pub current_waste_balance_accounts :
      (store : Storage) (l : WasteBalanceLedgerId)
      → IsLedgerStore store
      → current_waste_balance store store l ≡ balance_report l (in_ledger l store)
  current_waste_balance_accounts store l h = at_events (in_ledger l store) l store refl (h l)
