-- ===== src/WasteBalances/Cover.antt =====
-- What a PRN command does on every branch, and that it never overdraws a balance.
use epr_backend.WasteBalances.Service.{
  create_prn, issue_prn, PrnMethod, PrnCommandResult, committed, command_rejected, prn_command,
}
use epr_backend.WasteBalances.Slots.{in_ledger-push_self, balance_after, append_events_next}
use epr_backend.Prelude.{
  ap, +ℤ_parts, ◌∙◌, sym, -ℤ_parts, inr, subst, inl, Bool-cases, true, ◌<ℤ◌, ◌≤ℤ◌, ℤ, ℕ, ◌≡◌, refl,
  not, some, List, [], ◌∷◌, ◌++◌, pos, ltb_ℤ, Result, ok, err, bad_implementation, if◌then◌else◌,
  arith,
}
use epr_backend.WasteBalances.Decisions.{event_kind, covered, shortfall}
use epr_backend.WasteBalances.ClosingBalance.{moved}
use epr_backend.WasteBalances.Schema.{
  LedgerBalanceSnapshot, zero_balance, LedgerEvent, LedgerUserSummary, WasteBalanceLedgerId,
  PrnPayload, validate_ledger_event_insert,
}
use epr_backend.Decimals.{DecimalArithmetic}
use epr_backend.WasteBalances.Commands.{no_ledger}
use epr_backend.WasteBalances.Repository.{Storage, in_ledger}
use epr_backend.WasteBalances.Chain.{IsLedgerStore}
use epr_backend.WasteBalances.Appending.{Grows-refl}
use epr_backend.WasteBalances.Writes.{prn_event, prn_outcome, prn_command_lem}

module _ (m : PrnMethod) (l : WasteBalanceLedgerId) (p : PrnPayload)
    (created_by : LedgerUserSummary) (now : ℕ) where
  -- The outcome of a command on the events of its ledger: the reply, and the store after it.
  abbrev pub outcome : List LedgerEvent → Storage → Result PrnCommandResult × Storage
  outcome [] store = (ok (command_rejected no_ledger), store)
  outcome (e ∷ es) store =
      if covered m (balance_after zero_balance (e ∷ es)) p.amount
      then (
        ok (committed (prn_event m l p created_by now (e ∷ es) ∷ [])),
        store ++ prn_event m l p created_by now (e ∷ es) ∷ [],
      )
      else (ok (command_rejected (shortfall m)), store)

accredited_valid :
    (m : PrnMethod) (l : WasteBalanceLedgerId) (a : ℕ) (p : PrnPayload)
    (created_by : LedgerUserSummary) (now : ℕ) (es : List LedgerEvent)
    → l.accreditation_id ≡ some a
    → validate_ledger_event_insert (prn_event m l p created_by now es)
      ≡ ok (prn_event m l p created_by now es)
unfolding validate_ledger_event_insert
accredited_valid m l a p created_by now es h = ground arith

module _ ⦃d : DecimalArithmetic⦄ (store : Storage) (ledgers : IsLedgerStore store) (m : PrnMethod)
    (l : WasteBalanceLedgerId) (a : ℕ) (accredited : l.accreditation_id ≡ some a) (p : PrnPayload)
    (created_by : LedgerUserSummary) (now : ℕ) where
  outcome_at :
      (es : List LedgerEvent)
      → in_ledger l store ≡ es
      → prn_outcome m l p created_by now es store ≡ outcome m l p created_by now es store
  outcome_at [] q = refl
  outcome_at (e ∷ es) q = rw (
      append_events_next store (prn_event m l p created_by now (e ∷ es)) zero_balance (pos 0)
        (ledgers l) (rw q) (accredited_valid m l a p created_by now (e ∷ es) accredited))

  -- With well-formed ledgers and no other writer, a PRN command in the ledger of an accreditation:
  -- it throws on an amount that is not positive; it is rejected when the ledger has no event; it
  -- is rejected with the kind of shortfall when the available balance does not cover a creation or
  -- the total does not cover an issue; and else it appends its one event and returns it.
  pub prn_command-outcome : prn_command m l p created_by now store store store ≡ (
      if not (ltb_ℤ (pos 0) p.amount)
      then (err bad_implementation, store)
      else outcome m l p created_by now (in_ledger l store) store)
  prn_command-outcome = rw (
    prn_command_lem l store store store ledgers (Grows-refl l store) (Grows-refl l store) m p
        created_by now,
    outcome_at (in_ledger l store) refl,
  )

-- Neither balance is negative.
abbrev pub IsCovered : LedgerBalanceSnapshot → Type 0
IsCovered b = (pos 0 ≤ℤ b.amount) × (pos 0 ≤ℤ b.available_amount)

le_of_enough : (b x : ℤ) → not (ltb_ℤ b x) ≡ true → x ≤ℤ b
le_of_enough b x h = ground arith

covered-moved :
    (m : PrnMethod) (b : LedgerBalanceSnapshot) (x : ℤ)
    → pos 0 <ℤ x
    → covered m b x ≡ true
    → IsCovered b
    → IsCovered (moved b (event_kind m) x)
covered-moved create_prn b x positive enough h =
    (h.0, omega (arith, -ℤ_parts, le_of_enough b.available_amount x enough))
covered-moved issue_prn b x positive enough h =
    (omega (arith, -ℤ_parts, le_of_enough b.amount x enough), h.1)
covered-moved _ b x positive enough h = omega (arith, +ℤ_parts)

balance_after-snoc :
    (b : LedgerBalanceSnapshot) (es : List LedgerEvent) (e : LedgerEvent)
    → balance_after b (es ++ e ∷ []) ≡ e.closing_balance
balance_after-snoc b [] e = refl
balance_after-snoc b (x ∷ es) e = balance_after-snoc x.closing_balance es e

module _ ⦃d : DecimalArithmetic⦄ (store : Storage) (ledgers : IsLedgerStore store) (m : PrnMethod)
    (l : WasteBalanceLedgerId) (a : ℕ) (accredited : l.accreditation_id ≡ some a) (p : PrnPayload)
    (created_by : LedgerUserSummary) (now : ℕ) where
  outcome-IsCovered :
      (es : List LedgerEvent)
      → in_ledger l store ≡ es
      → pos 0 <ℤ p.amount
      → IsCovered (balance_after zero_balance es)
      → IsCovered
          (balance_after zero_balance (in_ledger l (outcome m l p created_by now es store).1))
  outcome-IsCovered [] q positive h = rw q h
  outcome-IsCovered (e ∷ es) q positive h =
      elim (Bool-cases (covered m (balance_after zero_balance (e ∷ es)) p.amount)) [
        | inl enough ↦ rw enough (
            subst IsCovered
              (sym (
                  balance_after-snoc zero_balance (in_ledger l store)
                    (prn_event m l p created_by now (e ∷ es)))
                ∙ ap (balance_after zero_balance)
                    (sym (in_ledger-push_self (prn_event m l p created_by now (e ∷ es)) store)))
              (covered-moved m (balance_after zero_balance (e ∷ es)) p.amount positive enough h))
        | inr short ↦ rw short (rw q h)
      ]

  -- With well-formed ledgers and no other writer, a PRN command in the ledger of an accreditation
  -- leaves both the total and the available balance at zero or above, if both were so before.
  pub prn_command-IsCovered :
      IsCovered (balance_after zero_balance (in_ledger l store))
      → IsCovered (
          balance_after zero_balance
            (in_ledger l (prn_command m l p created_by now store store store).1))
  prn_command-IsCovered h = elim (Bool-cases (ltb_ℤ (pos 0) p.amount)) [
    | inl positive ↦
        rw (prn_command-outcome store ledgers m l a accredited p created_by now, positive)
          (outcome-IsCovered (in_ledger l store) refl (ground arith) h)
    | inr other ↦ rw (prn_command-outcome store ledgers m l a accredited p created_by now, other) h
  ]
