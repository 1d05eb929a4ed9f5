-- ===== src/WasteBalances/Concurrency.antt =====
-- Commands under concurrent writers: whatever other writers appended between a command's reads and
-- its write, the ledgers stay well-formed, and a command that commits behaves as if it had run
-- alone at its write.
use epr_backend.Prelude.{
  ◌<ℤ◌, ℕ, ◌+◌, ◌<◌, ◌≡◌, refl, sym, ◌∙◌, ap, inl, inr, ◌≢◌, true, false, List, [], ◌∷◌, pos, ltb_ℤ,
  ok, err, slot_conflict, length, arith, Bool-cases,
}
use epr_backend.WasteBalances.Appending.{
  Grows-refl, Grows, IsNext, IsLedgerStore-push, append_events_one,
}
use epr_backend.WasteBalances.Schema.{
  validate_ledger_event_insert, zero_balance, LedgerEvent, LedgerUserSummary, WasteBalanceLedgerId,
  PrnPayload,
}
use epr_backend.Decimals.{DecimalArithmetic}
use epr_backend.WasteBalances.Repository.{Storage, in_ledger}
use epr_backend.WasteBalances.Service.{PrnMethod, committed, prn_command}
use epr_backend.WasteBalances.Chain.{IsLedgerStore}
use epr_backend.WasteBalances.Slots.{balance_after, append_events_taken}
use epr_backend.WasteBalances.Decisions.{covered, closing_for_prn_lem}
use epr_backend.WasteBalances.Writes.{prn_event, prn_outcome, seen_same, prn_command_lem}

module _ ⦃d : DecimalArithmetic⦄ (l : WasteBalanceLedgerId) (seen seen' store : Storage)
    (ledgers : IsLedgerStore store) (first : Grows l seen seen') (second : Grows l seen' store)
    (m : PrnMethod) (p : PrnPayload) (created_by : LedgerUserSummary) (now : ℕ) where
  next_of_slot :
      (es : List LedgerEvent)
      → in_ledger l seen ≡ es
      → (prn_event m l p created_by now es).number ≡ length (in_ledger l store) + 1
      → in_ledger l store ≡ es
  next_of_slot es q n =
      (seen_same l seen seen' store ledgers first second
        (let r : length (in_ledger l seen) ≡ length es = ap length q in omega arith)).0
      ∙ q

  prn_event-IsNext :
      (es : List LedgerEvent)
      → in_ledger l seen ≡ es
      → (prn_event m l p created_by now es).number ≡ length (in_ledger l store) + 1
      → validate_ledger_event_insert (prn_event m l p created_by now es)
        ≡ ok (prn_event m l p created_by now es)
      → IsNext store (prn_event m l p created_by now es)
  prn_event-IsNext es q n valid = rw (next_of_slot es q n) (record {
    numbered = refl;
    opens = refl;
    closes = closing_for_prn_lem m (balance_after zero_balance es) p.amount;
    valid = valid;
  })

  prn_outcome-IsLedgerStore :
      (es : List LedgerEvent)
      → in_ledger l seen ≡ es
      → IsLedgerStore (prn_outcome m l p created_by now es store).1
  prn_outcome-IsLedgerStore [] q = ledgers
  prn_outcome-IsLedgerStore (e ∷ es) q =
      elim (Bool-cases (covered m (balance_after zero_balance (e ∷ es)) p.amount)) [
        | inl enough ↦
            rw enough
              (elim (append_events_one store (prn_event m l p created_by now (e ∷ es)) ledgers) [
                | inl (x, refused) ↦ rw refused ledgers
                | inr (appended, numbered, valid) ↦ rw appended (
                    IsLedgerStore-push store (prn_event m l p created_by now (e ∷ es)) ledgers
                      (prn_event-IsNext (e ∷ es) q numbered valid))
              ])
        | inr short ↦ rw short ledgers
      ]

  -- With well-formed ledgers, a PRN command leaves every ledger of the store well-formed, whatever
  -- other writers appended to its ledger between its reads and its write, and whether it commits,
  -- is rejected or throws.
  pub prn_command-IsLedgerStore :
      IsLedgerStore (prn_command m l p created_by now seen seen' store).1
  prn_command-IsLedgerStore =
      rw (prn_command_lem l seen seen' store ledgers first second m p created_by now)
        (elim (Bool-cases (ltb_ℤ (pos 0) p.amount)) [
          | inl positive ↦ rw positive (prn_outcome-IsLedgerStore (in_ledger l seen) refl)
          | inr other ↦ rw other ledgers
        ])

  prn_outcome_appends :
      (es : List LedgerEvent) {events : List LedgerEvent}
      → in_ledger l seen ≡ es
      → (prn_outcome m l p created_by now es store).0 ≡ ok (committed events)
      → in_ledger l store ≡ es
  prn_outcome_appends [] q h = cc
  prn_outcome_appends (e ∷ es) q h =
      elim (Bool-cases (covered m (balance_after zero_balance (e ∷ es)) p.amount)) [
        | inl enough ↦
            elim (append_events_one store (prn_event m l p created_by now (e ∷ es)) ledgers) [
              | inl (x, refused) ↦ ground (arith, refused, enough)
              | inr (appended, numbered, valid) ↦ next_of_slot (e ∷ es) q numbered
            ]
        | inr short ↦ ground (arith, short)
      ]

  positive_outcome :
      ltb_ℤ (pos 0) p.amount ≡ true
      → prn_command m l p created_by now seen seen' store
        ≡ prn_outcome m l p created_by now (in_ledger l seen) store
  positive_outcome positive =
      rw (prn_command_lem l seen seen' store ledgers first second m p created_by now, positive)

  refused_outcome :
      {events : List LedgerEvent}
      → ltb_ℤ (pos 0) p.amount ≡ false
      → (prn_command m l p created_by now seen seen' store).0 ≡ ok (committed events)
      → ⊥
  refused_outcome other h =
      ground
        (arith, other, prn_command_lem l seen seen' store ledgers first second m p created_by now)

-- The same command with no other writer between its reads and its write.
module _ ⦃d : DecimalArithmetic⦄ (l : WasteBalanceLedgerId) (seen seen' store : Storage)
    (ledgers : IsLedgerStore store) (first : Grows l seen seen') (second : Grows l seen' store)
    (m : PrnMethod) (p : PrnPayload) (created_by : LedgerUserSummary) (now : ℕ) where
  -- With well-formed ledgers, and a ledger that other writers only append to between the two reads
  -- and the write of a PRN command: a command that commits has the reply and leaves the store that
  -- it would have had with no other writer, all its reads at the store that its write met.
  pub prn_command_serial :
      {events : List LedgerEvent}
      → (prn_command m l p created_by now seen seen' store).0 ≡ ok (committed events)
      → prn_command m l p created_by now seen seen' store
        ≡ prn_command m l p created_by now store store store
  prn_command_serial h = elim (Bool-cases (ltb_ℤ (pos 0) p.amount)) [
    | inl positive ↦
        let mine =
          positive_outcome l seen seen' store ledgers first second m p created_by now positive in
        let alone =
          positive_outcome l store store store ledgers (Grows-refl l store) (Grows-refl l store) m p
            created_by now positive in
        let same =
          prn_outcome_appends l seen seen' store ledgers first second m p created_by now
            (in_ledger l seen) refl (rw mine at h) in
        mine ∙ ap (λ es. prn_outcome m l p created_by now es store) (sym same) ∙ sym alone
    | inr other ↦
        absurd (refused_outcome l seen seen' store ledgers first second m p created_by now other h)
  ]

  stale_outcome :
      (es : List LedgerEvent)
      → in_ledger l seen ≡ es
      → length es < length (in_ledger l store)
      → es ≢ []
      → covered m (balance_after zero_balance es) p.amount ≡ true
      → prn_outcome m l p created_by now es store ≡ (err (slot_conflict (length es + 1)), store)
  stale_outcome [] q n ne c = absurd (ne refl)
  stale_outcome (e ∷ es) q n ne c = rw (
    c,
    append_events_taken store (prn_event m l p created_by now (e ∷ es)) zero_balance (pos 0)
        (ledgers l) (omega arith) (omega arith),
  )

  -- With well-formed ledgers: a PRN command on a positive amount that read a ledger with events
  -- and found it covered, and whose ledger has gained events by the time of its write, throws the
  -- conflict on the slot after the events that it read, and leaves the store as it was.
  pub prn_command_stale :
      length (in_ledger l seen) < length (in_ledger l store)
      → in_ledger l seen ≢ []
      → pos 0 <ℤ p.amount
      → covered m (balance_after zero_balance (in_ledger l seen)) p.amount ≡ true
      → prn_command m l p created_by now seen seen' store
        ≡ (err (slot_conflict (length (in_ledger l seen) + 1)), store)
  prn_command_stale n ne positive c =
      positive_outcome l seen seen' store ledgers first second m p created_by now (ground arith)
      ∙ stale_outcome (in_ledger l seen) refl n ne c
