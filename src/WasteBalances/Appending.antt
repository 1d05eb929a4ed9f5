-- ===== src/WasteBalances/Appending.antt =====
-- Appending one event to a store of well-formed ledgers.
use epr_backend.Prelude.{
  append-nil, subst, bad_data, slot_conflict, sequence_error, ap, ◌+◌, ◌≡◌, sym, ◌∙◌, ◌⊎◌, inl, inr,
  List, [], ◌∷◌, ◌++◌, pos, ok, err, Error, length, append-eq_self, ◌==◌, arith, Bool-cases, any,
  get_last?,
}
use epr_backend.Decimals.{DecimalArithmetic}
use epr_backend.WasteBalances.Schema.{
  zero_balance, LedgerEvent, WasteBalanceLedgerId, validate_ledger_event_insert,
}
use epr_backend.WasteBalances.Repository.{
  Storage, matches_ledger, in_ledger, number_of, append_events, push_all,
}
use epr_backend.WasteBalances.Chain.{IsLink, IsChain, IsLedgerStore}
use epr_backend.WasteBalances.Slots.{
  balance_after, credit_total_after, in_ledger-push_self, in_ledger-push_other, matches_ledger_eq,
  IsChain-snoc, number_of_last,
}

validated :
    (e : LedgerEvent)
    → (validate_ledger_event_insert e ≡ ok e) ⊎ (validate_ledger_event_insert e ≡ err bad_data)
unfolding validate_ledger_event_insert
validated e = ground arith

-- The ledger `l` of the store `t` holds that of `s`, and then more events.
abbrev pub Grows : WasteBalanceLedgerId → Storage → Storage → Type 0
Grows l s t = (later : List LedgerEvent) × (in_ledger l t ≡ in_ledger l s ++ later)

pub Grows-refl : (l : WasteBalanceLedgerId) (s : Storage) → Grows l s s
Grows-refl l s = ([], sym (append-nil (in_ledger l s)))

-- A ledger that has grown by no event is the same.
pub Grows-same :
    (l : WasteBalanceLedgerId) (s t : Storage)
    → Grows l s t
    → length (in_ledger l t) ≡ length (in_ledger l s)
    → in_ledger l t ≡ in_ledger l s
Grows-same l s t g n =
    g.1
    ∙ append-eq_self (in_ledger l s) g.0 (
        let p : length (in_ledger l s ++ g.0) ≡ length (in_ledger l t) = ap length (sym g.1) in
        p ∙ n)

module _ ⦃d : DecimalArithmetic⦄ where
  -- The event that follows all events of its ledger.
  abbrev pub IsNext : Storage → LedgerEvent → Type 0
  IsNext store e =
      IsLink (length (in_ledger e.ledger_id store))
        (balance_after zero_balance (in_ledger e.ledger_id store))
        (credit_total_after (pos 0) (in_ledger e.ledger_id store)) e

  pub IsLedgerStore-push :
      (store : Storage) (e : LedgerEvent)
      → IsLedgerStore store
      → IsNext store e
      → IsLedgerStore (store ++ e ∷ [])
  IsLedgerStore-push store e h k l = elim (Bool-cases (matches_ledger e l)) [
    | inl same ↦
        let p : e.ledger_id ≡ l = matches_ledger_eq e l same in
        subst (λ i. IsChain 0 zero_balance (pos 0) (in_ledger i (store ++ e ∷ []))) p
          (rw (in_ledger-push_self e store) (
            IsChain-snoc 0 zero_balance (pos 0) (in_ledger e.ledger_id store) e (h e.ledger_id) (
              let q : 0 + length (in_ledger e.ledger_id store)
                  ≡ length (in_ledger e.ledger_id store) =
                omega arith in
              rw q k)))
    | inr other ↦ rw (in_ledger-push_other e l store other) (h l)
  ]

  -- An append of one event takes the next slot with a valid event, or throws and changes nothing.
  pub append_events_one :
      (store : Storage) (e : LedgerEvent)
      → IsLedgerStore store
      → ((x : Error) × (append_events store (e ∷ []) ≡ (err x, store)))
        ⊎ ((append_events store (e ∷ []) ≡ (ok (e ∷ []), store ++ e ∷ []))
            × (e.number ≡ length (in_ledger e.ledger_id store) + 1)
            × (validate_ledger_event_insert e ≡ ok e))
  unfolding append_events
  append_events_one store e h =
      let last =
        number_of_last zero_balance (pos 0) (in_ledger e.ledger_id store) (h e.ledger_id) in
      elim (Bool-cases (e.number == number_of (get_last? (in_ledger e.ledger_id store)) + 1)) [
        | inl next ↦ elim (validated e) [
          | inl good ↦ inr (rw next (rw (good, push_all)), ground arith, good)
          | inr bad ↦ inl (bad_data, rw next (rw (bad, push_all)))
        ]
        | inr other ↦
            elim (Bool-cases
              (any (λ (f : LedgerEvent). f.number == e.number) (in_ledger e.ledger_id store))) [
                | inl taken ↦ inl (slot_conflict e.number, rw (other, taken))
                | inr free ↦ inl (
                  sequence_error e.number (number_of (get_last? (in_ledger e.ledger_id store)) + 1),
                  rw (other, free),
                )
              ]
      ]
