-- ===== src/WasteBalances/Folding.antt =====
-- The fold of the service in terms of the ledger's events: what a command decides against is the
-- balance after all of them, the last submitted credit total, and their number.
use epr_backend.Prelude.{
  filter-and, sym, ℕ, ◌+◌, ◌≡◌, refl, ap, ◌∙◌, ◌&&◌, Option, none, some, List, [], ◌∷◌, ℤ, pos,
  length, filter, get_last?, arith,
}
use epr_backend.Decimals.{DecimalArithmetic}
use epr_backend.WasteBalances.Schema.{
  summary_log_submitted, LedgerBalanceSnapshot, zero_balance, LedgerEvent, WasteBalanceLedgerId,
  validate_ledger_event_insert,
}
use epr_backend.WasteBalances.Commands.{LedgerState}
use epr_backend.WasteBalances.Repository.{
  Storage, matches_ledger, is_kind, in_ledger, find_latest_in_ledger, find_latest_in_ledger_by_kind,
}
use epr_backend.WasteBalances.CurrentBalance.{submitted_credit_total, credit_total_of_payload}
use epr_backend.WasteBalances.Service.{fold}
use epr_backend.WasteBalances.Chain.{IsChain, credit_after}
use epr_backend.WasteBalances.Slots.{balance_after, credit_total_after, last_number}

abbrev submissions : List LedgerEvent → List LedgerEvent
submissions es = filter (is_kind summary_log_submitted) es

abbrev credit_or : ℤ → Option LedgerEvent → ℤ
credit_or c none = c
credit_or c (some e) = credit_total_of_payload e.payload

credit_or-last :
    (c : ℤ) (e : LedgerEvent) (es : List LedgerEvent)
    → credit_or c (get_last? (e ∷ es))
      ≡ credit_or (credit_total_of_payload e.payload) (get_last? es)
credit_or-last c e [] = refl
credit_or-last c e (f ∷ []) = refl
credit_or-last c e (f ∷ g ∷ es) =
    credit_or-last c f (g ∷ es)
    ∙ sym (credit_or-last (credit_total_of_payload e.payload) f (g ∷ es))

module _ ⦃d : DecimalArithmetic⦄ where
  last_submission :
      (n : ℕ) (b : LedgerBalanceSnapshot) (c : ℤ) (es : List LedgerEvent)
      → IsChain n b c es
      → credit_or c (get_last? (submissions es)) ≡ credit_total_after c es
  unfolding validate_ledger_event_insert
  last_submission n b c [] h = refl
  last_submission n b c (e ∷ es) h = ground (
    arith,
    h.0.valid,
    credit_or-last c e (submissions es),
    last_submission (n + 1) e.closing_balance (credit_after e.payload c) es h.1,
  )

-- What the two reads of a fold give together, from the ledger's events as each read sees them.
abbrev pub snapshot : List LedgerEvent → List LedgerEvent → Option LedgerState × ℕ
snapshot [] later = (none, 0)
snapshot (e ∷ es) later = (
  some (record {
    balance = balance_after zero_balance (e ∷ es);
    credit_total = credit_total_after (pos 0) later;
  }),
  length (e ∷ es),
)

submitted_credit_or : (o : Option LedgerEvent) → submitted_credit_total o ≡ credit_or (pos 0) o
submitted_credit_or none = refl
submitted_credit_or (some e) = refl

module _ ⦃d : DecimalArithmetic⦄ where
  pub find_latest_in_ledger_by_kind_lem :
      (store : Storage) (l : WasteBalanceLedgerId)
      → IsChain 0 zero_balance (pos 0) (in_ledger l store)
      → submitted_credit_total (find_latest_in_ledger_by_kind store l summary_log_submitted)
        ≡ credit_total_after (pos 0) (in_ledger l store)
  unfolding find_latest_in_ledger_by_kind
  find_latest_in_ledger_by_kind_lem store l h =
      submitted_credit_or
        (get_last? (filter (λ e. matches_ledger e l && is_kind summary_log_submitted e) store))
      ∙ ap (λ es. credit_or (pos 0) (get_last? es))
          (filter-and (λ e. matches_ledger e l) (is_kind summary_log_submitted) store)
      ∙ last_submission 0 zero_balance (pos 0) (in_ledger l store) h

  pub latest_at :
      (es : List LedgerEvent) (seen : Storage) (l : WasteBalanceLedgerId)
      → in_ledger l seen ≡ es
      → find_latest_in_ledger seen l ≡ get_last? es
  unfolding find_latest_in_ledger
  latest_at es seen l p = ap get_last? p

  fold_at :
      (es : List LedgerEvent) (seen seen' : Storage) (l : WasteBalanceLedgerId)
      → in_ledger l seen ≡ es
      → IsChain 0 zero_balance (pos 0) es
      → IsChain 0 zero_balance (pos 0) (in_ledger l seen')
      → fold seen seen' l ≡ snapshot es (in_ledger l seen')
  unfolding fold
  fold_at [] seen seen' l p h k = ground (arith, latest_at [] seen l p)
  fold_at (e ∷ es) seen seen' l p h k =
      let (x, q, r, t) = last_number 0 zero_balance (pos 0) e es h in
      ground
        (arith, latest_at (e ∷ es) seen l p, q, find_latest_in_ledger_by_kind_lem seen' l k, r, t)

  pub fold_lem :
      (seen seen' : Storage) (l : WasteBalanceLedgerId)
      → IsChain 0 zero_balance (pos 0) (in_ledger l seen)
      → IsChain 0 zero_balance (pos 0) (in_ledger l seen')
      → fold seen seen' l ≡ snapshot (in_ledger l seen) (in_ledger l seen')
  fold_lem seen seen' l = fold_at (in_ledger l seen) seen seen' l refl
