-- ===== src/WasteBalances/Slots.antt =====
-- Positions of a well-formed ledger, and what `append_events` does at each of them.
use epr_backend.WasteBalances.Repository.{
  push_all, Storage, matches_ledger, same_accreditation, in_ledger, number_of, append_events,
}
use epr_backend.Prelude.{
  ℕ, suc, ◌+◌, ◌≤◌, ◌<◌, ◌≡◌, refl, Bool, true, false, Option, none, some, List, [], ◌∷◌, ◌++◌,
  append-nil, ℤ, ok, err, slot_conflict, sequence_error, length, filter-append, get_last?, any,
  ◌==◌, arith, ==_refl,
}
use epr_backend.Decimals.{DecimalArithmetic}
use epr_backend.WasteBalances.Schema.{
  LedgerBalanceSnapshot, LedgerEvent, WasteBalanceLedgerId, validate_ledger_event_insert,
}
use epr_backend.WasteBalances.Chain.{IsLink, IsChain, credit_after}

same_accreditation_eq : (a b : Option ℕ) → same_accreditation a b ≡ true → a ≡ b
same_accreditation_eq none none h = refl
same_accreditation_eq (some a) (some b) h = ground arith
same_accreditation_eq none (some b) h = cc
same_accreditation_eq (some a) none h = cc

same_accreditation_refl : (a : Option ℕ) → same_accreditation a a ≡ true
same_accreditation_refl none = refl
same_accreditation_refl (some a) = ==_refl a

pub matches_ledger_eq :
    (e : LedgerEvent) (l : WasteBalanceLedgerId) → matches_ledger e l ≡ true → e.ledger_id ≡ l
unfolding matches_ledger
matches_ledger_eq e l h =
    ground (arith, same_accreditation_eq e.ledger_id.accreditation_id l.accreditation_id)

pub matches_ledger_self : (e : LedgerEvent) → matches_ledger e e.ledger_id ≡ true
unfolding matches_ledger
matches_ledger_self e = ground (arith, same_accreditation_refl e.ledger_id.accreditation_id)

-- One more event in the store: it joins its own ledger and no other.
pub in_ledger-push_self :
    (e : LedgerEvent) (store : Storage)
    → in_ledger e.ledger_id (store ++ e ∷ []) ≡ in_ledger e.ledger_id store ++ e ∷ []
in_ledger-push_self e store = rw (
  filter-append (λ event. matches_ledger event e.ledger_id) store (e ∷ []),
  matches_ledger_self e,
)

pub in_ledger-push_other :
    (e : LedgerEvent) (l : WasteBalanceLedgerId) (store : Storage)
    → matches_ledger e l ≡ false
    → in_ledger l (store ++ e ∷ []) ≡ in_ledger l store
in_ledger-push_other e l store h =
    rw (filter-append (λ event. matches_ledger event l) store (e ∷ []), h)
      (append-nil (in_ledger l store))

-- The balance and the credit total after a run of events.
abbrev pub balance_after : LedgerBalanceSnapshot → List LedgerEvent → LedgerBalanceSnapshot
balance_after b [] = b
balance_after b (e ∷ es) = balance_after e.closing_balance es

abbrev pub credit_total_after : ℤ → List LedgerEvent → ℤ
credit_total_after c [] = c
credit_total_after c (e ∷ es) = credit_total_after (credit_after e.payload c) es

abbrev has_number : ℕ → List LedgerEvent → Bool
has_number m es = any (λ (e : LedgerEvent). e.number == m) es

module _ ⦃d : DecimalArithmetic⦄ where
  pub IsChain-snoc :
      (n : ℕ) (b : LedgerBalanceSnapshot) (c : ℤ) (es : List LedgerEvent) (e : LedgerEvent)
      → IsChain n b c es
      → IsLink (n + length es) (balance_after b es) (credit_total_after c es) e
      → IsChain n b c (es ++ e ∷ [])
  IsChain-snoc n b c [] e h k = (let p : n + 0 ≡ n = omega arith in rw p at k, tt)
  IsChain-snoc n b c (x ∷ es) e h k =
      let p : n + suc (length es) ≡ n + 1 + length es = omega arith in
      (h.0, IsChain-snoc (n + 1) x.closing_balance (credit_after x.payload c) es e h.1 (rw p at k))

  -- A prefix of a chain is a chain.
  pub IsChain-prefix :
      (n : ℕ) (b : LedgerBalanceSnapshot) (c : ℤ) (es fs : List LedgerEvent)
      → IsChain n b c (es ++ fs)
      → IsChain n b c es
  IsChain-prefix n b c [] fs h = tt
  IsChain-prefix n b c (e ∷ es) fs h =
      (h.0, IsChain-prefix (n + 1) e.closing_balance (credit_after e.payload c) es fs h.1)

  -- The last event carries the length of the ledger as its number, and the resulting balance.
  pub last_number :
      (n : ℕ) (b : LedgerBalanceSnapshot) (c : ℤ) (e : LedgerEvent) (es : List LedgerEvent)
      → IsChain n b c (e ∷ es)
      → (x : LedgerEvent) × (get_last? (e ∷ es) ≡ some x)
        × (x.number ≡ n + length (e ∷ es))
        × (x.closing_balance ≡ balance_after b (e ∷ es))
  last_number n b c e [] h = (e, refl, omega (arith, h.0.numbered), refl)
  last_number n b c e (f ∷ es) h =
      let (x, p, q, r) =
        last_number (n + 1) e.closing_balance (credit_after e.payload c) f es h.1 in
      (x, p, omega (arith, q), r)

  pub number_of_last :
      (b : LedgerBalanceSnapshot) (c : ℤ) (es : List LedgerEvent)
      → IsChain 0 b c es
      → number_of (get_last? es) ≡ length es
  number_of_last b c [] h = refl
  number_of_last b c (e ∷ es) h =
      let (x, p, q, r) = last_number 0 b c e es h in rw p (omega (arith, q))

  has_number_beyond :
      (n m : ℕ) (b : LedgerBalanceSnapshot) (c : ℤ) (es : List LedgerEvent)
      → IsChain n b c es
      → m ≤ n
      → has_number m es ≡ false
  has_number_beyond n m b c [] h k = refl
  has_number_beyond n m b c (e ∷ es) h k = ground (
    arith,
    h.0.numbered,
    has_number_beyond (n + 1) m e.closing_balance (credit_after e.payload c) es h.1,
  )

  pub has_number_taken :
      (n m : ℕ) (b : LedgerBalanceSnapshot) (c : ℤ) (es : List LedgerEvent)
      → IsChain n b c es
      → n < m
      → m ≤ n + length es
      → has_number m es ≡ true
  has_number_taken n m b c [] h k t = absurd (omega arith)
  has_number_taken n m b c (e ∷ es) h k t = ground (
    arith,
    h.0.numbered,
    has_number_taken (n + 1) m e.closing_balance (credit_after e.payload c) es h.1,
  )

  pub has_number_free :
      (n m : ℕ) (b : LedgerBalanceSnapshot) (c : ℤ) (es : List LedgerEvent)
      → IsChain n b c es
      → n + length es < m
      → has_number m es ≡ false
  has_number_free n m b c [] h k = refl
  has_number_free n m b c (e ∷ es) h k = ground (
    arith,
    h.0.numbered,
    has_number_free (n + 1) m e.closing_balance (credit_after e.payload c) es h.1,
  )

  -- The next slot takes a valid event.
  pub append_events_next :
      (store : Storage) (e : LedgerEvent) (b : LedgerBalanceSnapshot) (c : ℤ)
      → IsChain 0 b c (in_ledger e.ledger_id store)
      → e.number ≡ length (in_ledger e.ledger_id store) + 1
      → validate_ledger_event_insert e ≡ ok e
      → append_events store (e ∷ []) ≡ (ok (e ∷ []), store ++ e ∷ [])
  unfolding append_events
  append_events_next store e b c h n v =
      let k : (e.number == number_of (get_last? (in_ledger e.ledger_id store)) + 1) ≡ true =
        rw (number_of_last b c (in_ledger e.ledger_id store) h, n) (==_refl _) in
      rw k (rw (v, push_all))

  -- A slot that is taken is refused, and the store is left alone.
  pub append_events_taken :
      (store : Storage) (e : LedgerEvent) (b : LedgerBalanceSnapshot) (c : ℤ)
      → IsChain 0 b c (in_ledger e.ledger_id store)
      → 0 < e.number
      → e.number ≤ length (in_ledger e.ledger_id store)
      → append_events store (e ∷ []) ≡ (err (slot_conflict e.number), store)
  unfolding append_events
  append_events_taken store e b c h p q =
      let last = number_of_last b c (in_ledger e.ledger_id store) h in
      let k : (e.number == number_of (get_last? (in_ledger e.ledger_id store)) + 1) ≡ false =
        ground (arith, last) in
      rw (k, has_number_taken 0 e.number b c (in_ledger e.ledger_id store) h p (omega arith))

  -- An append of one event whose number lies past the next slot of its ledger, a ledger that is
  -- well-formed, throws the sequence error with that number and the one expected, and leaves the
  -- store as it was.
  pub append_events_gap :
      (store : Storage) (e : LedgerEvent) (b : LedgerBalanceSnapshot) (c : ℤ)
      → IsChain 0 b c (in_ledger e.ledger_id store)
      → length (in_ledger e.ledger_id store) + 1 < e.number
      → append_events store (e ∷ [])
        ≡ (err (sequence_error e.number (length (in_ledger e.ledger_id store) + 1)), store)
  unfolding append_events
  append_events_gap store e b c h p =
      let last = number_of_last b c (in_ledger e.ledger_id store) h in
      let k : (e.number == number_of (get_last? (in_ledger e.ledger_id store)) + 1) ≡ false =
        ground (arith, last) in
      rw (k, has_number_free 0 e.number b c (in_ledger e.ledger_id store) h (omega arith), last)
