-- ===== src/PackagingRecyclingNotes/CommandEvents.antt =====
-- What a PRN's balance command puts into its ledger: update-status-balance-effects.js.
use epr_backend.Prelude.{
  refl, pos, ltb_ℤ, subst, Bool-cases, ==_refl, ℤ, ℕ, ◌≡◌, List, [], ◌∷◌, ◌++◌, Result, ok, err,
  Error, some, inl, inr, ◌⊎◌, ◌+◌, length, true,
}
use epr_backend.WasteBalances.Cover.{prn_command-outcome, outcome}
use epr_backend.WasteBalances.Writes.{prn_event}
use epr_backend.WasteBalances.Appending.{Grows-refl}
use epr_backend.WasteBalances.Concurrency.{prn_command-IsLedgerStore}
use epr_backend.WasteBalances.Schema.{
  zero_balance, PrnPayload, prn, LedgerUserSummary, LedgerEvent, WasteBalanceLedgerId,
}
use epr_backend.WasteBalances.Service.{prn_command, PrnCommandResult, PrnMethod}
use epr_backend.WasteBalances.Slots.{balance_after}
use epr_backend.WasteBalances.Decisions.{covered, event_kind}
use epr_backend.PackagingRecyclingNotes.BalanceEffects.{command_events, apply_prn_balance_command}
use epr_backend.WasteBalances.Repository.{in_ledger, is_about, Storage}
use epr_backend.WasteBalances.Chain.{IsLedgerStore}
use epr_backend.Decimals.{DecimalArithmetic}

-- The event that a command of a PRN puts at the end of its ledger.
pub record IsCommandEvent (m : PrnMethod) (l : WasteBalanceLedgerId) (prn_id n : ℕ)
    (e : LedgerEvent) : Type 0 where
  pub ledger : e.ledger_id ≡ l
  pub kind : e.kind ≡ event_kind m
  pub about : is_about prn_id e.payload ≡ true
  pub number : e.number ≡ n + 1

is_about_self :
    (prn_id : ℕ) (x : ℤ) → is_about prn_id (prn (record { prn_id = prn_id; amount = x })) ≡ true
is_about_self prn_id x = ==_refl prn_id

module _ ⦃d : DecimalArithmetic⦄ (store : Storage) (ledgers : IsLedgerStore store) (m : PrnMethod)
    (l : WasteBalanceLedgerId) (a : ℕ) (accredited : l.accreditation_id ≡ some a) (prn_id : ℕ)
    (tonnage : ℤ) (user : LedgerUserSummary) (now : ℕ) where
  -- A reply throws and leaves the store alone, or comes with one event more.
  abbrev Settles : ℕ → Result PrnCommandResult × Storage → Type 0
  Settles n r =
      ((x : Error) × (command_events m r.0 ≡ err x) × (r.1 ≡ store))
      ⊎ ((e : LedgerEvent) × (command_events m r.0 ≡ ok (e ∷ []))
          × (r.1 ≡ store ++ e ∷ [])
          × IsCommandEvent m l prn_id n e)

  abbrev payload : PrnPayload
  payload = record { prn_id = prn_id; amount = tonnage }

  outcome-Settles :
      (es : List LedgerEvent) → Settles (length es) (outcome m l payload user now es store)
  outcome-Settles [] = inl (_, refl, refl)
  outcome-Settles (e ∷ es) =
      elim (Bool-cases (covered m (balance_after zero_balance (e ∷ es)) tonnage)) [
        | inl enough ↦ rw enough (
            inr (
              prn_event m l payload user now (e ∷ es),
              refl,
              refl,
              record {
                ledger = refl;
                kind = refl;
                about = is_about_self prn_id tonnage;
                number = refl;
              },
            ))
        | inr short ↦ rw short (inl (_, refl, refl))
      ]

  prn_command-Settles :
      Settles (length (in_ledger l store)) (prn_command m l payload user now store store store)
  prn_command-Settles = elim (Bool-cases (ltb_ℤ (pos 0) tonnage)) [
    | inl positive ↦
        rw (prn_command-outcome store ledgers m l a accredited payload user now, positive)
          (outcome-Settles (in_ledger l store))
    | inr other ↦
        rw (prn_command-outcome store ledgers m l a accredited payload user now, other)
          (inl (_, refl, refl))
  ]

  -- A balance command either throws and leaves the store alone, or appends its one event.
  pub apply_cases :
      ((x : Error) × (apply_prn_balance_command m l prn_id tonnage user now store ≡ (err x, store)))
      ⊎ ((e : LedgerEvent) × (apply_prn_balance_command m l prn_id tonnage user now store
            ≡ (ok (e ∷ []), store ++ e ∷ []))
          × IsCommandEvent m l prn_id (length (in_ledger l store)) e
          × IsLedgerStore (store ++ e ∷ []))
  unfolding apply_prn_balance_command
  apply_cases = elim prn_command-Settles [
    | inl (x, p, q) ↦ inl (x, λ i. (p i, q i))
    | inr (e, p, q, r) ↦ inr (
      e,
      λ i. (p i, q i),
      r,
      subst IsLedgerStore q (
          prn_command-IsLedgerStore l store store store ledgers (Grows-refl l store)
            (Grows-refl l store) m payload user now),
    )
  ]
