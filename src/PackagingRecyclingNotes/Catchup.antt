-- ===== src/PackagingRecyclingNotes/Catchup.antt =====
-- The read-side catch-up of get-projected-prn.js on well-formed ledgers.
use epr_backend.Prelude.{
  filter-above_last, last_key-ge, refl, filter-raise, last_key, none, some, inr, inl, Bool-cases,
  sort_by-eq_of_Ascends, [], ◌∙◌, sym, subst, ◌+◌, ◌∷◌, arith, filter-and, true, ltb, sort_by, ◌&&◌,
  ap, false, ℤ, ok, pos, ◌≡◌, filter, Option, List, Ascends-filter_above, ℕ, Ascends,
}
use epr_backend.WasteBalances.Chain.{credit_after, IsChain, IsLedgerStore}
use epr_backend.PackagingRecyclingNotes.Projection.{fold_prn_from_tail_events}
use epr_backend.PackagingRecyclingNotes.History.{
  watermark_after, fold_prn_from_tail_events_lem, AllPrn, IsFolded,
}
use epr_backend.WasteBalances.Repository.{
  matches_ledger, find_events_by_prn_id_after, Storage, in_ledger, is_about,
}
use epr_backend.WasteBalances.Schema.{
  LedgerBalanceSnapshot, zero_balance, validate_ledger_event_insert, LedgerEvent, is_prn_kind,
}
use epr_backend.PackagingRecyclingNotes.Model.{PrnStatus, same_status, PackagingRecyclingNote}
use epr_backend.WasteBalances.Service.{prn_catchup_events}
use epr_backend.Decimals.{DecimalArithmetic}
use epr_backend.PackagingRecyclingNotes.Reading.{watermark, prn_ledger, tail_events, project_prn}

-- The events of a PRN's ledger that are about it and past its watermark, oldest first.
abbrev pub unseen : PackagingRecyclingNote → Storage → List LedgerEvent
unseen prn store =
    filter (λ (e : LedgerEvent). is_about prn.id e.payload && ltb (watermark prn) e.number)
      (in_ledger (prn_ledger prn) store)

abbrev number : LedgerEvent → ℕ
number e = e.number

payload_kind :
    (e : LedgerEvent) (prn_id : ℕ)
    → validate_ledger_event_insert e ≡ ok e
    → is_about prn_id e.payload ≡ true
    → is_prn_kind e.kind ≡ true
unfolding validate_ledger_event_insert
payload_kind e prn_id valid about = ground arith

watermark-watermark_after :
    (w : Option ℕ) (es : List LedgerEvent)
    → (elim (watermark_after w es) [ none ↦ 0 | some n ↦ n ])
      ≡ last_key number (elim w [ none ↦ 0 | some n ↦ n ]) es
watermark-watermark_after w [] = refl
watermark-watermark_after w (e ∷ es) = watermark-watermark_after (some e.number) es

module _ ⦃d : DecimalArithmetic⦄ where
  IsChain-Ascends :
      (n : ℕ) (b : LedgerBalanceSnapshot) (c : ℤ) (es : List LedgerEvent)
      → IsChain n b c es
      → Ascends number n es
  IsChain-Ascends n b c [] h = tt
  IsChain-Ascends n b c (e ∷ es) h = (
    omega (arith, h.0.numbered),
    subst (λ k. Ascends number k es) (sym h.0.numbered)
        (IsChain-Ascends (n + 1) e.closing_balance (credit_after e.payload c) es h.1),
  )

  unseen-AllPrn :
      (prn_id w n : ℕ) (b : LedgerBalanceSnapshot) (c : ℤ) (es : List LedgerEvent)
      → IsChain n b c es
      → AllPrn (filter (λ e. is_about prn_id e.payload && ltb w e.number) es)
  unseen-AllPrn prn_id w n b c [] h = tt
  unseen-AllPrn prn_id w n b c (e ∷ es) h =
      let rest =
        unseen-AllPrn prn_id w (n + 1) e.closing_balance (credit_after e.payload c) es h.1 in
      elim (Bool-cases (is_about prn_id e.payload && ltb w e.number)) [
        | inl kept ↦ rw kept (payload_kind e prn_id h.0.valid (ground arith), rest)
        | inr dropped ↦ rw dropped rest
      ]

  module _ (store : Storage) (ledgers : IsLedgerStore store) (prn : PackagingRecyclingNote) where
    ledger-Ascends : Ascends number 0 (in_ledger (prn_ledger prn) store)
    ledger-Ascends = IsChain-Ascends 0 zero_balance (pos 0) _ (ledgers (prn_ledger prn))

    unseen-Ascends : Ascends number (watermark prn) (unseen prn store)
    unseen-Ascends =
        Ascends-filter_above number (λ e. is_about prn.id e.payload) (watermark prn) 0 _
          ledger-Ascends

    -- The repository's sort changes nothing: the tail is the unseen events.
    tail_events_lem : tail_events prn store ≡ unseen prn store
    unfolding prn_catchup_events find_events_by_prn_id_after
    tail_events_lem =
        ap (sort_by number) (
          filter-and (λ e. matches_ledger e (prn_ledger prn))
            (λ e. is_about prn.id e.payload && ltb (watermark prn) e.number) store)
        ∙ sort_by-eq_of_Ascends number (watermark prn) (unseen prn store) unseen-Ascends

    -- With well-formed ledgers, the projection of a PRN that is not deleted does not throw, and
    -- gives the PRN after exactly the events of its ledger that are about it and past its
    -- watermark, in the order of the ledger: their statuses are appended to its history, the last
    -- of them is its status, and its identity, number and version stay.
    pub project_prn_lem :
        same_status prn.status.current_status PrnStatus.deleted ≡ false
        → (prn' : PackagingRecyclingNote) × (project_prn prn store ≡ ok prn')
          × IsFolded prn (unseen prn store) prn'
    project_prn_lem live =
        let (prn', p, r) = fold_prn_from_tail_events_lem prn (unseen prn store) (
          unseen-AllPrn prn.id (watermark prn) 0 zero_balance (pos 0) _
            (ledgers (prn_ledger prn))) in
        (prn', rw (live, tail_events_lem) p, r)

    watermark_last :
        (prn' : PackagingRecyclingNote)
        → IsFolded prn (unseen prn store) prn'
        → watermark prn' ≡ last_key number (watermark prn) (unseen prn store)
    watermark_last prn' r =
        ap (λ (o : Option ℕ). elim o [ none ↦ 0 | some n ↦ n ]) r.watermark
        ∙ watermark-watermark_after prn.last_applied_event_number (unseen prn store)

    same_ledger :
        (prn' : PackagingRecyclingNote)
        → IsFolded prn (unseen prn store) prn'
        → prn_ledger prn' ≡ prn_ledger prn
    same_ledger prn' r = λ i. record {
      organisation_id = (r.organisation i).id;
      registration_id = r.registration i;
      accreditation_id = some (r.accreditation i).id;
    }

    -- Once caught up, nothing of the ledger is unseen.
    caught_up :
        (prn' : PackagingRecyclingNote)
        → IsFolded prn (unseen prn store) prn'
        → unseen prn' store ≡ []
    caught_up prn' r =
        (λ i.
          filter (λ e. is_about (r.id i) e.payload && ltb (watermark_last prn' r i) e.number)
            (in_ledger (same_ledger prn' r i) store))
        ∙ filter-raise number (λ e. is_about prn.id e.payload) (watermark prn) _
            (in_ledger (prn_ledger prn) store)
            (last_key-ge number (watermark prn) (unseen prn store) unseen-Ascends)
        ∙ filter-above_last number (watermark prn) (unseen prn store) unseen-Ascends

  module _ (store : Storage) (ledgers : IsLedgerStore store) (prn : PackagingRecyclingNote) where
    projected_again :
        (prn' : PackagingRecyclingNote) → unseen prn' store ≡ [] → project_prn prn' store ≡ ok prn'
    unfolding fold_prn_from_tail_events
    projected_again prn' nothing =
        elim (Bool-cases (same_status prn'.status.current_status PrnStatus.deleted)) [
          | inl gone ↦ rw gone refl
          | inr live ↦ rw (live, tail_events_lem store ledgers prn', nothing) refl
        ]

    -- With well-formed ledgers, the projection is idempotent: to project a projected PRN again on
    -- the same store gives it back unchanged.
    pub project_prn_idempotent :
        (prn' : PackagingRecyclingNote)
        → project_prn prn store ≡ ok prn'
        → project_prn prn' store ≡ ok prn'
    project_prn_idempotent prn' h =
        elim (Bool-cases (same_status prn.status.current_status PrnStatus.deleted)) [
          | inl gone ↦
              let same : prn ≡ prn' = ground (arith, h, gone) in
              subst (λ q. project_prn q store ≡ ok q) same (rw gone refl)
          | inr live ↦
              let (q, p, r) = project_prn_lem store ledgers prn live in
              let same : q ≡ prn' = cc in
              subst (λ q. project_prn q store ≡ ok q) same
                (projected_again q (caught_up store ledgers prn q r))
        ]
