-- ===== src/WasteBalances/Writes.antt =====
-- The two kinds of write of the service, spelled out over the events that the fold read.
use epr_backend.Prelude.{
  length-append, ℕ, ◌+◌, ◌≡◌, refl, ◌∙◌, ap, inl, inr, not, List, [], ◌∷◌, ℤ, pos, ltb_ℤ, Result,
  ok, err, bad_implementation, ◌>>=◌, length, if◌then◌else◌, arith, Bool-cases,
}
use epr_backend.Decimals.{DecimalArithmetic}
use epr_backend.WasteBalances.Schema.{
  zero_balance, LedgerEvent, LedgerUserSummary, WasteBalanceLedgerId, PrnPayload,
  SummaryLogSubmittedPayload, submission, summary_log_submitted,
}
use epr_backend.WasteBalances.ClosingBalance.{credited, closing_for_summary_log_submitted_lem}
use epr_backend.WasteBalances.Commands.{no_ledger, BalanceEvent, LedgerState, state_or_empty}
use epr_backend.WasteBalances.Repository.{Storage, in_ledger, append_events}
use epr_backend.WasteBalances.Service.{
  PrnMethod, PrnCommandResult, committed, command_rejected, prn_command, run_prn_command, append,
  commit_summary_log_submitted_event, fold, decider, decide_at,
}
use epr_backend.WasteBalances.Chain.{IsChain, IsLedgerStore}
use epr_backend.WasteBalances.Slots.{balance_after, credit_total_after, IsChain-prefix}
use epr_backend.WasteBalances.Folding.{snapshot, fold_lem}
use epr_backend.WasteBalances.Decisions.{covered, shortfall, decided_event, decider_lem}
use epr_backend.WasteBalances.Appending.{Grows, Grows-same}
use epr_backend.WasteBalances.Commands

-- A decided event, at the slot after the events `es`.
abbrev pub stamped :
    WasteBalanceLedgerId → List LedgerEvent → BalanceEvent → LedgerUserSummary → ℕ → LedgerEvent
stamped l es e created_by created_at = record {
  ledger_id = l;
  number = length es + 1;
  kind = e.kind;
  payload = e.payload;
  opening_balance = e.opening_balance;
  closing_balance = e.closing_balance;
  created_at = created_at;
  created_by = created_by;
}

-- The event of a PRN command that was decided on the events `es`.
abbrev pub prn_event :
    PrnMethod
    → WasteBalanceLedgerId
    → PrnPayload
    → LedgerUserSummary
    → ℕ
    → List LedgerEvent
    → LedgerEvent
prn_event m l p created_by now es =
    stamped l es (decided_event m (balance_after zero_balance es) p) created_by now

abbrev pub written : {A B : Type 0} → (A → B) → Result A × Storage → Result B × Storage
written f (r, store) = (r >>= λ a. ok (f a), store)

-- A PRN command on a positive amount, from the events that its fold read.
abbrev pub prn_outcome :
    PrnMethod
    → WasteBalanceLedgerId
    → PrnPayload
    → LedgerUserSummary
    → ℕ
    → List LedgerEvent
    → Storage
    → Result PrnCommandResult × Storage
prn_outcome m l p created_by now [] store = (ok (command_rejected no_ledger), store)
prn_outcome m l p created_by now (e ∷ es) store =
    if covered m (balance_after zero_balance (e ∷ es)) p.amount
    then written committed (append_events store (prn_event m l p created_by now (e ∷ es) ∷ []))
    else (ok (command_rejected (shortfall m)), store)

module _ ⦃d : DecimalArithmetic⦄ where
  pub decide_at_lem :
      (m : PrnMethod) (l : WasteBalanceLedgerId) (p : PrnPayload) (created_by : LedgerUserSummary)
      (now : ℕ) (es later : List LedgerEvent) (store : Storage)
      → decide_at (decider m) l p (snapshot es later) created_by now store
        ≡ prn_outcome m l p created_by now es store
  unfolding append
  decide_at_lem m l p created_by now [] later store = refl
  decide_at_lem m l p created_by now (e ∷ es) later store =
      rw (decider_lem m (balance_after zero_balance (e ∷ es)) p)
        (elim (Bool-cases (covered m (balance_after zero_balance (e ∷ es)) p.amount)) [
          | inl yes_covered ↦ rw yes_covered
          | inr short ↦ rw short
        ])

-- The previous credit total that a fold reads: none before the first event.
abbrev pub credit_read : List LedgerEvent → List LedgerEvent → ℤ
credit_read [] later = pos 0
credit_read (e ∷ es) later = credit_total_after (pos 0) later

-- The event of a submission, from the events that the two reads of its fold saw.
abbrev pub submitted_event :
    WasteBalanceLedgerId
    → SummaryLogSubmittedPayload
    → LedgerUserSummary
    → ℕ
    → List LedgerEvent
    → List LedgerEvent
    → LedgerEvent
submitted_event l p created_by created_at es later =
    stamped l es
      (record {
        kind = summary_log_submitted;
        payload = submission p;
        opening_balance = balance_after zero_balance es;
        closing_balance =
            credited (balance_after zero_balance es) p.credit_total (credit_read es later);
      })
      created_by created_at

snapshot_head : (es later : List LedgerEvent) → (snapshot es later).1 ≡ length es
snapshot_head [] later = refl
snapshot_head (e ∷ es) later = refl

module _ ⦃d : DecimalArithmetic⦄ where
  submit_summary_log_lem :
      (es later : List LedgerEvent) (p : SummaryLogSubmittedPayload)
      → Commands.submit_summary_log (snapshot es later).0 p
        ≡ record {
          kind = summary_log_submitted;
          payload = submission p;
          opening_balance = balance_after zero_balance es;
          closing_balance =
              credited (balance_after zero_balance es) p.credit_total (credit_read es later);
        }
          ∷ []
  unfolding Commands.submit_summary_log
  submit_summary_log_lem [] later p =
      rw (closing_for_summary_log_submitted_lem zero_balance p.credit_total (pos 0))
  submit_summary_log_lem (e ∷ es) later p = rw (
      closing_for_summary_log_submitted_lem (balance_after zero_balance (e ∷ es)) p.credit_total
        (credit_total_after (pos 0) later))

-- The stores that a command meets: each read or write may see events that others added since.
module _ ⦃d : DecimalArithmetic⦄ (l : WasteBalanceLedgerId) (seen seen' store : Storage)
    (ledgers : IsLedgerStore store) (first : Grows l seen seen')
    (second : Grows l seen' store) where
  IsChain-seen' : IsChain 0 zero_balance (pos 0) (in_ledger l seen')
  IsChain-seen' =
      IsChain-prefix 0 zero_balance (pos 0) (in_ledger l seen') second.0
        (rw (second.1) at (ledgers l))

  IsChain-seen : IsChain 0 zero_balance (pos 0) (in_ledger l seen)
  IsChain-seen =
      IsChain-prefix 0 zero_balance (pos 0) (in_ledger l seen) first.0
        (rw (first.1) at IsChain-seen')

  pub fold_seen : fold seen seen' l ≡ snapshot (in_ledger l seen) (in_ledger l seen')
  fold_seen = fold_lem seen seen' l IsChain-seen IsChain-seen'

  -- With no event added since, the reads saw what the write meets.
  pub seen_same :
      length (in_ledger l seen) ≡ length (in_ledger l store)
      → (in_ledger l store ≡ in_ledger l seen) × (in_ledger l store ≡ in_ledger l seen')
  seen_same n =
      let p : length (in_ledger l seen') ≡ length (in_ledger l seen) + length first.0 =
        ap length first.1 ∙ length-append (in_ledger l seen) first.0 in
      let q : length (in_ledger l store) ≡ length (in_ledger l seen') + length second.0 =
        ap length second.1 ∙ length-append (in_ledger l seen') second.0 in
      let later = Grows-same l seen' store second (omega arith) in
      (later ∙ Grows-same l seen seen' first (omega arith), later)

  pub prn_command_lem :
      (m : PrnMethod) (p : PrnPayload) (created_by : LedgerUserSummary) (now : ℕ)
      → prn_command m l p created_by now seen seen' store ≡ (
          if not (ltb_ℤ (pos 0) p.amount)
          then (err bad_implementation, store)
          else prn_outcome m l p created_by now (in_ledger l seen) store)
  unfolding prn_command run_prn_command
  prn_command_lem m p created_by now =
      rw
        (fold_seen, decide_at_lem m l p created_by now (in_ledger l seen) (in_ledger l seen') store)

  pub commit_summary_log_submitted_event_lem :
      (p : SummaryLogSubmittedPayload) (created_by : LedgerUserSummary) (created_at : ℕ)
      → commit_summary_log_submitted_event l p created_by created_at seen seen' store
        ≡ append_events store
            (submitted_event l p created_by created_at (in_ledger l seen) (in_ledger l seen') ∷ [])
  unfolding commit_summary_log_submitted_event append
  commit_summary_log_submitted_event_lem p created_by created_at =
      rw (fold_seen, snapshot_head)
        (rw (submit_summary_log_lem (in_ledger l seen) (in_ledger l seen') p))
