-- ===== src/WasteBalances/Schema.antt =====
-- Code: src/waste-balances/repository/ledger-schema.js, ledger-validation.js.
-- Ids are strings that the code only compares: numbers stand for them. An instant is the number of
-- milliseconds that a `Date` holds.
use Prim.Native.String.{String}
use epr_backend.Prelude.{
  ℕ, zero, Bool, true, false, ◌&&◌, Option, none, some, ℤ, pos, Result, ok, err, bad_data,
}

-- `LEDGER_EVENT_KIND`
pub data LedgerEventKind : Type 0 where
  summary_log_submitted prn_created prn_issued prn_creation_cancelled : LedgerEventKind
  prn_cancelled_after_issue prn_accepted prn_rejected : LedgerEventKind

-- `PRN_KINDS.has`
abbrev pub is_prn_kind : LedgerEventKind → Bool
is_prn_kind summary_log_submitted = false
is_prn_kind _ = true

pub record LedgerBalanceSnapshot : Type 0 where
  pub amount : ℤ
  pub available_amount : ℤ

abbrev pub zero_balance : LedgerBalanceSnapshot
zero_balance = record { amount = pos 0; available_amount = pos 0 }

pub record LedgerUserSummary : Type 0 where
  pub id : ℕ
  pub name : Option String
  pub email : Option String

pub record SummaryLogSubmittedPayload : Type 0 where
  pub summary_log_id : ℕ
  pub credit_total : ℤ

pub record PrnPayload : Type 0 where
  pub prn_id : ℕ
  pub amount : ℤ

pub data Payload : Type 0 where
  submission : SummaryLogSubmittedPayload → Payload
  prn : PrnPayload → Payload

-- `accreditation_id` is `none` in the registered-only phase.
pub record WasteBalanceLedgerId : Type 0 where
  pub organisation_id : ℕ
  pub registration_id : ℕ
  pub accreditation_id : Option ℕ

-- `LedgerEventInsert`. The id that the storage gives an event is left out: no code here reads it.
pub record LedgerEvent : Type 0 where
  pub ledger_id : WasteBalanceLedgerId
  pub number : ℕ
  pub kind : LedgerEventKind
  pub payload : Payload
  pub opening_balance : LedgerBalanceSnapshot
  pub closing_balance : LedgerBalanceSnapshot
  pub created_at : ℕ
  pub created_by : LedgerUserSummary

-- The two `when` rules: the payload has the shape that the kind asks for.
abbrev payload_fits : LedgerEventKind → Payload → Bool
payload_fits summary_log_submitted (submission _) = true
payload_fits summary_log_submitted (prn _) = false
payload_fits _ (submission _) = false
payload_fits _ (prn _) = true

-- The custom rule: PRN events are invalid in registered-only ledgers.
abbrev ledger_allows : LedgerEventKind → Option ℕ → Bool
ledger_allows summary_log_submitted _ = true
ledger_allows _ none = false
ledger_allows _ (some _) = true

abbrev positive : ℕ → Bool
positive zero = false
positive _ = true

-- `validateLedgerEventInsert`: the rules of `ledgerEventInsertSchema` that the types leave open.
unfoldable pub validate_ledger_event_insert : LedgerEvent → Result LedgerEvent
validate_ledger_event_insert e =
    elim (positive e.number
      && payload_fits e.kind e.payload
      && ledger_allows e.kind e.ledger_id.accreditation_id) [ true ↦ ok e | false ↦ err bad_data ]
