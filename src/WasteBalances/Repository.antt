-- ===== src/WasteBalances/Repository.antt =====
-- Code: src/waste-balances/repository/ledger-inmemory.js. The store is the array `storage`, oldest
-- event first; each operation is one synchronous turn of the event loop.
use epr_backend.Prelude.{
  ◌>>=◌, sort_by, ℕ, ◌+◌, ◌-◌, Bool, true, false, not, ◌&&◌, Option, none, some, List, [], ◌∷◌,
  ◌++◌, ◌==◌, ltb, if◌then◌else◌, filter, any, get_last?, length, Result, ok, err, slot_conflict,
  sequence_error,
}
use epr_backend.WasteBalances.Schema.{
  LedgerEventKind, summary_log_submitted, prn_created, prn_issued, prn_creation_cancelled,
  prn_cancelled_after_issue, prn_accepted, prn_rejected, WasteBalanceLedgerId, LedgerEvent, Payload,
  submission, prn, validate_ledger_event_insert,
}

abbrev pub Storage : Type 0
Storage = List LedgerEvent

-- `===` on `string | null`
abbrev pub same_accreditation : Option ℕ → Option ℕ → Bool
same_accreditation none none = true
same_accreditation (some a) (some b) = a == b
same_accreditation _ _ = false

unfoldable pub matches_ledger : LedgerEvent → WasteBalanceLedgerId → Bool
matches_ledger event l =
    event.ledger_id.organisation_id == l.organisation_id
    && event.ledger_id.registration_id == l.registration_id
    && same_accreditation event.ledger_id.accreditation_id l.accreditation_id

-- `storage.filter((event) => matchesLedger(event, ledgerId))`
abbrev pub in_ledger : WasteBalanceLedgerId → Storage → List LedgerEvent
in_ledger l = filter (λ event. matches_ledger event l)

-- `event.kind === kind`, by the place of each kind in the enumeration
abbrev kind_place : LedgerEventKind → ℕ
kind_place summary_log_submitted = 0
kind_place prn_created = 1
kind_place prn_issued = 2
kind_place prn_creation_cancelled = 3
kind_place prn_cancelled_after_issue = 4
kind_place prn_accepted = 5
kind_place prn_rejected = 6

abbrev pub is_kind : LedgerEventKind → LedgerEvent → Bool
is_kind k event = kind_place event.kind == kind_place k

-- `payload.prnId === prnId`; a submission's payload has no `prnId`.
abbrev pub is_about : ℕ → Payload → Bool
is_about prn_id (submission _) = false
is_about prn_id (prn p) = p.prn_id == prn_id

unfoldable pub find_latest_in_ledger : Storage → WasteBalanceLedgerId → Option LedgerEvent
find_latest_in_ledger storage l = get_last? (in_ledger l storage)

unfoldable pub find_latest_in_ledger_by_kind :
    Storage → WasteBalanceLedgerId → LedgerEventKind → Option LedgerEvent
find_latest_in_ledger_by_kind storage l kind =
    get_last? (filter (λ event. matches_ledger event l && is_kind kind event) storage)

unfoldable pub find_events_by_prn_id_after :
    Storage → WasteBalanceLedgerId → ℕ → ℕ → List LedgerEvent
find_events_by_prn_id_after storage l prn_id after_number =
    sort_by (λ (e : LedgerEvent). e.number)
      (filter
        (λ event.
          matches_ledger event l
          && (is_about prn_id event.payload && ltb after_number event.number))
        storage)

unfoldable pub find_all_in_ledger : Storage → WasteBalanceLedgerId → List LedgerEvent
find_all_in_ledger storage l = sort_by (λ (e : LedgerEvent). e.number) (in_ledger l storage)

-- `doDeleteInLedger`: the store that remains, and the number of events deleted
unfoldable pub delete_in_ledger : Storage → WasteBalanceLedgerId → Storage × ℕ
delete_in_ledger storage l =
    let remaining = filter (λ event. not (matches_ledger event l)) storage in
    (remaining, length storage - length remaining)

abbrev pub number_of : Option LedgerEvent → ℕ
number_of none = 0
number_of (some e) = e.number

-- The loop from the second event of a batch: event i must have the first number plus i.
check_sequence : ℕ → List LedgerEvent → Result (Unit {0})
check_sequence expected [] = ok tt
check_sequence expected (e ∷ es) =
    let rest = check_sequence (expected + 1) es in
    if e.number == expected then rest else err (sequence_error e.number expected)

-- The final `map`: each event is validated and pushed in turn, so an event that is refused leaves
-- the ones before it in the store.
unfoldable pub push_all : Storage → List LedgerEvent → Result (List LedgerEvent) × Storage
push_all storage [] = (ok [], storage)
push_all storage (e ∷ es) = elim (validate_ledger_event_insert e) [
  | err x ↦ (err x, storage)
  | ok validated ↦
      let (r, storage') = push_all (storage ++ validated ∷ []) es in
      (r >>= λ persisted. ok (validated ∷ persisted), storage')
]

-- `doAppendEvents`
unfoldable pub append_events : Storage → List LedgerEvent → Result (List LedgerEvent) × Storage
unfolding check_sequence push_all
append_events storage [] = (ok [], storage)
append_events storage (first ∷ rest) =
    let ledger_events = in_ledger first.ledger_id storage in
    let expected_start = number_of (get_last? ledger_events) + 1 in
    if first.number == expected_start
    then elim (check_sequence (first.number + 1) rest) [
      | err x ↦ (err x, storage)
      | ok _ ↦ push_all storage (first ∷ rest)
    ]
    else if any (λ e. e.number == first.number) ledger_events
    then (err (slot_conflict first.number), storage)
    else (err (sequence_error first.number expected_start), storage)
