-- ===== src/PackagingRecyclingNotes/History.antt =====
-- What the fold of a tail of events does to a PRN.
use epr_backend.Prelude.{
  ◌∙◌, refl, append-nil, sym, ◌++◌, arith, ℕ, ok, append_assoc, ap, Option, ◌≡◌, true, some, none,
  List, [], ◌∷◌,
}
use epr_backend.PackagingRecyclingNotes.Model.{
  PrnStatusRecord, BusinessOperation, PackagingRecyclingNote, PrnStatus, PrnStatusHistoryItem,
}
use epr_backend.PackagingRecyclingNotes.Projection.{
  apply_event, applied, fold_prn_from_tail_events, set_status_slot, ledger_event_kind_to_prn_status,
}
use epr_backend.WasteBalances.Schema.{
  LedgerEventKind, summary_log_submitted, prn_created, prn_issued, prn_creation_cancelled,
  prn_cancelled_after_issue, prn_accepted, prn_rejected, LedgerEvent, is_prn_kind,
}

-- Every event is about a PRN.
abbrev pub AllPrn : List LedgerEvent → Type 0
AllPrn [] = Unit
AllPrn (e ∷ es) = (is_prn_kind e.kind ≡ true) × AllPrn es

-- The history entries of the events, in order.
abbrev pub entries : List LedgerEvent → List PrnStatusHistoryItem
entries [] = []
entries (e ∷ es) = elim (ledger_event_kind_to_prn_status e.kind) [
  | none ↦ entries es
  | some s ↦
      record {
        status = s;
        at = e.created_at;
        by = record { id = e.created_by.id; name = e.created_by.name };
      }
      ∷ entries es
]

abbrev pub watermark_after : Option ℕ → List LedgerEvent → Option ℕ
watermark_after w [] = w
watermark_after w (e ∷ es) = watermark_after (some e.number) es

abbrev pub status_after : PrnStatus → List PrnStatusHistoryItem → PrnStatus
status_after s [] = s
status_after s (item ∷ items) = status_after item.status items

-- `prn'` is `prn` after the events: their statuses are appended to its history, the last of them is
-- its status, the last number is its watermark; its identity and its version are those of `prn`.
pub record IsFolded (prn : PackagingRecyclingNote) (es : List LedgerEvent)
    (prn' : PackagingRecyclingNote) : Type 0 where
  pub history : prn'.status.history ≡ prn.status.history ++ entries es
  pub status : prn'.status.current_status ≡ status_after prn.status.current_status (entries es)
  pub watermark : prn'.last_applied_event_number ≡ watermark_after prn.last_applied_event_number es
  pub id : prn'.id ≡ prn.id
  pub version : prn'.version ≡ prn.version
  pub prn_number : prn'.prn_number ≡ prn.prn_number
  pub organisation : prn'.organisation ≡ prn.organisation
  pub registration : prn'.registration_id ≡ prn.registration_id
  pub accreditation : prn'.accreditation ≡ prn.accreditation
  pub tonnage : prn'.tonnage ≡ prn.tonnage

prn_status_of_kind :
    (k : LedgerEventKind)
    → is_prn_kind k ≡ true
    → (s : PrnStatus) × (ledger_event_kind_to_prn_status k ≡ some s)
unfolding ledger_event_kind_to_prn_status
prn_status_of_kind summary_log_submitted h = cc
prn_status_of_kind prn_created h = (PrnStatus.awaiting_authorisation, refl)
prn_status_of_kind prn_issued h = (PrnStatus.awaiting_acceptance, refl)
prn_status_of_kind prn_creation_cancelled h = (PrnStatus.deleted, refl)
prn_status_of_kind prn_cancelled_after_issue h = (PrnStatus.cancelled, refl)
prn_status_of_kind prn_accepted h = (PrnStatus.accepted, refl)
prn_status_of_kind prn_rejected h = (PrnStatus.awaiting_cancellation, refl)

current_status-set_status_slot :
    (k : LedgerEventKind) (v : BusinessOperation) (s : PrnStatusRecord)
    → (set_status_slot k v s).current_status ≡ s.current_status
unfolding set_status_slot
current_status-set_status_slot k v s = ground arith

pub entries-event :
    (e : LedgerEvent) (es : List LedgerEvent) (s : PrnStatus)
    → ledger_event_kind_to_prn_status e.kind ≡ some s
    → entries (e ∷ es)
      ≡ record {
        status = s;
        at = e.created_at;
        by = record { id = e.created_by.id; name = e.created_by.name };
      }
        ∷ entries es
entries-event e es s h = rw (h, entries) refl

IsFolded-nothing : (prn : PackagingRecyclingNote) → IsFolded prn [] prn
IsFolded-nothing prn = record {
  history = sym (append-nil prn.status.history);
  status = refl;
  watermark = refl;
  id = refl;
  version = refl;
  prn_number = refl;
  organisation = refl;
  registration = refl;
  accreditation = refl;
  tonnage = refl;
}

-- One event, then others.
IsFolded-event :
    (prn : PackagingRecyclingNote) (e : LedgerEvent) (es : List LedgerEvent) (s : PrnStatus)
    (prn' : PackagingRecyclingNote)
    → ledger_event_kind_to_prn_status e.kind ≡ some s
    → IsFolded (applied s e prn) es prn'
    → IsFolded prn (e ∷ es) prn'
IsFolded-event prn e es s prn' h r = record {
  history =
      rw (entries-event e es s h)
        (r.history ∙ append_assoc prn.status.history (_ ∷ []) (entries es));
  status = rw (entries-event e es s h) (
      r.status ∙ ap (λ c. status_after c (entries es)) (current_status-set_status_slot e.kind _ _));
  watermark = r.watermark;
  id = r.id;
  version = r.version;
  prn_number = r.prn_number;
  organisation = r.organisation;
  registration = r.registration;
  accreditation = r.accreditation;
  tonnage = r.tonnage;
}

-- The fold of events that are all about PRNs does not throw: their statuses are appended to the
-- history of the PRN, the last of them is its status, the number of the last event is its
-- watermark, and its identity, number, tonnage and version stay.
pub fold_prn_from_tail_events_lem :
    (prn : PackagingRecyclingNote) (es : List LedgerEvent)
    → AllPrn es
    → (prn' : PackagingRecyclingNote) × (fold_prn_from_tail_events prn es ≡ ok prn')
      × IsFolded prn es prn'
unfolding fold_prn_from_tail_events apply_event
fold_prn_from_tail_events_lem prn [] h = (prn, refl, IsFolded-nothing prn)
fold_prn_from_tail_events_lem prn (e ∷ es) h =
    let (s, p) = prn_status_of_kind e.kind h.0 in
    let (prn', q, r) = fold_prn_from_tail_events_lem (applied s e prn) es h.1 in
    (prn', rw (p, fold_prn_from_tail_events, apply_event) q, IsFolded-event prn e es s prn' p r)
