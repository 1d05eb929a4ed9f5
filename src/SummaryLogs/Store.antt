-- ===== src/SummaryLogs/Store.antt =====
-- Code: src/repositories/summary-logs/inmemory.js. `storage` is a JavaScript `Map` from id to
-- document: a list in insertion order. `findById` reads `staleCache`, a replica that lags behind
-- the storage. Of a summary log, the owner and the status are modelled; validation by Joi schemas,
-- logging and the times of submission are left out.
use epr_backend.Prelude.{
  ℕ, ◌+◌, Bool, true, false, ◌&&◌, not, ◌==◌, Option, none, some, List, [], ◌∷◌, any, Result, ok,
  err, if◌then◌else◌, conflict, not_found,
}
use epr_backend.SummaryLogs.Status.{
  SummaryLogStatus, submitting, validated, same_log_status, StatusUpdate,
}

pub record SummaryLog : Type 0 where
  pub organisation_id : ℕ
  pub registration_id : ℕ
  pub status : SummaryLogStatus
  pub expires_at : Option ℕ

pub record SummaryLogDocument : Type 0 where
  pub id : ℕ
  pub version : ℕ
  pub summary_log : SummaryLog

abbrev pub LogStore : Type 0
LogStore = List SummaryLogDocument

-- `storage.get(id)`, and `findById` when given the replica
unfoldable pub find_log : LogStore → ℕ → Option SummaryLogDocument
find_log [] id = none
find_log (d ∷ ds) id = if d.id == id then some d else find_log ds id

-- `storage.set(id, doc)`
unfoldable pub put_log : SummaryLogDocument → LogStore → LogStore
put_log doc [] = doc ∷ []
put_log doc (d ∷ ds) = if d.id == doc.id then doc ∷ ds else d ∷ put_log doc ds

unfoldable pub insert_log : LogStore → ℕ → SummaryLog → Result (Unit {0}) × LogStore
insert_log store id log = elim (find_log store id) [
  | some _ ↦ (err conflict, store)
  | none ↦ (ok tt, put_log (record { id = id; version = 1; summary_log = log }) store)
]

-- The document that an update writes.
abbrev pub updated_document : ℕ → StatusUpdate → SummaryLogDocument → SummaryLogDocument
updated_document id u existing = record {
  id = id;
  version = existing.version + 1;
  summary_log = record existing.summary_log { status = u.status; expires_at = u.expires_at };
}

-- What `update` does with the document it found.
abbrev pub update_found :
    LogStore → ℕ → ℕ → StatusUpdate → Option SummaryLogDocument → Result (Unit {0}) × LogStore
update_found store id version u none = (err not_found, store)
update_found store id version u (some existing) =
    if not (existing.version == version)
    then (err conflict, store)
    else (ok tt, put_log (updated_document id u existing) store)

-- `update` with the update object of a status transition
unfoldable pub update_log : LogStore → ℕ → ℕ → StatusUpdate → Result (Unit {0}) × LogStore
update_log store id version u = update_found store id version u (find_log store id)

-- Another log of the same organisation and registration is submitting.
abbrev pub other_submitting : SummaryLogDocument → SummaryLogDocument → Bool
other_submitting existing d =
    not (d.id == existing.id)
    && (d.summary_log.organisation_id == existing.summary_log.organisation_id
        && (d.summary_log.registration_id == existing.summary_log.registration_id
            && same_log_status d.summary_log.status submitting))

-- The document that it writes.
abbrev pub submitting_document : SummaryLogDocument → SummaryLogDocument
submitting_document existing = record existing {
  version = existing.version + 1;
  summary_log = record existing.summary_log { status = submitting };
}

-- What `transitionToSubmittingExclusive` does with the document it found.
abbrev pub submit_found : LogStore → Option SummaryLogDocument → Result Bool × LogStore
submit_found store none = (err not_found, store)
submit_found store (some existing) =
    if not (same_log_status existing.summary_log.status validated)
    then (err conflict, store)
    else if any (other_submitting existing) store
    then (ok false, store)
    else (ok true, put_log (submitting_document existing) store)

-- `transitionToSubmittingExclusive`: whether it succeeded
unfoldable pub transition_to_submitting_exclusive : LogStore → ℕ → Result Bool × LogStore
transition_to_submitting_exclusive store id = submit_found store (find_log store id)
