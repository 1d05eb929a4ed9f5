-- ===== src/SummaryLogs/Settled.antt =====
-- What late writers and the safety net can do to a summary log: inmemory.js, mark-as-failed.js.
use epr_backend.SummaryLogs.Status.{
  includes_status, same_log_status, submitting, submission_failed, StatusUpdate,
  submission_processing_statuses,
}
use epr_backend.Prelude.{
  [], subst, Result, ap, ◌∷◌, ==_refl, ℕ, ◌≡◌, refl, none, some, ok, err, Option, Bool-cases, inl,
  inr, true, false, ◌==◌, arith, conflict,
}
use epr_backend.SummaryLogs.Store.{
  SummaryLogDocument, LogStore, find_log, put_log, update_log, updated_document,
}
use epr_backend.SummaryLogs.Failure.{mark_found, mark_as_submission_failed}

find_log-put_log :
    (doc : SummaryLogDocument) (store : LogStore) → find_log (put_log doc store) doc.id ≡ some doc
unfolding find_log put_log
find_log-put_log doc [] = ground (arith, ==_refl doc.id)
find_log-put_log doc (d ∷ ds) = ground (arith, ==_refl doc.id, find_log-put_log doc ds)

update_log_stale :
    (store : LogStore) (id version : ℕ) (u : StatusUpdate) (s : SummaryLogDocument)
    → find_log store id ≡ some s
    → (s.version == version) ≡ false
    → update_log store id version u ≡ (err conflict, store)
unfolding update_log
update_log_stale store id version u s h k = rw (h, k)

-- After an update at the stored version of a summary log, a second update at that same version is
-- refused with a conflict, and leaves the store as the first one left it.
pub update_log_once :
    (store : LogStore) (id : ℕ) (u v : StatusUpdate) (s : SummaryLogDocument)
    → find_log store id ≡ some s
    → (let after = (update_log store id s.version u).1 in
        update_log after id s.version v ≡ (err conflict, after))
unfolding update_log
update_log_once store id u v s h =
    rw (h, ==_refl s.version)
      (update_log_stale (put_log (updated_document id u s) store) id s.version v
        (updated_document id u s) (find_log-put_log (updated_document id u s) store) (ground arith))

module _ (now : ℕ) (replica store : LogStore) (id : ℕ) (s : SummaryLogDocument)
    (stored : find_log store id ≡ some s)
    (settled : same_log_status s.summary_log.status submitting ≡ false) where
  stale_transition :
      (version : ℕ) (transition : Result StatusUpdate)
      → (s.version == version) ≡ false
      → (elim transition [ err _ ↦ store | ok u ↦ (update_log store id version u).1 ]) ≡ store
  stale_transition version (err x) k = refl
  stale_transition version (ok u) k = ap (λ r. r.1) (update_log_stale store id version u s stored k)

  found_settled :
      (found : Option SummaryLogDocument)
      → find_log replica id ≡ found
      → ((r : SummaryLogDocument)
          → find_log replica id ≡ some r
          → r.version ≡ s.version
          → r.summary_log ≡ s.summary_log)
      → mark_found submission_processing_statuses submission_failed now id store found ≡ store
  found_settled none q snapshot = refl
  found_settled (some r) q snapshot =
      elim (Bool-cases (includes_status r.summary_log.status submission_processing_statuses)) [
        | inr other ↦ rw other refl
        | inl processing ↦ elim (Bool-cases (s.version == r.version)) [
          | inl same ↦ absurd (
              ground (
                arith,
                settled,
                subst (λ g. includes_status g.status submission_processing_statuses ≡ true)
                    (snapshot r q (ground arith)) processing,
              ))
          | inr moved ↦ rw processing (stale_transition r.version _ moved)
        ]
      ]

  -- The safety net for submissions leaves the store as it is when the stored log is not
  -- submitting, however old the replica that it reads, as long as the replica shows what the store
  -- has if it shows the stored version.
  pub mark_as_submission_failed_settled :
      ((r : SummaryLogDocument)
        → find_log replica id ≡ some r
        → r.version ≡ s.version
        → r.summary_log ≡ s.summary_log)
      → mark_as_submission_failed now replica id store ≡ store
  unfolding mark_as_submission_failed
  mark_as_submission_failed_settled snapshot = found_settled (find_log replica id) refl snapshot
