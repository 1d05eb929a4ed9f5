-- ===== src/SummaryLogs/Tests.antt =====
-- The theorems on summary logs at two logs of one registration.
use epr_backend.Prelude.{arith, ℕ, ◌≡◌, refl, none, ok, err, [], ◌∷◌, false, conflict}
use epr_backend.SummaryLogs.Status.{
  SummaryLogStatus, submitting, submitted, validated, StatusUpdate,
}
use epr_backend.SummaryLogs.Store.{
  SummaryLogDocument, LogStore, find_log, update_log, transition_to_submitting_exclusive,
}
use epr_backend.SummaryLogs.Failure.{mark_as_submission_failed}
use epr_backend.SummaryLogs.Exclusion.{IsExclusive, transition_to_submitting_exclusive-IsExclusive}
use epr_backend.SummaryLogs.Settled.{update_log_once, mark_as_submission_failed_settled}

abbrev log : ℕ → ℕ → SummaryLogStatus → SummaryLogDocument
log id version status = record {
  id = id;
  version = version;
  summary_log = record {
    organisation_id = 1;
    registration_id = 2;
    status = status;
    expires_at = none;
  };
}

abbrev logs : LogStore
logs = log 5 2 submitting ∷ log 6 3 validated ∷ []

abbrev later_logs : LogStore
later_logs = log 5 3 submitted ∷ log 6 3 validated ∷ []

abbrev update : StatusUpdate
update = record { status = submitted; expires_at = none }

logs-IsExclusive : IsExclusive logs
logs-IsExclusive = ((refl, tt), (tt, tt))

transition_to_submitting_exclusive-IsExclusive_example :
    IsExclusive (transition_to_submitting_exclusive logs 6).1
transition_to_submitting_exclusive-IsExclusive_example =
    transition_to_submitting_exclusive-IsExclusive logs 6 logs-IsExclusive

busy : (transition_to_submitting_exclusive logs 6).0 ≡ ok false
unfolding transition_to_submitting_exclusive find_log
busy = refl

update_log_once_example :
    update_log (update_log logs 5 2 update).1 5 2 update
    ≡ (err conflict, (update_log logs 5 2 update).1)
unfolding find_log
update_log_once_example = update_log_once logs 5 update update (log 5 2 submitting) refl

mark_as_submission_failed_settled_example :
    mark_as_submission_failed 9000 logs 5 later_logs ≡ later_logs
unfolding find_log
mark_as_submission_failed_settled_example =
    mark_as_submission_failed_settled 9000 logs later_logs 5 (log 5 3 submitted) refl refl
      (λ r p q. ground (arith, p, q))
