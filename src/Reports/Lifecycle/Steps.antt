-- ===== src/Reports/Lifecycle/Steps.antt =====
-- The handlers as steps of the store, and what every store that they reach satisfies.
use native.Mathlib.Decide.{dec_lt}
use epr_backend.Prelude.{
  sym, subst, ℕ, ◌≡◌, ◌≢◌, Bool, true, [], Member, Result, ok, List, arith, >>=-eq-ok,
}
use epr_backend.Reports.Calendar.{IsoDate}
use epr_backend.Reports.ReportStatus.{ReportStatus}
use epr_backend.Reports.Model.{Report, SlotKey}
use epr_backend.Reports.Store.{ReportStore, is_active}
use epr_backend.Reports.Service.{ReportData, assert_cadence}
use epr_backend.Reports.Flagging.{PeriodRef}
use epr_backend.Reports.Routes.{
  post_report, post_status, patch_report, unsubmit_report, delete_route, request_resubmission,
  on_summary_log_uploaded, on_prn_cancelled,
}
use epr_backend.Reports.Lifecycle.Invariant.{IsWellFormed}
use epr_backend.Reports.Lifecycle.Created.{create_report_for_period-Created, Created-IsWellFormed}
use epr_backend.Reports.Lifecycle.Handlers.{
  post_status-IsWellFormed, patch_report-IsWellFormed, unsubmit_report-IsWellFormed,
}
use epr_backend.Reports.Lifecycle.Flags.{
  delete_route-IsWellFormed, on_prn_cancelled-IsWellFormed, marked_stale-IsWellFormed,
}
use epr_backend.Reports.Lifecycle.Restated.{
  marked_submitted-IsWellFormed, request_resubmission-IsWellFormed,
}

-- A handler that succeeds. The identifier of a new report is a random one, which none has.
pub data Step (store after : ReportStore) : Type 0 where
  posted :
      (today : IsoDate) (now id : ℕ) (accredited : Bool) (key : SlotKey) (n : ℕ)
      (aggregated : Result ReportData) (out : Report)
      → ((z : Report) → Member z store → z.id ≢ id)
      → post_report today now id accredited key n aggregated store ≡ ok (out, after)
      → Step store after
  moved :
      (now : ℕ) (is_complete : Report → Bool) (key : SlotKey) (n : ℕ) (new : ReportStatus)
      (version : ℕ) (out : Report)
      → post_status now is_complete key n new version store ≡ ok (out, after)
      → Step store after
  patched :
      (new_figures : Report → Result ℕ) (key : SlotKey) (n : ℕ) (out : Report)
      → patch_report new_figures key n store ≡ ok (out, after)
      → Step store after
  unsubmitted :
      (now : ℕ) (key : SlotKey) (n : ℕ) (out : Report)
      → unsubmit_report now key n store ≡ ok (out, after)
      → Step store after
  deleted : (key : SlotKey) (n : ℕ) → delete_route key n store ≡ ok after → Step store after
  requested :
      (now requested_by : ℕ) (key : SlotKey) (n : ℕ) (out : Report)
      → request_resubmission now requested_by key n store ≡ ok (out, after)
      → Step store after
  uploaded :
      (now organisation registration log : ℕ) (closed_periods : List PeriodRef)
      → on_summary_log_uploaded now organisation registration log closed_periods store ≡ after
      → Step store after
  cancelled :
      (now organisation registration prn : ℕ) (issued_at : IsoDate)
      → on_prn_cancelled now organisation registration prn issued_at store ≡ after
      → Step store after

pub data Reach (store : ReportStore) : ReportStore → Type 0 where
  start : Reach store store
  next : {before after : ReportStore} → Reach store before → Step before after → Reach store after

Step-IsWellFormed :
    {store after : ReportStore} → Step store after → IsWellFormed store → IsWellFormed after
unfolding post_report on_summary_log_uploaded
Step-IsWellFormed {store} {after} (posted today now id accredited key n aggregated out fresh h) w =
    let (u, a, b) = >>=-eq-ok (assert_cadence key.cadence accredited) _ (out, after) h in
    Created-IsWellFormed store after now id key n w fresh
      (create_report_for_period-Created today now id key n aggregated store after out b)
Step-IsWellFormed {store} {after} (moved now is_complete key n new version out h) w =
    post_status-IsWellFormed now is_complete key n new version store after out w h
Step-IsWellFormed {store} {after} (patched new_figures key n out h) w =
    patch_report-IsWellFormed new_figures key n store after out w h
Step-IsWellFormed {store} {after} (unsubmitted now key n out h) w =
    unsubmit_report-IsWellFormed now key n store after out w h
Step-IsWellFormed {store} {after} (deleted key n h) w =
    delete_route-IsWellFormed key n store after w h
Step-IsWellFormed {store} {after} (requested now requested_by key n out h) w =
    request_resubmission-IsWellFormed now requested_by key n store after out w h
Step-IsWellFormed {store} (uploaded now organisation registration log closed_periods e) w =
    subst IsWellFormed e (
      marked_submitted-IsWellFormed organisation registration log now closed_periods _
        (marked_stale-IsWellFormed organisation registration log now store w))
Step-IsWellFormed {store} (cancelled now organisation registration prn issued_at e) w =
    subst IsWellFormed e
      (on_prn_cancelled-IsWellFormed now organisation registration prn issued_at store w)

-- In every store that the handlers reach from a well-formed one, one after another, the reports are
-- well formed: identifiers are unique, the reports of a slot (an organisation, a registration and a
-- period) are numbered from 1 without a gap or a repetition, and every report but the last of its
-- slot is submitted and marked as requiring resubmission.
pub Reach-IsWellFormed :
    {store after : ReportStore} → IsWellFormed store → Reach store after → IsWellFormed after
Reach-IsWellFormed w start = w
Reach-IsWellFormed w (next r s) = Step-IsWellFormed s (Reach-IsWellFormed w r)

pub empty-IsWellFormed : IsWellFormed []
empty-IsWellFormed = record {
  unique_ids = tt;
  positive = λ r m. elim m [ ];
  unique_numbers = λ r s m. elim m [ ];
  superseded = λ r s m. elim m [ ];
  no_gap = λ s j m. elim m [ ];
}

-- However the handlers run one after another from an empty store, two reports of one slot that are
-- both not submitted are one report: a period never has two drafts.
pub Reach-one_draft :
    {store : ReportStore}
    → Reach [] store
    → (r s : Report) → Member r store
    → Member s store
    → r.slot ≡ s.slot
    → is_active r ≡ true
    → is_active s ≡ true
    → r.id ≡ s.id
Reach-one_draft reached r s m n e a b =
    let w = Reach-IsWellFormed empty-IsWellFormed reached in
    elim (dec_lt r.submission_number s.submission_number) [
      | yes below ↦ absurd (ground (arith, a, (w.superseded r s m n e below).0))
      | no ge ↦ elim (dec_lt s.submission_number r.submission_number) [
        | yes above ↦ absurd (ground (arith, b, (w.superseded s r n m (sym e) above).0))
        | no le ↦ w.unique_numbers r s m n e (omega arith)
      ]
    ]
