-- ===== src/Reports/Lifecycle/Flags.antt =====
-- Deletion and the markers keep the reports well formed.
use native.Mathlib.Decide.{dec_lt}
use epr_backend.Reports.Calendar.{IsoDate}
use epr_backend.Prelude.{
  ℕ, ◌≡◌, not, refl, ap, sym, subst, ◌∙◌, true, false, arith, Member, Option, none, some, Bool,
  if◌then◌else◌, ok, >>=-eq-ok, throw_if-eq-ok, err-ne-ok, ok-injective, conflict, bad_request,
  not_found,
}
use epr_backend.Reports.Model.{Report, SlotKey, marker, is_submitted_status}
use epr_backend.Reports.Store.{
  ReportStore, remove_report, find_report, find_report_by_id, map_report, delete_report,
  delete_found, is_in_schema, at_submission,
}
use epr_backend.Reports.Store.Found.{Member-unique, find_report-eq-some}
use epr_backend.Reports.Flagging.{
  update_where, with_summary_log_changed, with_prn_cancelled,
  mark_active_reports_stale_for_summary_log, mark_active_reports_stale_for_prn_cancellation,
}
use epr_backend.Reports.Routes.{fetch_or_404, delete_route, on_prn_cancelled}
use epr_backend.Reports.Lifecycle.Invariant.{IsWellFormed, IsClosed, same_slot-eq}
use epr_backend.Reports.Lifecycle.Writes.{IsVersionOf, map-IsWellFormed}
use epr_backend.Reports.Lifecycle.Ends.{remove_report-IsWellFormed}
use epr_backend.Reports.Lifecycle.Handlers.{fetched}

-- What `deleteReport` deletes.
delete_found-IsWellFormed :
    (key : SlotKey) (n : ℕ) (store after : ReportStore) (r : Report) (found : Option Report)
    → IsWellFormed store
    → Member r store
    → r.slot ≡ key
    → r.submission_number ≡ n
    → (IsClosed r → ⊥)
    → find_report (at_submission key n) store ≡ found
    → delete_found found store ≡ ok after
    → IsWellFormed after
unfolding delete_found
delete_found-IsWellFormed key n store after r none w m e f last q h =
    absurd (err-ne-ok not_found after h)
delete_found-IsWellFormed key n store after r (some x) w m e f last q h =
    let (k, p) = find_report-eq-some (at_submission key n) store x q in
    let same : x ≡ r = Member-unique x r store w.unique_ids k m (
      w.unique_numbers x r k m (same_slot-eq x.slot key (ground (arith, p)) ∙ sym e)
        (ground (arith, p, f))) in
    subst IsWellFormed (ok-injective (remove_report x.id store) after h) (
      subst (λ t. IsWellFormed (remove_report t.id store)) (sym same)
        (remove_report-IsWellFormed store r w m (λ z l g.
          elim (dec_lt r.submission_number z.submission_number) [
            | yes above ↦ absurd (last (w.superseded r z m l g above))
            | no le ↦ omega (arith, le)
          ])))

pub delete_route-IsWellFormed :
    (key : SlotKey) (n : ℕ) (store after : ReportStore)
    → IsWellFormed store
    → delete_route key n store ≡ ok after
    → IsWellFormed after
unfolding delete_route delete_report map_report
delete_route-IsWellFormed key n store after w h =
    let (report, a, b) = >>=-eq-ok (fetch_or_404 key n store) _ after h in
    let (r, (m, same, number), e) = fetched key n store report w a in
    let (c, d) =
      throw_if-eq-ok (is_submitted_status report.status.current_status) conflict _ after b in
    let (previous, f, g) = >>=-eq-ok (find_report_by_id report.id store) _ after d in
    let (i, j) =
      throw_if-eq-ok (not (is_in_schema key report.submission_number)) bad_request _ after g in
    delete_found-IsWellFormed key report.submission_number store after r
      (find_report (at_submission key report.submission_number) store) w m
      (same_slot-eq r.slot key same) (sym (ap (λ (t : Report). t.submission_number) e))
      (λ closed.
        let active : is_submitted_status r.status.current_status ≡ false =
          sym (ap (λ (t : Report). is_submitted_status t.status.current_status) e) ∙ c in
        ground (arith, closed.0, active))
      refl j

-- A change of the reports that a test selects, which keeps what the invariant speaks of.
update_where-IsWellFormed :
    (p : Report → Bool) (f : Report → Report) (store : ReportStore)
    → ((r : Report) → IsVersionOf (f r) r)
    → ((r : Report) → IsClosed r → IsClosed (f r))
    → IsWellFormed store
    → IsWellFormed (update_where p f store)
update_where-IsWellFormed p f store v closed w =
    map-IsWellFormed (λ r. if p r then f r else r)
      (λ r. elim (p r) as (λ b. IsVersionOf (if b then f r else r) r) [
        | true ↦ v r
        | false ↦ record { same_id = refl; same_slot = refl; same_number = refl }
      ])
      (λ r c. elim (p r) as (λ b. IsClosed (if b then f r else r)) [
        | true ↦ closed r c
        | false ↦ c
      ])
      store w

pub marked_stale-IsWellFormed :
    (organisation registration log uploaded_at : ℕ) (store : ReportStore)
    → IsWellFormed store
    → IsWellFormed
        (mark_active_reports_stale_for_summary_log organisation registration log uploaded_at
          store).1
unfolding mark_active_reports_stale_for_summary_log
marked_stale-IsWellFormed organisation registration log uploaded_at store w =
    update_where-IsWellFormed _ (with_summary_log_changed (marker uploaded_at log)) store
      (λ r. record { same_id = refl; same_slot = refl; same_number = refl }) (λ r c. c) w

pub on_prn_cancelled-IsWellFormed :
    (now organisation registration prn : ℕ) (issued_at : IsoDate) (store : ReportStore)
    → IsWellFormed store
    → IsWellFormed (on_prn_cancelled now organisation registration prn issued_at store)
unfolding on_prn_cancelled mark_active_reports_stale_for_prn_cancellation
on_prn_cancelled-IsWellFormed now organisation registration prn issued_at store w =
    update_where-IsWellFormed _ (with_prn_cancelled (marker now prn)) store
      (λ r. record { same_id = refl; same_slot = refl; same_number = refl }) (λ r c. c) w
