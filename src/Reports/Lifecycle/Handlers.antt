-- ===== src/Reports/Lifecycle/Handlers.antt =====
-- Each handler keeps the reports well formed.
use epr_backend.Prelude.{
  ℕ, ◌+◌, ◌==◌, ◌≡◌, not, refl, ap, sym, subst, ◌∙◌, true, false, arith, Member, Option, none, some,
  Bool, Result, ok, >>=-eq-ok, throw_if-eq-ok, err-ne-ok, ok-injective, conflict, bad_request,
  not_found,
}
use epr_backend.Reports.ReportStatus.{
  ReportStatus, ReportStatusSlot, in_progress, ready_to_submit, submitted, unsubmitted,
  is_valid_report_transition, status_to_slot, same_report_status,
}
use epr_backend.Reports.Model.{Report, SlotKey, is_submitted_status, is_resubmission_required}
use epr_backend.Reports.Stale.{assert_not_stale}
use epr_backend.Reports.Store.{
  ReportStore, require_report, set_report, map_report, update_report, update_report_status,
  moved_report,
}
use epr_backend.Reports.Store.Found.{Member-unique, get_report-eq-some}
use epr_backend.Reports.Service.{fetch_report_by_submission_number, is_latest_submission}
use epr_backend.Reports.Service.Fetched.{require_report-eq-ok, StoredAt, fetch_or_404-eq-ok}
use epr_backend.Reports.Routes.{
  fetch_or_404, found_or_404, post_status, patch_report, unsubmit_report,
}
use epr_backend.Reports.Lifecycle.Invariant.{IsWellFormed, IsClosed}
use epr_backend.Reports.Lifecycle.Writes.{IsVersionOf, set_report-IsWellFormed}

found_some :
    (found : Option Report) (report : Report) → found_or_404 found ≡ ok report → found ≡ some report
found_some none report h = absurd (err-ne-ok not_found report h)
found_some (some r) report h = ap some (ok-injective r report h)

-- What a handler works on is a stored report, mapped.
pub fetched :
    (key : SlotKey) (n : ℕ) (store : ReportStore) (report : Report)
    → IsWellFormed store
    → fetch_or_404 key n store ≡ ok report
    → (r : Report) × StoredAt key n store r × (report ≡ map_report r)
fetched key n store report w h =
    let (found, a, b) = >>=-eq-ok (fetch_report_by_submission_number key n store) _ report h in
    fetch_or_404-eq-ok key n store report w.unique_ids (a ∙ ap ok (found_some found report b))

-- What a write by identifier writes over.
pub required :
    (store : ReportStore) (r existing : Report) (id : ℕ)
    → IsWellFormed store
    → Member r store
    → r.id ≡ id
    → require_report id store ≡ ok existing
    → existing ≡ r
required store r existing id w m e h =
    let (k, f) = get_report-eq-some id store existing (require_report-eq-ok id store existing h) in
    Member-unique existing r store w.unique_ids k m (f ∙ sym e)

moved_report-IsVersionOf :
    (now : ℕ) (new : ReportStatus) (slot : ReportStatusSlot) (r : Report)
    → IsVersionOf (moved_report now new slot r) r
unfolding moved_report
moved_report-IsVersionOf now new slot r = record {
  same_id = refl;
  same_slot = refl;
  same_number = refl;
}

-- A status update of a report that none supersedes.
status_written :
    (store after : ReportStore) (r out : Report) (now id version : ℕ) (new : ReportStatus)
    (slot : ReportStatusSlot)
    → IsWellFormed store
    → Member r store
    → r.id ≡ id
    → (IsClosed r → ⊥)
    → update_report_status now id version new slot store ≡ ok (out, after)
    → IsWellFormed after
unfolding update_report_status
status_written store after r out now id version new slot w m e last h =
    let (existing, a, b) = >>=-eq-ok (require_report id store) _ (out, after) h in
    let (c, d) = throw_if-eq-ok (not (existing.version == version)) conflict _ (out, after) b in
    let same : existing ≡ r = required store r existing id w m e a in
    let written : after ≡ set_report (moved_report now new slot r) store =
      sym (ap (λ (t : Report × ReportStore). t.1) (ok-injective _ (out, after) d))
      ∙ ap (λ t. set_report (moved_report now new slot t) store) same in
    subst IsWellFormed (sym written) (
      set_report-IsWellFormed store (moved_report now new slot r) r w m
        (moved_report-IsVersionOf now new slot r)
        (λ z k f g. absurd (last (w.superseded r z m k f g))))

submitted_is_final :
    (status new : ReportStatus)
    → is_submitted_status status ≡ true
    → is_valid_report_transition status new ≡ false
unfolding is_valid_report_transition
submitted_is_final in_progress new h = cc
submitted_is_final ready_to_submit new h = cc
submitted_is_final submitted new h = refl

no_way_on :
    (r : Report) (new : ReportStatus)
    → not (is_valid_report_transition r.status.current_status new) ≡ false
    → IsClosed r
    → ⊥
no_way_on r new h closed =
    ground (arith, submitted_is_final r.status.current_status new closed.0, h)

pub post_status-IsWellFormed :
    (now : ℕ) (is_complete : Report → Bool) (key : SlotKey) (n : ℕ) (new : ReportStatus)
    (version : ℕ) (store after : ReportStore) (out : Report)
    → IsWellFormed store
    → post_status now is_complete key n new version store ≡ ok (out, after)
    → IsWellFormed after
unfolding post_status map_report
post_status-IsWellFormed now is_complete key n new version store after out w h =
    let (report, a, b) = >>=-eq-ok (fetch_or_404 key n store) _ (out, after) h in
    let (r, (m, same, number), e) = fetched key n store report w a in
    let (c, d, f) =
      >>=-eq-ok (assert_not_stale report.stale report.status.current_status) _ (out, after) b in
    let (g, i) =
      throw_if-eq-ok (not (is_valid_report_transition report.status.current_status new)) bad_request
        _ (out, after) f in
    let (j, k) = throw_if-eq-ok (not (is_complete report)) bad_request _ (out, after) i in
    status_written store after r out now report.id version new (status_to_slot new) w m
      (sym (ap (λ (t : Report). t.id) e))
      (no_way_on r new (
        ap (λ (t : Report). not (is_valid_report_transition t.status.current_status new)) (sym e)
        ∙ g))
      k

pub patch_report-IsWellFormed :
    (new_figures : Report → Result ℕ) (key : SlotKey) (n : ℕ) (store after : ReportStore)
    (out : Report)
    → IsWellFormed store
    → patch_report new_figures key n store ≡ ok (out, after)
    → IsWellFormed after
unfolding patch_report map_report update_report
patch_report-IsWellFormed new_figures key n store after out w h =
    let (report, a, b) = >>=-eq-ok (fetch_or_404 key n store) _ (out, after) h in
    let (r, (m, same, number), e) = fetched key n store report w a in
    let (c, d, f) =
      >>=-eq-ok (assert_not_stale report.stale report.status.current_status) _ (out, after) b in
    let (g, i) =
      throw_if-eq-ok (not (same_report_status report.status.current_status in_progress)) bad_request
        _ (out, after) f in
    let (figures, j, k) = >>=-eq-ok (new_figures report) _ (out, after) i in
    let (existing, l, o) = >>=-eq-ok (require_report report.id store) _ (out, after) k in
    let (p, q) =
      throw_if-eq-ok (not (existing.version == report.version)) conflict _ (out, after) o in
    let is_r : existing ≡ r =
      required store r existing report.id w m (sym (ap (λ (t : Report). t.id) e)) l in
    let there_now : Member existing store = subst (λ t. Member t store) (sym is_r) m in
    let new : Report = record existing { figures = figures; version = existing.version + 1 } in
    subst IsWellFormed (ap (λ (t : Report × ReportStore). t.1) (ok-injective _ (out, after) q)) (
      set_report-IsWellFormed store new existing w there_now
        (record { same_id = refl; same_slot = refl; same_number = refl })
        (λ z u f g. w.superseded existing z there_now u f g))

pub unsubmit_report-IsWellFormed :
    (now : ℕ) (key : SlotKey) (n : ℕ) (store after : ReportStore) (out : Report)
    → IsWellFormed store
    → unsubmit_report now key n store ≡ ok (out, after)
    → IsWellFormed after
unfolding unsubmit_report map_report
unsubmit_report-IsWellFormed now key n store after out w h =
    let (report, a, b) = >>=-eq-ok (fetch_or_404 key n store) _ (out, after) h in
    let (r, (m, same, number), e) = fetched key n store report w a in
    let (c, d) =
      throw_if-eq-ok (not (is_submitted_status report.status.current_status)) conflict _
        (out, after) b in
    let (f, g) =
      throw_if-eq-ok (is_resubmission_required report.resubmission_required) conflict _ (out, after)
        d in
    let (i, j) =
      throw_if-eq-ok (not (is_latest_submission key n store)) conflict _ (out, after) g in
    status_written store after r out now report.id report.version ready_to_submit unsubmitted w m
      (sym (ap (λ (t : Report). t.id) e))
      (λ closed.
        let open_r : is_resubmission_required r.resubmission_required ≡ false =
          sym (ap (λ (t : Report). is_resubmission_required t.resubmission_required) e) ∙ f in
        ground (arith, closed.1, open_r))
      j
