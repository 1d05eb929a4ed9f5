-- ===== src/Reports/Lifecycle/Restated.antt =====
-- The markers that ask for a resubmission keep the reports well formed.
use epr_backend.Reports.Model.{
  resubmission_or_empty, Report, ReportSummary, SlotKey, marker, Marker, is_resubmission_required,
  PeriodicReport,
}
use epr_backend.Prelude.{
  ℕ, ◌≡◌, not, refl, ap, sym, subst, ◌∙◌, true, arith, filter, any, List, [], ◌∷◌, Member, here,
  there, Member-of_filter, Option, none, some, Bool-cases, inl, inr, Member-of_sort_by_descending,
  ok, throw_if-eq-ok, err-ne-ok, ok-injective, conflict, not_found,
}
use epr_backend.Reports.PeriodicReports.{number_of, find_submission_by_number}
use epr_backend.Reports.Store.{
  ReportStore, set_report, find_report, at_submission, find_periodic_reports,
}
use epr_backend.Reports.Store.Found.{find_report-eq-some}
use epr_backend.Reports.Flagging.{
  PeriodRef, period_of, has_period, first_per_period, latest_submission_per_period,
  with_closed_period_restated, with_operator_requested, set_all, flag_found, submitted_in,
  already_handled, is_requestable, mark_submitted_reports_requiring_resubmission,
  mark_submitted_report_requiring_resubmission_by_operator,
}
use epr_backend.Reports.Service.{
  request_operator_resubmission, request_found, marked, ineligible_error, is_eligible,
  resubmission_eligibility,
}
use epr_backend.Reports.Routes.{request_resubmission}
use epr_backend.Reports.Lifecycle.Invariant.{IsWellFormed, IsClosed}
use epr_backend.Reports.Lifecycle.Writes.{IsVersionOf, set_report-IsWellFormed, written_image}

Member-of_first_per_period :
    (seen : List PeriodRef) (x : Report) (rs : List Report)
    → Member x (first_per_period seen rs)
    → Member x rs
unfolding first_per_period
Member-of_first_per_period seen x [] m = m
Member-of_first_per_period seen x (r ∷ rs) m = elim (Bool-cases (any (λ p. has_period p r) seen)) [
  | inl dropped ↦ there (Member-of_first_per_period seen x rs (rw dropped at m))
  | inr kept ↦ elim (rw kept at m) [
    | here e ↦ here e
    | there n ↦ there (Member-of_first_per_period (period_of r ∷ seen) x rs n)
  ]
]

-- A version of the report is in the store.
abbrev Stored : ReportStore → Report → Type 0
Stored store r = (y : Report) × Member y store × IsVersionOf r y

after_version : (r x y : Report) → IsVersionOf r y → IsVersionOf x y → IsVersionOf r x
after_version r x y v u = record {
  same_id = v.same_id ∙ sym u.same_id;
  same_slot = v.same_slot ∙ sym u.same_slot;
  same_number = v.same_number ∙ sym u.same_number;
}

before_version : (q r y : Report) → IsVersionOf q r → IsVersionOf r y → IsVersionOf q y
before_version q r y v u = record {
  same_id = v.same_id ∙ u.same_id;
  same_slot = v.same_slot ∙ u.same_slot;
  same_number = v.same_number ∙ u.same_number;
}

set_all-IsWellFormed :
    (f : Report → Report) (rs : List Report) (store : ReportStore)
    → ((r : Report) → IsVersionOf (f r) r)
    → ((r : Report) → Member r rs → Stored store r)
    → ((r : Report) → Member r rs → IsClosed (f r))
    → IsWellFormed store
    → IsWellFormed (set_all f rs store)
unfolding set_all
set_all-IsWellFormed f [] store v stored closed w = w
set_all-IsWellFormed f (r ∷ rs) store v stored closed w =
    let (y, m, u) = stored r (here refl) in
    let flagged = before_version (f r) r y (v r) u in
    let done = closed r (here refl) in
    set_all-IsWellFormed f rs (set_report (f r) store) v
      (λ x n.
        let (z, k, a) = stored x (there n) in
        let (t, l, b) = written_image store (f r) y w m flagged (λ p q d g. done) z k in
        (t, l, after_version x t z a b))
      (λ x n. closed x (there n))
      (set_report-IsWellFormed store (f r) y w m flagged (λ p q d g. done))

pub marked_submitted-IsWellFormed :
    (organisation registration log uploaded_at : ℕ) (periods : List PeriodRef) (store : ReportStore)
    → IsWellFormed store
    → IsWellFormed
        (mark_submitted_reports_requiring_resubmission organisation registration log uploaded_at
          periods store).1
unfolding mark_submitted_reports_requiring_resubmission is_resubmission_required
marked_submitted-IsWellFormed organisation registration log uploaded_at periods store w =
    let selected =
      λ (r : Report)
          (m : Member r (
            filter (λ x. not (already_handled log x))
              (latest_submission_per_period
                (filter (submitted_in organisation registration periods) store)))).
        Member-of_filter (submitted_in organisation registration periods) r store (
          Member-of_sort_by_descending number_of r _
            (Member-of_first_per_period [] r _ (Member-of_filter _ r _ m).0)) in
    set_all-IsWellFormed (with_closed_period_restated (marker uploaded_at log)) _ store
      (λ r. record { same_id = refl; same_slot = refl; same_number = refl })
      (λ r m.
        (r, (selected r m).0, record { same_id = refl; same_slot = refl; same_number = refl }))
      (λ r m. (ground (arith, (selected r m).1), ground arith)) w

requested_again :
    (r : Report) (m : Marker)
    → is_resubmission_required (with_operator_requested m r).resubmission_required ≡ true
unfolding is_resubmission_required with_operator_requested
requested_again r m =
    has_requested (resubmission_or_empty r.resubmission_required).closed_period_restated
  where
    has_requested :
        (restated : Option Marker)
        → is_resubmission_required
            (some (record { closed_period_restated = restated; operator_requested = some m }))
          ≡ true
    has_requested none = refl
    has_requested (some x) = refl

flag_found-IsWellFormed :
    (m : Marker) (key : SlotKey) (n : ℕ) (store after : ReportStore) (out : Report)
    (found : Option Report)
    → IsWellFormed store
    → find_report (at_submission key n) store ≡ found
    → marked (flag_found m found store) ≡ ok (out, after)
    → IsWellFormed after
unfolding marked flag_found with_operator_requested
flag_found-IsWellFormed m key n store after out none w q h =
    absurd (err-ne-ok conflict (out, after) h)
flag_found-IsWellFormed m key n store after out (some r) w q h =
    elim (Bool-cases (is_requestable r)) [
      | inr refused ↦ absurd (err-ne-ok conflict (out, after) (rw refused at h))
      | inl flagged ↦
          let (there_now, p) = find_report-eq-some (at_submission key n) store r q in
          subst IsWellFormed
            (ap (λ (t : Report × ReportStore). t.1) (ok-injective _ (out, after) (rw flagged at h)))
            (set_report-IsWellFormed store (with_operator_requested m r) r w there_now
              (record { same_id = refl; same_slot = refl; same_number = refl })
              (λ z k e f. (ground (arith, flagged), requested_again r m)))
    ]

request_found-IsWellFormed :
    (now requested_by : ℕ) (key : SlotKey) (n : ℕ) (store after : ReportStore) (out : Report)
    (prs : List PeriodicReport) (found : Option ReportSummary)
    → IsWellFormed store
    → request_found now requested_by key n prs store found ≡ ok (out, after)
    → IsWellFormed after
unfolding request_found mark_submitted_report_requiring_resubmission_by_operator
request_found-IsWellFormed now requested_by key n store after out prs none w h =
    absurd (err-ne-ok not_found (out, after) h)
request_found-IsWellFormed now requested_by key n store after out prs (some target) w h =
    let eligibility =
      resubmission_eligibility prs target.status target.resubmission_required key.year key.cadence
        key.period n in
    let (a, b) =
      throw_if-eq-ok (not (is_eligible eligibility)) (ineligible_error eligibility) _ (out, after)
        h in
    flag_found-IsWellFormed (marker now requested_by) key n store after out
      (find_report (at_submission key n) store) w refl b

pub request_resubmission-IsWellFormed :
    (now requested_by : ℕ) (key : SlotKey) (n : ℕ) (store after : ReportStore) (out : Report)
    → IsWellFormed store
    → request_resubmission now requested_by key n store ≡ ok (out, after)
    → IsWellFormed after
unfolding request_resubmission request_operator_resubmission
request_resubmission-IsWellFormed now requested_by key n store after out w h =
    let prs = find_periodic_reports key.organisation_id key.registration_id store in
    request_found-IsWellFormed now requested_by key n store after out prs
      (find_submission_by_number prs key.year key.cadence key.period n) w h
