-- ===== src/Reports/PeriodicReports/Submissions.antt =====
-- The submitted reports that are selected of a period that is merged from the stored reports.
use epr_backend.Prelude.{
  ℕ, false, IsOrdered, ◌≡◌, refl, sym, true, Option-cases, inl, inr, some, List, sort_by_descending,
  Member, Member-map, Member-of_map, Member-sort_by_descending, Member-of_sort_by_descending, subst,
}
use epr_backend.Reports.Periods.{Cadence, ReportingPeriod}
use epr_backend.Reports.Model.{Report, ReportSummary}
use epr_backend.Reports.PeriodicReports.{to_submission, number_of, group_as_periodic_reports}
use epr_backend.Reports.PeriodicReports.Lookup.{in_period}
use epr_backend.Reports.Merging.{merge_reporting_periods}
use epr_backend.Reports.Calendars.{has_been_submitted, select_submitted_reports, MergedPeriod}
use epr_backend.Reports.Calendars.Selected.{select_submitted_reports_lem}
use epr_backend.Reports.PeriodicReports.Stored.{all_reports-merged}

has_been_submitted_lem :
    (d : Report) (at : ℕ)
    → d.status.submitted ≡ some at
    → has_been_submitted (to_submission d) ≡ true
unfolding to_submission
has_been_submitted_lem d at h = rw h refl

submitted_of :
    (d : Report)
    → has_been_submitted (to_submission d) ≡ true
    → (at : ℕ) × (d.status.submitted ≡ some at)
unfolding to_submission
submitted_of d h = elim (Option-cases d.status.submitted) [
  | inl missing ↦ let impossible : false ≡ true = rw missing at h in cc
  | inr found ↦ found
]

-- What a selected report tells of the stored report that it comes from.
pub record IsSubmissionOf (s : ReportSummary) (d : Report) : Type 0 where
  pub id : s.id ≡ d.id
  pub number : s.submission_number ≡ d.submission_number
  pub at : s.submitted_at ≡ d.status.submitted

to_submission-IsSubmissionOf : (d : Report) → IsSubmissionOf (to_submission d) d
unfolding to_submission
to_submission-IsSubmissionOf d = record { id = refl; number = refl; at = refl }

-- When periods are merged with the grouped view of the stored reports, `selectSubmittedReports` of a
-- merged period gives, by ascending submission number, exactly the stored reports of the year, the
-- cadence and the period that have an instant of submission, with their id, number and that instant. It
-- does so whatever their current status, and whether or not a later draft is the current report.
pub select_submitted_reports-stored :
    (computed : List ReportingPeriod) (docs : List Report) (c : Cadence) (p : MergedPeriod)
    → Member p (merge_reporting_periods computed (group_as_periodic_reports docs) c)
    → (let selected = select_submitted_reports p.report p.previous_submissions in
        IsOrdered (λ (s : ReportSummary). s.submission_number) selected
        × ((s : ReportSummary)
            → Member s selected
            → (d : Report) × Member d (in_period p.year c p.period docs)
              × ((at : ℕ) × (d.status.submitted ≡ some at))
              × IsSubmissionOf s d)
        × ((d : Report) (at : ℕ)
            → Member d (in_period p.year c p.period docs)
            → d.status.submitted ≡ some at
            → (s : ReportSummary) × Member s selected × IsSubmissionOf s d))
select_submitted_reports-stored computed docs c p m =
    let xs = in_period p.year c p.period docs in
    let all = all_reports-merged computed docs c p m in
    let selects = select_submitted_reports_lem p.report p.previous_submissions in
    (
      selects.0,
      (λ s n.
          let (listed, submitted) = selects.1 s n in
          let (d, k, e) =
            Member-of_map to_submission s (sort_by_descending number_of xs)
              (subst (Member s) all listed) in
          (
            d,
            Member-of_sort_by_descending number_of d xs k,
            submitted_of d (subst (λ r. has_been_submitted r ≡ true) e submitted),
            subst (λ r. IsSubmissionOf r d) (sym e) (to_submission-IsSubmissionOf d),
          )),
      (λ d at n h. (
        to_submission d,
        selects.2 (to_submission d)
            (subst (Member (to_submission d)) (sym all)
              (Member-map to_submission d _ (Member-sort_by_descending number_of d xs n)))
            (has_been_submitted_lem d at h),
        to_submission-IsSubmissionOf d,
      )),
    )
