-- ===== src/Reports/Calendars/Selected.antt =====
-- What is selected of a period's reports.
use epr_backend.Prelude.{
  ◌≡◌, ◌≤◌, refl, ap, sym, ◌∙◌, true, false, arith, Option, none, some, List, [], ◌∷◌, filter,
  Bool-cases, inl, inr, ltb, leb, Member, here, there, Member-filter, Member-of_filter,
  Member-of_sort_by, Member-sort_by, IsOrdered, sort_by-IsOrdered, head?, head-sort_by_descending,
  sort_by_descending, insert_descending, Member-of_sort_by_descending,
}
use epr_backend.Reports.Calendar.{IsoDate}
use epr_backend.Reports.ReportStatus.{ReportStatus}
use epr_backend.Reports.Periods.{requires_resubmission, derive_period_status}
use epr_backend.Reports.Model.{ReportSummary, is_resubmission_required}
use epr_backend.Reports.Calendars.{
  MergedPeriod, CalendarPeriod, summary_number, all_reports, has_been_submitted, is_submitted,
  select_submitted_reports, latest_submitted, single_item, flagged_items, draft_after, items_for,
  calendar_items, status_of_report,
}
use mathlib.Core.Option

-- `selectSubmittedReports` gives exactly the reports of the period that have a submission instant,
-- the current one and the earlier ones alike, by ascending submission number.
pub select_submitted_reports_lem :
    (current : Option ReportSummary) (previous : List ReportSummary)
    → IsOrdered summary_number (select_submitted_reports current previous)
      × ((r : ReportSummary)
          → Member r (select_submitted_reports current previous)
          → Member r (all_reports current previous) × (has_been_submitted r ≡ true))
      × ((r : ReportSummary)
          → Member r (all_reports current previous)
          → has_been_submitted r ≡ true
          → Member r (select_submitted_reports current previous))
unfolding select_submitted_reports
select_submitted_reports_lem current previous = (
  sort_by-IsOrdered summary_number (filter has_been_submitted (all_reports current previous)),
  (λ r m.
      Member-of_filter has_been_submitted r (all_reports current previous)
        (Member-of_sort_by summary_number r _ m)),
  (λ r m h. Member-sort_by summary_number r _ (Member-filter has_been_submitted r _ m h)),
)

-- The latest submitted report has the largest number of the submitted ones.
latest_submitted-ge :
    (current : Option ReportSummary) (previous : List ReportSummary) (latest r : ReportSummary)
    → latest_submitted current previous ≡ some latest
    → Member r (all_reports current previous)
    → is_submitted r ≡ true
    → r.submission_number ≤ latest.submission_number
unfolding latest_submitted
latest_submitted-ge current previous latest r h m s =
    head-sort_by_descending summary_number latest
      (filter is_submitted (all_reports current previous)) h r (Member-filter is_submitted r _ m s)

Member-all_reports :
    (current : Option ReportSummary) (previous : List ReportSummary) (r : ReportSummary)
    → current ≡ some r
    → Member r (all_reports current previous)
Member-all_reports none previous r h = absurd (Option.none-ne-some r h)
Member-all_reports (some c) previous r h = here (sym (Option.some-injective c r h))

draft_is_current :
    (flagged d : ReportSummary) (current : Option ReportSummary)
    → draft_after flagged current ≡ some d
    → (current ≡ some d) × (ltb flagged.submission_number d.submission_number ≡ true)
draft_is_current flagged d none h = absurd (Option.none-ne-some d h)
draft_is_current flagged d (some r) h =
    elim (Bool-cases (ltb flagged.submission_number r.submission_number)) [
      | inl later ↦
          let e : r ≡ d = Option.some-injective r d (rw later at h) in
          (
            ap some e,
            ap (λ (t : ReportSummary). ltb flagged.submission_number t.submission_number) (sym e)
                ∙ later,
          )
      | inr no_later ↦ absurd (Option.none-ne-some d (rw no_later at h))
    ]

IsDraft : MergedPeriod → ReportSummary → Type 0
IsDraft p d = (p.report ≡ some d) × (is_submitted d ≡ false)

derived_status :
    (today e d : IsoDate) (status : Option ReportStatus)
    → derive_period_status today e d status ≡ some requires_resubmission
    → ⊥
unfolding derive_period_status
derived_status today e d none h = ground (arith, h)
derived_status today e d (some s) h = ground (arith, h)

single_no_draft :
    (today : IsoDate) (p : MergedPeriod) (item : CalendarPeriod)
    → Member item (single_item today p)
    → item.period_status ≡ some requires_resubmission
    → ⊥
single_no_draft today p item (here e) h =
    derived_status today p.end_date p.due_date (status_of_report p.report)
      (sym (ap (λ (t : CalendarPeriod). t.period_status) e) ∙ h)
single_no_draft today p item (there m) h = elim m [ ]

flagged_items-IsDraft :
    (flagged : ReportSummary) (p : MergedPeriod) (item : CalendarPeriod) (d : ReportSummary)
    → latest_submitted p.report p.previous_submissions ≡ some flagged
    → Member item (flagged_items flagged p)
    → item.period_status ≡ some requires_resubmission
    → item.report ≡ some d
    → IsDraft p d
unfolding IsDraft
flagged_items-IsDraft flagged p item d q (here e) h g =
    absurd (ground (arith, ap (λ (t : CalendarPeriod). t.period_status) e, h))
flagged_items-IsDraft flagged p item d q (there (here e)) h g =
    let (current, later) =
      draft_is_current flagged d p.report (sym (ap (λ (t : CalendarPeriod). t.report) e) ∙ g) in
    (
      current,
      elim (Bool-cases (is_submitted d)) [
        | inr unsubmitted ↦ unsubmitted
        | inl yes_submitted ↦
            let below =
              latest_submitted-ge p.report p.previous_submissions flagged d q
                (Member-all_reports p.report p.previous_submissions d current) yes_submitted in
            absurd (ground (arith, below, later))
      ],
    )
flagged_items-IsDraft flagged p item d q (there (there m)) h g = elim m [ ]

items_for-IsDraft :
    (today : IsoDate) (p : MergedPeriod) (latest : Option ReportSummary) (item : CalendarPeriod)
    (d : ReportSummary)
    → latest_submitted p.report p.previous_submissions ≡ latest
    → Member item (items_for today p latest)
    → item.period_status ≡ some requires_resubmission
    → item.report ≡ some d
    → IsDraft p d
unfolding items_for
items_for-IsDraft today p none item d q m h g = absurd (single_no_draft today p item m h)
items_for-IsDraft today p (some latest) item d q m h g =
    elim (Bool-cases (is_resubmission_required latest.resubmission_required)) [
      | inl required ↦ flagged_items-IsDraft latest p item d q (rw required at m) h g
      | inr settled ↦ absurd (single_no_draft today p item (rw settled at m) h)
    ]

-- A report that the calendar shows under the status that requires a resubmission is the period's
-- current report, and is not a submitted one, whatever the numbers of the period's reports are.
pub calendar_items-draft :
    (today : IsoDate) (p : MergedPeriod) (item : CalendarPeriod) (d : ReportSummary)
    → Member item (calendar_items today p)
    → item.period_status ≡ some requires_resubmission
    → item.report ≡ some d
    → (p.report ≡ some d) × (is_submitted d ≡ false)
unfolding calendar_items IsDraft
calendar_items-draft today p item d m h g =
    items_for-IsDraft today p (latest_submitted p.report p.previous_submissions) item d refl m h g

largest_first :
    (r : ReportSummary) (rs : List ReportSummary)
    → ((s : ReportSummary) → Member s rs → s.submission_number ≤ r.submission_number)
    → head? (insert_descending summary_number r rs) ≡ some r
largest_first r [] h = refl
largest_first r (s ∷ ss) h =
    let before : leb s.submission_number r.submission_number ≡ true =
      ground (arith, h s (here refl)) in
    rw before refl

-- A submitted current report with the largest number is the latest.
pub latest_submitted-current :
    (r : ReportSummary) (previous : List ReportSummary)
    → is_submitted r ≡ true
    → ((s : ReportSummary) → Member s previous → s.submission_number ≤ r.submission_number)
    → latest_submitted (some r) previous ≡ some r
unfolding latest_submitted
latest_submitted-current r previous h last = rw h (
    largest_first r (sort_by_descending summary_number (filter is_submitted previous)) (λ s m.
      last s
        (Member-of_filter is_submitted s previous
          (Member-of_sort_by_descending summary_number s _ m)).0))
