-- ===== src/Reports/PeriodicReports/Stored.antt =====
-- The periods that are merged from the stored reports.
use epr_backend.Prelude.{
  ap₂, ◌≤◌, ◌≡◌, refl, ap, sym, ◌∙◌, true, Option-cases, inl, inr, Option, none, some, List, [],
  ◌∷◌, map, group_of, sort_by_descending, arith, Member, there, Member-map, Member-of_map,
  Member-sort_by_descending, Member-of_sort_by_descending, subst, head?, head-sort_by_descending,
}
use epr_backend.Reports.Calendar.{IsoDate}
use epr_backend.Reports.Periods.{Cadence, ReportingPeriod}
use epr_backend.Reports.Model.{Report, ReportSummary, ReportPerPeriod, PeriodicReport}
use epr_backend.Reports.PeriodicReports.{
  to_submission, number_of, build_period_summary, group_as_periodic_reports, summary_of,
}
use epr_backend.Reports.PeriodicReports.Lookup.{in_period, summaries}
use epr_backend.Reports.Merging.{
  current_of, previous_of, of_computed, of_slot, key_of, merge_reporting_periods,
}
use epr_backend.Reports.Merging.Lookup.{slot_for, computed_for, restored, merged_for}
use epr_backend.Reports.Merging.Once.{key}
use epr_backend.Reports.Merging.Merged.{merged_for-Member}
use epr_backend.Reports.Calendars.{
  MergedPeriod, is_submitted, surfaces, all_submission_items, all_reports,
}
use epr_backend.Reports.Calendars.Surfaced.{all_submission_items-surfaces}
use epr_backend.Reports.PeriodicReports.Slots.{slot_for-group_as_periodic_reports}
use mathlib.Core.Option

-- A merged period has the reports of its slot.
merged_for-reports :
    (computed : List ReportingPeriod) (prs : List PeriodicReport) (c : Cadence) (p : MergedPeriod)
    → merged_for computed prs c (key p) ≡ some p
    → (p.report ≡ current_of (slot_for (key p) c prs))
      × (p.previous_submissions ≡ previous_of (slot_for (key p) c prs))
merged_for-reports computed prs c p h = elim (Option-cases (computed_for (key p) computed)) [
  | inr (cp, found) ↦
      let e : of_computed cp (slot_for (key_of cp) c prs) ≡ p =
        Option.some-injective _ p (rw found at h) in
      let own : p ≡ of_computed cp (slot_for (key p) c prs) =
        sym e ∙ ap (λ (q : MergedPeriod). of_computed cp (slot_for (key q) c prs)) e in
      (
        ap (λ (q : MergedPeriod). q.report) own,
        ap (λ (q : MergedPeriod). q.previous_submissions) own,
      )
  | inl absent ↦ from_slot (slot_for (key p) c prs) (rw absent at h)
]
  where
    from_slot :
        {p : MergedPeriod} (slot : Option ReportPerPeriod)
        → restored (key p) slot ≡ some p
        → (p.report ≡ current_of slot) × (p.previous_submissions ≡ previous_of slot)
    from_slot none e = cc
    from_slot {p} (some slot) e = elim (Option-cases slot.current) [
      | inl bare ↦ let impossible : none ≡ some p = rw bare at e in cc
      | inr (r, current) ↦
          let own : of_slot (key p) slot r ≡ p = Option.some-injective _ p (rw current at e) in
          (
            sym (ap (λ (q : MergedPeriod). q.report) own) ∙ sym current,
            sym (ap (λ (q : MergedPeriod). q.previous_submissions) own),
          )
    ]

reports_of_group :
    (docs : List Report)
    → (current_of (Option.map build_period_summary (group_of docs)) ≡ head? (summaries docs))
      × ((r : ReportSummary)
          → head? (summaries docs) ≡ some r
          → all_reports (some r) (previous_of (Option.map build_period_summary (group_of docs)))
            ≡ summaries docs)
unfolding build_period_summary summary_of
reports_of_group [] = (refl, (λ r e. cc))
reports_of_group (d ∷ ds) = go (sort_by_descending number_of (d ∷ ds))
  where
    go :
        (sorted : List Report)
        → ((summary_of sorted).current ≡ head? (map to_submission sorted))
          × ((r : ReportSummary)
              → head? (map to_submission sorted) ≡ some r
              → all_reports (some r) (summary_of sorted).previous_submissions
                ≡ map to_submission sorted)
    go [] = (refl, (λ r e. cc))
    go (x ∷ xs) = (
      refl,
      (λ r e.
          ap (λ s. s ∷ map to_submission xs) (sym (Option.some-injective (to_submission x) r e))),
    )

head-map {ℓ κ} :
    {A : Type ℓ} {B : Type κ} (f : A → B) (y : B) (xs : List A)
    → head? (map f xs) ≡ some y
    → (x : A) × (head? xs ≡ some x) × (f x ≡ y)
head-map f y [] e = cc
head-map f y (x ∷ xs) e = (x, refl, Option.some-injective (f x) y e)

head-summaries :
    (docs : List Report) (r : ReportSummary)
    → head? (summaries docs) ≡ some r
    → (s : ReportSummary) → Member s (summaries docs)
    → s.submission_number ≤ r.submission_number
unfolding to_submission
head-summaries docs r e s m =
    let sorted = sort_by_descending number_of docs in
    let (d, n, f) = Member-of_map to_submission s sorted m in
    let (x, g, own) = head-map to_submission r sorted e in
    let top : d.submission_number ≤ x.submission_number =
      head-sort_by_descending number_of x docs g d
        (Member-of_sort_by_descending number_of d docs n) in
    let below : s.submission_number ≡ d.submission_number =
      ap (λ (q : ReportSummary). q.submission_number) f in
    let above : x.submission_number ≡ r.submission_number =
      ap (λ (q : ReportSummary). q.submission_number) own in
    omega arith

all_reports_of_group :
    (docs : List Report)
    → (let slot = Option.map build_period_summary (group_of docs) in
        all_reports (current_of slot) (previous_of slot) ≡ summaries docs)
unfolding build_period_summary summary_of
all_reports_of_group [] = refl
all_reports_of_group (d ∷ ds) = go (sort_by_descending number_of (d ∷ ds))
  where
    go :
        (sorted : List Report)
        → all_reports (summary_of sorted).current (summary_of sorted).previous_submissions
          ≡ map to_submission sorted
    go [] = refl
    go (x ∷ xs) = refl

-- A period that is merged with the stored reports has all those of its slot.
pub all_reports-merged :
    (computed : List ReportingPeriod) (docs : List Report) (c : Cadence) (p : MergedPeriod)
    → Member p (merge_reporting_periods computed (group_as_periodic_reports docs) c)
    → all_reports p.report p.previous_submissions ≡ summaries (in_period p.year c p.period docs)
all_reports-merged computed docs c p m =
    let prs = group_as_periodic_reports docs in
    let reports = merged_for-reports computed prs c p (merged_for-Member computed prs c p m) in
    let slot = slot_for-group_as_periodic_reports (key p) c docs in
    ap₂ all_reports (reports.0 ∙ ap current_of slot) (reports.1 ∙ ap previous_of slot)
    ∙ all_reports_of_group (in_period p.year c p.period docs)

-- When periods are merged with the grouped view of the stored reports, the view of all submissions of a
-- merged period shows each stored report that is submitted and has the year, the cadence and the period
-- of that period.
pub all_submission_items-stored :
    (today : IsoDate) (computed : List ReportingPeriod) (docs : List Report) (c : Cadence)
    (p : MergedPeriod) (d : Report)
    → Member p (merge_reporting_periods computed (group_as_periodic_reports docs) c)
    → Member d (in_period p.year c p.period docs)
    → is_submitted (to_submission d) ≡ true
    → surfaces (to_submission d).id (all_submission_items today p) ≡ true
all_submission_items-stored today computed docs c p d m n h =
    let prs = group_as_periodic_reports docs in
    let xs = in_period p.year c p.period docs in
    let reports = merged_for-reports computed prs c p (merged_for-Member computed prs c p m) in
    let grouped = reports_of_group xs in
    let slot = slot_for-group_as_periodic_reports (key p) c docs in
    let current : p.report ≡ head? (summaries xs) = reports.0 ∙ ap current_of slot ∙ grouped.0 in
    let previous = reports.1 ∙ ap previous_of slot in
    let listed : Member (to_submission d) (summaries xs) =
      Member-map to_submission d _ (Member-sort_by_descending number_of d xs n) in
    elim (Option-cases (head? (summaries xs))) [
      | inl nothing ↦ elim (no_member (summaries xs) nothing listed) [ ]
      | inr (r, found) ↦
          let all : all_reports (some r) p.previous_submissions ≡ summaries xs =
            ap (all_reports (some r)) previous ∙ grouped.1 r found in
          (all_submission_items-surfaces today p r (current ∙ found)
              (λ s k. head-summaries xs r found s (subst (Member s) all (there k)))).1
            (to_submission d) (subst (Member (to_submission d)) (sym all) listed) h
    ]
  where
    no_member :
        {x : ReportSummary} (ys : List ReportSummary) → head? ys ≡ none → Member x ys → Member x []
    no_member [] e k = k
    no_member (y ∷ ys) e k = cc
