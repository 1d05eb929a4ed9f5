-- ===== src/Reports/Calendars/Surfaced.antt =====
-- What the calendars show of a period's submitted reports.
use epr_backend.Prelude.{
  ℕ, ◌≡◌, ◌≤◌, ap, sym, ◌∙◌, ==_refl, true, arith, ◌++◌, some, List, Bool-cases, inl, inr, Member,
  here, there, Member-filter, Member-of_any, any-of_Member, Member-map, Member-append_left,
  Member-append_right, Member-sort_by, sort_by, IsOrdered, sort_by-IsOrdered,
}
use epr_backend.Reports.Calendar.{IsoDate}
use epr_backend.Reports.Model.{ReportSummary, is_resubmission_required}
use epr_backend.Reports.Calendars.{
  MergedPeriod, CalendarPeriod, all_reports, is_submitted, latest_submitted, items_for,
  calendar_items, surfaces, shows, item_number, historical_item, all_submission_items,
}
use epr_backend.Reports.Calendars.Selected.{latest_submitted-current}

-- What a list shows, its sort shows.
surfaces-sort_by :
    (id : ℕ) (items : List CalendarPeriod)
    → surfaces id items ≡ true
    → surfaces id (sort_by item_number items) ≡ true
surfaces-sort_by id items h =
    let (x, m, e) = Member-of_any (shows id) items h in
    any-of_Member (shows id) x (sort_by item_number items) (Member-sort_by item_number x items m) e

surfaces-append_left :
    (id : ℕ) (xs ys : List CalendarPeriod) → surfaces id xs ≡ true → surfaces id (xs ++ ys) ≡ true
surfaces-append_left id xs ys h =
    let (x, m, e) = Member-of_any (shows id) xs h in
    any-of_Member (shows id) x (xs ++ ys) (Member-append_left x xs ys m) e

previous_surfaces :
    (today : IsoDate) (p : MergedPeriod) (s : ReportSummary)
    → Member s p.previous_submissions
    → is_submitted s ≡ true
    → surfaces s.id (all_submission_items today p) ≡ true
unfolding all_submission_items
previous_surfaces today p s m h =
    let current = calendar_items today p in
    elim (Bool-cases (surfaces s.id current)) [
      | inl shown ↦ surfaces-sort_by s.id _ (surfaces-append_left s.id current _ shown)
      | inr hidden ↦ surfaces-sort_by s.id _ (
          any-of_Member (shows s.id) (historical_item p s) _
            (Member-append_right (historical_item p s) current _ (
              Member-map (historical_item p) s _
                (Member-filter _ s p.previous_submissions m (ground (arith, h, hidden)))))
            (==_refl s.id))
    ]

current_surfaces :
    (today : IsoDate) (p : MergedPeriod) (r : ReportSummary)
    → p.report ≡ some r
    → surfaces r.id (items_for today p (some r)) ≡ true
unfolding items_for
current_surfaces today p r e =
    elim (Bool-cases (is_resubmission_required r.resubmission_required)) [
      | inl required ↦ rw required (ground (arith, ==_refl r.id))
      | inr settled ↦ rw (settled, e) (ground (arith, ==_refl r.id))
    ]

current_shown :
    (today : IsoDate) (p : MergedPeriod) (r s : ReportSummary)
    → p.report ≡ some r
    → ((t : ReportSummary)
        → Member t p.previous_submissions
        → t.submission_number ≤ r.submission_number)
    → s ≡ r
    → is_submitted s ≡ true
    → surfaces s.id (all_submission_items today p) ≡ true
unfolding all_submission_items calendar_items
current_shown today p r s e last same h =
    let latest : latest_submitted p.report p.previous_submissions ≡ some r =
      ap (λ c. latest_submitted c p.previous_submissions) e
      ∙ latest_submitted-current r p.previous_submissions (ap is_submitted (sym same) ∙ h) last in
    let shown : surfaces s.id (calendar_items today p) ≡ true =
      ap (λ (t : ReportSummary). surfaces t.id (calendar_items today p)) same
      ∙ ap (λ found. surfaces r.id (items_for today p found)) latest
      ∙ current_surfaces today p r e in
    surfaces-sort_by s.id _ (surfaces-append_left s.id (calendar_items today p) _ shown)

-- When no earlier report of the period has a larger number than the current one, the view of all
-- submissions shows every submitted report of the period, the current one and the earlier ones, with
-- its items by ascending submission number.
pub all_submission_items-surfaces :
    (today : IsoDate) (p : MergedPeriod) (r : ReportSummary)
    → p.report ≡ some r
    → ((s : ReportSummary)
        → Member s p.previous_submissions
        → s.submission_number ≤ r.submission_number)
    → IsOrdered item_number (all_submission_items today p)
      × ((s : ReportSummary)
          → Member s (all_reports (some r) p.previous_submissions)
          → is_submitted s ≡ true
          → surfaces s.id (all_submission_items today p) ≡ true)
unfolding all_submission_items
all_submission_items-surfaces today p r e last = (
  sort_by-IsOrdered item_number _,
  (λ s m h. elim m [
    | here same ↦ current_shown today p r s e last same h
    | there n ↦ previous_surfaces today p s n h
  ]),
)
