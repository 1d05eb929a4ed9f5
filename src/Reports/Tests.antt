-- ===== src/Reports/Tests.antt =====
-- The theorems on reports at concrete dates, periods and stores.
use epr_backend.Prelude.{
  map, ◌-◌, ◌+◌, ◌≡◌, refl, arith, true, false, none, some, [], ◌∷◌, filter, All, Member, here,
  there, ok, err, IsOrdered, conflict, ◌&&◌, leb,
}
use epr_backend.Reports.Calendar.{IsoDate, iso_date, IsValid, days_in_month, format_date_iso}
use epr_backend.Reports.ReportStatus.{in_progress, submitted}
use epr_backend.Reports.Periods.{
  monthly, quarterly, period_at, period_for_date, generate_all_periods_for_year,
  generate_reporting_periods, filter_periods_from_date, derive_period_status, requires_resubmission,
}
use epr_backend.Reports.Periods.Containment.{holds, filter-generate_all_periods_for_year}
use epr_backend.Reports.Periods.Tiling.{
  Tiles, IsWellDated, generate_all_periods_for_year-Tiles,
  generate_all_periods_for_year-IsWellDated,
}
use epr_backend.Reports.Periods.Ended.{
  is_due, generate_reporting_periods-due, filter_periods_from_date-between,
}
use epr_backend.Reports.Model.{is_resubmission_required, ReportSummary, no_resubmission, marker}
use epr_backend.Reports.Stale.{normalise_stale, assert_not_stale}
use epr_backend.Reports.Stale.Normal.{assert_not_stale-normalise_stale}
use epr_backend.Reports.Calendars.{
  MergedPeriod, CalendarPeriod, all_reports, is_submitted, calendar_items, all_submission_items,
  item_number, surfaces,
}
use epr_backend.Reports.Calendars.Selected.{calendar_items-draft}
use epr_backend.Reports.Calendars.Surfaced.{all_submission_items-surfaces}
use epr_backend.Reports.Compliance.{generate_compliance_reporting_periods}
use epr_backend.Reports.Compliance.Schedule.{
  timetable, entry, has_passed, generate_compliance_reporting_periods_lem,
}

abbrev leap_day : IsoDate
leap_day = iso_date 2028 2 29

leap_day-IsValid : IsValid leap_day
unfolding days_in_month
leap_day-IsValid = omega arith

filter-generate_all_periods_for_year_example :
    filter (holds leap_day) (generate_all_periods_for_year quarterly 2028)
    ≡ period_at quarterly 2028 ((period_for_date leap_day quarterly).period - 1) ∷ []
filter-generate_all_periods_for_year_example =
    filter-generate_all_periods_for_year leap_day quarterly leap_day-IsValid (omega arith)

february : (period_at monthly 2028 1).end_date ≡ leap_day
unfolding period_at format_date_iso
february = refl

generate_all_periods_for_year-Tiles_example :
    Tiles (iso_date 2028 1 1) (generate_all_periods_for_year monthly 2028) (iso_date (2028 + 1) 1 1)
generate_all_periods_for_year-Tiles_example =
    generate_all_periods_for_year-Tiles monthly 2028 (omega arith)

generate_all_periods_for_year-IsWellDated_example :
    All (IsWellDated quarterly 2026) (generate_all_periods_for_year quarterly 2026)
generate_all_periods_for_year-IsWellDated_example =
    generate_all_periods_for_year-IsWellDated quarterly 2026 (omega arith)

generate_reporting_periods-due_example :
    generate_reporting_periods monthly 2028 leap_day none
    ≡ filter
        (λ p. is_due (derive_period_status leap_day p.end_date p.due_date none))
        (generate_all_periods_for_year monthly 2028)
generate_reporting_periods-due_example =
    generate_reporting_periods-due monthly 2028 leap_day (omega arith) leap_day-IsValid

abbrev july : IsoDate
july = iso_date 2028 7 14

july-IsValid : IsValid july
unfolding days_in_month
july-IsValid = omega arith

filter_periods_from_date-between_example :
    filter_periods_from_date (generate_all_periods_for_year quarterly 2028) leap_day (some july)
    ≡ filter
        (λ p.
          leb (period_for_date leap_day quarterly).period p.period
          && leb p.period (period_for_date july quarterly).period)
        (generate_all_periods_for_year quarterly 2028)
filter_periods_from_date-between_example =
    filter_periods_from_date-between quarterly leap_day july leap_day-IsValid july-IsValid
      (omega arith) refl

generate_compliance_reporting_periods_lem_example :
    generate_compliance_reporting_periods july
    ≡ ok (map (entry 2028) (filter (has_passed july 2028) timetable))
generate_compliance_reporting_periods_lem_example =
    generate_compliance_reporting_periods_lem july (omega arith)

assert_not_stale-normalise_stale_example :
    assert_not_stale
      (normalise_stale (
        some (record {
          summary_log_changed = none;
          prn_cancelled = none;
          uploaded_at = some 5;
          summary_log_id = some 6;
          reason = some 7;
        })))
      in_progress
    ≡ err conflict
assert_not_stale-normalise_stale_example =
    assert_not_stale-normalise_stale
      (some (record {
        summary_log_changed = none;
        prn_cancelled = none;
        uploaded_at = some 5;
        summary_log_id = some 6;
        reason = some 7;
      }))
      in_progress

-- A submitted report that is flagged, and the draft after it.
abbrev first_report : ReportSummary
first_report = record {
  id = 11;
  status = submitted;
  submission_number = 1;
  submitted_at = some 900;
  resubmission_required =
      some (record no_resubmission { operator_requested = some (marker 950 4) });
}

abbrev second_report : ReportSummary
second_report = record {
  id = 12;
  status = in_progress;
  submission_number = 2;
  submitted_at = none;
  resubmission_required = none;
}

abbrev merged : MergedPeriod
merged = record {
  year = 2028;
  period = 1;
  start_date = iso_date 2028 1 1;
  end_date = iso_date 2028 1 31;
  due_date = iso_date 2028 2 20;
  submission_number = 2;
  report = some second_report;
  previous_submissions = first_report ∷ [];
}

abbrev draft_item : CalendarPeriod
draft_item = record {
  period = merged;
  submission_number = 2;
  report = some second_report;
  period_status = some requires_resubmission;
}

draft_item_shown : Member draft_item (calendar_items july merged)
unfolding calendar_items is_resubmission_required
draft_item_shown = there (here refl)

calendar_items-draft_example :
    (merged.report ≡ some second_report) × (is_submitted second_report ≡ false)
calendar_items-draft_example =
    calendar_items-draft july merged draft_item second_report draft_item_shown refl refl

all_submission_items-surfaces_example :
    IsOrdered item_number (all_submission_items july merged)
    × ((s : ReportSummary)
        → Member s (all_reports (some second_report) (first_report ∷ []))
        → is_submitted s ≡ true
        → surfaces s.id (all_submission_items july merged) ≡ true)
all_submission_items-surfaces_example =
    all_submission_items-surfaces july merged second_report refl
      (λ s m. elim m [ here e ↦ ground (arith, e) | there n ↦ elim n [ ] ])
