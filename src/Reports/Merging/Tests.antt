-- ===== src/Reports/Merging/Tests.antt =====
-- Concrete runs of the merge of reporting periods.
use epr_backend.Prelude.{ℕ, ◌≡◌, refl, Option, none, some, [], ◌∷◌, Member, map, sort_with}
use epr_backend.Reports.Calendar.{iso_date}
use epr_backend.Reports.ReportStatus.{in_progress}
use epr_backend.Reports.Periods.{monthly, ReportingPeriod, period_at}
use epr_backend.Reports.Model.{PeriodicReport, ReportPerPeriod, ReportSummary}
use epr_backend.Reports.Calendars.{MergedPeriod}
use epr_backend.Reports.Merging.{
  merge_reporting_periods, set_persisted, index_persisted_slots, set_computed,
}
use epr_backend.Reports.Merging.Description.{described, InOrder}
use epr_backend.Reports.Merging.Merged.{merge_reporting_periods_lem}

abbrev draft : ReportSummary
draft = record {
  id = 31;
  status = in_progress;
  submission_number = 1;
  submitted_at = none;
  resubmission_required = none;
}

abbrev draft_slot : ReportPerPeriod
draft_slot = record {
  start_date = iso_date 2028 3 1;
  end_date = iso_date 2028 3 31;
  due_date = iso_date 2028 4 20;
  current = some draft;
  previous_submissions = [];
}

-- Persisted slots of March and of April 2028, where April has no current report.
abbrev year_2028 : PeriodicReport
year_2028 = record {
  year = 2028;
  monthly_slots = some ((3, draft_slot) ∷ (4, record draft_slot { current = none }) ∷ []);
  quarterly_slots = none;
}

abbrev february : ReportingPeriod
february = period_at monthly 2028 1

-- March is merged in behind February, which was computed; April is not.
merged_periods :
    map {B = ℕ × Option ReportSummary}
      (λ (p : MergedPeriod). (p.period, p.report))
      (merge_reporting_periods (february ∷ []) (year_2028 ∷ []) monthly)
    ≡ (2, none) ∷ (3, some draft) ∷ []
unfolding merge_reporting_periods sort_with period_at set_persisted index_persisted_slots
    set_computed
merged_periods = refl

merge_reporting_periods_lem_example :
    InOrder (merge_reporting_periods (february ∷ []) (year_2028 ∷ []) monthly)
    × ((p : MergedPeriod)
        → Member p (merge_reporting_periods (february ∷ []) (year_2028 ∷ []) monthly)
        → described (february ∷ []) (year_2028 ∷ []) monthly p.year p.period ≡ some p)
    × ((year period : ℕ) (p : MergedPeriod)
        → described (february ∷ []) (year_2028 ∷ []) monthly year period ≡ some p
        → Member p (merge_reporting_periods (february ∷ []) (year_2028 ∷ []) monthly))
merge_reporting_periods_lem_example =
    merge_reporting_periods_lem (february ∷ []) (year_2028 ∷ []) monthly
