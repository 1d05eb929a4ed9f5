-- ===== src/Reports/Merging.antt =====
-- Code: `mergeReportingPeriods` of merge-reporting-periods.js in src/reports/domain. A `Map` is the list
-- of its entries in the order of insertion.
use epr_backend.Prelude.{
  ℕ, ◌==◌, ltb, leb, Bool, ◌&&◌, ◌||◌, if◌then◌else◌, Option, none, some, List, [], ◌∷◌, map,
  sort_with,
}
use epr_backend.Reports.Periods.{Cadence, YearPeriod, ReportingPeriod}
use epr_backend.Reports.Model.{
  PeriodicReport, PeriodicReportSlots, ReportPerPeriod, ReportSummary, cadence_slots,
}
use epr_backend.Reports.Calendars.{MergedPeriod}
pub mod Keys
pub mod Lookup
pub mod Once
pub mod Description
pub mod Merged
mod Tests

-- `new Map()` under keys `${year}:${period}`
abbrev pub PeriodMap {ℓ} : Type ℓ → Type ℓ
PeriodMap V = List (YearPeriod × V)

abbrev pub at_key : YearPeriod → YearPeriod → Bool
at_key j k = (j.year == k.year) && (j.period == k.period)

module _ {ℓ} {V : Type ℓ} where
  -- `map.get(key)`
  unfoldable pub get_period : YearPeriod → PeriodMap V → Option V
  get_period k [] = none
  get_period k ((j, v) ∷ entries) = if at_key j k then some v else get_period k entries

  -- `map.set(key, value)`: an entry that is there keeps its place.
  unfoldable pub set_period : YearPeriod → V → PeriodMap V → PeriodMap V
  set_period k v [] = (k, v) ∷ []
  set_period k v ((j, w) ∷ entries) =
      if at_key j k then (j, v) ∷ entries else (j, w) ∷ set_period k v entries

-- The slots of one year's report, set one by one.
unfoldable pub set_slots :
    ℕ → PeriodicReportSlots → PeriodMap ReportPerPeriod → PeriodMap ReportPerPeriod
unfolding set_period
set_slots year [] slots = slots
set_slots year ((period, slot) ∷ rest) slots =
    set_slots year rest (set_period (record { year = year; period = period }) slot slots)

-- The loop of `indexPersistedSlots`: a year without slots of the cadence is passed over.
unfoldable pub index_from :
    List PeriodicReport → Cadence → PeriodMap ReportPerPeriod → PeriodMap ReportPerPeriod
unfolding set_slots
index_from [] c slots = slots
index_from (pr ∷ prs) c slots = index_from prs c (elim (cadence_slots c pr) [
  | none ↦ slots
  | some year_slots ↦ set_slots pr.year year_slots slots
])

-- `indexPersistedSlots`
unfoldable pub index_persisted_slots : List PeriodicReport → Cadence → PeriodMap ReportPerPeriod
unfolding index_from
index_persisted_slots prs c = index_from prs c []

-- `slot?.current`
abbrev pub current_of : Option ReportPerPeriod → Option ReportSummary
current_of none = none
current_of (some slot) = slot.current

-- `slot?.previousSubmissions ?? []`
abbrev pub previous_of : Option ReportPerPeriod → List ReportSummary
previous_of none = []
previous_of (some slot) = slot.previous_submissions

-- `current?.submissionNumber ?? 1`
abbrev pub number_or_first : Option ReportSummary → ℕ
number_or_first none = 1
number_or_first (some r) = r.submission_number

-- What is set for a computed period with the slot of its key.
abbrev pub of_computed : ReportingPeriod → Option ReportPerPeriod → MergedPeriod
of_computed cp slot = record {
  year = cp.year;
  period = cp.period;
  start_date = cp.start_date;
  end_date = cp.end_date;
  due_date = cp.due_date;
  submission_number = number_or_first (current_of slot);
  report = current_of slot;
  previous_submissions = previous_of slot;
}

-- What is set for a slot that no period was computed for.
abbrev pub of_slot : YearPeriod → ReportPerPeriod → ReportSummary → MergedPeriod
of_slot k slot current = record {
  year = k.year;
  period = k.period;
  start_date = slot.start_date;
  end_date = slot.end_date;
  due_date = slot.due_date;
  submission_number = current.submission_number;
  report = some current;
  previous_submissions = slot.previous_submissions;
}

abbrev pub key_of : ReportingPeriod → YearPeriod
key_of cp = record { year = cp.year; period = cp.period }

-- The loop over the computed periods.
unfoldable pub set_computed :
    PeriodMap ReportPerPeriod
    → List ReportingPeriod
    → PeriodMap MergedPeriod
    → PeriodMap MergedPeriod
unfolding set_period get_period
set_computed slots [] merged = merged
set_computed slots (cp ∷ cps) merged =
    set_computed slots cps
      (set_period (key_of cp) (of_computed cp (get_period (key_of cp) slots)) merged)

-- The body of the loop over the slots: a slot is passed over when the map has its key or when it has
-- no current report.
unfoldable pub add_slot :
    YearPeriod → ReportPerPeriod → PeriodMap MergedPeriod → PeriodMap MergedPeriod
unfolding get_period set_period
add_slot k slot merged = elim (get_period k merged) [
  | some found ↦ merged
  | none ↦ elim slot.current [
    | none ↦ merged
    | some current ↦ set_period k (of_slot k slot current) merged
  ]
]

-- The loop over the slots.
unfoldable pub set_persisted :
    PeriodMap ReportPerPeriod → PeriodMap MergedPeriod → PeriodMap MergedPeriod
unfolding add_slot
set_persisted [] merged = merged
set_persisted ((k, slot) ∷ slots) merged = set_persisted slots (add_slot k slot merged)

-- `a.year - b.year || a.period - b.period` is not above 0.
abbrev pub not_after : MergedPeriod → MergedPeriod → Bool
not_after a b = ltb a.year b.year || ((a.year == b.year) && leb a.period b.period)

abbrev pub merged_map : List ReportingPeriod → PeriodMap ReportPerPeriod → PeriodMap MergedPeriod
merged_map computed slots = set_persisted slots (set_computed slots computed [])

-- `mergeReportingPeriods`
unfoldable pub merge_reporting_periods :
    List ReportingPeriod → List PeriodicReport → Cadence → List MergedPeriod
merge_reporting_periods computed prs c =
    sort_with not_after (map (λ e. e.1) (merged_map computed (index_persisted_slots prs c)))
