-- ===== src/Reports/Submitted.antt =====
-- Code: submitted-periods.js of src/reports/domain. The set of keys is a list of years and periods.
use epr_backend.Prelude.{
  ap₂, ◌∙◌, ℕ, ◌≡◌, refl, ◌==◌, Bool, false, ◌&&◌, ◌||◌, ltb, if◌then◌else◌, Option, none, some,
  List, [], ◌∷◌, ◌++◌, any, length, arith,
}
use epr_backend.Reports.Calendar.{IsoDate}
use epr_backend.Reports.Periods.{Cadence, YearPeriod, period_for_date}
use epr_backend.Reports.Model.{
  PeriodicReport, PeriodicReportSlots, ReportPerPeriod, cadence_slots, is_submitted_status,
}

-- `slot.current?.status === submitted || slot.previousSubmissions?.length > 0`
abbrev pub was_submitted : ReportPerPeriod → Bool
was_submitted slot =
    (elim slot.current [ none ↦ false | some r ↦ is_submitted_status r.status ])
    || ltb 0 (length slot.previous_submissions)

-- The keys that one year's slots add.
abbrev keys_of_slots : ℕ → PeriodicReportSlots → List YearPeriod
keys_of_slots year [] = []
keys_of_slots year ((period, slot) ∷ slots) =
    let rest = keys_of_slots year slots in
    if was_submitted slot then record { year = year; period = period } ∷ rest else rest

abbrev keys_of_year : Cadence → PeriodicReport → List YearPeriod
keys_of_year c pr = elim (cadence_slots c pr) [
  | none ↦ []
  | some slots ↦ keys_of_slots pr.year slots
]

-- `buildSubmittedPeriods`
unfoldable pub build_submitted_periods : List PeriodicReport → Cadence → List YearPeriod
build_submitted_periods [] c = []
build_submitted_periods (pr ∷ prs) c = keys_of_year c pr ++ build_submitted_periods prs c

abbrev same_key : YearPeriod → YearPeriod → Bool
same_key k j = (j.year == k.year) && (j.period == k.period)

-- `isDateInSubmittedPeriod`
unfoldable pub is_date_in_submitted_period : List YearPeriod → IsoDate → Cadence → Bool
is_date_in_submitted_period keys d c = any (same_key (period_for_date d c)) keys

-- Whether a year's slots have a submitted one for the period.
abbrev submitted_slot : ℕ → Option PeriodicReportSlots → Bool
submitted_slot period none = false
submitted_slot period (some slots) = any (λ s. (s.0 == period) && was_submitted s.1) slots

any-append {ℓ} :
    {A : Type ℓ} (p : A → Bool) (xs ys : List A) → any p (xs ++ ys) ≡ (any p xs || any p ys)
any-append p [] ys = refl
any-append p (x ∷ xs) ys = ground (arith, any-append p xs ys)

any-keys_of_slots :
    (k : YearPeriod) (year : ℕ) (slots : PeriodicReportSlots)
    → any (same_key k) (keys_of_slots year slots)
      ≡ ((year == k.year) && any (λ s. (s.0 == k.period) && was_submitted s.1) slots)
any-keys_of_slots k year [] = ground arith
any-keys_of_slots k year ((period, slot) ∷ slots) = ground (arith, any-keys_of_slots k year slots)

any-keys_of_year :
    (k : YearPeriod) (year : ℕ) (slots : Option PeriodicReportSlots)
    → any (same_key k) (elim slots [ none ↦ [] | some s ↦ keys_of_slots year s ])
      ≡ ((year == k.year) && submitted_slot k.period slots)
any-keys_of_year k year none = ground arith
any-keys_of_year k year (some s) = any-keys_of_slots k year s

-- A date is in a submitted period of the periodic reports exactly when a report of the date's year has
-- a slot, for the cadence and the period that `periodForDate` names, whose current report is
-- submitted or which has an earlier submission.
pub is_date_in_submitted_period_lem :
    (prs : List PeriodicReport) (d : IsoDate) (c : Cadence)
    → is_date_in_submitted_period (build_submitted_periods prs c) d c
      ≡ any
          (λ pr.
            (pr.year == d.year) && submitted_slot (period_for_date d c).period (cadence_slots c pr))
          prs
unfolding is_date_in_submitted_period build_submitted_periods period_for_date
is_date_in_submitted_period_lem [] d c = refl
is_date_in_submitted_period_lem (pr ∷ prs) d c =
    any-append (same_key (period_for_date d c)) (keys_of_year c pr) (build_submitted_periods prs c)
    ∙ ap₂ (λ a b. a || b) (any-keys_of_year (period_for_date d c) pr.year (cadence_slots c pr))
        (is_date_in_submitted_period_lem prs d c)
