-- ===== src/Reports/PeriodicReports/Lookup.antt =====
-- What a look-up in the grouped reports finds, in terms of the reports.
use epr_backend.Prelude.{
  ℕ, ◌≡◌, ◌≢◌, refl, ap, sym, ◌∙◌, ◌==◌, false, Bool-cases, inl, inr, none, some, List, [], ◌∷◌,
  map, filter, group_by, group_of, lookup, lookup-group_by, lookup-map_values, map_values,
  sort_by_descending, arith, Member, here, there,
}
use epr_backend.Reports.Periods.{Cadence, monthly, quarterly}
use epr_backend.Reports.Model.{Report, ReportSummary, PeriodicReport, same_cadence, cadence_slots}
use epr_backend.Reports.PeriodicReports.{
  to_submission, number_of, build_period_summary, group_as_periodic_reports, find_slot, find_number,
  find_submission_by_number, summary_of, slots_of, year_reports, find_year, find_in_slot,
}
use mathlib.Core.Option

-- The reports of a period, in the order of the documents.
abbrev pub in_period : ℕ → Cadence → ℕ → List Report → List Report
in_period year c period docs =
    filter (λ r. r.slot.period == period)
      (filter (λ r. same_cadence r.slot.cadence c) (filter (λ r. r.slot.year == year) docs))

abbrev pub year_of : ℕ → List Report → PeriodicReport
year_of year docs = record {
  year = year;
  monthly_slots = slots_of monthly docs;
  quarterly_slots = slots_of quarterly docs;
}

find_year-year_reports :
    (year : ℕ) (groups : List (ℕ × List Report))
    → find_year year (year_reports groups) ≡ Option.map (year_of year) (lookup year groups)
unfolding year_reports
find_year-year_reports year [] = refl
find_year-year_reports year ((y, docs) ∷ groups) = elim (Bool-cases (y == year)) [
  | inl same ↦ let e : y ≡ year = ground arith in rw same (ap (λ k. some (year_of k docs)) e)
  | inr other ↦ rw other (find_year-year_reports year groups)
]

-- In a cadence's documents.
in_group :
    (period : ℕ) (docs : List Report)
    → Option.bind
        (Option.map
          (λ group. map_values build_period_summary (group_by (λ doc. doc.slot.period) group))
          (group_of docs))
        (lookup period)
      ≡ Option.map build_period_summary (group_of (filter (λ r. r.slot.period == period) docs))
unfolding Option.bind
in_group period [] = refl
in_group period (r ∷ rs) =
    lookup-map_values build_period_summary period (group_by (λ doc. doc.slot.period) (r ∷ rs))
    ∙ ap (Option.map build_period_summary)
        (lookup-group_by (λ doc. doc.slot.period) period (r ∷ rs))

pub cadence_slots-year_of :
    (c : Cadence) (year : ℕ) (docs : List Report)
    → cadence_slots c (year_of year docs) ≡ slots_of c docs
cadence_slots-year_of monthly year docs = refl
cadence_slots-year_of quarterly year docs = refl

-- In a year's documents.
in_year :
    (year : ℕ) (c : Cadence) (period : ℕ) (docs : List Report)
    → Option.bind
        (Option.bind (Option.map (year_of year) (group_of docs)) (cadence_slots c))
        (lookup period)
      ≡ Option.map build_period_summary (
          group_of (
            filter
              (λ r. r.slot.period == period)
              (filter (λ r. same_cadence r.slot.cadence c) docs)))
unfolding Option.bind slots_of
in_year year c period [] = refl
in_year year c period (r ∷ rs) =
    ap (λ slots. Option.bind slots (lookup period)) (cadence_slots-year_of c year (r ∷ rs))
    ∙ in_group period (filter (λ d. same_cadence d.slot.cadence c) (r ∷ rs))

pub find_slot-group_as_periodic_reports :
    (year : ℕ) (c : Cadence) (period : ℕ) (docs : List Report)
    → find_slot year c period (group_as_periodic_reports docs)
      ≡ Option.map build_period_summary (group_of (in_period year c period docs))
unfolding find_slot group_as_periodic_reports
find_slot-group_as_periodic_reports year c period docs =
    rw
      (
        find_year-year_reports year (group_by (λ doc. doc.slot.year) docs),
        lookup-group_by (λ doc. doc.slot.year) year docs,
      )
      (in_year year c period (filter (λ r. r.slot.year == year) docs))

-- The summaries of a period's reports, the latest first.
abbrev pub summaries : List Report → List ReportSummary
summaries docs = map to_submission (sort_by_descending number_of docs)

find_in_summary :
    (n : ℕ) (docs : List Report)
    → find_in_slot n (some (summary_of docs)) ≡ find_number n (map to_submission docs)
unfolding summary_of
find_in_summary n [] = refl
find_in_summary n (r ∷ rs) = refl

find_in_group :
    (n : ℕ) (docs : List Report)
    → find_in_slot n (Option.map build_period_summary (group_of docs))
      ≡ find_number n (summaries docs)
unfolding build_period_summary
find_in_group n [] = refl
find_in_group n (r ∷ rs) = find_in_summary n (sort_by_descending number_of (r ∷ rs))

pub find_submission_by_number_lem :
    (docs : List Report) (year : ℕ) (c : Cadence) (period n : ℕ)
    → find_submission_by_number (group_as_periodic_reports docs) year c period n
      ≡ find_number n (summaries (in_period year c period docs))
unfolding find_submission_by_number
find_submission_by_number_lem docs year c period n =
    rw (find_slot-group_as_periodic_reports year c period docs)
      (find_in_group n (in_period year c period docs))

-- What `find` returns by number.
pub find_number-eq-some :
    (n : ℕ) (ss : List ReportSummary) (s : ReportSummary)
    → find_number n ss ≡ some s
    → Member s ss × (s.submission_number ≡ n)
find_number-eq-some n [] s h = cc
find_number-eq-some n (t ∷ ts) s h = elim (Bool-cases (t.submission_number == n)) [
  | inl found ↦
      let e : t ≡ s = Option.some-injective t s (rw found at h) in
      (here (sym e), ground (arith, found, e))
  | inr other ↦ let (m, k) = find_number-eq-some n ts s (rw other at h) in (there m, k)
]

pub find_number-eq-none :
    (n : ℕ) (ss : List ReportSummary) (s : ReportSummary)
    → find_number n ss ≡ none
    → Member s ss
    → s.submission_number ≢ n
find_number-eq-none n [] s h m = elim m [ ]
find_number-eq-none n (t ∷ ts) s h m = elim (Bool-cases (t.submission_number == n)) [
  | inl found ↦ absurd (Option.some-ne-none t (rw found at h))
  | inr other ↦ other_cases n t ts s other m (λ k. find_number-eq-none n ts s (rw other at h) k)
]
  where
    other_cases :
        (n : ℕ) (t : ReportSummary) (ts : List ReportSummary) (s : ReportSummary)
        → (t.submission_number == n) ≡ false
        → Member s (t ∷ ts)
        → (Member s ts → s.submission_number ≢ n)
        → s.submission_number ≢ n
    other_cases n t ts s other (here e) rest k = ground (arith, other, e, k)
    other_cases n t ts s other (there m) rest k = rest m k
