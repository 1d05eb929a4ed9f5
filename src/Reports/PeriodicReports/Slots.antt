-- ===== src/Reports/PeriodicReports/Slots.antt =====
-- What the merge of reporting periods finds in the grouped reports.
use epr_backend.Prelude.{
  ℕ, suc, ◌<◌, ◌≡◌, refl, ap, sym, ◌∙◌, ◌==◌, Bool-cases, inl, inr, none, List, [], ◌∷◌, filter,
  group_by, group_of, lookup, map_values, arith, Grouped, group_by-Grouped,
}
use epr_backend.Reports.Periods.{Cadence, YearPeriod}
use epr_backend.Reports.Model.{Report, ReportPerPeriod, same_cadence}
use epr_backend.Reports.PeriodicReports.{
  build_period_summary, group_as_periodic_reports, find_slot, slots_of, year_reports,
}
use epr_backend.Reports.PeriodicReports.Lookup.{
  in_period, cadence_slots-year_of, find_slot-group_as_periodic_reports,
}
use epr_backend.Reports.Merging.Keys.{or_else-none}
use epr_backend.Reports.Merging.Lookup.{last_in, last_of, slot_for}
use mathlib.Core.Option

-- Under keys that ascend, the last entry of a key is the first.
module _ (f : List Report → ReportPerPeriod) where
  last_in_below :
      (p n : ℕ) (groups : List (ℕ × List Report))
      → p < n
      → Grouped n groups
      → last_in p (map_values f groups) ≡ none
  last_in_below p n [] h g = refl
  last_in_below p n ((j, x) ∷ groups) h g =
      rw (last_in_below p (suc j) groups (omega arith) g.1) (ground arith)

  last_in-map_values :
      (p n : ℕ) (groups : List (ℕ × List Report))
      → Grouped n groups
      → last_in p (map_values f groups) ≡ lookup p (map_values f groups)
  last_in-map_values p n [] g = refl
  last_in-map_values p n ((j, x) ∷ groups) g = elim (Bool-cases (j == p)) [
    | inl same ↦ rw (same, last_in_below p (suc j) groups (ground arith) g.1) refl
    | inr other ↦
        rw other
          (or_else-none (last_in p (map_values f groups)) ∙ last_in-map_values p (suc j) groups g.1)
  ]

last_of-slots_of :
    (p : ℕ) (c : Cadence) (docs : List Report)
    → last_of p (slots_of c docs) ≡ Option.bind (slots_of c docs) (lookup p)
unfolding slots_of Option.bind
last_of-slots_of p c docs = go (filter (λ d. same_cadence d.slot.cadence c) docs)
  where
    go :
        (xs : List Report)
        → last_of p (
            Option.map
              (λ group. map_values build_period_summary (group_by (λ doc. doc.slot.period) group))
              (group_of xs))
          ≡ Option.bind
              (Option.map
                (λ group. map_values build_period_summary (group_by (λ doc. doc.slot.period) group))
                (group_of xs))
              (lookup p)
    go [] = refl
    go (x ∷ xs) =
        last_in-map_values build_period_summary p 0 (group_by (λ doc. doc.slot.period) (x ∷ xs))
          (group_by-Grouped (λ doc. doc.slot.period) (x ∷ xs))

slot_for_below :
    (k : YearPeriod) (c : Cadence) (n : ℕ) (groups : List (ℕ × List Report))
    → k.year < n
    → Grouped n groups
    → slot_for k c (year_reports groups) ≡ none
unfolding year_reports
slot_for_below k c n [] h g = refl
slot_for_below k c n ((y, docs) ∷ groups) h g =
    rw (slot_for_below k c (suc y) groups (omega arith) g.1) (ground arith)

slot_for-year_reports :
    (k : YearPeriod) (c : Cadence) (n : ℕ) (groups : List (ℕ × List Report))
    → Grouped n groups
    → slot_for k c (year_reports groups) ≡ find_slot k.year c k.period (year_reports groups)
unfolding year_reports find_slot Option.bind
slot_for-year_reports k c n [] g = refl
slot_for-year_reports k c n ((y, docs) ∷ groups) g = elim (Bool-cases (y == k.year)) [
  | inl same ↦
      rw (same, slot_for_below k c (suc y) groups (ground arith) g.1)
        (ap (last_of k.period) (cadence_slots-year_of c y docs)
          ∙ last_of-slots_of k.period c docs
          ∙ ap (λ slots. Option.bind slots (lookup k.period))
              (sym (cadence_slots-year_of c y docs)))
  | inr other ↦ rw other (
      or_else-none (slot_for k c (year_reports groups))
      ∙ slot_for-year_reports k c (suc y) groups g.1)
]

pub slot_for-group_as_periodic_reports :
    (k : YearPeriod) (c : Cadence) (docs : List Report)
    → slot_for k c (group_as_periodic_reports docs)
      ≡ Option.map build_period_summary (group_of (in_period k.year c k.period docs))
unfolding group_as_periodic_reports
slot_for-group_as_periodic_reports k c docs =
    slot_for-year_reports k c 0 (group_by (λ doc. doc.slot.year) docs)
      (group_by-Grouped (λ doc. doc.slot.year) docs)
    ∙ find_slot-group_as_periodic_reports k.year c k.period docs
