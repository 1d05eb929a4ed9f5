-- ===== src/Reports/Merging/Once.antt =====
-- The maps of a merge hold each key once, and a merged period stands under its own year and period.
use epr_backend.Prelude.{ℕ, ◌≡◌, refl, Option, none, some, List, [], ◌∷◌, Option-cases, inl, inr}
use epr_backend.Reports.Periods.{Cadence, YearPeriod, ReportingPeriod}
use epr_backend.Reports.Model.{
  PeriodicReport, PeriodicReportSlots, ReportPerPeriod, ReportSummary, cadence_slots,
}
use epr_backend.Reports.Calendars.{MergedPeriod}
use epr_backend.Reports.Merging.{
  PeriodMap, get_period, set_period, set_slots, index_from, of_slot, key_of, set_computed, add_slot,
  set_persisted,
}
use epr_backend.Reports.Merging.Keys.{IsMap, set_period-IsMap}
use epr_backend.Reports.Merging.Lookup.{AnyKey}

abbrev pub key : MergedPeriod → YearPeriod
key p = record { year = p.year; period = p.period }

set_slots-IsMap :
    (year : ℕ) (year_slots : PeriodicReportSlots) (slots : PeriodMap ReportPerPeriod)
    → IsMap AnyKey slots
    → IsMap AnyKey (set_slots year year_slots slots)
unfolding set_slots
set_slots-IsMap year [] slots w = w
set_slots-IsMap year ((period, slot) ∷ rest) slots w =
    let k : YearPeriod = record { year = year; period = period } in
    set_slots-IsMap year rest (set_period k slot slots) (set_period-IsMap AnyKey k slot slots tt w)

pub index_from-IsMap :
    (c : Cadence) (prs : List PeriodicReport) (slots : PeriodMap ReportPerPeriod)
    → IsMap AnyKey slots
    → IsMap AnyKey (index_from prs c slots)
unfolding index_from
index_from-IsMap c [] slots w = w
index_from-IsMap c (pr ∷ prs) slots w = elim (Option-cases (cadence_slots c pr)) [
  | inl absent ↦ rw absent (index_from-IsMap c prs slots w)
  | inr (year_slots, found) ↦ rw found (
      index_from-IsMap c prs (set_slots pr.year year_slots slots)
        (set_slots-IsMap pr.year year_slots slots w))
]

abbrev pub OwnKey : MergedPeriod → YearPeriod → Type 0
OwnKey p k = key p ≡ k

pub set_computed-IsMap :
    (slots : PeriodMap ReportPerPeriod) (computed : List ReportingPeriod)
    (merged : PeriodMap MergedPeriod)
    → IsMap OwnKey merged
    → IsMap OwnKey (set_computed slots computed merged)
unfolding set_computed
set_computed-IsMap slots [] merged w = w
set_computed-IsMap slots (cp ∷ cps) merged w =
    set_computed-IsMap slots cps _ (set_period-IsMap OwnKey (key_of cp) _ merged refl w)

add_slot-IsMap :
    (k : YearPeriod) (slot : ReportPerPeriod) (merged : PeriodMap MergedPeriod)
    → IsMap OwnKey merged
    → IsMap OwnKey (add_slot k slot merged)
unfolding add_slot
add_slot-IsMap k slot merged w = go (get_period k merged) slot.current
  where
    go :
        (found : Option MergedPeriod) (current : Option ReportSummary)
        → IsMap OwnKey (elim found [
          | some x ↦ merged
          | none ↦ elim current [ none ↦ merged | some r ↦ set_period k (of_slot k slot r) merged ]
        ])
    go (some x) current = w
    go none none = w
    go none (some r) = set_period-IsMap OwnKey k (of_slot k slot r) merged refl w

pub set_persisted-IsMap :
    (slots : PeriodMap ReportPerPeriod) (merged : PeriodMap MergedPeriod)
    → IsMap OwnKey merged
    → IsMap OwnKey (set_persisted slots merged)
unfolding set_persisted
set_persisted-IsMap [] merged w = w
set_persisted-IsMap ((k, slot) ∷ slots) merged w =
    set_persisted-IsMap slots (add_slot k slot merged) (add_slot-IsMap k slot merged w)
