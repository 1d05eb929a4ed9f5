-- ===== src/Reports/Merging/Lookup.antt =====
-- What the maps of a merge hold for a year and period.
use epr_backend.Prelude.{
  ℕ, ◌==◌, ◌≡◌, refl, sym, ap, ◌∙◌, Bool, true, false, if◌then◌else◌, Option, none, some, List, [],
  ◌∷◌, Bool-cases, Option-cases, inl, inr, arith,
}
use epr_backend.Reports.Periods.{Cadence, YearPeriod, ReportingPeriod}
use epr_backend.Reports.Model.{
  PeriodicReport, PeriodicReportSlots, ReportPerPeriod, ReportSummary, cadence_slots,
}
use epr_backend.Reports.Calendars.{MergedPeriod}
use epr_backend.Reports.Merging.{
  PeriodMap, at_key, get_period, set_period, set_slots, index_from, of_computed, of_slot, key_of,
  set_computed, add_slot, set_persisted,
}
use epr_backend.Reports.Merging.Keys.{
  at_key-eq, or_else, or_else-none, or_else_assoc, only_if, get_period-set_period, IsMap,
}
use mathlib.Core.Option

-- The last slot of a period in one year's slots.
abbrev pub last_in : ℕ → PeriodicReportSlots → Option ReportPerPeriod
last_in period [] = none
last_in period ((p, slot) ∷ slots) = or_else (last_in period slots) (only_if (p == period) slot)

abbrev pub last_of : ℕ → Option PeriodicReportSlots → Option ReportPerPeriod
last_of period none = none
last_of period (some slots) = last_in period slots

abbrev pub in_year : YearPeriod → Cadence → PeriodicReport → Option ReportPerPeriod
in_year k c pr = if pr.year == k.year then last_of k.period (cadence_slots c pr) else none

-- The last slot of a year and period in the periodic reports.
abbrev pub slot_for : YearPeriod → Cadence → List PeriodicReport → Option ReportPerPeriod
slot_for k c [] = none
slot_for k c (pr ∷ prs) = or_else (slot_for k c prs) (in_year k c pr)

-- The last computed period of a year and period.
abbrev pub computed_for : YearPeriod → List ReportingPeriod → Option ReportingPeriod
computed_for k [] = none
computed_for k (cp ∷ cps) = or_else (computed_for k cps) (only_if (at_key (key_of cp) k) cp)

-- The period of a slot that has a current report.
abbrev pub restored : YearPeriod → Option ReportPerPeriod → Option MergedPeriod
restored k none = none
restored k (some slot) = Option.map (of_slot k slot) slot.current

-- The period that a merge has to give for a year and period.
abbrev pub merged_for :
    List ReportingPeriod → List PeriodicReport → Cadence → YearPeriod → Option MergedPeriod
merged_for computed prs c k =
    or_else
      (Option.map (λ cp. of_computed cp (slot_for (key_of cp) c prs)) (computed_for k computed))
      (restored k (slot_for k c prs))

only_if_pair :
    (k : YearPeriod) (year period : ℕ) (slot : ReportPerPeriod)
    → only_if (at_key (record { year = year; period = period }) k) slot
      ≡ (if year == k.year then only_if (period == k.period) slot else none)
only_if_pair k year period slot = ground arith

or_else_if {ℓ} :
    {A : Type ℓ} (b : Bool) (x y z : Option A)
    → or_else (if b then x else none) (or_else (if b then y else none) z)
      ≡ or_else (if b then or_else x y else none) z
or_else_if true x y z = sym (or_else_assoc x y z)
or_else_if false x y z = refl

get_period-set_slots :
    (k : YearPeriod) (year : ℕ) (year_slots : PeriodicReportSlots)
    (slots : PeriodMap ReportPerPeriod)
    → get_period k (set_slots year year_slots slots)
      ≡ or_else (if year == k.year then last_in k.period year_slots else none) (get_period k slots)
unfolding set_slots
get_period-set_slots k year [] slots = ground arith
get_period-set_slots k year ((period, slot) ∷ rest) slots =
    let set = set_period (record { year = year; period = period }) slot slots in
    get_period-set_slots k year rest set
    ∙ ap (or_else (if year == k.year then last_in k.period rest else none)) (
        get_period-set_period k (record { year = year; period = period }) slot slots
        ∙ ap (λ found. or_else found (get_period k slots)) (only_if_pair k year period slot))
    ∙ or_else_if (year == k.year) (last_in k.period rest) (only_if (period == k.period) slot)
        (get_period k slots)

pub get_period-index_from :
    (k : YearPeriod) (c : Cadence) (prs : List PeriodicReport) (slots : PeriodMap ReportPerPeriod)
    → get_period k (index_from prs c slots) ≡ or_else (slot_for k c prs) (get_period k slots)
unfolding index_from
get_period-index_from k c [] slots = refl
get_period-index_from k c (pr ∷ prs) slots = elim (Option-cases (cadence_slots c pr)) [
  | inl absent ↦ rw absent (get_period-index_from k c prs slots ∙ ground arith)
  | inr (year_slots, found) ↦ rw found (
      get_period-index_from k c prs (set_slots pr.year year_slots slots)
      ∙ ap (or_else (slot_for k c prs)) (get_period-set_slots k pr.year year_slots slots)
      ∙ sym (or_else_assoc (slot_for k c prs) _ (get_period k slots)))
]

-- A slot that is added where the map has nothing for its key.
get_period-add_slot :
    (k j : YearPeriod) (slot : ReportPerPeriod) (merged : PeriodMap MergedPeriod)
    → get_period k (add_slot j slot merged)
      ≡ or_else (get_period k merged) (if at_key j k then restored k (some slot) else none)
unfolding add_slot
get_period-add_slot k j slot merged = go (get_period j merged) refl slot.current refl
  where
    go :
        (found : Option MergedPeriod)
        → get_period j merged ≡ found
        → (current : Option ReportSummary) → slot.current ≡ current
        → get_period k (elim found [
          | some x ↦ merged
          | none ↦ elim current [ none ↦ merged | some r ↦ set_period j (of_slot j slot r) merged ]
        ])
          ≡ or_else
              (get_period k merged)
              (if at_key j k then Option.map (of_slot k slot) current else none)
    go (some x) found current c = elim (Bool-cases (at_key j k)) [
      | inl same ↦
          let taken : get_period k merged ≡ some x =
            ap (λ i. get_period i merged) (sym (at_key-eq j k same)) ∙ found in
          rw taken refl
      | inr other ↦ rw other (sym (or_else-none (get_period k merged)))
    ]
    go none found none c = ground (arith, or_else-none (get_period k merged))
    go none found (some r) c = elim (Bool-cases (at_key j k)) [
      | inl same ↦
          let free : get_period k merged ≡ none =
            ap (λ i. get_period i merged) (sym (at_key-eq j k same)) ∙ found in
          get_period-set_period k j (of_slot j slot r) merged
          ∙ rw (same, free) (ap (λ i. some (of_slot i slot r)) (at_key-eq j k same))
      | inr other ↦
          get_period-set_period k j (of_slot j slot r) merged
          ∙ rw other (sym (or_else-none (get_period k merged)))
    ]

pub get_period-set_computed :
    (k : YearPeriod) (slots : PeriodMap ReportPerPeriod) (computed : List ReportingPeriod)
    (merged : PeriodMap MergedPeriod)
    → get_period k (set_computed slots computed merged)
      ≡ or_else
          (Option.map
            (λ cp. of_computed cp (get_period (key_of cp) slots))
            (computed_for k computed))
          (get_period k merged)
unfolding set_computed
get_period-set_computed k slots [] merged = refl
get_period-set_computed k slots (cp ∷ cps) merged =
    let f = λ (p : ReportingPeriod). of_computed p (get_period (key_of p) slots) in
    get_period-set_computed k slots cps (set_period (key_of cp) (f cp) merged)
    ∙ ap (or_else (Option.map f (computed_for k cps)))
        (get_period-set_period k (key_of cp) (f cp) merged)
    ∙ step f (computed_for k cps) (at_key (key_of cp) k) cp (get_period k merged)
  where
    step :
        {A B : Type 0} (f : A → B) (later : Option A) (b : Bool) (x : A) (rest : Option B)
        → or_else (Option.map f later) (or_else (only_if b (f x)) rest)
          ≡ or_else (Option.map f (or_else later (only_if b x))) rest
    step f none true x rest = refl
    step f none false x rest = refl
    step f (some y) b x rest = refl

or_else_skip {ℓ} :
    {A : Type ℓ} (x y : Option A) (b : Bool) (z : Option A)
    → (b ≡ true → z ≡ none)
    → or_else (or_else x (if b then y else none)) z ≡ or_else x (if b then y else z)
or_else_skip none y true z h = rw (h refl) (or_else-none y)
or_else_skip none y false z h = refl
or_else_skip (some v) y b z h = refl

abbrev pub AnyKey : ReportPerPeriod → YearPeriod → Type 0
AnyKey slot k = Unit

pub get_period-set_persisted :
    (k : YearPeriod) (slots : PeriodMap ReportPerPeriod) (merged : PeriodMap MergedPeriod)
    → IsMap AnyKey slots
    → get_period k (set_persisted slots merged)
      ≡ or_else (get_period k merged) (restored k (get_period k slots))
unfolding set_persisted IsMap get_period
get_period-set_persisted k [] merged w = sym (or_else-none (get_period k merged))
get_period-set_persisted k ((j, slot) ∷ slots) merged w =
    get_period-set_persisted k slots (add_slot j slot merged) w.2
    ∙ ap (λ found. or_else found (restored k (get_period k slots)))
        (get_period-add_slot k j slot merged)
    ∙ or_else_skip (get_period k merged) (restored k (some slot)) (at_key j k)
        (restored k (get_period k slots))
        (λ same. ap (restored k) (ap (λ i. get_period i slots) (sym (at_key-eq j k same)) ∙ w.1))
    ∙ ap (or_else (get_period k merged)) (choose (at_key j k) slot (get_period k slots))
  where
    choose :
        (b : Bool) (slot : ReportPerPeriod) (rest : Option ReportPerPeriod)
        → (if b then restored k (some slot) else restored k rest)
          ≡ restored k (if b then some slot else rest)
    choose true slot rest = refl
    choose false slot rest = refl
