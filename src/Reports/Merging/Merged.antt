-- ===== src/Reports/Merging/Merged.antt =====
-- The periods that a merge gives, against a description of them by year and period.
use epr_backend.Prelude.{
  ℕ, ◌∷◌, Apart, sort_with-Apart, sort_with, Bool-cases, inl, inr, ltb, ◌≡◌, sym, ap, ap₂, ◌∙◌,
  true, false, none, some, List, [], map, arith, Member, IsSorted, Member-of_sort_with,
  Member-sort_with, sort_with-IsSorted,
}
use epr_backend.Reports.Periods.{Cadence, YearPeriod, ReportingPeriod}
use epr_backend.Reports.Model.{PeriodicReport, ReportPerPeriod}
use epr_backend.Reports.Calendars.{MergedPeriod}
use epr_backend.Reports.Merging.{
  PeriodMap, get_period, index_persisted_slots, of_computed, key_of, set_computed, not_after,
  merged_map, merge_reporting_periods,
}
use epr_backend.Reports.Merging.Keys.{
  or_else, or_else-none, IsMap, Member-of_get_period, get_period-Member,
}
use epr_backend.Reports.Merging.Lookup.{
  slot_for, computed_for, restored, merged_for, get_period-index_from, get_period-set_computed,
  get_period-set_persisted,
}
use epr_backend.Reports.Merging.Description.{
  described, InOrder, Precedes, merged_for-described, map_ext,
}
use epr_backend.Reports.Merging.Once.{
  key, OwnKey, index_from-IsMap, set_computed-IsMap, set_persisted-IsMap,
}
use mathlib.Core.Option

get_period-index_persisted_slots :
    (k : YearPeriod) (prs : List PeriodicReport) (c : Cadence)
    → get_period k (index_persisted_slots prs c) ≡ slot_for k c prs
unfolding index_persisted_slots get_period
get_period-index_persisted_slots k prs c =
    get_period-index_from k c prs [] ∙ or_else-none (slot_for k c prs)

get_period-merged_map :
    (k : YearPeriod) (computed : List ReportingPeriod) (prs : List PeriodicReport) (c : Cadence)
    → get_period k (merged_map computed (index_persisted_slots prs c)) ≡ merged_for computed prs c k
unfolding index_persisted_slots get_period IsMap
get_period-merged_map k computed prs c =
    let slots = index_persisted_slots prs c in
    get_period-set_persisted k slots (set_computed slots computed []) (index_from-IsMap c prs [] tt)
    ∙ ap₂ or_else
        (get_period-set_computed k slots computed []
          ∙ or_else-none _
          ∙ map_ext _ _
              (λ cp. ap (of_computed cp) (get_period-index_persisted_slots (key_of cp) prs c))
              (computed_for k computed))
        (ap (restored k) (get_period-index_persisted_slots k prs c))

merged_map-IsMap :
    (computed : List ReportingPeriod) (slots : PeriodMap ReportPerPeriod)
    → IsMap OwnKey (merged_map computed slots)
unfolding IsMap
merged_map-IsMap computed slots =
    set_persisted-IsMap slots (set_computed slots computed [])
      (set_computed-IsMap slots computed [] tt)

not_after_trans :
    (x y z : MergedPeriod) → not_after x y ≡ true → not_after y z ≡ true → not_after x z ≡ true
not_after_trans x y z h g = ground (arith, h, g)

not_after_total : (x y : MergedPeriod) → not_after x y ≡ false → not_after y x ≡ true
not_after_total x y h = ground (arith, h)

-- The entries of a map have different keys.
abbrev SameKey : MergedPeriod → MergedPeriod → Type 0
SameKey p q = key p ≡ key q

IsMap-Apart :
    (entries : PeriodMap MergedPeriod)
    → IsMap OwnKey entries
    → Apart not_after SameKey (λ p q e. sym e) (map (λ e. e.1) entries)
unfolding IsMap
IsMap-Apart [] w = tt
IsMap-Apart ((j, p) ∷ entries) w = (
  (λ q m same.
      let there_is = get_period-Member key q entries w.2 m in
      let absent : get_period (key q) entries ≡ none =
        ap (λ k. get_period k entries) (sym same ∙ w.0) ∙ w.1 in
      Option.none-ne-some q (sym absent ∙ there_is)),
  IsMap-Apart entries w.2,
)

precedes : (p q : MergedPeriod) → not_after p q ≡ true → ¬ SameKey p q → Precedes p q
precedes p q h apart = elim (Bool-cases (ltb p.year q.year)) [
  | inl earlier ↦ inl (ground (arith, earlier))
  | inr no_earlier ↦
      let same_year : p.year ≡ q.year = ground (arith, no_earlier, h) in
      elim (Bool-cases (ltb p.period q.period)) [
        | inl before ↦ inr (same_year, ground (arith, before))
        | inr after ↦
            let same_period : p.period ≡ q.period = ground (arith, no_earlier, h, after) in
            absurd (apart (ap₂ (λ y n. record { year = y; period = n }) same_year same_period))
      ]
]

in_order :
    (ps : List MergedPeriod)
    → IsSorted not_after ps
    → Apart not_after SameKey (λ p q e. sym e) ps
    → InOrder ps
in_order [] h w = tt
in_order (p ∷ ps) h w = ((λ q m. precedes p q (h.0 q m) (w.0 q m)), in_order ps h.1 w.1)

pub merged_for-Member :
    (computed : List ReportingPeriod) (prs : List PeriodicReport) (c : Cadence) (p : MergedPeriod)
    → Member p (merge_reporting_periods computed prs c)
    → merged_for computed prs c (key p) ≡ some p
unfolding merge_reporting_periods
merged_for-Member computed prs c p m =
    sym (get_period-merged_map (key p) computed prs c)
    ∙ get_period-Member key p _ (merged_map-IsMap computed _) (Member-of_sort_with not_after p _ m)

-- The merged periods stand strictly by year and then by period, so each year and period comes once, and
-- they are exactly the following, for every year and period. When a period was computed: the last one
-- that was, with its dates, and with the current report, its submission number and the earlier
-- submissions of the last persisted slot of that year and period, or with no reports and the number 1
-- where these are missing. When none was computed: that slot with its own dates, its current report and
-- the number of it, and its earlier submissions, if it has a current report.
pub merge_reporting_periods_lem :
    (computed : List ReportingPeriod) (prs : List PeriodicReport) (c : Cadence)
    → InOrder (merge_reporting_periods computed prs c)
      × ((p : MergedPeriod)
          → Member p (merge_reporting_periods computed prs c)
          → described computed prs c p.year p.period ≡ some p)
      × ((year period : ℕ) (p : MergedPeriod)
          → described computed prs c year period ≡ some p
          → Member p (merge_reporting_periods computed prs c))
unfolding merge_reporting_periods
merge_reporting_periods_lem computed prs c =
    let entries = merged_map computed (index_persisted_slots prs c) in
    let values = map (λ e. e.1) entries in
    (
      in_order (sort_with not_after values)
          (sort_with-IsSorted not_after not_after_trans not_after_total values)
          (sort_with-Apart not_after SameKey (λ p q e. sym e) values
            (IsMap-Apart entries (merged_map-IsMap computed _))),
      (λ p m.
          sym (merged_for-described computed prs c (key p)) ∙ merged_for-Member computed prs c p m),
      (λ year period p e.
          let k : YearPeriod = record { year = year; period = period } in
          Member-sort_with not_after p _ (
            Member-of_get_period k p entries (
              get_period-merged_map k computed prs c ∙ merged_for-described computed prs c k ∙ e))),
    )
