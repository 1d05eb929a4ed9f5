-- ===== src/Reports/Compliance/Quarters.antt =====
-- The compliance periods: every quarter is found.
use epr_backend.Reports.Calendar.{days_in_month, iso_date, IsoDate, digits, next_day}
use epr_backend.Prelude.{
  ap₂, leb, ℕ, zero, suc, ◌+◌, ◌-◌, ◌*◌, ◌/◌, ◌≡◌, ◌<◌, ◌≤◌, refl, ap, sym, ◌∙◌, arith, ◌==◌, Bool,
  true, false, if◌then◌else◌, none, some, Option-cases, Bool-cases, inl, inr, List, [], ◌∷◌, filter,
  All, entries, ok,
}
use epr_backend.Reports.Periods.{
  Cadence, monthly, quarterly, ReportingPeriod, generate_reporting_periods,
  generate_all_periods_for_year, period_at, has_ended,
}
use epr_backend.Reports.Periods.Containment.{end_date-period_at, last_month}
use epr_backend.Reports.Compliance.{
  CompliancePeriod, annotate, is_quarter_end, map_get, annotate_found, push_periods,
  generate_compliance_reporting_periods,
}

-- The quarter that ends with a month.
abbrev pub quarter_of : ReportingPeriod → ReportingPeriod
quarter_of p = period_at quarterly p.year (p.period / 3 - 1)

-- Each ended month, and after the last month of a quarter the quarter.
abbrev pub months_and_quarters : List ReportingPeriod → List CompliancePeriod
months_and_quarters [] = []
months_and_quarters (p ∷ ps) =
    let rest = months_and_quarters ps in
    if is_quarter_end p
    then annotate p monthly ∷ annotate (quarter_of p) quarterly ∷ rest
    else annotate p monthly ∷ rest

abbrev HasQuarter : List ReportingPeriod → ReportingPeriod → Type 0
HasQuarter quarters p =
    is_quarter_end p ≡ true → map_get (p.period / 3) quarters ≡ some (quarter_of p)

push_periods_lem :
    (quarters ps : List ReportingPeriod)
    → All (HasQuarter quarters) ps
    → push_periods quarters ps ≡ ok (months_and_quarters ps)
unfolding push_periods annotate_found
push_periods_lem quarters [] h = refl
push_periods_lem quarters (p ∷ ps) h = elim (Bool-cases (is_quarter_end p)) [
  | inl ends ↦ rw (ends, h.0 ends, push_periods_lem quarters ps h.1) refl
  | inr no_end ↦ rw (no_end, push_periods_lem quarters ps h.1) refl
]

map_get_other :
    (k : ℕ) (p : ReportingPeriod) (ps : List ReportingPeriod)
    → (p.period == k) ≡ false
    → map_get k (p ∷ ps) ≡ map_get k ps
unfolding map_get
map_get_other k p ps h = elim (Option-cases (map_get k ps)) [
  | inl missing ↦ rw (missing, h) refl
  | inr (x, found) ↦ rw found refl
]

map_get_first :
    (k : ℕ) (p : ReportingPeriod) (ps : List ReportingPeriod)
    → map_get k ps ≡ none
    → (p.period == k) ≡ true
    → map_get k (p ∷ ps) ≡ some p
unfolding map_get
map_get_first k p ps missing h = rw (missing, h) refl

period_is : (c : Cadence) (y i : ℕ) → (period_at c y i).period ≡ i + 1
unfolding period_at
period_is c y i = refl

year_is : (c : Cadence) (y i : ℕ) → (period_at c y i).year ≡ y
unfolding period_at
year_is c y i = refl

-- The entries past a number do not have it.
map_get_past :
    (c : Cadence) (y : ℕ) (q : ReportingPeriod → Bool) (k n i : ℕ)
    → k ≤ i
    → map_get k (filter q (entries (period_at c y) n i)) ≡ none
unfolding map_get
map_get_past c y q k zero i h = refl
map_get_past c y q k (suc n) i h = elim (Bool-cases (q (period_at c y i))) [
  | inl kept ↦ rw kept (
      map_get_other k (period_at c y i) (filter q (entries (period_at c y) n (suc i)))
        (ground (arith, period_is c y i))
      ∙ map_get_past c y q k n (suc i) (omega arith))
  | inr dropped ↦ rw dropped (map_get_past c y q k n (suc i) (omega arith))
]

map_get_entry :
    (c : Cadence) (y : ℕ) (q : ReportingPeriod → Bool) (k n i : ℕ)
    → i ≤ k
    → k < i + n
    → q (period_at c y k) ≡ true
    → map_get (k + 1) (filter q (entries (period_at c y) n i)) ≡ some (period_at c y k)
map_get_entry c y q k zero i h f e = absurd (omega arith)
map_get_entry c y q k (suc n) i h f e = elim (Bool-cases (i == k)) [
  | inl same ↦
      let at : i ≡ k = ground arith in
      let kept : q (period_at c y i) ≡ true = ap (λ j. q (period_at c y j)) at ∙ e in
      rw kept (
        map_get_first (k + 1) (period_at c y i) (filter q (entries (period_at c y) n (suc i)))
          (map_get_past c y q (k + 1) n (suc i) (omega arith)) (ground (arith, period_is c y i))
        ∙ ap (λ j. some (period_at c y j)) at)
  | inr other ↦
      let rest = map_get_entry c y q k n (suc i) (ground arith) (omega arith) e in
      elim (Bool-cases (q (period_at c y i))) [
        | inl kept ↦ rw kept (
            map_get_other (k + 1) (period_at c y i) (filter q (entries (period_at c y) n (suc i)))
              (ground (arith, period_is c y i))
            ∙ rest)
        | inr dropped ↦ rw dropped rest
      ]
]

All-filter-entries {κ} :
    {A : Type 0} (f : ℕ → A) (P : A → Type κ) (q : A → Bool) (n i : ℕ)
    → ((j : ℕ) → j < i + n → q (f j) ≡ true → P (f j))
    → All P (filter q (entries f n i))
All-filter-entries f P q zero i h = tt
All-filter-entries f P q (suc n) i h =
    let rest = All-filter-entries f P q n (suc i) (λ j l. h j (omega arith)) in
    elim (Bool-cases (q (f i))) [
      | inl kept ↦ rw kept (h i (omega arith) kept, rest)
      | inr dropped ↦ rw dropped rest
    ]

-- A quarter ends with its last month.
ended_together :
    (y i k : ℕ) (now : IsoDate)
    → 100 ≤ y
    → i < 12
    → i + 1 ≡ (k + 1) * 3
    → has_ended now (period_at quarterly y k) ≡ has_ended now (period_at monthly y i)
unfolding has_ended
ended_together y i k now h l e =
    let q = end_date-period_at quarterly y k h (omega (arith, e, l)) in
    let m = end_date-period_at monthly y i h (omega arith) in
    let same : last_month quarterly k ≡ last_month monthly i = omega (arith, e) in
    ap (λ d. leb (digits (next_day d)) (digits now))
      (q ∙ ap (λ j. iso_date y j (days_in_month y j)) same ∙ sym m)

period_at-HasQuarter :
    (y i : ℕ) (now : IsoDate)
    → 100 ≤ y
    → i < 12
    → has_ended now (period_at monthly y i) ≡ true
    → HasQuarter
        (filter (has_ended now) (entries (period_at quarterly y) 4 0))
        (period_at monthly y i)
period_at-HasQuarter y i now h l ended ends =
    let k : ℕ = (i + 1) / 3 - 1 in
    let n = period_is monthly y i in
    let third : i + 1 ≡ (k + 1) * 3 = ground (arith, ends, n) in
    let number : (period_at monthly y i).period / 3 ≡ k + 1 = ground (arith, third, n) in
    ap (λ j. map_get j (filter (has_ended now) (entries (period_at quarterly y) 4 0))) number
    ∙ map_get_entry quarterly y (has_ended now) k 4 0 (omega arith) (omega (arith, third, l))
        (ended_together y i k now h l third ∙ ended)
    ∙ ap₂ (λ a b. some (period_at quarterly a b)) (sym (year_is monthly y i))
        (omega (arith, number))

pub generate_compliance_reporting_periods_months :
    (now : IsoDate)
    → 100 ≤ now.year
    → generate_compliance_reporting_periods now
      ≡ ok (months_and_quarters (generate_reporting_periods monthly now.year now none))
unfolding generate_compliance_reporting_periods generate_reporting_periods
    generate_all_periods_for_year
generate_compliance_reporting_periods_months now h =
    let quarters = filter (has_ended now) (entries (period_at quarterly now.year) 4 0) in
    push_periods_lem quarters (filter (has_ended now) (entries (period_at monthly now.year) 12 0)) (
      All-filter-entries (period_at monthly now.year) (HasQuarter quarters) (has_ended now) 12 0
        (λ i l ended. period_at-HasQuarter now.year i now h (omega arith) ended))
