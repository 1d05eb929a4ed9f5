-- ===== src/Reports/Compliance/Schedule.antt =====
-- The compliance periods of a year as a timetable, told apart from the code.
use epr_backend.Prelude.{
  ap₂, leb, ℕ, zero, suc, ◌+◌, ◌-◌, ◌*◌, ◌/◌, ◌%◌, ◌≡◌, ◌<◌, ◌≤◌, refl, ap, sym, ◌∙◌, arith, ◌==◌,
  Bool, if◌then◌else◌, Bool-cases, inl, inr, List, [], ◌∷◌, filter, entries, map, ok,
}
use epr_backend.Reports.Calendar.{days_in_month, iso_date, IsoDate, digits, next_day}
use epr_backend.Reports.Periods.{
  Cadence, monthly, quarterly, period_at, has_ended, generate_reporting_periods,
  generate_all_periods_for_year,
}
use epr_backend.Reports.Periods.Containment.{
  start_date-period_at, end_date-period_at, due_date-period_at,
}
use epr_backend.Reports.Compliance.{
  CompliancePeriod, annotate, is_quarter_end, generate_compliance_reporting_periods,
}
use epr_backend.Reports.Compliance.Quarters.{
  quarter_of, months_and_quarters, generate_compliance_reporting_periods_months,
}

-- The reports of a year in the order of their ends: a month and, after the third, sixth, ninth and
-- twelfth month, its quarter.
abbrev pub timetable : List (Cadence × ℕ)
timetable =
    (monthly, 1)
    ∷ (monthly, 2)
    ∷ (monthly, 3)
    ∷ (quarterly, 1)
    ∷ (monthly, 4)
    ∷ (monthly, 5)
    ∷ (monthly, 6)
    ∷ (quarterly, 2)
    ∷ (monthly, 7)
    ∷ (monthly, 8)
    ∷ (monthly, 9)
    ∷ (quarterly, 3)
    ∷ (monthly, 10)
    ∷ (monthly, 11)
    ∷ (monthly, 12)
    ∷ (quarterly, 4)
    ∷ []

abbrev pub from_month : Cadence → ℕ → ℕ
from_month monthly n = n
from_month quarterly n = 3 * n - 2

abbrev pub to_month : Cadence → ℕ → ℕ
to_month monthly n = n
to_month quarterly n = 3 * n

abbrev pub last_day : ℕ → ℕ → IsoDate
last_day y m = iso_date y m (days_in_month y m)

-- The 20th of the month after a month.
abbrev pub twentieth_after : ℕ → ℕ → IsoDate
twentieth_after y m = if m == 12 then iso_date (y + 1) 1 20 else iso_date y (m + 1) 20

-- The compliance period of an entry of the timetable.
abbrev pub entry : ℕ → Cadence × ℕ → CompliancePeriod
entry y (c, n) = record {
  cadence = c;
  year = y;
  period = n;
  start_date = iso_date y (from_month c n) 1;
  end_date = last_day y (to_month c n);
  due_date = twentieth_after y (to_month c n);
}

-- The day after the last one of the entry has come.
abbrev pub has_passed : IsoDate → ℕ → Cadence × ℕ → Bool
has_passed now y (c, n) = leb (digits (next_day (last_day y (to_month c n)))) (digits now)

-- The timetable of the months from one on.
abbrev timetable_from : ℕ → ℕ → List (Cadence × ℕ)
timetable_from zero i = []
timetable_from (suc n) i =
    let rest = timetable_from n (suc i) in
    if (i + 1) % 3 == 0
    then (monthly, i + 1) ∷ (quarterly, (i + 1) / 3) ∷ rest
    else (monthly, i + 1) ∷ rest

abbrev dated : Cadence → ℕ → ℕ → IsoDate → IsoDate → IsoDate → CompliancePeriod
dated c y n start end due = record {
  cadence = c;
  year = y;
  period = n;
  start_date = start;
  end_date = end;
  due_date = due;
}

dated_lem :
    (c : Cadence) (y n : ℕ) {s s' e e' d d' : IsoDate}
    → s ≡ s'
    → e ≡ e'
    → d ≡ d'
    → dated c y n s e d ≡ dated c y n s' e' d'
dated_lem c y n {s} {s'} {e} {e'} {d} {d'} p q r =
    ap₂ (λ a b. dated c y n a b d) p q ∙ ap (dated c y n s' e') r

twentieth_lem :
    (y m : ℕ) → 1 ≤ m → m ≤ 12 → iso_date (y + m / 12) (m % 12 + 1) 20 ≡ twentieth_after y m
twentieth_lem y m h k = elim (Bool-cases (m == 12)) [
  | inl december ↦ rw december (ground arith)
  | inr other ↦ rw other (ground arith)
]

annotate-monthly :
    (y i : ℕ)
    → 100 ≤ y
    → i < 12
    → annotate (period_at monthly y i) monthly ≡ entry y (monthly, i + 1)
unfolding period_at
annotate-monthly y i h k =
    let same : i * 1 + 1 ≡ i + 1 = omega arith in
    dated_lem monthly y (i + 1)
      (start_date-period_at monthly y i h k ∙ ap (λ m. iso_date y m 1) same)
      (end_date-period_at monthly y i h k ∙ ap (last_day y) same)
      (due_date-period_at monthly y i h k
        ∙ ap (λ m. iso_date (y + m / 12) (m % 12 + 1) 20) same
        ∙ twentieth_lem y (i + 1) (omega arith) (omega arith))

annotate-quarterly :
    (y i : ℕ)
    → 100 ≤ y
    → i < 4
    → annotate (period_at quarterly y i) quarterly ≡ entry y (quarterly, i + 1)
unfolding period_at
annotate-quarterly y i h k =
    let same : i * 3 + 3 ≡ 3 * (i + 1) = omega arith in
    let first : i * 3 + 1 ≡ 3 * (i + 1) - 2 = omega arith in
    dated_lem quarterly y (i + 1)
      (start_date-period_at quarterly y i h k ∙ ap (λ m. iso_date y m 1) first)
      (end_date-period_at quarterly y i h k ∙ ap (last_day y) same)
      (due_date-period_at quarterly y i h k
        ∙ ap (λ m. iso_date (y + m / 12) (m % 12 + 1) 20) same
        ∙ twentieth_lem y (3 * (i + 1)) (omega arith) (omega arith))

has_ended-monthly :
    (now : IsoDate) (y i : ℕ)
    → 100 ≤ y
    → i < 12
    → has_ended now (period_at monthly y i) ≡ has_passed now y (monthly, i + 1)
unfolding has_ended
has_ended-monthly now y i h k =
    let same : i * 1 + 1 ≡ i + 1 = omega arith in
    ap (λ d. leb (digits (next_day d)) (digits now))
      (end_date-period_at monthly y i h k ∙ ap (last_day y) same)

third_month : (y i : ℕ) → is_quarter_end (period_at monthly y i) ≡ ((i + 1) % 3 == 0)
unfolding period_at
third_month y i = refl

quarter_of-period_at :
    (y i : ℕ) → quarter_of (period_at monthly y i) ≡ period_at quarterly y ((i + 1) / 3 - 1)
unfolding period_at
quarter_of-period_at y i = refl

-- An ended month of the timetable, with its quarter when it is a third one.
months_and_quarters_lem :
    (now : IsoDate) (y n i : ℕ)
    → 100 ≤ y
    → i + n ≤ 12
    → months_and_quarters (filter (has_ended now) (entries (period_at monthly y) n i))
      ≡ map (entry y) (filter (has_passed now y) (timetable_from n i))
months_and_quarters_lem now y zero i h l = refl
months_and_quarters_lem now y (suc n) i h l =
    let rest = months_and_quarters_lem now y n (suc i) h (omega arith) in
    let ended = has_ended-monthly now y i h (omega arith) in
    let month = annotate-monthly y i h (omega arith) in
    elim (Bool-cases ((i + 1) % 3 == 0)) [
      | inl third ↦
          let k : ℕ = (i + 1) / 3 - 1 in
          let number : k + 1 ≡ (i + 1) / 3 = ground (arith, third) in
          let end_month : i + 1 ≡ 3 * ((i + 1) / 3) = ground (arith, third) in
          let quarter =
            ap (λ p. annotate p quarterly) (quarter_of-period_at y i)
            ∙ annotate-quarterly y k h (omega (arith, number, end_month, l))
            ∙ ap (λ j. entry y (quarterly, j)) number in
          let together =
            ap (λ m. leb (digits (next_day (last_day y m))) (digits now)) (sym end_month) in
          elim (Bool-cases (has_passed now y (monthly, i + 1))) [
            | inl passed ↦
                rw (third, ended ∙ passed, passed, together ∙ passed, third_month y i ∙ third)
                  (ap₂ (λ a xs. a ∷ xs) month (ap₂ (λ a xs. a ∷ xs) quarter rest))
            | inr ahead ↦ rw (third, ended ∙ ahead, ahead, together ∙ ahead) rest
          ]
      | inr other ↦ elim (Bool-cases (has_passed now y (monthly, i + 1))) [
        | inl passed ↦
            rw (other, ended ∙ passed, passed, third_month y i ∙ other)
              (ap₂ (λ a xs. a ∷ xs) month rest)
        | inr ahead ↦ rw (other, ended ∙ ahead, ahead) rest
      ]
    ]

-- On any date of a year from 100 on, `generateComplianceReportingPeriods` returns, and gives the
-- entries of the year's timetable whose last day is past, in its order: each month and, right after
-- the months 3, 6, 9 and 12, the quarters 1 to 4, each with its first day, its last day and the 20th of
-- the month that follows as its due date.
pub generate_compliance_reporting_periods_lem :
    (now : IsoDate)
    → 100 ≤ now.year
    → generate_compliance_reporting_periods now
      ≡ ok (map (entry now.year) (filter (has_passed now now.year) timetable))
unfolding generate_reporting_periods generate_all_periods_for_year
generate_compliance_reporting_periods_lem now h =
    generate_compliance_reporting_periods_months now h
    ∙ ap ok (months_and_quarters_lem now now.year 12 0 h (omega arith))
