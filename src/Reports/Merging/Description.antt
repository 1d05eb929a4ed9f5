-- ===== src/Reports/Merging/Description.antt =====
-- What a merge has to give, told apart from the code: for a year and period, and in which order.
use epr_backend.Prelude.{
  ℕ, ◌<◌, ◌≡◌, ◌⊎◌, refl, ap, ap₂, ◌∙◌, ◌==◌, ◌&&◌, if◌then◌else◌, Option, none, some, List, [],
  ◌∷◌, Member,
}
use epr_backend.Reports.Periods.{Cadence, monthly, quarterly, YearPeriod, ReportingPeriod}
use epr_backend.Reports.Model.{PeriodicReport, PeriodicReportSlots, ReportPerPeriod, ReportSummary}
use epr_backend.Reports.Calendars.{MergedPeriod}
use epr_backend.Reports.Merging.{of_computed, of_slot, key_of}
use epr_backend.Reports.Merging.Keys.{or_else, only_if}
use epr_backend.Reports.Merging.Lookup.{last_of, slot_for, computed_for, restored, merged_for}
use mathlib.Core.Option

-- The slots that a year's report has for a cadence.
abbrev slots_at : Cadence → PeriodicReport → Option PeriodicReportSlots
slots_at monthly pr = pr.monthly_slots
slots_at quarterly pr = pr.quarterly_slots

-- The last slot of a year and period in the periodic reports.
abbrev pub last_slot : ℕ → ℕ → Cadence → List PeriodicReport → Option ReportPerPeriod
last_slot year period c [] = none
last_slot year period c (pr ∷ prs) =
    or_else (last_slot year period c prs)
      (if pr.year == year then last_of period (slots_at c pr) else none)

-- The last computed period of a year and period.
abbrev pub last_computed : ℕ → ℕ → List ReportingPeriod → Option ReportingPeriod
last_computed year period [] = none
last_computed year period (cp ∷ cps) =
    or_else (last_computed year period cps)
      (only_if ((cp.year == year) && (cp.period == period)) cp)

-- A computed period takes its dates from the computation and its reports from its slot; without a
-- report its next submission is the first.
abbrev pub with_slot : ReportingPeriod → Option ReportPerPeriod → MergedPeriod
with_slot cp none = record {
  year = cp.year;
  period = cp.period;
  start_date = cp.start_date;
  end_date = cp.end_date;
  due_date = cp.due_date;
  submission_number = 1;
  report = none;
  previous_submissions = [];
}
with_slot cp (some slot) = record {
  year = cp.year;
  period = cp.period;
  start_date = cp.start_date;
  end_date = cp.end_date;
  due_date = cp.due_date;
  submission_number = elim slot.current [ none ↦ 1 | some r ↦ r.submission_number ];
  report = slot.current;
  previous_submissions = slot.previous_submissions;
}

-- A slot that was not computed takes its dates from the slot, and is there for its current report.
abbrev pub slot_alone : ℕ → ℕ → Option ReportPerPeriod → Option MergedPeriod
slot_alone year period none = none
slot_alone year period (some slot) = elim slot.current [
  | none ↦ none
  | some r ↦ some (record {
    year = year;
    period = period;
    start_date = slot.start_date;
    end_date = slot.end_date;
    due_date = slot.due_date;
    submission_number = r.submission_number;
    report = some r;
    previous_submissions = slot.previous_submissions;
  })
]

-- The period that a merge has to give for a year and period.
abbrev pub described :
    List ReportingPeriod → List PeriodicReport → Cadence → ℕ → ℕ → Option MergedPeriod
described computed prs c year period =
    or_else
      (Option.map (λ cp. with_slot cp (last_slot cp.year cp.period c prs))
        (last_computed year period computed))
      (slot_alone year period (last_slot year period c prs))

-- One period stands before another by its year, and by its number in the same year.
abbrev pub Precedes : MergedPeriod → MergedPeriod → Type 0
Precedes p q = (p.year < q.year) ⊎ ((p.year ≡ q.year) × (p.period < q.period))

abbrev pub InOrder : List MergedPeriod → Type 0
InOrder [] = Unit
InOrder (p ∷ ps) = ((q : MergedPeriod) → Member q ps → Precedes p q) × InOrder ps

slot_for-last_slot :
    (k : YearPeriod) (c : Cadence) (prs : List PeriodicReport)
    → slot_for k c prs ≡ last_slot k.year k.period c prs
slot_for-last_slot k c [] = refl
slot_for-last_slot k monthly (pr ∷ prs) =
    ap
      (λ found.
        or_else found (if pr.year == k.year then last_of k.period pr.monthly_slots else none))
      (slot_for-last_slot k monthly prs)
slot_for-last_slot k quarterly (pr ∷ prs) =
    ap
      (λ found.
        or_else found (if pr.year == k.year then last_of k.period pr.quarterly_slots else none))
      (slot_for-last_slot k quarterly prs)

computed_for-last_computed :
    (k : YearPeriod) (cps : List ReportingPeriod)
    → computed_for k cps ≡ last_computed k.year k.period cps
computed_for-last_computed k [] = refl
computed_for-last_computed k (cp ∷ cps) =
    ap (λ found. or_else found (only_if ((cp.year == k.year) && (cp.period == k.period)) cp))
      (computed_for-last_computed k cps)

of_computed-with_slot :
    (cp : ReportingPeriod) (slot : Option ReportPerPeriod) → of_computed cp slot ≡ with_slot cp slot
of_computed-with_slot cp none = refl
of_computed-with_slot cp (some slot) = refl

restored-slot_alone :
    (k : YearPeriod) (slot : Option ReportPerPeriod)
    → restored k slot ≡ slot_alone k.year k.period slot
restored-slot_alone k none = refl
restored-slot_alone k (some slot) = go slot slot.current
  where
    go :
        (slot : ReportPerPeriod) (current : Option ReportSummary)
        → Option.map (of_slot k slot) current ≡ elim current [
          | none ↦ none
          | some r ↦ some (record {
            year = k.year;
            period = k.period;
            start_date = slot.start_date;
            end_date = slot.end_date;
            due_date = slot.due_date;
            submission_number = r.submission_number;
            report = some r;
            previous_submissions = slot.previous_submissions;
          })
        ]
    go slot none = refl
    go slot (some r) = refl

pub map_ext {ℓ κ} :
    {A : Type ℓ} {B : Type κ} (f g : A → B)
    → ((x : A) → f x ≡ g x)
    → (o : Option A) → Option.map f o ≡ Option.map g o
map_ext f g h none = refl
map_ext f g h (some x) = ap some (h x)

pub merged_for-described :
    (computed : List ReportingPeriod) (prs : List PeriodicReport) (c : Cadence) (k : YearPeriod)
    → merged_for computed prs c k ≡ described computed prs c k.year k.period
merged_for-described computed prs c k =
    ap₂ or_else
      (map_ext _ _
          (λ cp.
            of_computed-with_slot cp _ ∙ ap (with_slot cp) (slot_for-last_slot (key_of cp) c prs))
          (computed_for k computed)
        ∙ ap (Option.map (λ cp. with_slot cp (last_slot cp.year cp.period c prs)))
            (computed_for-last_computed k computed))
      (restored-slot_alone k _ ∙ ap (slot_alone k.year k.period) (slot_for-last_slot k c prs))
