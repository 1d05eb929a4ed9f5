-- ===== src/Reports/Calendar.antt =====
-- Code: `formatDateISO` of src/common/helpers/date-formatter.js, with what it uses of JavaScript's
-- `Date`. A date stands for its text YYYY-MM-DD, so years have four digits.
use epr_backend.Prelude.{
  inr, inl, Bool-cases, false, ◌∙◌, ℕ, zero, suc, ◌+◌, ◌-◌, ◌*◌, ◌/◌, ◌%◌, ◌≤◌, ◌<◌, ◌≡◌, refl,
  Bool, not, ◌&&◌, ◌||◌, ◌==◌, ltb, leb, if◌then◌else◌, arith,
}
pub mod Order

pub record IsoDate : Type 0 where
  pub year : ℕ
  pub month : ℕ
  pub day : ℕ

abbrev pub iso_date : ℕ → ℕ → ℕ → IsoDate
iso_date y m d = record { year = y; month = m; day = d }

-- The digits of the text: `localeCompare` of two dates compares these numbers.
abbrev pub digits : IsoDate → ℕ
digits d = d.year * 10000 + d.month * 100 + d.day

unfoldable pub is_leap : ℕ → Bool
is_leap y = (y % 4 == 0) && (not (y % 100 == 0) || (y % 400 == 0))

-- The days of a month, by its number from 1.
unfoldable pub days_in_month : ℕ → ℕ → ℕ
unfolding is_leap
days_in_month y m =
    if (m == 11) || (m == 9) || (m == 6) || (m == 4)
    then 30
    else if not (m == 2)
    then 31
    else (if is_leap y then 29 else 28)

-- A date that the calendar has.
pub record IsValid (d : IsoDate) : Type 0 where
  pub month_from : 1 ≤ d.month
  pub month_to : d.month ≤ 12
  pub day_from : 1 ≤ d.day
  pub day_to : d.day ≤ days_in_month d.year d.month

-- `date.setUTCDate(date.getUTCDate() + 1)`
unfoldable pub next_day : IsoDate → IsoDate
next_day d =
    if ltb d.day (days_in_month d.year d.month)
    then record d { day = d.day + 1 }
    else if d.month == 12
    then iso_date (d.year + 1) 1 1
    else iso_date d.year (d.month + 1) 1

abbrev add_days : ℕ → IsoDate → IsoDate
add_days zero d = d
add_days (suc n) d = add_days n (next_day d)

-- The year that `Date.UTC` takes a number for.
abbrev full_year : ℕ → ℕ
full_year y = if ltb y 100 then 1900 + y else y

abbrev first_of_month : ℕ → ℕ → IsoDate
first_of_month y month = iso_date (full_year y + month / 12) (month % 12 + 1) 1

abbrev day_before_month : IsoDate → IsoDate
day_before_month d =
    if d.month == 1
    then iso_date (d.year - 1) 12 31
    else iso_date d.year (d.month - 1) (days_in_month d.year (d.month - 1))

-- `formatDateISO`: the month is counted from 0, and day 0 is the day before the month.
unfoldable pub format_date_iso : ℕ → ℕ → ℕ → IsoDate
unfolding next_day days_in_month
format_date_iso y month zero = day_before_month (first_of_month y month)
format_date_iso y month (suc n) = add_days n (first_of_month y month)

-- Within a month, days count up.
add_days_within :
    (n : ℕ) (d : IsoDate)
    → d.day + n ≤ days_in_month d.year d.month
    → add_days n d ≡ record d { day = d.day + n }
unfolding next_day
add_days_within zero d h = ground arith
add_days_within (suc n) d h = ground (arith, add_days_within n (record d { day = d.day + 1 }))

pub days_in_month_bounds : (y m : ℕ) → (28 ≤ days_in_month y m) × (days_in_month y m ≤ 31)
unfolding days_in_month
days_in_month_bounds y m = ground arith

-- The first 28 days of a month.
pub format_date_iso_day :
    (y month n : ℕ)
    → 100 ≤ y
    → n < 28
    → format_date_iso y month (suc n) ≡ iso_date (y + month / 12) (month % 12 + 1) (suc n)
unfolding format_date_iso
format_date_iso_day y month n h k =
    add_days_within n (first_of_month y month)
      (omega (arith, days_in_month_bounds (full_year y + month / 12) (month % 12 + 1)))
    ∙ ground arith

-- Day 0 is the last day of the month before.
pub format_date_iso_zero :
    (y month : ℕ)
    → 100 ≤ y
    → format_date_iso y (suc month) 0
      ≡ iso_date (y + month / 12) (month % 12 + 1) (days_in_month (y + month / 12) (month % 12 + 1))
unfolding format_date_iso days_in_month
format_date_iso_zero y month h =
    let century : ltb y 100 ≡ false = ground arith in
    elim (Bool-cases (suc month % 12 + 1 == 1)) [
      | inl january ↦ rw (century, january) (ground arith)
      | inr other ↦
          let same : suc month % 12 ≡ month % 12 + 1 = ground arith in
          let carry : suc month / 12 ≡ month / 12 = ground arith in
          rw (century, other) (ground (arith, same, carry))
    ]
