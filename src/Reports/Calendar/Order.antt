-- ===== src/Reports/Calendar/Order.antt =====
-- The order of dates, and the day after a date.
use epr_backend.Prelude.{◌==◌, Bool-cases, ltb, leb, ◌≡◌, arith, inl, inr}
use epr_backend.Reports.Calendar.{
  IsoDate, IsValid, digits, next_day, days_in_month, days_in_month_bounds,
}

-- The day after a valid date is on or before a valid date exactly when the date is before it.
pub next_day_le :
    (d t : IsoDate)
    → IsValid d
    → IsValid t
    → leb (digits (next_day d)) (digits t) ≡ ltb (digits d) (digits t)
unfolding next_day
next_day_le d t v w =
    let b = days_in_month_bounds d.year d.month in
    let c = days_in_month_bounds t.year t.month in
    elim (Bool-cases (ltb d.day (days_in_month d.year d.month))) [
      | inl within ↦ rw within (ground (arith, b, c))
      | inr last ↦ elim (Bool-cases (d.month == 12)) [
        | inl december ↦ rw (last, december) (ground (arith, b, c))
        | inr other ↦ rw (last, other) (ground (arith, b, c))
      ]
    ]
