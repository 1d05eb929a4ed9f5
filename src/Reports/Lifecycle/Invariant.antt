-- ===== src/Reports/Lifecycle/Invariant.antt =====
-- The reports of a slot are numbered from 1 without a gap, and only the last of them may change.
use epr_backend.Prelude.{ℕ, ◌≡◌, ◌≤◌, ◌<◌, refl, true, arith, Member}
use epr_backend.Reports.Periods.{Cadence, monthly, quarterly}
use epr_backend.Reports.Model.{
  Report, SlotKey, same_slot, same_cadence, is_submitted_status, is_resubmission_required,
}
use epr_backend.Reports.Store.{ReportStore}
use epr_backend.Reports.Store.Found.{UniqueIds}

-- A report that is submitted and is to be submitted again.
abbrev pub IsClosed : Report → Type 0
IsClosed r =
    (is_submitted_status r.status.current_status ≡ true)
    × (is_resubmission_required r.resubmission_required ≡ true)

pub record IsWellFormed (store : ReportStore) : Type 0 where
  pub unique_ids : UniqueIds store
  -- Numbers start at 1.
  pub positive : (r : Report) → Member r store → 1 ≤ r.submission_number
  -- No number stands twice in a slot.
  pub unique_numbers :
      (r s : Report)
      → Member r store
      → Member s store
      → r.slot ≡ s.slot
      → r.submission_number ≡ s.submission_number
      → r.id ≡ s.id
  -- A report that a later one of its slot supersedes is closed.
  pub superseded :
      (r s : Report)
      → Member r store
      → Member s store
      → r.slot ≡ s.slot
      → r.submission_number < s.submission_number
      → IsClosed r
  -- The numbers below a report's are taken in its slot.
  pub no_gap :
      (s : Report) (m : ℕ)
      → Member s store
      → 1 ≤ m
      → m < s.submission_number
      → (r : Report) × Member r store × (r.slot ≡ s.slot) × (r.submission_number ≡ m)

same_cadence-eq : (c d : Cadence) → same_cadence c d ≡ true → c ≡ d
same_cadence-eq monthly monthly h = refl
same_cadence-eq monthly quarterly h = cc
same_cadence-eq quarterly monthly h = cc
same_cadence-eq quarterly quarterly h = refl

same_cadence_refl : (c : Cadence) → same_cadence c c ≡ true
same_cadence_refl monthly = refl
same_cadence_refl quarterly = refl

pub same_slot-eq : (a b : SlotKey) → same_slot a b ≡ true → a ≡ b
same_slot-eq a b h = ground (arith, same_cadence-eq a.cadence b.cadence)

pub same_slot_refl : (a : SlotKey) → same_slot a a ≡ true
same_slot_refl a = ground (arith, same_cadence_refl a.cadence)
