-- ===== src/Reports/Service/Fetched.antt =====
-- What the look-ups of the service find in the store.
use epr_backend.Prelude.{
  ◌>>=◌, ℕ, ◌≡◌, ◌≢◌, ◌≤◌, ltb, refl, ap, sym, ◌∙◌, true, inl, inr, Option, none, some, List, [],
  ◌∷◌, arith, map, filter, group_of, sort_by_descending, Result, ok, err, Option-cases, Member,
  here, there, Member-filter, Member-of_filter, Member-of_map, Member-map,
  Member-of_sort_by_descending, Member-sort_by_descending, if◌then◌else◌,
}
use epr_backend.Reports.Model.{Report, ReportSummary, SlotKey, same_slot}
use epr_backend.Reports.PeriodicReports.{
  to_submission, number_of, build_period_summary, summary_of, find_submission_by_number,
  find_report_id_by_submission_number,
}
use epr_backend.Reports.PeriodicReports.Lookup.{
  in_period, summaries, find_submission_by_number_lem, find_slot-group_as_periodic_reports,
  find_number-eq-some, find_number-eq-none,
}
use epr_backend.Reports.Store.{
  ReportStore, get_report, of_registration, map_report, find_report_by_id, find_periodic_reports,
  require_report,
}
use epr_backend.Reports.Store.Found.{UniqueIds, get_report-eq-some, Member-unique}
use epr_backend.Reports.Service.{
  fetch_report_by_submission_number, fetch_found, is_latest_submission, slot_numbers, is_maximum,
  maximum,
}
use mathlib.Core.Option

-- The reports of a slot, as the repository selects and groups them.
abbrev pub slot_reports : SlotKey → ReportStore → List Report
slot_reports key store =
    in_period key.year key.cadence key.period
      (filter (of_registration key.organisation_id key.registration_id) store)

pub Member-of_slot_reports :
    (key : SlotKey) (x : Report) (store : ReportStore)
    → Member x (slot_reports key store)
    → Member x store × (same_slot x.slot key ≡ true)
Member-of_slot_reports key x store m =
    let (a, p) = Member-of_filter _ x _ m in
    let (b, q) = Member-of_filter _ x _ a in
    let (c, r) = Member-of_filter _ x _ b in
    let (d, s) = Member-of_filter _ x _ c in (d, ground (arith, p, q, r, s))

pub Member-slot_reports :
    (key : SlotKey) (x : Report) (store : ReportStore)
    → Member x store
    → same_slot x.slot key ≡ true
    → Member x (slot_reports key store)
Member-slot_reports key x store m h =
    Member-filter _ x _
      (Member-filter _ x _
        (Member-filter _ x _ (Member-filter _ x store m (ground arith)) (ground arith))
        (ground arith))
      (ground arith)

-- A report of the slot with the number.
abbrev pub StoredAt : SlotKey → ℕ → ReportStore → Report → Type 0
StoredAt key n store r = Member r store × (same_slot r.slot key ≡ true) × (r.submission_number ≡ n)

pub find_submission_by_number-some :
    (key : SlotKey) (n : ℕ) (store : ReportStore) (s : ReportSummary)
    → find_submission_by_number
        (find_periodic_reports key.organisation_id key.registration_id store)
        key.year
        key.cadence
        key.period
        n
      ≡ some s
    → (r : Report) × StoredAt key n store r × (s ≡ to_submission r)
unfolding find_periodic_reports to_submission
find_submission_by_number-some key n store s h =
    let docs = filter (of_registration key.organisation_id key.registration_id) store in
    let (m, k) =
      find_number-eq-some n (summaries (slot_reports key store)) s
        (sym (find_submission_by_number_lem docs key.year key.cadence key.period n) ∙ h) in
    let (r, a, e) = Member-of_map to_submission s _ m in
    let (b, c) =
      Member-of_slot_reports key r store
        (Member-of_sort_by_descending number_of r (slot_reports key store) a) in
    (r, (b, c, sym (ap (λ (t : ReportSummary). t.submission_number) e) ∙ k), e)

pub find_submission_by_number-none :
    (key : SlotKey) (n : ℕ) (store : ReportStore) (r : Report)
    → find_submission_by_number
        (find_periodic_reports key.organisation_id key.registration_id store)
        key.year
        key.cadence
        key.period
        n
      ≡ none
    → Member r store
    → same_slot r.slot key ≡ true
    → r.submission_number ≢ n
unfolding find_periodic_reports to_submission
find_submission_by_number-none key n store r h m e =
    let docs = filter (of_registration key.organisation_id key.registration_id) store in
    find_number-eq-none n (summaries (slot_reports key store)) (to_submission r)
      (sym (find_submission_by_number_lem docs key.year key.cadence key.period n) ∙ h)
      (Member-map to_submission r _ (
        Member-sort_by_descending number_of r (slot_reports key store)
          (Member-slot_reports key r store m e)))

pub require_report-eq-ok :
    (id : ℕ) (store : ReportStore) (r : Report)
    → require_report id store ≡ ok r
    → get_report id store ≡ some r
unfolding require_report
require_report-eq-ok id store r h = elim (Option-cases (get_report id store)) [
  | inl none_there ↦ ground (arith, none_there, h)
  | inr (s, e) ↦ ground (arith, e, h)
]

some_ok :
    (r : Result Report) (report : Report)
    → (r >>= λ x. ok (some x)) ≡ ok (some report)
    → r ≡ ok report
some_ok (err e) report h = ground (arith, h)
some_ok (ok x) report h = ground (arith, h)

mapped_ok :
    (r : Result Report) (report : Report)
    → (r >>= λ x. ok (map_report x)) ≡ ok report
    → (x : Report) × (r ≡ ok x) × (report ≡ map_report x)
mapped_ok (err e) report h = absurd (ground (arith, h))
mapped_ok (ok x) report h = (x, refl, ground (arith, h))

-- What `findReportById` returns is the stored report, mapped.
pub find_report_by_id-eq-ok :
    (id : ℕ) (store : ReportStore) (report : Report)
    → find_report_by_id id store ≡ ok report
    → (r : Report) × Member r store × (r.id ≡ id) × (report ≡ map_report r)
unfolding find_report_by_id
find_report_by_id-eq-ok id store report h =
    let (r, a, e) = mapped_ok (require_report id store) report h in
    let (m, k) = get_report-eq-some id store r (require_report-eq-ok id store r a) in (r, m, k, e)

summary_id : (s : ReportSummary) (r : Report) → s ≡ to_submission r → s.id ≡ r.id
unfolding to_submission
summary_id s r e = ap (λ (t : ReportSummary). t.id) e

fetch_found-eq-ok :
    (key : SlotKey) (n : ℕ) (store : ReportStore) (report : Report)
    → UniqueIds store
    → (found : Option ReportSummary)
    → find_submission_by_number
        (find_periodic_reports key.organisation_id key.registration_id store)
        key.year
        key.cadence
        key.period
        n
      ≡ found
    → fetch_found (Option.map (λ (s : ReportSummary). s.id) found) store ≡ ok (some report)
    → (r : Report) × StoredAt key n store r × (report ≡ map_report r)
unfolding fetch_found
fetch_found-eq-ok key n store report u none q h = absurd (ground (arith, h))
fetch_found-eq-ok key n store report u (some s) q h =
    let (r, m, k, e) =
      find_report_by_id-eq-ok s.id store report (some_ok (find_report_by_id s.id store) report h) in
    let (t, at, f) = find_submission_by_number-some key n store s q in
    let same : r ≡ t = Member-unique r t store u m at.0 (k ∙ summary_id s t f) in
    (t, at, e ∙ ap map_report same)

-- What the handlers fetch is the stored report of the slot with the number, mapped.
pub fetch_or_404-eq-ok :
    (key : SlotKey) (n : ℕ) (store : ReportStore) (report : Report)
    → UniqueIds store
    → fetch_report_by_submission_number key n store ≡ ok (some report)
    → (r : Report) × StoredAt key n store r × (report ≡ map_report r)
unfolding fetch_report_by_submission_number find_report_id_by_submission_number
fetch_or_404-eq-ok key n store report u h =
    fetch_found-eq-ok key n store report u
      (find_submission_by_number
        (find_periodic_reports key.organisation_id key.registration_id store) key.year key.cadence
        key.period n)
      refl h

maximum-ge : (m : ℕ) (ns : List ℕ) → m ≤ maximum m ns
maximum-ge m [] = omega arith
maximum-ge m (n ∷ ns) = ground (arith, maximum-ge (if ltb m n then n else m) ns)

maximum-ge_member : (m : ℕ) (ns : List ℕ) (k : ℕ) → Member k ns → k ≤ maximum m ns
maximum-ge_member m [] k h = elim h [ ]
maximum-ge_member m (n ∷ ns) k (here e) =
    ground (arith, maximum-ge (if ltb m n then n else m) ns, e)
maximum-ge_member m (n ∷ ns) k (there h) = maximum-ge_member (if ltb m n then n else m) ns k h

is_maximum-ge : (n : ℕ) (ns : List ℕ) (k : ℕ) → is_maximum n ns ≡ true → Member k ns → k ≤ n
is_maximum-ge n [] k t h = elim h [ ]
is_maximum-ge n (m ∷ ms) k t (here e) = ground (arith, maximum-ge m ms, e)
is_maximum-ge n (m ∷ ms) k t (there h) = ground (arith, maximum-ge_member m ms k h)

numbers_of_summary :
    (docs : List Report) → slot_numbers (some (summary_of docs)) ≡ map number_of docs
unfolding summary_of
numbers_of_summary [] = refl
numbers_of_summary (r ∷ rs) = ap (λ ns. r.submission_number ∷ ns) (numbers_of rs)
  where
    numbers_of :
        (rs : List Report)
        → map (λ (s : ReportSummary). s.submission_number) (map to_submission rs) ≡ map number_of rs
    numbers_of [] = refl
    numbers_of (x ∷ xs) = λ i. x.submission_number ∷ numbers_of xs i

numbers_of_group :
    (docs : List Report)
    → slot_numbers (Option.map build_period_summary (group_of docs))
      ≡ map number_of (sort_by_descending number_of docs)
unfolding build_period_summary
numbers_of_group [] = refl
numbers_of_group (r ∷ rs) = numbers_of_summary (sort_by_descending number_of (r ∷ rs))

-- The latest submission has the largest number in its slot.
pub is_latest_submission-ge :
    (key : SlotKey) (n : ℕ) (store : ReportStore) (r : Report)
    → is_latest_submission key n store ≡ true
    → Member r store
    → same_slot r.slot key ≡ true
    → r.submission_number ≤ n
unfolding is_latest_submission find_periodic_reports
is_latest_submission-ge key n store r h m e =
    let docs = filter (of_registration key.organisation_id key.registration_id) store in
    let slot = find_slot-group_as_periodic_reports key.year key.cadence key.period docs in
    is_maximum-ge n (map number_of (sort_by_descending number_of (slot_reports key store)))
      r.submission_number
      (sym (
          ap (λ found. is_maximum n (slot_numbers found)) slot
          ∙ ap (is_maximum n) (numbers_of_group (slot_reports key store)))
        ∙ h)
      (Member-map number_of r _ (
        Member-sort_by_descending number_of r (slot_reports key store)
          (Member-slot_reports key r store m e)))
