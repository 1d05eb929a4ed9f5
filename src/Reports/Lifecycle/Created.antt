-- ===== src/Reports/Lifecycle/Created.antt =====
-- A report that `createReportForPeriod` makes comes last in its slot.
use native.Mathlib.Decide.{dec_lt}
use epr_backend.Prelude.{
  subst, ok-injective, if◌then◌else◌, ℕ, ◌-◌, ◌≡◌, ◌≢◌, ◌≤◌, ◌<◌, leb, not, any, refl, ap, sym, ◌∙◌,
  true, false, arith, ◌⊎◌, inl, inr, Member, Option, none, some, Bool, Result, ok, throw_if,
  >>=-eq-ok, throw_if-eq-ok, err-ne-ok, conflict, bad_request,
}
use epr_backend.Reports.Calendar.{IsoDate}
use epr_backend.Reports.Model.{Report, ReportSummary, SlotKey, same_slot}
use epr_backend.Reports.PeriodicReports.{find_submission_by_number, to_submission}
use epr_backend.Reports.Store.{
  ReportStore, CreateReportParams, set_report, create_report, prepare_create_report_params,
  is_in_schema, active_at, active_in, find_periodic_reports,
}
use epr_backend.Reports.Store.Found.{Member-unique}
use epr_backend.Reports.Service.{
  ReportData, create_report_for_period, get_validated_period_info, assert_no_existing_report,
  assert_resubmission_allowed, is_found, permits_resubmission,
}
use epr_backend.Reports.Service.Fetched.{
  find_submission_by_number-some, find_submission_by_number-none,
}
use epr_backend.Reports.Lifecycle.Invariant.{IsWellFormed, IsClosed, same_slot-eq, same_slot_refl}
use epr_backend.Reports.Lifecycle.Ends.{append-IsWellFormed}

create_report-eq-ok :
    (now id : ℕ) (p : CreateReportParams) (store after : ReportStore) (r : Report)
    → create_report now id p store ≡ ok (r, after)
    → (is_in_schema p.slot p.submission_number ≡ true)
      × (after ≡ set_report (prepare_create_report_params now id p) store)
unfolding create_report
create_report-eq-ok now id p store after r h =
    let (schema, a) =
      throw_if-eq-ok (not (is_in_schema p.slot p.submission_number)) bad_request _ (r, after) h in
    let (x, b) =
      throw_if-eq-ok (any (active_at p.slot p.submission_number) store) conflict _ (r, after) a in
    let (y, c) = throw_if-eq-ok (any (active_in p.slot) store) conflict _ (r, after) b in
    (
      ground (arith, schema),
      sym (ap (λ (t : Report × ReportStore). t.1) (ok-injective _ (r, after) c)),
    )

-- What holds when `createReportForPeriod` succeeds.
pub record Created (store after : ReportStore) (now id : ℕ) (key : SlotKey) (n : ℕ) : Type 0 where
  params : CreateReportParams
  slot_is : params.slot ≡ key
  number_is : params.submission_number ≡ n
  positive : 1 ≤ n
  after_is : after ≡ set_report (prepare_create_report_params now id params) store
  absent :
      find_submission_by_number
        (find_periodic_reports key.organisation_id key.registration_id store)
        key.year
        key.cadence
        key.period
        n
      ≡ none
  permitted :
      (n ≤ 1)
      ⊎ (permits_resubmission (
            find_submission_by_number
              (find_periodic_reports key.organisation_id key.registration_id store)
              key.year
              key.cadence
              key.period
              (n - 1))
          ≡ true)

no_existing :
    (found : Option ReportSummary) (u : Unit {0})
    → throw_if (is_found found) conflict ≡ ok u
    → found ≡ none
no_existing none u h = refl
no_existing (some s) u h = absurd (err-ne-ok conflict u h)

resubmission_allowed :
    (first permits : Bool) (u : Unit {0})
    → (if first then ok tt else throw_if (not permits) conflict) ≡ ok u
    → (first ≡ true) ⊎ (permits ≡ true)
resubmission_allowed true permits u h = inl refl
resubmission_allowed false true u h = inr refl
resubmission_allowed false false u h = absurd (err-ne-ok conflict u h)

first_number : (n : ℕ) {P : Type 0} → (leb n 1 ≡ true) ⊎ P → (n ≤ 1) ⊎ P
first_number n (inl e) = inl (ground (arith, e))
first_number n (inr p) = inr p

pub create_report_for_period-Created :
    (today : IsoDate) (now id : ℕ) (key : SlotKey) (n : ℕ) (aggregated : Result ReportData)
    (store after : ReportStore) (r : Report)
    → create_report_for_period today now id key n aggregated store ≡ ok (r, after)
    → Created store after now id key n
unfolding create_report_for_period assert_no_existing_report assert_resubmission_allowed
create_report_for_period-Created today now id key n aggregated store after r h =
    let prs = find_periodic_reports key.organisation_id key.registration_id store in
    let (info, a, b) =
      >>=-eq-ok (get_validated_period_info today key.cadence key.year key.period) _ (r, after) h in
    let (c, d, e) = >>=-eq-ok (assert_no_existing_report prs key n) _ (r, after) b in
    let (f, g, i) = >>=-eq-ok (assert_resubmission_allowed prs key n) _ (r, after) e in
    let (figures, j, k) = >>=-eq-ok aggregated _ (r, after) i in
    let params : CreateReportParams = record {
      slot = key;
      submission_number = n;
      start_date = info.start_date;
      end_date = info.end_date;
      due_date = info.due_date;
      source_summary_log_id = figures.source_summary_log_id;
      figures = figures.figures;
    } in
    let (schema, l) = create_report-eq-ok now id params store after r k in
    record {
      params = params;
      slot_is = refl;
      number_is = refl;
      positive = ground (arith, schema);
      after_is = l;
      absent = no_existing (find_submission_by_number prs key.year key.cadence key.period n) c d;
      permitted = first_number n (
          resubmission_allowed (leb n 1)
            (permits_resubmission
              (find_submission_by_number prs key.year key.cadence key.period (n - 1)))
            f g);
    }

-- A number that is permitted to be submitted again is that of a closed report.
ClosedAt : SlotKey → ℕ → ReportStore → Report → Type 0
ClosedAt key n store r = Member r store × (r.slot ≡ key) × (r.submission_number ≡ n) × IsClosed r

permitted_found :
    (key : SlotKey) (n : ℕ) (store : ReportStore) (found : Option ReportSummary)
    → find_submission_by_number
        (find_periodic_reports key.organisation_id key.registration_id store)
        key.year
        key.cadence
        key.period
        n
      ≡ found
    → permits_resubmission found ≡ true
    → (r : Report) × ClosedAt key n store r
unfolding ClosedAt to_submission
permitted_found key n store none q h = cc
permitted_found key n store (some s) q h =
    let (r, (m, same, k), e) = find_submission_by_number-some key n store s q in
    (
      r,
      (
        m,
        same_slot-eq r.slot key same,
        k,
        ground (arith, ap (λ t. permits_resubmission (some t)) e, h),
      ),
    )

module _ (store : ReportStore) (key : SlotKey) (n : ℕ) (w : IsWellFormed store)
    (absent : find_submission_by_number
        (find_periodic_reports key.organisation_id key.registration_id store)
        key.year
        key.cadence
        key.period
        n
      ≡ none) where
  number_is_free : (z : Report) → Member z store → z.slot ≡ key → z.submission_number ≢ n
  number_is_free z m e =
      find_submission_by_number-none key n store z absent m
        (ap (λ k. same_slot k key) e ∙ same_slot_refl key)

  number_comes_last : (z : Report) → 1 ≤ n → Member z store → z.slot ≡ key → z.submission_number < n
  number_comes_last z first m e = elim (dec_lt z.submission_number n) [
    | yes lt ↦ lt
    | no ge ↦ elim (dec_lt n z.submission_number) [
      | yes gt ↦ let (r, k, f, g) = w.no_gap z n m first gt in absurd (number_is_free r k (f ∙ e) g)
      | no le ↦ absurd (number_is_free z m e (omega arith))
    ]
  ]

  -- The reports before a permitted number are closed.
  IsClosed-before :
      (p : Report)
      → ClosedAt key (n - 1) store p
      → 1 ≤ n
      → (z : Report) → Member z store
      → z.slot ≡ key
      → IsClosed z
  unfolding ClosedAt
  IsClosed-before p (k, f, g, closed) first z m e = elim (dec_lt z.submission_number (n - 1)) [
    | yes lt ↦ w.superseded z p m k (e ∙ sym f) (omega (arith, lt, g))
    | no ge ↦
        let last = number_comes_last z first m e in
        let same : z ≡ p =
          Member-unique z p store w.unique_ids m k
            (w.unique_numbers z p m k (e ∙ sym f) (omega (arith, ge, last, g))) in
        subst IsClosed (sym same) closed
  ]

  taken_below :
      (p : Report)
      → ClosedAt key (n - 1) store p
      → (j : ℕ) → 1 ≤ j
      → j < n
      → (x : Report) × Member x store × (x.slot ≡ key) × (x.submission_number ≡ j)
  unfolding ClosedAt
  taken_below p (k, f, g, closed) j first lt = elim (dec_lt j (n - 1)) [
    | yes below ↦
        let (x, l, e, h) = w.no_gap p j k first (omega (arith, below, g)) in (x, l, e ∙ f, h)
    | no at ↦ (p, k, f, omega (arith, at, g, lt))
  ]

Created-IsClosed :
    (store after : ReportStore) (now id : ℕ) (key : SlotKey) (n : ℕ)
    → IsWellFormed store
    → Created store after now id key n
    → ((n ≤ 1) ⊎ ((p : Report) × ClosedAt key (n - 1) store p))
Created-IsClosed store after now id key n w c = elim c.permitted [
  | inl first ↦ inl first
  | inr h ↦ inr (permitted_found key (n - 1) store _ refl h)
]

-- The new report comes last.
pub Created-IsWellFormed :
    (store after : ReportStore) (now id : ℕ) (key : SlotKey) (n : ℕ)
    → IsWellFormed store
    → ((z : Report) → Member z store → z.id ≢ id)
    → Created store after now id key n
    → IsWellFormed after
unfolding prepare_create_report_params
Created-IsWellFormed store after now id key n w fresh c = subst IsWellFormed (sym c.after_is) (
    append-IsWellFormed store (prepare_create_report_params now id c.params) w
      (omega (arith, c.positive, c.number_is)) fresh
      (λ z m e.
        let at : z.slot ≡ key = e ∙ c.slot_is in
        let last = number_comes_last store key n w c.absent z c.positive m at in
        (
          elim (Created-IsClosed store after now id key n w c) [
            | inl first ↦ absurd (omega (arith, first, last, w.positive z m))
            | inr (p, closed) ↦ IsClosed-before store key n w c.absent p closed c.positive z m at
          ],
          omega (arith, last, c.number_is),
        ))
      (λ j h f. elim (Created-IsClosed store after now id key n w c) [
        | inl first ↦ absurd (omega (arith, first, h, f, c.number_is))
        | inr (p, closed) ↦
            let (x, k, e, g) =
              taken_below store key n w c.absent p closed j h (omega (arith, f, c.number_is)) in
            (x, k, e ∙ sym c.slot_is, g)
      ]))
