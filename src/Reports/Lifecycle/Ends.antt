-- ===== src/Reports/Lifecycle/Ends.antt =====
-- The writes that add a report to a well-formed store, and remove one.
use epr_backend.Prelude.{ℕ, ◌≡◌, ◌≢◌, ◌≤◌, ◌<◌, ap, sym, ◌∙◌, arith, ◌⊎◌, inl, inr, Member}
use epr_backend.Reports.Model.{Report}
use epr_backend.Reports.Store.{ReportStore, set_report, remove_report}
use epr_backend.Reports.Store.Found.{
  Member-unique, Member-set_report_other, Member-of_set_report, set_report-UniqueIds,
  Member-of_remove_report, Member-remove_report, remove_report-UniqueIds,
}
use epr_backend.Reports.Lifecycle.Invariant.{IsWellFormed, IsClosed}

-- The last report of a slot can go.
pub remove_report-IsWellFormed :
    (store : ReportStore) (r : Report)
    → IsWellFormed store
    → Member r store
    → ((z : Report) → Member z store → r.slot ≡ z.slot → z.submission_number ≤ r.submission_number)
    → IsWellFormed (remove_report r.id store)
remove_report-IsWellFormed store r w m last =
    let left = λ (x : Report) (n : Member x (remove_report r.id store)).
      Member-of_remove_report r.id x store w.unique_ids n in
    record {
      unique_ids = remove_report-UniqueIds r.id store w.unique_ids;
      positive = λ x n. w.positive x (left x n).0;
      unique_numbers = λ x y n k. w.unique_numbers x y (left x n).0 (left y k).0;
      superseded = λ x y n k. w.superseded x y (left x n).0 (left y k).0;
      no_gap = λ s j n h f.
          let (x, k, e, g) = w.no_gap s j (left s n).0 h f in
          (
            x,
            Member-remove_report r.id x store k (λ same.
                let x_is_r : x ≡ r = Member-unique x r store w.unique_ids k m same in
                let below : s.submission_number ≤ r.submission_number =
                  last s (left s n).0 (ap (λ (t : Report). t.slot) (sym x_is_r) ∙ e) in
                absurd
                  (omega (arith, f, below, g, ap (λ (t : Report). t.submission_number) x_is_r))),
            e,
            g,
          );
    }

-- A report with a new identifier can come after the closed ones of its slot, with the next number.
module _ (store : ReportStore) (q : Report) (w : IsWellFormed store)
    (first : 1 ≤ q.submission_number) (fresh : (z : Report) → Member z store → z.id ≢ q.id)
    (before : (z : Report)
      → Member z store
      → z.slot ≡ q.slot
      → IsClosed z × (z.submission_number < q.submission_number))
    (below : (j : ℕ)
      → 1 ≤ j
      → j < q.submission_number
      → (x : Report) × Member x store × (x.slot ≡ q.slot) × (x.submission_number ≡ j)) where
  abbrev Here : Report → Type 0
  Here x = (x ≡ q) ⊎ Member x store

  Here-of_Member : (x : Report) → Member x (set_report q store) → Here x
  Here-of_Member x n = elim (Member-of_set_report q x store w.unique_ids n) [
    | inl e ↦ inl e
    | inr (k, other) ↦ inr k
  ]

  appended_positive : (x : Report) → Here x → 1 ≤ x.submission_number
  appended_positive x (inl a) = omega (arith, first, ap (λ (t : Report). t.submission_number) a)
  appended_positive x (inr k) = w.positive x k

  appended_unique :
      (x y : Report)
      → Here x
      → Here y
      → x.slot ≡ y.slot
      → x.submission_number ≡ y.submission_number
      → x.id ≡ y.id
  appended_unique x y (inl a) (inl b) e f = ap (λ (t : Report). t.id) (a ∙ sym b)
  appended_unique x y (inl a) (inr k) e f =
      let lt = (before y k (sym e ∙ ap (λ (t : Report). t.slot) a)).1 in
      absurd (omega (arith, f, lt, ap (λ (t : Report). t.submission_number) a))
  appended_unique x y (inr k) (inl b) e f =
      let lt = (before x k (e ∙ ap (λ (t : Report). t.slot) b)).1 in
      absurd (omega (arith, f, lt, ap (λ (t : Report). t.submission_number) b))
  appended_unique x y (inr k) (inr l) e f = w.unique_numbers x y k l e f

  appended_superseded :
      (x y : Report)
      → Here x
      → Here y
      → x.slot ≡ y.slot
      → x.submission_number < y.submission_number
      → IsClosed x
  appended_superseded x y (inl a) (inl b) e f =
      absurd (omega (arith, f, ap (λ (t : Report). t.submission_number) (a ∙ sym b)))
  appended_superseded x y (inl a) (inr k) e f =
      let lt = (before y k (sym e ∙ ap (λ (t : Report). t.slot) a)).1 in
      absurd (omega (arith, f, lt, ap (λ (t : Report). t.submission_number) a))
  appended_superseded x y (inr k) (inl b) e f = (before x k (e ∙ ap (λ (t : Report). t.slot) b)).0
  appended_superseded x y (inr k) (inr l) e f = w.superseded x y k l e f

  appended_below :
      (s : Report) (j : ℕ)
      → Here s
      → 1 ≤ j
      → j < s.submission_number
      → (x : Report) × Member x store × (x.slot ≡ s.slot) × (x.submission_number ≡ j)
  appended_below s j (inl a) h f =
      let (x, k, e, g) = below j h (omega (arith, f, ap (λ (t : Report). t.submission_number) a)) in
      (x, k, e ∙ ap (λ (t : Report). t.slot) (sym a), g)
  appended_below s j (inr k) h f = w.no_gap s j k h f

  pub append-IsWellFormed : IsWellFormed (set_report q store)
  append-IsWellFormed = record {
    unique_ids = set_report-UniqueIds q store w.unique_ids;
    positive = λ x m. appended_positive x (Here-of_Member x m);
    unique_numbers = λ x y m n. appended_unique x y (Here-of_Member x m) (Here-of_Member y n);
    superseded = λ x y m n. appended_superseded x y (Here-of_Member x m) (Here-of_Member y n);
    no_gap = λ s j n h f.
        let (x, k, e, g) = appended_below s j (Here-of_Member s n) h f in
        (x, Member-set_report_other q x store k (fresh x k), e, g);
  }
