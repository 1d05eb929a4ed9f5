-- ===== src/Reports/Lifecycle/Writes.antt =====
-- The writes that keep the store well formed.
use epr_backend.Prelude.{
  ◌≡◌, ◌≢◌, ◌<◌, ◌==◌, refl, ap, sym, subst, ◌∙◌, arith, Bool-cases, ◌⊎◌, inl, inr, map, [], ◌∷◌,
  Member, Member-of_map, Member-map,
}
use epr_backend.Reports.Model.{Report}
use epr_backend.Reports.Store.{ReportStore, set_report}
use epr_backend.Reports.Store.Found.{
  UniqueIds, Member-unique, Member-set_report, Member-set_report_other, Member-of_set_report,
  set_report-UniqueIds,
}
use epr_backend.Reports.Lifecycle.Invariant.{IsWellFormed, IsClosed}

-- Two reports of one identifier, slot and number.
pub record IsVersionOf (q r : Report) : Type 0 where
  pub same_id : q.id ≡ r.id
  pub same_slot : q.slot ≡ r.slot
  pub same_number : q.submission_number ≡ r.submission_number

refl-IsVersionOf : (r : Report) → IsVersionOf r r
refl-IsVersionOf r = record { same_id = refl; same_slot = refl; same_number = refl }

-- A store whose members are versions of another's.
module _ (store after : ReportStore) (w : IsWellFormed store) (unique : UniqueIds after)
    (origin : (x : Report) → Member x after → (y : Report) × Member y store × IsVersionOf x y)
    (image : (y : Report) → Member y store → (x : Report) × Member x after × IsVersionOf x y)
    (closed : (x y z : Report)
      → Member x after
      → Member y store
      → IsVersionOf x y
      → Member z store
      → y.slot ≡ z.slot
      → y.submission_number < z.submission_number
      → IsClosed x) where
  pub versions-IsWellFormed : IsWellFormed after
  versions-IsWellFormed = record {
    unique_ids = unique;
    positive = λ r m. let (a, k, v) = origin r m in omega (arith, w.positive a k, v.same_number);
    unique_numbers = λ r s m n e f.
        let (a, k, v) = origin r m in
        let (b, l, u) = origin s n in
        v.same_id
        ∙ w.unique_numbers a b k l (sym v.same_slot ∙ e ∙ u.same_slot)
            (sym v.same_number ∙ f ∙ u.same_number)
        ∙ sym u.same_id;
    superseded = λ r s m n e f.
        let (a, k, v) = origin r m in
        let (b, l, u) = origin s n in
        closed r a b m k v l (sym v.same_slot ∙ e ∙ u.same_slot)
          (omega (arith, f, v.same_number, u.same_number));
    no_gap = λ s m n h f.
        let (b, l, u) = origin s n in
        let (r, k, e, g) = w.no_gap b m l h (omega (arith, f, u.same_number)) in
        let (x, i, v) = image r k in (x, i, v.same_slot ∙ e ∙ sym u.same_slot, v.same_number ∙ g);
  }

-- A write of a version of a report that is in the store.
module _ (store : ReportStore) (q r : Report) (w : IsWellFormed store) (m : Member r store)
    (v : IsVersionOf q r)
    (closed : (z : Report)
      → Member z store
      → r.slot ≡ z.slot
      → r.submission_number < z.submission_number
      → IsClosed q) where
  written :
      (x : Report) → Member x (set_report q store) → (x ≡ q) ⊎ (Member x store × (x.id ≢ q.id))
  written x n = Member-of_set_report q x store w.unique_ids n

  written_origin :
      (x : Report) → Member x (set_report q store) → (y : Report) × Member y store × IsVersionOf x y
  written_origin x n = elim (written x n) [
    | inl e ↦ (r, m, subst (λ t. IsVersionOf t r) (sym e) v)
    | inr (k, other) ↦ (x, k, refl-IsVersionOf x)
  ]

  pub written_image :
      (y : Report) → Member y store → (x : Report) × Member x (set_report q store) × IsVersionOf x y
  written_image y n = elim (Bool-cases (y.id == q.id)) [
    | inl same ↦
        let e : r ≡ y =
          Member-unique r y store w.unique_ids m n (sym v.same_id ∙ ground (arith, same)) in
        (q, Member-set_report q store, subst (IsVersionOf q) e v)
    | inr other ↦
        (y, Member-set_report_other q y store n (ground (arith, other)), refl-IsVersionOf y)
  ]

  written-IsClosed :
      (x y z : Report)
      → Member x (set_report q store)
      → Member y store
      → IsVersionOf x y
      → Member z store
      → y.slot ≡ z.slot
      → y.submission_number < z.submission_number
      → IsClosed x
  written-IsClosed x y z n k u l e f = elim (written x n) [
    | inl x_is_q ↦
        let same : y ≡ r =
          Member-unique y r store w.unique_ids k m
            (sym u.same_id ∙ ap (λ (t : Report). t.id) x_is_q ∙ v.same_id) in
        subst IsClosed (sym x_is_q) (
          closed z l (ap (λ (t : Report). t.slot) (sym same) ∙ e)
            (subst (λ (t : Report). t.submission_number < z.submission_number) same f))
    | inr (old, other) ↦
        let same : y ≡ x = Member-unique y x store w.unique_ids k old (sym u.same_id) in
        subst IsClosed same (w.superseded y z k l e f)
  ]

  pub set_report-IsWellFormed : IsWellFormed (set_report q store)
  set_report-IsWellFormed =
      versions-IsWellFormed store (set_report q store) w (set_report-UniqueIds q store w.unique_ids)
        written_origin written_image written-IsClosed

-- A change of every report that keeps what the invariant speaks of.
module _ (f : Report → Report) (v : (r : Report) → IsVersionOf (f r) r)
    (closed : (r : Report) → IsClosed r → IsClosed (f r)) where
  map-UniqueIds : (store : ReportStore) → UniqueIds store → UniqueIds (map f store)
  map-UniqueIds [] u = tt
  map-UniqueIds (r ∷ rs) u = (
    (λ s m e.
        let (t, n, g) = Member-of_map f s rs m in
        u.0 t n (sym (v t).same_id ∙ ap (λ (x : Report). x.id) (sym g) ∙ e ∙ (v r).same_id)),
    map-UniqueIds rs u.1,
  )

  pub map-IsWellFormed : (store : ReportStore) → IsWellFormed store → IsWellFormed (map f store)
  map-IsWellFormed store w =
      versions-IsWellFormed store (map f store) w (map-UniqueIds store w.unique_ids)
        (λ x m.
          let (y, n, e) = Member-of_map f x store m in
          (y, n, subst (λ t. IsVersionOf t y) (sym e) (v y)))
        (λ y m. (f y, Member-map f y store m, v y))
        (λ x y z m n u l e g.
          let (t, k, h) = Member-of_map f x store m in
          let same : y ≡ t =
            Member-unique y t store w.unique_ids n k
              (sym u.same_id ∙ ap (λ (p : Report). p.id) h ∙ (v t).same_id) in
          subst IsClosed (ap f same ∙ sym h) (closed y (w.superseded y z n l e g)))
