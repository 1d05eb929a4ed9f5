-- ===== src/Reports/Store/Found.antt =====
-- The members of the store: what is found in it, and what a write leaves in it.
use epr_backend.Prelude.{
  ℕ, ◌≡◌, ◌≢◌, refl, ap, sym, ◌∙◌, ◌==◌, Bool, true, false, Bool-cases, ◌⊎◌, inl, inr, some, [],
  ◌∷◌, arith, Member, here, there,
}
use epr_backend.Reports.Model.{Report}
use epr_backend.Reports.Store.{ReportStore, get_report, set_report, remove_report, find_report}
use mathlib.Core.Option

-- No identifier stands twice.
abbrev pub UniqueIds : ReportStore → Type 0
UniqueIds [] = Unit
UniqueIds (r ∷ rs) = ((s : Report) → Member s rs → s.id ≢ r.id) × UniqueIds rs

pub get_report-eq-some :
    (id : ℕ) (store : ReportStore) (r : Report)
    → get_report id store ≡ some r
    → Member r store × (r.id ≡ id)
unfolding get_report
get_report-eq-some id [] r h = cc
get_report-eq-some id (s ∷ ss) r h = elim (Bool-cases (s.id == id)) [
  | inl found ↦
      let e : s ≡ r = Option.some-injective s r (rw found at h) in
      (here (sym e), ground (arith, found, e))
  | inr other ↦ let (m, k) = get_report-eq-some id ss r (rw other at h) in (there m, k)
]

pub find_report-eq-some :
    (p : Report → Bool) (store : ReportStore) (r : Report)
    → find_report p store ≡ some r
    → Member r store × (p r ≡ true)
find_report-eq-some p [] r h = cc
find_report-eq-some p (s ∷ ss) r h = elim (Bool-cases (p s)) [
  | inl found ↦
      let e : s ≡ r = Option.some-injective s r (rw found at h) in
      (here (sym e), ap p (sym e) ∙ found)
  | inr other ↦ let (m, k) = find_report-eq-some p ss r (rw other at h) in (there m, k)
]

pub Member-set_report : (r : Report) (store : ReportStore) → Member r (set_report r store)
unfolding set_report
Member-set_report r [] = here refl
Member-set_report r (s ∷ ss) = elim (Bool-cases (s.id == r.id)) [
  | inl same ↦ rw same (here refl)
  | inr other ↦ rw other (there (Member-set_report r ss))
]

pub Member-set_report_other :
    (r x : Report) (store : ReportStore)
    → Member x store
    → x.id ≢ r.id
    → Member x (set_report r store)
unfolding set_report
Member-set_report_other r x [] m h = elim m [ ]
Member-set_report_other r x (s ∷ ss) (here e) h =
    let other : (s.id == r.id) ≡ false = ground (arith, e) in rw other (here e)
Member-set_report_other r x (s ∷ ss) (there m) h = elim (Bool-cases (s.id == r.id)) [
  | inl same ↦ rw same (there m)
  | inr other ↦ rw other (there (Member-set_report_other r x ss m h))
]

-- What stands in the store after a write: the report, or another that stood in it.
pub Member-of_set_report :
    (r x : Report) (store : ReportStore)
    → UniqueIds store
    → Member x (set_report r store)
    → (x ≡ r) ⊎ (Member x store × (x.id ≢ r.id))
unfolding set_report
Member-of_set_report r x [] u m = elim m [ here e ↦ inl e | there n ↦ elim n [ ] ]
Member-of_set_report r x (s ∷ ss) u m = elim (Bool-cases (s.id == r.id)) [
  | inl same ↦ replaced r x s ss same u.0 (rw same at m)
  | inr other ↦ kept r x s ss other (Member-of_set_report r x ss u.1) (rw other at m)
]
  where
    replaced :
        (r x s : Report) (ss : ReportStore)
        → (s.id == r.id) ≡ true
        → ((t : Report) → Member t ss → t.id ≢ s.id)
        → Member x (r ∷ ss)
        → (x ≡ r) ⊎ (Member x (s ∷ ss) × (x.id ≢ r.id))
    replaced r x s ss same u (here e) = inl e
    replaced r x s ss same u (there m) = inr (there m, (λ e. u x m (ground (arith, same, e))))

    kept :
        (r x s : Report) (ss : ReportStore)
        → (s.id == r.id) ≡ false
        → (Member x (set_report r ss) → (x ≡ r) ⊎ (Member x ss × (x.id ≢ r.id)))
        → Member x (s ∷ set_report r ss)
        → (x ≡ r) ⊎ (Member x (s ∷ ss) × (x.id ≢ r.id))
    kept r x s ss other rest (here e) = inr (here e, ground (arith, other, e))
    kept r x s ss other rest (there m) = elim (rest m) [
      | inl e ↦ inl e
      | inr (n, k) ↦ inr (there n, k)
    ]

pub set_report-UniqueIds :
    (r : Report) (store : ReportStore) → UniqueIds store → UniqueIds (set_report r store)
unfolding set_report
set_report-UniqueIds r [] u = ((λ s m. elim m [ ]), tt)
set_report-UniqueIds r (s ∷ ss) u = elim (Bool-cases (s.id == r.id)) [
  | inl same ↦ let e : s.id ≡ r.id = ground arith in rw same ((λ t m k. u.0 t m (k ∙ sym e)), u.1)
  | inr other ↦ rw other (
    (λ t m. elim (Member-of_set_report r t ss u.1 m) [
      | inl e ↦ ground (arith, other, e)
      | inr (n, k) ↦ u.0 t n
    ]),
    set_report-UniqueIds r ss u.1,
  )
]

pub Member-of_remove_report :
    (id : ℕ) (x : Report) (store : ReportStore)
    → UniqueIds store
    → Member x (remove_report id store)
    → Member x store × (x.id ≢ id)
unfolding remove_report
Member-of_remove_report id x [] u m = elim m [ ]
Member-of_remove_report id x (s ∷ ss) u m = elim (Bool-cases (s.id == id)) [
  | inl same ↦
      let n : Member x ss = rw same at m in (there n, (λ e. u.0 x n (ground (arith, same, e))))
  | inr other ↦ kept id x s ss other (Member-of_remove_report id x ss u.1) (rw other at m)
]
  where
    kept :
        (id : ℕ) (x s : Report) (ss : ReportStore)
        → (s.id == id) ≡ false
        → (Member x (remove_report id ss) → Member x ss × (x.id ≢ id))
        → Member x (s ∷ remove_report id ss)
        → Member x (s ∷ ss) × (x.id ≢ id)
    kept id x s ss other rest (here e) = (here e, ground (arith, other, e))
    kept id x s ss other rest (there m) = let (n, k) = rest m in (there n, k)

pub Member-remove_report :
    (id : ℕ) (x : Report) (store : ReportStore)
    → Member x store
    → x.id ≢ id
    → Member x (remove_report id store)
unfolding remove_report
Member-remove_report id x [] m h = elim m [ ]
Member-remove_report id x (s ∷ ss) (here e) h =
    let other : (s.id == id) ≡ false = ground (arith, e) in rw other (here e)
Member-remove_report id x (s ∷ ss) (there m) h = elim (Bool-cases (s.id == id)) [
  | inl same ↦ rw same m
  | inr other ↦ rw other (there (Member-remove_report id x ss m h))
]

pub remove_report-UniqueIds :
    (id : ℕ) (store : ReportStore) → UniqueIds store → UniqueIds (remove_report id store)
unfolding remove_report
remove_report-UniqueIds id [] u = tt
remove_report-UniqueIds id (s ∷ ss) u = elim (Bool-cases (s.id == id)) [
  | inl same ↦ rw same u.1
  | inr other ↦
      rw other (
        (λ t m. u.0 t (Member-of_remove_report id t ss u.1 m).0),
        remove_report-UniqueIds id ss u.1,
      )
]

-- Two members with one identifier are one.
pub Member-unique :
    (x y : Report) (store : ReportStore)
    → UniqueIds store
    → Member x store
    → Member y store
    → x.id ≡ y.id
    → x ≡ y
Member-unique x y [] u m n e = elim m [ ]
Member-unique x y (s ∷ ss) u (here p) (here q) e = p ∙ sym q
Member-unique x y (s ∷ ss) u (here p) (there n) e =
    absurd (u.0 y n (sym e ∙ ap (λ (r : Report). r.id) p))
Member-unique x y (s ∷ ss) u (there m) (here q) e =
    absurd (u.0 x m (e ∙ ap (λ (r : Report). r.id) q))
Member-unique x y (s ∷ ss) u (there m) (there n) e = Member-unique x y ss u.1 m n e
