-- ===== src/SummaryLogs/Exclusion.antt =====
-- A claim for submission and the one summary log of a registration that may be submitting.
use epr_backend.Prelude.{
  ◌∙◌, ℕ, ◌≡◌, Bool, false, ◌&&◌, ◌==◌, Option, none, some, [], ◌∷◌, any, All, arith, Bool-cases,
  inl, inr,
}
use epr_backend.SummaryLogs.Status.{submitting, validated, same_log_status}
use epr_backend.SummaryLogs.Store.{
  SummaryLogDocument, LogStore, find_log, put_log, submit_found, submitting_document,
  other_submitting, transition_to_submitting_exclusive,
}

-- Two different logs of one organisation and registration that are both submitting.
abbrev pub clash : SummaryLogDocument → SummaryLogDocument → Bool
clash a b = same_log_status a.summary_log.status submitting && other_submitting a b

abbrev pub IsExclusive : LogStore → Type 0
IsExclusive [] = Unit
IsExclusive (d ∷ ds) = All (λ e. clash d e ≡ false) ds × IsExclusive ds

clash_sym : (a b : SummaryLogDocument) → clash a b ≡ clash b a
clash_sym a b = ground arith

All-put_log :
    (x d : SummaryLogDocument) (ds : LogStore)
    → All (λ e. clash x e ≡ false) ds
    → clash x d ≡ false
    → All (λ e. clash x e ≡ false) (put_log d ds)
unfolding put_log
All-put_log x d [] h k = (k, tt)
All-put_log x d (e ∷ ds) h k = elim (Bool-cases (e.id == d.id)) [
  | inl same ↦ rw same (k, h.1)
  | inr other ↦ rw other (h.0, All-put_log x d ds h.1 k)
]

IsExclusive-put_log :
    (d : SummaryLogDocument) (ds : LogStore)
    → All (λ e. clash d e ≡ false) ds
    → IsExclusive ds
    → IsExclusive (put_log d ds)
unfolding put_log
IsExclusive-put_log d [] free h = (tt, tt)
IsExclusive-put_log d (e ∷ ds) free h = elim (Bool-cases (e.id == d.id)) [
  | inl same ↦ rw same (free.1, h.1)
  | inr other ↦
      rw other
        (All-put_log e d ds h.0 (clash_sym e d ∙ free.0), IsExclusive-put_log d ds free.1 h.1)
]

free_of_any :
    (d a : SummaryLogDocument) (ds : LogStore)
    → ((e : SummaryLogDocument) → other_submitting a e ≡ false → clash d e ≡ false)
    → any (other_submitting a) ds ≡ false
    → All (λ e. clash d e ≡ false) ds
free_of_any d a [] f h = tt
free_of_any d a (e ∷ ds) f h = (f e (ground (arith, h)), free_of_any d a ds f (ground (arith, h)))

module _ (store : LogStore) (id : ℕ) (exclusive : IsExclusive store) where
  submit_found-IsExclusive :
      (found : Option SummaryLogDocument) → IsExclusive (submit_found store found).1
  submit_found-IsExclusive none = exclusive
  submit_found-IsExclusive (some existing) =
      elim (Bool-cases (same_log_status existing.summary_log.status validated)) [
        | inr other ↦ rw other exclusive
        | inl ready ↦ elim (Bool-cases (any (other_submitting existing) store)) [
          | inl busy ↦ rw (ready, busy) exclusive
          | inr free ↦
              rw (ready, free)
                (IsExclusive-put_log (submitting_document existing) store
                  (free_of_any (submitting_document existing) existing store (λ e k. k) free)
                  exclusive)
        ]
      ]

  -- A claim of a summary log for submission leaves at most one log of each registration
  -- submitting, if that was so before, whether it succeeds, finds another log submitting or
  -- throws.
  pub transition_to_submitting_exclusive-IsExclusive :
      IsExclusive (transition_to_submitting_exclusive store id).1
  unfolding transition_to_submitting_exclusive
  transition_to_submitting_exclusive-IsExclusive = submit_found-IsExclusive (find_log store id)
