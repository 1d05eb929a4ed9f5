-- ===== src/PackagingRecyclingNotes/Persisting.antt =====
-- What the document writes leave in the store: inmemory.plugin.js and the writes of update-status.js.
use epr_backend.PackagingRecyclingNotes.Model.{PrnStatusRecord, PackagingRecyclingNote}
use epr_backend.Prelude.{
  sym, subst, List, ◌==◌, not, ◌>>=◌, Bool-cases, Bool, conflict, bad_implementation,
  prn_number_conflict, prn_numbers_exhausted, ap, refl, throw_if-OkOrErr, Error, inl, ==_refl,
  OkOrErr, Option, inr, Result, arith, ℕ, ◌≡◌, none, some, ok, err, [], ◌∷◌, ◌+◌, ◌⊎◌,
}
use epr_backend.PackagingRecyclingNotes.Issuance.{
  suffix_attempts, attempted, Accreditation, is_number_conflict, Surroundings, required, persist,
  persist_projection_with_issuance_retry,
}
use epr_backend.PackagingRecyclingNotes.Numbers.{generate_prn_number}
use epr_backend.Organisations.Model.{Regulator}
use epr_backend.PackagingRecyclingNotes.Store.{
  persist_found, number_taken, is_watermark_regression, enforce_monotonic_watermark, PrnStore,
  find_by_id, put, saved, persist_over, persist_projection,
}

find_by_id-put :
    (note : PackagingRecyclingNote) (store : PrnStore)
    → find_by_id (put note store) note.id ≡ some note
unfolding find_by_id put
find_by_id-put note [] = ground (arith, ==_refl note.id)
find_by_id-put note (x ∷ store) = ground (arith, ==_refl note.id, find_by_id-put note store)

-- The document `id` is `note`: it has the status of a projection, one version on.
pub record IsStored (s : PrnStatusRecord) (id expected : ℕ) (store : PrnStore)
    (note : PackagingRecyclingNote) : Type 0 where
  pub status : note.status ≡ s
  pub version : note.version ≡ expected + 1
  pub found : find_by_id store id ≡ some note

-- A document write throws and leaves the store alone, or stores that status.
abbrev pub Stores :
    PrnStatusRecord → ℕ → ℕ → PrnStore → Result PackagingRecyclingNote × PrnStore → Type 0
Stores s id expected store r =
    ((x : Error) × (r ≡ (err x, store)))
    ⊎ ((note : PackagingRecyclingNote) × (r.0 ≡ ok note) × IsStored s id expected r.1 note)

module _ (projection : PackagingRecyclingNote) (version : ℕ) where
  persist_over-OkOrErr :
      (store : PrnStore) (existing : PackagingRecyclingNote)
      → OkOrErr
          (persist_over store existing version projection)
          (record projection { version = version + 1 })
  unfolding enforce_monotonic_watermark
  persist_over-OkOrErr store existing =
      throw_if-OkOrErr (not (existing.version == version)) conflict _ _ (
        throw_if-OkOrErr
          (is_watermark_regression existing.last_applied_event_number
            projection.last_applied_event_number)
          bad_implementation _ _
          (throw_if-OkOrErr (number_taken store projection.id projection.prn_number)
            prn_number_conflict _ _ (inr refl)))

  -- The call itself: it throws, finds no document, or stores the projection.
  abbrev Persists : PrnStore → Result (Option PackagingRecyclingNote) × PrnStore → Type 0
  Persists store r =
      ((x : Error) × (r ≡ (err x, store)))
      ⊎ (r ≡ (ok none, store))
      ⊎ ((note : PackagingRecyclingNote) × (r.0 ≡ ok (some note))
          × IsStored projection.status projection.id version r.1 note)

  saved-Persists :
      (store : PrnStore) (r : Result PackagingRecyclingNote)
      → OkOrErr r (record projection { version = version + 1 })
      → Persists store (saved store r)
  saved-Persists store r h = elim h [
    | inl (x, p) ↦ rw p (inl (x, refl))
    | inr p ↦ rw p (
        inr (
          inr (
            record projection { version = version + 1 },
            refl,
            record {
              status = refl;
              version = refl;
              found = find_by_id-put (record projection { version = version + 1 }) store;
            },
          )))
  ]

  found-Persists :
      (store : PrnStore) (found : Option PackagingRecyclingNote)
      → Persists store (persist_found store projection version found)
  found-Persists store none = inr (inl refl)
  found-Persists store (some existing) =
      saved-Persists store (persist_over store existing version projection)
        (persist_over-OkOrErr store existing)

  persist_projection-Persists :
      (store : PrnStore) → Persists store (persist_projection store projection version)
  unfolding persist_projection
  persist_projection-Persists store = found-Persists store (find_by_id store projection.id)

  -- `if (!result) throw`
  required-Stores :
      (store : PrnStore) (r : Result (Option PackagingRecyclingNote) × PrnStore)
      → Persists store r
      → Stores projection.status projection.id version store (r.0 >>= required, r.1)
  required-Stores store r h = elim h [
    | inl (x, p) ↦ inl (x, λ i. ((p i).0 >>= required, (p i).1))
    | inr (inl p) ↦ inl (bad_implementation, λ i. ((p i).0 >>= required, (p i).1))
    | inr (inr (note, p, stored)) ↦ inr (note, ap (λ o. o >>= required) p, stored)
  ]

  attempted-Stores :
      (store : PrnStore) (r : Result (Option PackagingRecyclingNote) × PrnStore)
      (continue : PrnStore → Result PackagingRecyclingNote × PrnStore)
      → Persists store r
      → Stores projection.status projection.id version store (continue store)
      → Stores projection.status projection.id version store (attempted r continue)
  attempted-Stores store (r, store') continue h later = elim h [
    | inl (x, p) ↦
        subst (λ q. Stores projection.status projection.id version store (attempted q continue))
          (sym p)
          (elim (Bool-cases (is_number_conflict x)) [
            | inl again ↦ rw (again, attempted) later
            | inr other ↦ rw (other, attempted) (inl (x, refl))
          ])
    | inr (inl p) ↦
        subst (λ q. Stores projection.status projection.id version store (attempted q continue))
          (sym p) (inl (bad_implementation, refl))
    | inr (inr (note, p, stored)) ↦
        subst
          (λ q.
            Stores projection.status projection.id version store (attempted (q, store') continue))
          (sym p) (inr (note, refl, stored))
  ]

-- Whatever PRN number an attempt draws, the retry loop throws or stores the projection.
retry-Stores :
    (suffixes : List (Option ℕ)) (random : ℕ → ℕ) (attempt : ℕ) (regulator : Regulator)
    (is_export : Bool) (year version : ℕ) (projection : PackagingRecyclingNote) (store : PrnStore)
    → Stores projection.status projection.id version store (
        persist_projection_with_issuance_retry suffixes random attempt regulator is_export year
          version projection store)
unfolding persist_projection_with_issuance_retry
retry-Stores [] random attempt regulator is_export year version projection store =
    inl (prn_numbers_exhausted, refl)
retry-Stores (suffix ∷ suffixes) random attempt regulator is_export year version projection store =
    let number = generate_prn_number regulator is_export year suffix (random attempt) in
    attempted-Stores (record projection { prn_number = some number }) version store _ _
      (persist_projection-Persists (record projection { prn_number = some number }) version store)
      (retry-Stores suffixes random (attempt + 1) regulator is_export year version projection store)

-- The document write of an update: it throws and leaves the store alone, or it stores the status
-- of the projection under the next version.
pub persist-Stores :
    (env : Surroundings) (accreditation : Option Accreditation)
    (note projection : PackagingRecyclingNote) (store : PrnStore)
    → Stores projection.status projection.id note.version store
        (persist env accreditation note projection store)
unfolding persist
persist-Stores env none note projection store =
    required-Stores projection note.version store _
      (persist_projection-Persists projection note.version store)
persist-Stores env (some accreditation) note projection store =
    retry-Stores suffix_attempts env.random_int 0 accreditation.submitted_to_regulator
      note.is_export note.accreditation.accreditation_year note.version projection store
