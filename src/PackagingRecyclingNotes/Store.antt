-- ===== src/PackagingRecyclingNotes/Store.antt =====
-- Code: src/packaging-recycling-notes/repository/inmemory.plugin.js and watermark-guard.js. The
-- store is a JavaScript `Map` from id to document: a list in insertion order. Logging is left out.
use epr_backend.Prelude.{
  ℕ, ◌+◌, Bool, true, false, ◌&&◌, not, ◌==◌, ltb, Option, none, some, List, [], ◌∷◌, ◌++◌, any,
  filter, Result, ok, err, ◌>>◌, throw_if, if◌then◌else◌, conflict, bad_implementation,
  prn_number_conflict,
}
use epr_backend.PackagingRecyclingNotes.Model.{
  PrnStatus, Actor, PackagingRecyclingNote, same_status,
}

abbrev pub PrnStore : Type 0
PrnStore = List PackagingRecyclingNote

-- `storage.get(id)`
unfoldable pub find_by_id : PrnStore → ℕ → Option PackagingRecyclingNote
find_by_id [] id = none
find_by_id (prn ∷ prns) id = if prn.id == id then some prn else find_by_id prns id

-- `storage.set(prn.id, prn)`
unfoldable pub put : PackagingRecyclingNote → PrnStore → PrnStore
put prn [] = prn ∷ []
put prn (p ∷ prns) = if p.id == prn.id then prn ∷ prns else p ∷ put prn prns

-- `===` on PRN numbers
abbrev pub same_text : List ℕ → List ℕ → Bool
same_text [] [] = true
same_text (a ∷ as') (b ∷ bs) = a == b && same_text as' bs
same_text _ _ = false

abbrev pub has_prn_number : List ℕ → PackagingRecyclingNote → Bool
has_prn_number number prn = elim prn.prn_number [ none ↦ false | some n ↦ same_text n number ]

unfoldable pub find_by_prn_number : PrnStore → List ℕ → Option PackagingRecyclingNote
find_by_prn_number [] number = none
find_by_prn_number (prn ∷ prns) number =
    if has_prn_number number prn then some prn else find_by_prn_number prns number

unfoldable pub find_by_accreditation : PrnStore → ℕ → ℕ → ℕ → List PackagingRecyclingNote
find_by_accreditation store organisation_id registration_id accreditation_id =
    filter
      (λ (prn : PackagingRecyclingNote).
        prn.organisation.id == organisation_id
        && (prn.registration_id == registration_id
            && (prn.accreditation.id == accreditation_id
                && not (same_status prn.status.current_status PrnStatus.deleted))))
      store

unfoldable pub is_watermark_regression : Option ℕ → Option ℕ → Bool
is_watermark_regression none incoming = false
is_watermark_regression (some stored) none = true
is_watermark_regression (some stored) (some incoming) = ltb incoming stored

unfoldable pub enforce_monotonic_watermark : Option ℕ → Option ℕ → Result (Unit {0})
unfolding is_watermark_regression
enforce_monotonic_watermark stored incoming =
    throw_if (is_watermark_regression stored incoming) bad_implementation

-- The loop that refuses a PRN number which another document carries.
abbrev pub number_taken : PrnStore → ℕ → Option (List ℕ) → Bool
number_taken store id none = false
number_taken store id (some number) =
    any (λ (other : PackagingRecyclingNote). not (other.id == id) && has_prn_number number other)
      store

-- The checks of `performPersistProjection` against the stored document, and the document written.
abbrev pub persist_over :
    PrnStore → PackagingRecyclingNote → ℕ → PackagingRecyclingNote → Result PackagingRecyclingNote
persist_over store existing expected_version projection = do
  throw_if (not (existing.version == expected_version)) conflict
  enforce_monotonic_watermark existing.last_applied_event_number
      projection.last_applied_event_number
  throw_if (number_taken store projection.id projection.prn_number) prn_number_conflict
  ok (record projection { version = expected_version + 1 })

-- A call returns `none` for a missing document, and leaves the store alone when it throws.
abbrev pub saved :
    PrnStore → Result PackagingRecyclingNote → Result (Option PackagingRecyclingNote) × PrnStore
saved store (err x) = (err x, store)
saved store (ok prn) = (ok (some prn), put prn store)

-- What `performPersistProjection` does with the document it found.
abbrev pub persist_found :
    PrnStore
    → PackagingRecyclingNote
    → ℕ
    → Option PackagingRecyclingNote
    → Result (Option PackagingRecyclingNote) × PrnStore
persist_found store projection expected_version none = (ok none, store)
persist_found store projection expected_version (some existing) =
    saved store (persist_over store existing expected_version projection)

unfoldable pub persist_projection :
    PrnStore → PackagingRecyclingNote → ℕ → Result (Option PackagingRecyclingNote) × PrnStore
persist_projection store projection expected_version =
    persist_found store projection expected_version (find_by_id store projection.id)

-- The parameters that the one caller gives; the optional `prnNumber` and `operation` are left out.
pub record UpdateStatusParams : Type 0 where
  pub id : ℕ
  pub version : ℕ
  pub status : PrnStatus
  pub updated_by : Actor
  pub updated_at : ℕ
  pub last_applied_event_number : Option ℕ

-- `if (lastAppliedEventNumber !== undefined)`
abbrev watermark_or : Option ℕ → Option ℕ → Option ℕ
watermark_or stored none = stored
watermark_or stored (some n) = some n

-- `performUpdateStatus` as its one caller uses it, with no PRN number and no operation slot.
abbrev pub update_over : PackagingRecyclingNote → UpdateStatusParams → Result PackagingRecyclingNote
update_over prn p = do
  throw_if (not (prn.version == p.version)) conflict
  enforce_monotonic_watermark prn.last_applied_event_number p.last_applied_event_number
  ok (record prn {
    version = prn.version + 1;
    updated_by = some p.updated_by;
    updated_at = p.updated_at;
    status = record prn.status {
      current_status = p.status;
      current_status_at = p.updated_at;
      history =
          prn.status.history
          ++ record { status = p.status; at = p.updated_at; by = p.updated_by } ∷ [];
    };
    last_applied_event_number =
        watermark_or prn.last_applied_event_number p.last_applied_event_number;
  })

unfoldable pub update_status :
    PrnStore → UpdateStatusParams → Result (Option PackagingRecyclingNote) × PrnStore
update_status store p = elim (find_by_id store p.id) [
  | none ↦ (ok none, store)
  | some prn ↦ saved store (update_over prn p)
]
