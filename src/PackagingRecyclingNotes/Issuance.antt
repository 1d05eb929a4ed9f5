-- ===== src/PackagingRecyclingNotes/Issuance.antt =====
-- Code: src/packaging-recycling-notes/application/update-status.js, the document write with its
-- issuance retry.
use epr_backend.Prelude.{
  zero, suc, ℕ, ◌+◌, Bool, true, false, Option, none, some, List, [], ◌∷◌, Result, ok, err, ◌>>=◌,
  bad_implementation, prn_number_conflict, prn_numbers_exhausted, Error,
}
use epr_backend.Organisations.Model.{AccreditationStatus, Regulator}
use epr_backend.PackagingRecyclingNotes.Model.{PackagingRecyclingNote}
use epr_backend.PackagingRecyclingNotes.Store.{PrnStore, persist_projection}
use epr_backend.PackagingRecyclingNotes.Numbers.{generate_prn_number}

-- What `findAccreditationById` returns, as far as this path reads it.
pub record Accreditation : Type 0 where
  pub status : AccreditationStatus
  pub submitted_to_regulator : Regulator

-- What an update takes from outside: the clock, the accreditations of an organisation by
-- `findAccreditationById` (which throws when there is none), and the numbers of `randomInt`.
pub record Surroundings : Type 0 where
  pub now : ℕ
  pub find_accreditation_by_id : ℕ → ℕ → Result Accreditation
  pub random_int : ℕ → ℕ

-- `COLLISION_SUFFIXES`, after the attempt with no suffix
suffixes_from : ℕ → ℕ → List (Option ℕ)
suffixes_from zero c = []
suffixes_from (suc n) c = some c ∷ suffixes_from n (c + 1)

unfoldable pub suffix_attempts : List (Option ℕ)
unfolding suffixes_from
suffix_attempts = none ∷ suffixes_from 26 b'A'

abbrev pub is_number_conflict : Error → Bool
is_number_conflict prn_number_conflict = true
is_number_conflict _ = false

-- `if (!result) throw`
abbrev pub required : Option PackagingRecyclingNote → Result PackagingRecyclingNote
required none = err bad_implementation
required (some prn) = ok prn

-- One attempt of the loop of `persistProjectionWithIssuanceRetry`: what it does with the reply of
-- the repository, and `continue` on a number conflict.
abbrev pub attempted :
    Result (Option PackagingRecyclingNote) × PrnStore
    → (PrnStore → Result PackagingRecyclingNote × PrnStore)
    → Result PackagingRecyclingNote × PrnStore
attempted (ok result, store) continue = (required result, store)
attempted (err x, store) continue = elim (is_number_conflict x) [
  | true ↦ continue store
  | false ↦ (err x, store)
]

-- The loop of `persistProjectionWithIssuanceRetry`; the attempts draw random numbers in turn.
unfoldable pub persist_projection_with_issuance_retry :
    List (Option ℕ)
    → (ℕ → ℕ)
    → ℕ
    → Regulator
    → Bool
    → ℕ
    → ℕ
    → PackagingRecyclingNote
    → PrnStore
    → Result PackagingRecyclingNote × PrnStore
persist_projection_with_issuance_retry [] random attempt regulator is_export year expected_version
      projection store =
    (err prn_numbers_exhausted, store)
persist_projection_with_issuance_retry (suffix ∷ suffixes) random attempt regulator is_export year
      expected_version projection store =
    let number = generate_prn_number regulator is_export year suffix (random attempt) in
    attempted
      (persist_projection store (record projection { prn_number = some number }) expected_version)
      (persist_projection_with_issuance_retry suffixes random (attempt + 1) regulator is_export year
        expected_version projection)

-- The document write of `performStreamWrite`.
unfoldable pub persist :
    Surroundings
    → Option Accreditation
    → PackagingRecyclingNote
    → PackagingRecyclingNote
    → PrnStore
    → Result PackagingRecyclingNote × PrnStore
persist env (some accreditation) prn projection store =
    persist_projection_with_issuance_retry suffix_attempts env.random_int 0
      accreditation.submitted_to_regulator prn.is_export prn.accreditation.accreditation_year
      prn.version projection store
persist env none prn projection store =
    let (r, store') = persist_projection store projection prn.version in (r >>= required, store')
