-- ===== src/PackagingRecyclingNotes/Lifecycle.antt =====
-- The life of a PRN: which transitions pass, how a refusal is reported, and that it is short.
use epr_backend.Prelude.{
  ◌||◌, if◌then◌else◌, Bool, ℕ, suc, ◌+◌, ◌≤◌, ◌≡◌, true, Option, some, ok, err, arith,
  status_conflict, unauthorised_transition,
}
use epr_backend.PackagingRecyclingNotes.Model.{
  PrnStatus, draft, awaiting_authorisation, awaiting_acceptance, awaiting_cancellation, PrnActor,
  reprocessor_exporter, signatory, producer, is_valid_transition, validate_transition,
}

-- How far a status is along the life of a PRN.
abbrev pub stage : PrnStatus → ℕ
stage draft = 0
stage awaiting_authorisation = 1
stage awaiting_acceptance = 2
stage awaiting_cancellation = 3
stage _ = 4

-- A run of permitted transitions, with their number.
pub data Lifecycle (s : PrnStatus) : PrnStatus → ℕ → Type 0 where
  here : Lifecycle s s 0
  next :
      {t u : PrnStatus} {n : ℕ} (a : PrnActor)
      → Lifecycle s t n
      → is_valid_transition t u (some a) ≡ true
      → Lifecycle s u (suc n)

stage_grows :
    (s t : PrnStatus) (a : PrnActor)
    → is_valid_transition s t (some a) ≡ true
    → suc (stage s) ≤ stage t
unfolding is_valid_transition
stage_grows draft t a h = ground arith
stage_grows awaiting_authorisation t a h = ground arith
stage_grows awaiting_acceptance t a h = ground arith
stage_grows awaiting_cancellation t a h = ground arith
stage_grows _ t a h = ground arith

stage_bound : (s : PrnStatus) → stage s ≤ 4
stage_bound draft = omega arith
stage_bound _ = omega arith

stage_counts : {s t : PrnStatus} {n : ℕ} → Lifecycle s t n → n + stage s ≤ stage t
stage_counts here = omega arith
stage_counts (next {t = t} {u = u} a r h) = omega (arith, stage_counts r, stage_grows t u a h)

-- A run of transitions, each of which some actor may make, has at most four of them, and at most
-- as many as the difference of the stages of its last and its first status.
pub lifecycle_bound :
    {s t : PrnStatus} {n : ℕ} → Lifecycle s t n → (n ≤ 4) × (n + stage s ≤ stage t)
lifecycle_bound {s} {t} r = (omega (arith, stage_counts r, stage_bound t), stage_counts r)

-- Some actor may make the transition.
abbrev pub permitted : PrnStatus → PrnStatus → Bool
permitted s t =
    is_valid_transition s t (some reprocessor_exporter)
    || is_valid_transition s t (some signatory)
    || is_valid_transition s t (some producer)

-- Validation passes a transition that the actor may make, reports one that only other actors may
-- make as unauthorised, and one that no actor may make as a conflict.
pub validate_transition_lem :
    (s t : PrnStatus) (a : Option PrnActor)
    → validate_transition s t a ≡ (
        if is_valid_transition s t a
        then ok tt
        else if permitted s t
        then err unauthorised_transition
        else err status_conflict)
unfolding is_valid_transition validate_transition
validate_transition_lem draft t a = ground arith
validate_transition_lem awaiting_authorisation t a = ground arith
validate_transition_lem awaiting_acceptance t a = ground arith
validate_transition_lem awaiting_cancellation t a = ground arith
validate_transition_lem _ t a = ground arith
