-- ===== src/Prelude/Results.antt =====
-- A call that may throw: `ok`, or the error that is thrown. The errors are the classes that the
-- code throws, with the numbers they report.
use mathlib.Core.Logic.{inr, ◌⊎◌, inl}
use Prim.Native.Nat.{ℕ}
use mathlib.Core.Path.{◌≡◌, refl, ap}
use mathlib.Core.Bool.{Bool, true, false}

pub data Error : Type 0 where
  -- `throw new Error(…)` on a value outside an enumeration
  unknown_kind : Error
  -- `LedgerSlotConflictError`: the slot that was taken
  slot_conflict : ℕ → Error
  -- `LedgerSequenceError`: the number given and the one expected
  sequence_error : ℕ → ℕ → Error
  -- `Boom` errors by their HTTP status: 400, 404, 409, 422, 500
  bad_request not_found conflict bad_data bad_implementation : Error
  -- `StatusConflictError`, `UnauthorisedTransitionError`, `AccreditationStatusError`
  status_conflict unauthorised_transition accreditation_status : Error
  -- `PrnNumberConflictError`, and `updatePrnStatus` after the last suffix
  prn_number_conflict prn_numbers_exhausted : Error
  -- `InvalidTransitionError` of a summary log
  invalid_transition : Error
  -- `PermanentError` of the queue consumer
  permanent : Error

pub data Result {ℓ} (A : Type ℓ) : Type ℓ where
  err : Error → Result A
  ok : A → Result A

-- `if (test) throw error`
abbrev pub throw_if : Bool → Error → Result (Unit {0})
throw_if false thrown = ok tt
throw_if true thrown = err thrown

-- What runs after a call that may throw, with the call's value.
infixl 5 ◌>>=◌
abbrev pub ◌>>=◌ {ℓ κ} : {A : Type ℓ} {B : Type κ} → Result A → (A → Result B) → Result B
err thrown >>= next = err thrown
ok value >>= next = next value

-- What runs after a check.
infixl 5 ◌>>◌
abbrev pub ◌>>◌ {ℓ} : {B : Type ℓ} → Result (Unit {0}) → Result B → Result B
check >> next = check >>= λ done. next

-- A result that is an error, or the one value.
abbrev pub OkOrErr {ℓ} : {B : Type ℓ} → Result B → B → Type ℓ
OkOrErr r b = ((e : Error) × (r ≡ err e)) ⊎ (r ≡ ok b)

-- A check before the rest.
pub throw_if-OkOrErr {ℓ} :
    {B : Type ℓ} (test : Bool) (e : Error) (rest : Result B) (b : B)
    → OkOrErr rest b
    → OkOrErr (throw_if test e >> rest) b
throw_if-OkOrErr true e rest b h = inl (e, refl)
throw_if-OkOrErr false e rest b h = h

-- A check that does not throw.
pub throw_if_pass {ℓ} :
    {B : Type ℓ} (test : Bool) (e : Error) (rest : Result B)
    → test ≡ false
    → (throw_if test e >> rest) ≡ rest
throw_if_pass test e rest h = ap (λ b. throw_if b e >> rest) h

-- A result is an error or a value.
pub Result-cases {ℓ} :
    {B : Type ℓ} (r : Result B) → ((e : Error) × (r ≡ err e)) ⊎ ((b : B) × (r ≡ ok b))
Result-cases (err e) = inl (e, refl)
Result-cases (ok b) = inr (b, refl)

pub err-ne-ok {ℓ} : {B : Type ℓ} (e : Error) (b : B) → ¬ (err e ≡ ok b)
err-ne-ok e b h = cc

-- What a call that returns has gone through.
pub >>=-eq-ok {ℓ κ} :
    {A : Type ℓ} {B : Type κ} (r : Result A) (next : A → Result B) (b : B)
    → (r >>= next) ≡ ok b
    → (a : A) × (r ≡ ok a) × (next a ≡ ok b)
>>=-eq-ok (err e) next b h = absurd (err-ne-ok e b h)
>>=-eq-ok (ok a) next b h = (a, refl, h)

pub throw_if-eq-ok {ℓ} :
    {B : Type ℓ} (test : Bool) (e : Error) (rest : Result B) (b : B)
    → (throw_if test e >> rest) ≡ ok b
    → (test ≡ false) × (rest ≡ ok b)
throw_if-eq-ok true e rest b h = absurd (err-ne-ok e b h)
throw_if-eq-ok false e rest b h = (refl, h)

pub ok-injective {ℓ} : {B : Type ℓ} (a b : B) → ok a ≡ ok b → a ≡ b
ok-injective a b h = cc
