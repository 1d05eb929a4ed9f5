-- ===== src/PackagingRecyclingNotes/Numbers.antt =====
-- Code: src/packaging-recycling-notes/domain/prn-number-generator.js. A text is the list of its
-- characters' codes. `randomInt` of node:crypto is a parameter: the number that it gave.
use epr_backend.Prelude.{
  ◌<◌, ◌≡◌, refl, arith, Bool-cases, inl, inr, ℕ, zero, suc, ◌+◌, ◌-◌, ◌/◌, ◌%◌, Bool, ltb, Option,
  none, some, List, [], ◌∷◌, ◌++◌, length, if◌then◌else◌,
}
use epr_backend.Organisations.Model.{Regulator, ea, nrw, sepa, niea}

-- `AGENCY_CODE`
unfoldable pub agency_code : Regulator → ℕ
agency_code ea = b'E'
agency_code niea = b'N'
agency_code sepa = b'S'
agency_code nrw = b'W'

-- `String(n)`: the decimal digits, the most significant first. Each step divides the number by ten, so a
-- fuel above the number is enough.
unfoldable pub digits_from : ℕ → ℕ → List ℕ → List ℕ
digits_from zero n acc = acc
digits_from (suc fuel) n acc =
    let rest = digits_from fuel (n / 10) ((48 + n % 10) ∷ acc) in
    if ltb n 10 then (48 + n) ∷ acc else rest

-- Any two such fuels give the same digits.
digits_from_enough :
    (f g n : ℕ) (acc : List ℕ) → n < f → n < g → digits_from f n acc ≡ digits_from g n acc
unfolding digits_from
digits_from_enough zero g n acc h k = absurd (omega arith)
digits_from_enough (suc f) zero n acc h k = absurd (omega arith)
digits_from_enough (suc f) (suc g) n acc h k = elim (Bool-cases (ltb n 10)) [
  | inl last ↦ rw last refl
  | inr more ↦ rw more (
      digits_from_enough f g (n / 10) ((48 + n % 10) ∷ acc) (ground (arith, more))
        (ground (arith, more)))
]

unfoldable pub decimal_text : ℕ → List ℕ
unfolding digits_from
decimal_text n = digits_from (n + 1) n []

-- `text.slice(-2)`
abbrev pub last_two : List ℕ → List ℕ
last_two [] = []
last_two (a ∷ []) = a ∷ []
last_two (a ∷ b ∷ []) = a ∷ b ∷ []
last_two (a ∷ b ∷ c ∷ r) = last_two (b ∷ c ∷ r)

abbrev replicate : ℕ → ℕ → List ℕ
replicate zero a = []
replicate (suc n) a = a ∷ replicate n a

-- `text.padStart(width, '0')`
abbrev pub pad_start : ℕ → List ℕ → List ℕ
pad_start width text = replicate (width - length text) b'0' ++ text

abbrev pub random_suffix_range : ℕ
random_suffix_range = 100000

-- `suffix ? base + suffix : base`
abbrev with_suffix : List ℕ → Option ℕ → List ℕ
with_suffix base none = base
with_suffix base (some c) = base ++ c ∷ []

unfoldable pub generate_prn_number : Regulator → Bool → ℕ → Option ℕ → ℕ → List ℕ
unfolding agency_code decimal_text
generate_prn_number regulator is_export accreditation_year suffix random_suffix =
    with_suffix
      (agency_code regulator
        ∷ (if is_export then b'X' else b'R')
        ∷ (last_two (decimal_text accreditation_year) ++ pad_start 5 (decimal_text random_suffix)))
      suffix
