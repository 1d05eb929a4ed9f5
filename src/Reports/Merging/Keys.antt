-- ===== src/Reports/Merging/Keys.antt =====
-- What the maps under periods hold: the last value that was set for a key, once.
use epr_backend.Prelude.{
  ◌≡◌, refl, sym, ap, ap₂, ◌∙◌, subst, Bool, true, false, if◌then◌else◌, Option, none, some, [],
  ◌∷◌, map, Bool-cases, inl, inr, arith, Member, here, there,
}
use epr_backend.Reports.Periods.{YearPeriod}
use epr_backend.Reports.Merging.{PeriodMap, at_key, get_period, set_period}
use mathlib.Core.Option

pub at_key-eq : (j k : YearPeriod) → at_key j k ≡ true → j ≡ k
at_key-eq j k h =
    let same_year : j.year ≡ k.year = ground (arith, h) in
    let same_period : j.period ≡ k.period = ground (arith, h) in
    ap₂ (λ y p. record { year = y; period = p }) same_year same_period

pub at_key_refl : (k : YearPeriod) → at_key k k ≡ true
at_key_refl k = ground arith

-- The first of two that is there.
abbrev pub or_else {ℓ} : {A : Type ℓ} → Option A → Option A → Option A
or_else none y = y
or_else (some x) y = some x

pub or_else-none {ℓ} : {A : Type ℓ} (x : Option A) → or_else x none ≡ x
or_else-none none = refl
or_else-none (some x) = refl

pub or_else_assoc {ℓ} :
    {A : Type ℓ} (x y z : Option A) → or_else (or_else x y) z ≡ or_else x (or_else y z)
or_else_assoc none y z = refl
or_else_assoc (some x) y z = refl

-- A value that a test puts before the rest.
abbrev pub only_if {ℓ} : {A : Type ℓ} → Bool → A → Option A
only_if b x = if b then some x else none

pub or_else-only_if {ℓ} :
    {A : Type ℓ} (b : Bool) (x : A) (rest : Option A)
    → (if b then some x else rest) ≡ or_else (only_if b x) rest
or_else-only_if true x rest = refl
or_else-only_if false x rest = refl

module _ {ℓ} {V : Type ℓ} where
  pub get_period-set_period :
      (k j : YearPeriod) (v : V) (entries : PeriodMap V)
      → get_period k (set_period j v entries)
        ≡ or_else (only_if (at_key j k) v) (get_period k entries)
  unfolding get_period set_period
  get_period-set_period k j v [] = or_else-only_if (at_key j k) v none
  get_period-set_period k j v ((i, w) ∷ entries) =
      ground (arith, get_period-set_period k j v entries)

  -- Each key stands once, with a value that suits it.
  module _ (Own : V → YearPeriod → Type 0) where
    unfoldable pub IsMap : PeriodMap V → Type ℓ
    unfolding get_period
    IsMap [] = Unit
    IsMap ((j, v) ∷ entries) = Own v j × (get_period j entries ≡ none) × IsMap entries

    pub set_period-IsMap :
        (k : YearPeriod) (v : V) (entries : PeriodMap V)
        → Own v k
        → IsMap entries
        → IsMap (set_period k v entries)
    unfolding IsMap get_period set_period
    set_period-IsMap k v [] own w = (own, refl, tt)
    set_period-IsMap k v ((j, u) ∷ entries) own w = elim (Bool-cases (at_key j k)) [
      | inl same ↦ rw same (subst (Own v) (sym (at_key-eq j k same)) own, w.1, w.2)
      | inr other ↦ rw other (
        w.0,
        (get_period-set_period j k v entries ∙ ground (arith, other, w.1)),
        set_period-IsMap k v entries own w.2,
      )
    ]

  pub Member-of_get_period :
      (k : YearPeriod) (v : V) (entries : PeriodMap V)
      → get_period k entries ≡ some v
      → Member v (map (λ e. e.1) entries)
  unfolding get_period
  Member-of_get_period k v [] h = cc
  Member-of_get_period k v ((j, u) ∷ entries) h = elim (Bool-cases (at_key j k)) [
    | inl same ↦ here (sym (Option.some-injective u v (rw same at h)))
    | inr other ↦ there (Member-of_get_period k v entries (rw other at h))
  ]

  -- When a value's key can be read off it, the map has it there.
  pub get_period-Member :
      (key : V → YearPeriod) (v : V) (entries : PeriodMap V)
      → IsMap (λ u j. key u ≡ j) entries
      → Member v (map (λ e. e.1) entries)
      → get_period (key v) entries ≡ some v
  unfolding IsMap get_period
  get_period-Member key v [] w m = elim m [ ]
  get_period-Member key v ((j, u) ∷ entries) w (here e) =
      let same : at_key j (key v) ≡ true = ap (at_key j) (ap key e ∙ w.0) ∙ at_key_refl j in
      rw same (ap some (sym e))
  get_period-Member key v ((j, u) ∷ entries) w (there m) =
      let rest = get_period-Member key v entries w.2 m in
      elim (Bool-cases (at_key j (key v))) [
        | inl same ↦
            let absent : get_period (key v) entries ≡ none =
              ap (λ i. get_period i entries) (sym (at_key-eq j (key v) same)) ∙ w.1 in
            let impossible : none ≡ some v = sym absent ∙ rest in cc
        | inr other ↦ rw other rest
      ]
