-- ===== src/Prelude/Arrays.antt =====
-- `Array.from({ length }, (_, i) => f(i))`, and what a filter keeps of such a list.
use Prim.Native.Nat.{ℕ, zero, suc, ◌+◌, ◌<◌, ◌≤◌}
use mathlib.Core.Path.{◌≡◌, refl, ap}
use mathlib.Core.Logic.{inl, inr}
use mathlib.Core.Bool.{Bool}
use mathlib.Core.List.{List, [], ◌∷◌}
use native.Mathlib.Omega.{arith}
use epr_backend.Prelude.Tests.{Bool-cases, ◌==◌}
use epr_backend.Prelude.Lists.{filter, All}

module _ {ℓ} {A : Type ℓ} (f : ℕ → A) where
  -- The entries from place `i` on.
  abbrev pub entries : ℕ → ℕ → List A
  entries zero i = []
  entries (suc n) i = f i ∷ entries n (suc i)

  abbrev pub array_from : ℕ → List A
  array_from n = entries n 0

  pub All-entries {κ} :
      (P : A → Type κ) (n i : ℕ) → ((j : ℕ) → j < i + n → P (f j)) → All P (entries n i)
  All-entries P zero i h = tt
  All-entries P (suc n) i h =
      (h i (omega arith), All-entries P n (suc i) (λ j l. h j (omega arith)))

  -- Two tests that agree on the entries keep the same.
  pub filter_eq-entries :
      (p q : A → Bool) (n i : ℕ)
      → ((j : ℕ) → j < i + n → p (f j) ≡ q (f j))
      → filter p (entries n i) ≡ filter q (entries n i)
  filter_eq-entries p q zero i h = refl
  filter_eq-entries p q (suc n) i h =
      rw (h i (omega arith), filter_eq-entries p q n (suc i) (λ j l. h j (omega arith))) refl

  -- A test that no entry passes.
  filter-entries_none :
      (p : A → Bool) (k n i : ℕ)
      → k < i
      → ((j : ℕ) → j < i + n → p (f j) ≡ (j == k))
      → filter p (entries n i) ≡ []
  filter-entries_none p k zero i l h = refl
  filter-entries_none p k (suc n) i l h =
      ground
        (arith, h i, filter-entries_none p k n (suc i) (omega arith) (λ j m. h j (omega arith)))

  -- A test that one entry passes.
  pub filter-entries_one :
      (p : A → Bool) (k n i : ℕ)
      → i ≤ k
      → k < i + n
      → ((j : ℕ) → j < i + n → p (f j) ≡ (j == k))
      → filter p (entries n i) ≡ f k ∷ []
  filter-entries_one p k zero i l m h = absurd (omega arith)
  filter-entries_one p k (suc n) i l m h = elim (Bool-cases (i == k)) [
    | inl found ↦
        let same : i ≡ k = ground arith in
        rw
          (
            h i (omega arith),
            found,
            filter-entries_none p k n (suc i) (omega arith) (λ j b. h j (omega arith)),
          )
          (ap (λ j. f j ∷ []) same)
    | inr other ↦
        rw (h i (omega arith), other)
          (filter-entries_one p k n (suc i) (ground arith) (omega arith) (λ j b. h j (omega arith)))
  ]
