-- ===== src/Prelude/Lists.antt =====
-- Lists under JavaScript's array operations: `length`, `filter`, `some`, `at(-1)`.
use Prim.Native.Nat.{ℕ, suc, ◌+◌, ◌<◌, ◌≤◌}
use mathlib.Core.Path.{◌≡◌, refl}
use mathlib.Core.Logic.{inl, inr}
use mathlib.Core.Bool.{Bool, false, ◌&&◌, ◌||◌}
use mathlib.Core.List.{List, [], ◌∷◌, ◌++◌}
use mathlib.Core.Option.{Option, none, some}
use native.Mathlib.Omega.{arith}
use epr_backend.Prelude.Tests.{leb, ltb, Bool-cases, if◌then◌else◌}

module _ {ℓ} {A : Type ℓ} where
  abbrev pub length : List A → ℕ
  length [] = 0
  length (x ∷ xs) = suc (length xs)

  -- `xs.at(-1)`
  abbrev pub get_last? : List A → Option A
  get_last? [] = none
  get_last? (x ∷ []) = some x
  get_last? (x ∷ y ∷ xs) = get_last? (y ∷ xs)

  -- `xs.filter(p)`
  abbrev pub filter : (A → Bool) → List A → List A
  filter p [] = []
  filter p (x ∷ xs) = let rest = filter p xs in if p x then x ∷ rest else rest

  -- `xs.some(p)`
  abbrev pub any : (A → Bool) → List A → Bool
  any p [] = false
  any p (x ∷ xs) = p x || any p xs

  -- A predicate that holds of every element.
  abbrev pub All {κ} : (A → Type κ) → List A → Type κ
  All P [] = Unit
  All P (x ∷ xs) = P x × All P xs

  pub length-append : (xs ys : List A) → length (xs ++ ys) ≡ length xs + length ys
  length-append [] ys = omega arith
  length-append (x ∷ xs) ys = omega (arith, length-append xs ys)

  pub filter-append :
      (p : A → Bool) (xs ys : List A) → filter p (xs ++ ys) ≡ filter p xs ++ filter p ys
  filter-append p [] ys = refl
  filter-append p (x ∷ xs) ys = ground (arith, filter-append p xs ys)

  -- A filter by a conjunction is a filter of a filter.
  pub filter-and :
      (p q : A → Bool) (xs : List A) → filter (λ x. p x && q x) xs ≡ filter q (filter p xs)
  filter-and p q [] = refl
  filter-and p q (x ∷ xs) = ground (arith, filter-and p q xs)

-- A list that grows by nothing in length is the list.
module _ {ℓ} {A : Type ℓ} where
  pub append-eq_self : (xs ys : List A) → length (xs ++ ys) ≡ length xs → xs ++ ys ≡ xs
  append-eq_self [] [] h = refl
  append-eq_self [] (y ∷ ys) h = absurd (omega arith)
  append-eq_self (x ∷ xs) ys h = λ i. x ∷ append-eq_self xs ys (omega arith) i

-- `xs.sort((a, b) => key(a) - key(b))`: the stable sort by a number.
module _ {ℓ} {A : Type ℓ} (key : A → ℕ) where
  unfoldable pub insert_by : A → List A → List A
  insert_by x [] = x ∷ []
  insert_by x (y ∷ ys) = if leb (key x) (key y) then x ∷ y ∷ ys else y ∷ insert_by x ys

  unfoldable pub sort_by : List A → List A
  unfolding insert_by
  sort_by [] = []
  sort_by (x ∷ xs) = insert_by x (sort_by xs)

  -- Every key of the list is above `n`, and they ascend strictly.
  abbrev pub Ascends : ℕ → List A → Type 0
  Ascends n [] = Unit
  Ascends n (x ∷ xs) = (n < key x) × Ascends (key x) xs

  insert_by_first : (x : A) (xs : List A) → Ascends (key x) xs → insert_by x xs ≡ x ∷ xs
  unfolding insert_by
  insert_by_first x [] h = refl
  insert_by_first x (y ∷ ys) h = ground arith

  pub sort_by-eq_of_Ascends : (n : ℕ) (xs : List A) → Ascends n xs → sort_by xs ≡ xs
  unfolding sort_by
  sort_by-eq_of_Ascends n [] h = refl
  sort_by-eq_of_Ascends n (x ∷ xs) h =
      rw (sort_by-eq_of_Ascends (key x) xs h.1) (insert_by_first x xs h.1)

-- Ascending lists under `filter`.
module _ {ℓ} {A : Type ℓ} (key : A → ℕ) where
  Ascends-weaken : (m n : ℕ) (xs : List A) → m ≤ n → Ascends key n xs → Ascends key m xs
  Ascends-weaken m n [] le h = tt
  Ascends-weaken m n (x ∷ xs) le h = (omega arith, h.1)

  pub Ascends-filter :
      (p : A → Bool) (n : ℕ) (xs : List A) → Ascends key n xs → Ascends key n (filter p xs)
  Ascends-filter p n [] h = tt
  Ascends-filter p n (x ∷ xs) h = elim (Bool-cases (p x)) [
    | inl kept ↦ rw kept (h.0, Ascends-filter p (key x) xs h.1)
    | inr dropped ↦
        rw dropped
          (Ascends-weaken n (key x) (filter p xs) (omega arith) (Ascends-filter p (key x) xs h.1))
  ]

  -- What is kept above a bound ascends from that bound.
  pub Ascends-filter_above :
      (p : A → Bool) (w n : ℕ) (xs : List A)
      → Ascends key n xs
      → Ascends key w (filter (λ x. p x && ltb w (key x)) xs)
  Ascends-filter_above p w n [] h = tt
  Ascends-filter_above p w n (x ∷ xs) h = elim (Bool-cases (p x && ltb w (key x))) [
    | inl kept ↦ rw kept (ground arith, Ascends-filter (λ y. p y && ltb w (key y)) (key x) xs h.1)
    | inr dropped ↦ rw dropped (Ascends-filter_above p w (key x) xs h.1)
  ]

  -- The key of the last element, or `n` if there is none.
  abbrev pub last_key : ℕ → List A → ℕ
  last_key n [] = n
  last_key n (x ∷ xs) = last_key (key x) xs

  pub last_key-ge : (n : ℕ) (xs : List A) → Ascends key n xs → n ≤ last_key n xs
  last_key-ge n [] h = omega arith
  last_key-ge n (x ∷ xs) h = omega (arith, last_key-ge (key x) xs h.1)

  -- Nothing in an ascending list lies above its last key.
  pub filter-above_last :
      (n : ℕ) (xs : List A) → Ascends key n xs → filter (λ x. ltb (last_key n xs) (key x)) xs ≡ []
  filter-above_last n [] h = refl
  filter-above_last n (x ∷ xs) h =
      ground (arith, last_key-ge (key x) xs h.1, filter-above_last (key x) xs h.1)

  -- To raise a lower bound is to filter once more.
  pub filter-raise :
      (p : A → Bool) (w v : ℕ) (xs : List A)
      → w ≤ v
      → filter (λ x. p x && ltb v (key x)) xs
        ≡ filter (λ x. ltb v (key x)) (filter (λ x. p x && ltb w (key x)) xs)
  filter-raise p w v [] h = refl
  filter-raise p w v (x ∷ xs) h = ground (arith, filter-raise p w v xs h)
