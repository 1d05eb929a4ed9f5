-- ===== src/Prelude/Grouping.antt =====
-- `Object.groupBy` under a number, and a stable sort that puts large numbers first. The entries of
-- an object whose keys are numbers come in ascending order.
use mathlib.Core.Path.{◌∙◌, ◌≡◌, refl}
use Prim.Native.Nat.{ℕ, suc, ◌<◌, ◌≤◌}
use mathlib.Core.Logic.{inl, inr}
use mathlib.Core.List.{List, [], ◌∷◌}
use mathlib.Core.Option.{Option, none, some}
use native.Mathlib.Omega.{arith}
use epr_backend.Prelude.Tests.{◌==◌, ltb, leb, if◌then◌else◌, Bool-cases}
use epr_backend.Prelude.Lists.{filter}
use mathlib.Core.Option

-- `object[key]`, by the key's number
abbrev pub lookup {ℓ} : {V : Type ℓ} → ℕ → List (ℕ × V) → Option V
lookup k [] = none
lookup k ((j, v) ∷ entries) = if j == k then some v else lookup k entries

module _ {ℓ} {A : Type ℓ} where
  -- An entry joins the front of its group.
  join_group : ℕ → A → List (ℕ × List A) → List (ℕ × List A)
  join_group k x [] = (k, x ∷ []) ∷ []
  join_group k x ((j, xs) ∷ groups) =
      if j == k
      then (j, x ∷ xs) ∷ groups
      else if ltb k j
      then (k, x ∷ []) ∷ (j, xs) ∷ groups
      else (j, xs) ∷ join_group k x groups

  -- `Object.entries(Object.groupBy(xs, key))`
  unfoldable pub group_by : (A → ℕ) → List A → List (ℕ × List A)
  unfolding join_group
  group_by key [] = []
  group_by key (x ∷ xs) = join_group (key x) x (group_by key xs)

  -- The group of a key: the entries that have it, in their order.
  abbrev pub group_of : List A → Option (List A)
  group_of [] = none
  group_of (x ∷ xs) = some (x ∷ xs)

  -- The keys of the groups ascend.
  abbrev pub Grouped : ℕ → List (ℕ × List A) → Type 0
  Grouped n [] = Unit
  Grouped n ((j, xs) ∷ groups) = (n ≤ j) × Grouped (suc j) groups

  abbrev or_empty : Option (List A) → List A
  or_empty none = []
  or_empty (some xs) = xs

  lookup_below :
      (k n : ℕ) (groups : List (ℕ × List A)) → k < n → Grouped n groups → lookup k groups ≡ none
  lookup_below k n [] h g = refl
  lookup_below k n ((j, xs) ∷ groups) h g =
      ground (arith, lookup_below k (suc j) groups (omega arith) g.1)

  lookup-join_group :
      (k j n : ℕ) (x : A) (groups : List (ℕ × List A))
      → Grouped n groups
      → lookup k (join_group j x groups)
        ≡ (if j == k then some (x ∷ or_empty (lookup k groups)) else lookup k groups)
  unfolding join_group
  lookup-join_group k j n x [] g = ground arith
  lookup-join_group k j n x ((i, xs) ∷ groups) g = ground (
    arith,
    lookup-join_group k j (suc i) x groups g.1,
    λ (h : k < suc i). lookup_below k (suc i) groups h g.1,
  )

  join_group-Grouped :
      (j n : ℕ) (x : A) (groups : List (ℕ × List A))
      → n ≤ j
      → Grouped n groups
      → Grouped n (join_group j x groups)
  unfolding join_group
  join_group-Grouped j n x [] h g = (h, tt)
  join_group-Grouped j n x ((i, xs) ∷ groups) h g = elim (Bool-cases (i == j)) [
    | inl same ↦ rw same g
    | inr other ↦ elim (Bool-cases (ltb j i)) [
      | inl before ↦ rw (other, before) (h, (ground arith, g.1))
      | inr after ↦
          rw (other, after) (g.0, join_group-Grouped j (suc i) x groups (ground arith) g.1)
    ]
  ]

  pub group_by-Grouped : (key : A → ℕ) (xs : List A) → Grouped 0 (group_by key xs)
  unfolding group_by
  group_by-Grouped key [] = tt
  group_by-Grouped key (x ∷ xs) =
      join_group-Grouped (key x) 0 x (group_by key xs) (omega arith) (group_by-Grouped key xs)

  join_found : (x : A) (xs : List A) → some (x ∷ or_empty (group_of xs)) ≡ group_of (x ∷ xs)
  join_found x [] = refl
  join_found x (y ∷ ys) = refl

  pub lookup-group_by :
      (key : A → ℕ) (k : ℕ) (xs : List A)
      → lookup k (group_by key xs) ≡ group_of (filter (λ x. key x == k) xs)
  unfolding group_by
  lookup-group_by key k [] = refl
  lookup-group_by key k (x ∷ xs) = elim (Bool-cases (key x == k)) [
    | inl same ↦
        lookup-join_group k (key x) 0 x (group_by key xs) (group_by-Grouped key xs)
        ∙ rw (same, lookup-group_by key k xs) (join_found x (filter (λ y. key y == k) xs))
    | inr other ↦
        lookup-join_group k (key x) 0 x (group_by key xs) (group_by-Grouped key xs)
        ∙ rw other (lookup-group_by key k xs)
  ]

-- The values of an object, each changed.
abbrev pub map_values {ℓ κ} : {V : Type ℓ} {W : Type κ} → (V → W) → List (ℕ × V) → List (ℕ × W)
map_values f [] = []
map_values f ((k, v) ∷ entries) = (k, f v) ∷ map_values f entries

pub lookup-map_values {ℓ κ} :
    {V : Type ℓ} {W : Type κ} (f : V → W) (k : ℕ) (entries : List (ℕ × V))
    → lookup k (map_values f entries) ≡ Option.map f (lookup k entries)
lookup-map_values f k [] = refl
lookup-map_values f k ((j, v) ∷ entries) = ground (arith, lookup-map_values f k entries)

-- `xs.sort((a, b) => key(b) - key(a))`
module _ {ℓ} {A : Type ℓ} (key : A → ℕ) where
  abbrev pub insert_descending : A → List A → List A
  insert_descending x [] = x ∷ []
  insert_descending x (y ∷ ys) =
      if leb (key y) (key x) then x ∷ y ∷ ys else y ∷ insert_descending x ys

  abbrev pub sort_by_descending : List A → List A
  sort_by_descending [] = []
  sort_by_descending (x ∷ xs) = insert_descending x (sort_by_descending xs)
