-- ===== src/Prelude/Sorting.antt =====
-- What the sorts by a number give: the same members, in order.
use Prim.Native.Nat.{ℕ, ◌≤◌}
use mathlib.Core.Path.{◌≡◌, refl, ap}
use mathlib.Core.Logic.{inl, inr}
use mathlib.Core.List.{List, [], ◌∷◌}
use mathlib.Core.Option.{Option, none, some}
use native.Mathlib.Omega.{arith}
use epr_backend.Prelude.Tests.{Bool-cases, leb}
use epr_backend.Prelude.Lists.{insert_by, sort_by}
use epr_backend.Prelude.Grouping.{insert_descending, sort_by_descending}
use epr_backend.Prelude.Members.{
  Member, here, there, Member-skip, Member-of_sort_by_descending, Member-sort_by_descending,
}
use mathlib.Core.Option

-- `xs[0]`
abbrev pub head? {ℓ} : {A : Type ℓ} → List A → Option A
head? [] = none
head? (x ∷ xs) = some x

module _ {ℓ} {A : Type ℓ} (key : A → ℕ) where
  -- No key is above a later one.
  abbrev pub IsOrdered : List A → Type ℓ
  IsOrdered [] = Unit
  IsOrdered (x ∷ xs) = ((y : A) → Member y xs → key x ≤ key y) × IsOrdered xs

  Member-of_insert_by : (x y : A) (xs : List A) → Member x (insert_by key y xs) → Member x (y ∷ xs)
  unfolding insert_by
  Member-of_insert_by x y [] m = m
  Member-of_insert_by x y (z ∷ zs) m = elim (Bool-cases (leb (key y) (key z))) [
    | inl before ↦ rw before at m
    | inr after ↦ elim (rw after at m) [
      | here e ↦ there (here e)
      | there n ↦ Member-skip x y z zs (Member-of_insert_by x y zs n)
    ]
  ]

  Member-insert_by : (x y : A) (xs : List A) → Member x (y ∷ xs) → Member x (insert_by key y xs)
  unfolding insert_by
  Member-insert_by x y [] m = m
  Member-insert_by x y (z ∷ zs) m = elim (Bool-cases (leb (key y) (key z))) [
    | inl before ↦ rw before m
    | inr after ↦ rw after (past (Member-insert_by x y zs) m)
  ]
    where
      past :
          {x y z : A} {zs : List A}
          → (Member x (y ∷ zs) → Member x (insert_by key y zs))
          → Member x (y ∷ z ∷ zs)
          → Member x (z ∷ insert_by key y zs)
      past rest (here e) = there (rest (here e))
      past rest (there (here e)) = here e
      past rest (there (there m)) = there (rest (there m))

  pub Member-of_sort_by : (x : A) (xs : List A) → Member x (sort_by key xs) → Member x xs
  unfolding sort_by
  Member-of_sort_by x [] m = m
  Member-of_sort_by x (y ∷ ys) m = elim (Member-of_insert_by x y (sort_by key ys) m) [
    | here e ↦ here e
    | there n ↦ there (Member-of_sort_by x ys n)
  ]

  pub Member-sort_by : (x : A) (xs : List A) → Member x xs → Member x (sort_by key xs)
  unfolding sort_by
  Member-sort_by x [] m = m
  Member-sort_by x (y ∷ ys) (here e) = Member-insert_by x y (sort_by key ys) (here e)
  Member-sort_by x (y ∷ ys) (there m) =
      Member-insert_by x y (sort_by key ys) (there (Member-sort_by x ys m))

  insert_by-IsOrdered : (x : A) (xs : List A) → IsOrdered xs → IsOrdered (insert_by key x xs)
  unfolding insert_by
  insert_by-IsOrdered x [] h = ((λ y m. elim m [ ]), tt)
  insert_by-IsOrdered x (z ∷ zs) h = elim (Bool-cases (leb (key x) (key z))) [
    | inl before ↦ rw before (
      (λ y m. elim m [ here e ↦ ground (arith, ap key e) | there n ↦ ground (arith, h.0 y n) ]),
      h,
    )
    | inr after ↦ rw after (
      (λ y m. elim (Member-of_insert_by y x zs m) [
        | here e ↦ ground (arith, ap key e)
        | there n ↦ h.0 y n
      ]),
      insert_by-IsOrdered x zs h.1,
    )
  ]

  pub sort_by-IsOrdered : (xs : List A) → IsOrdered (sort_by key xs)
  unfolding sort_by
  sort_by-IsOrdered [] = tt
  sort_by-IsOrdered (x ∷ xs) = insert_by-IsOrdered x (sort_by key xs) (sort_by-IsOrdered xs)

  -- The first of a descending sort has the largest key.
  head_insert_descending :
      (x h : A) (xs : List A)
      → head? (insert_descending key x xs) ≡ some h
      → ((g : A) → head? xs ≡ some g → (y : A) → Member y xs → key y ≤ key g)
      → (y : A) → Member y (x ∷ xs)
      → key y ≤ key h
  head_insert_descending x h [] e rest y m =
      let top : x ≡ h = Option.some-injective x h e in
      elim m [ here f ↦ ground (arith, ap key f, ap key top) | there n ↦ elim n [ ] ]
  head_insert_descending x h (z ∷ zs) e rest y m = elim (Bool-cases (leb (key z) (key x))) [
    | inl before ↦
        let top : x ≡ h = Option.some-injective x h (rw before at e) in
        elim m [
          | here f ↦ ground (arith, ap key f, ap key top)
          | there n ↦ ground (arith, rest z refl y n, before, ap key top)
        ]
    | inr after ↦
        let top : z ≡ h = Option.some-injective z h (rw after at e) in
        elim m [
          | here f ↦ ground (arith, ap key f, after, ap key top)
          | there n ↦ ground (arith, rest z refl y n, ap key top)
        ]
  ]

  pub head-sort_by_descending :
      (h : A) (xs : List A)
      → head? (sort_by_descending key xs) ≡ some h
      → (y : A) → Member y xs
      → key y ≤ key h
  head-sort_by_descending h [] e y m = elim m [ ]
  head-sort_by_descending h (x ∷ xs) e y m =
      head_insert_descending x h (sort_by_descending key xs) e
        (λ g f z n. head-sort_by_descending g xs f z (Member-of_sort_by_descending key z xs n)) y
        (elim m [ here e ↦ here e | there n ↦ there (Member-sort_by_descending key y xs n) ])
