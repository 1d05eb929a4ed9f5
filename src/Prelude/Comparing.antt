-- ===== src/Prelude/Comparing.antt =====
-- `xs.sort(compare)`, stable, for a test that an entry may stand before another.
use mathlib.Core.Path.{refl, subst, ◌≡◌, ap, ◌∙◌}
use mathlib.Core.Logic.{inl, inr}
use mathlib.Core.Bool.{Bool, true, false}
use mathlib.Core.List.{List, [], ◌∷◌}
use epr_backend.Prelude.Tests.{Bool-cases, if◌then◌else◌}
use epr_backend.Prelude.Members.{Member, here, there, Member-skip}

module _ {ℓ} {A : Type ℓ} (before : A → A → Bool) where
  unfoldable insert_with : A → List A → List A
  insert_with x [] = x ∷ []
  insert_with x (y ∷ ys) = if before x y then x ∷ y ∷ ys else y ∷ insert_with x ys

  unfoldable pub sort_with : List A → List A
  unfolding insert_with
  sort_with [] = []
  sort_with (x ∷ xs) = insert_with x (sort_with xs)

  -- Each entry may stand before every later one.
  abbrev pub IsSorted : List A → Type ℓ
  IsSorted [] = Unit
  IsSorted (x ∷ xs) = ((y : A) → Member y xs → before x y ≡ true) × IsSorted xs

  Member-of_insert_with : (x y : A) (xs : List A) → Member x (insert_with y xs) → Member x (y ∷ xs)
  unfolding insert_with
  Member-of_insert_with x y [] m = m
  Member-of_insert_with x y (z ∷ zs) m = elim (Bool-cases (before y z)) [
    | inl first ↦ rw first at m
    | inr later ↦ elim (rw later at m) [
      | here e ↦ there (here e)
      | there n ↦ Member-skip x y z zs (Member-of_insert_with x y zs n)
    ]
  ]

  Member-insert_with : (x y : A) (xs : List A) → Member x (y ∷ xs) → Member x (insert_with y xs)
  unfolding insert_with
  Member-insert_with x y [] m = m
  Member-insert_with x y (z ∷ zs) m = elim (Bool-cases (before y z)) [
    | inl first ↦ rw first m
    | inr later ↦ rw later (past (Member-insert_with x y zs) m)
  ]
    where
      past :
          {x y z : A} {zs : List A}
          → (Member x (y ∷ zs) → Member x (insert_with y zs))
          → Member x (y ∷ z ∷ zs)
          → Member x (z ∷ insert_with y zs)
      past rest (here e) = there (rest (here e))
      past rest (there (here e)) = here e
      past rest (there (there m)) = there (rest (there m))

  pub Member-of_sort_with : (x : A) (xs : List A) → Member x (sort_with xs) → Member x xs
  unfolding sort_with
  Member-of_sort_with x [] m = m
  Member-of_sort_with x (y ∷ ys) m = elim (Member-of_insert_with x y (sort_with ys) m) [
    | here e ↦ here e
    | there n ↦ there (Member-of_sort_with x ys n)
  ]

  pub Member-sort_with : (x : A) (xs : List A) → Member x xs → Member x (sort_with xs)
  unfolding sort_with
  Member-sort_with x [] m = m
  Member-sort_with x (y ∷ ys) (here e) = Member-insert_with x y (sort_with ys) (here e)
  Member-sort_with x (y ∷ ys) (there m) =
      Member-insert_with x y (sort_with ys) (there (Member-sort_with x ys m))

  -- No two entries are in a symmetric relation.
  module _ (Same : A → A → Type 0) (same_sym : (x y : A) → Same x y → Same y x) where
    abbrev pub Apart : List A → Type ℓ
    Apart [] = Unit
    Apart (x ∷ xs) = ((y : A) → Member y xs → ¬ Same x y) × Apart xs

    insert_with-Apart :
        (x : A) (xs : List A)
        → ((y : A) → Member y xs → ¬ Same x y)
        → Apart xs
        → Apart (insert_with x xs)
    unfolding insert_with
    insert_with-Apart x [] h w = ((λ y m. elim m [ ]), tt)
    insert_with-Apart x (z ∷ zs) h w = elim (Bool-cases (before x z)) [
      | inl first ↦ rw first (h, w)
      | inr later ↦ rw later (
        (λ y m s. elim (Member-of_insert_with y x zs m) [
          | here e ↦ h z (here refl) (same_sym z x (subst (Same z) e s))
          | there n ↦ w.0 y n s
        ]),
        insert_with-Apart x zs (λ y n. h y (there n)) w.1,
      )
    ]

    pub sort_with-Apart : (xs : List A) → Apart xs → Apart (sort_with xs)
    unfolding sort_with
    sort_with-Apart [] w = tt
    sort_with-Apart (x ∷ xs) w =
        insert_with-Apart x (sort_with xs) (λ y m. w.0 y (Member-of_sort_with y xs m))
          (sort_with-Apart xs w.1)

  -- For a test that is transitive and, where it fails one way, holds the other way.
  module _ (trans : (x y z : A) → before x y ≡ true → before y z ≡ true → before x z ≡ true)
      (total : (x y : A) → before x y ≡ false → before y x ≡ true) where
    insert_with-IsSorted : (x : A) (xs : List A) → IsSorted xs → IsSorted (insert_with x xs)
    unfolding insert_with
    insert_with-IsSorted x [] h = ((λ y m. elim m [ ]), tt)
    insert_with-IsSorted x (z ∷ zs) h = elim (Bool-cases (before x z)) [
      | inl first ↦ rw first (
        (λ y m. elim m [
          | here e ↦ ap (before x) e ∙ first
          | there n ↦ trans x z y first (h.0 y n)
        ]),
        h,
      )
      | inr later ↦ rw later (
        (λ y m. elim (Member-of_insert_with y x zs m) [
          | here e ↦ ap (before z) e ∙ total x z later
          | there n ↦ h.0 y n
        ]),
        insert_with-IsSorted x zs h.1,
      )
    ]

    pub sort_with-IsSorted : (xs : List A) → IsSorted (sort_with xs)
    unfolding sort_with
    sort_with-IsSorted [] = tt
    sort_with-IsSorted (x ∷ xs) = insert_with-IsSorted x (sort_with xs) (sort_with-IsSorted xs)
