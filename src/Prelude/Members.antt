-- ===== src/Prelude/Members.antt =====
-- The members of a list, and what filters, maps and sorts do to them.
use Prim.Native.Nat.{ℕ}
use mathlib.Core.Path.{◌≡◌, refl, ap, sym, ◌∙◌}
use mathlib.Core.Logic.{inl, inr}
use mathlib.Core.Bool.{Bool, true}
use mathlib.Core.List.{List, [], ◌∷◌, ◌++◌, map}
use native.Mathlib.Omega.{arith}
use epr_backend.Prelude.Tests.{Bool-cases, leb}
use epr_backend.Prelude.Lists.{filter, any}
use epr_backend.Prelude.Grouping.{insert_descending, sort_by_descending}

module _ {ℓ} {A : Type ℓ} where
  pub data Member (x : A) : List A → Type ℓ where
    here : {y : A} {ys : List A} → x ≡ y → Member x (y ∷ ys)
    there : {y : A} {ys : List A} → Member x ys → Member x (y ∷ ys)

  pub Member-of_filter :
      (p : A → Bool) (x : A) (xs : List A) → Member x (filter p xs) → Member x xs × (p x ≡ true)
  Member-of_filter p x [] m = elim m [ ]
  Member-of_filter p x (y ∷ ys) m = elim (Bool-cases (p y)) [
    | inl kept ↦ of_kept p x y ys (Member-of_filter p x ys) kept (rw kept at m)
    | inr dropped ↦ let (n, q) = Member-of_filter p x ys (rw dropped at m) in (there n, q)
  ]
    where
      of_kept :
          (p : A → Bool) (x y : A) (ys : List A)
          → (Member x (filter p ys) → Member x ys × (p x ≡ true))
          → p y ≡ true
          → Member x (y ∷ filter p ys)
          → Member x (y ∷ ys) × (p x ≡ true)
      of_kept p x y ys rest kept (here e) = (here e, ap p e ∙ kept)
      of_kept p x y ys rest kept (there m) = let (n, q) = rest m in (there n, q)

  pub Member-filter :
      (p : A → Bool) (x : A) (xs : List A) → Member x xs → p x ≡ true → Member x (filter p xs)
  Member-filter p x [] m h = elim m [ ]
  Member-filter p x (y ∷ ys) (here e) h = rw (sym (ap p e) ∙ h) (here e)
  Member-filter p x (y ∷ ys) (there m) h = elim (Bool-cases (p y)) [
    | inl kept ↦ rw kept (there (Member-filter p x ys m h))
    | inr dropped ↦ rw dropped (Member-filter p x ys m h)
  ]

  pub Member-of_any :
      (p : A → Bool) (xs : List A) → any p xs ≡ true → (x : A) × Member x xs × (p x ≡ true)
  Member-of_any p [] h = cc
  Member-of_any p (y ∷ ys) h = elim (Bool-cases (p y)) [
    | inl passes ↦ (y, here refl, passes)
    | inr fails ↦ let (x, m, q) = Member-of_any p ys (rw fails at h) in (x, there m, q)
  ]

  pub any-of_Member :
      (p : A → Bool) (x : A) (xs : List A) → Member x xs → p x ≡ true → any p xs ≡ true
  any-of_Member p x [] m h = elim m [ ]
  any-of_Member p x (y ∷ ys) (here e) h = rw (sym (ap p e) ∙ h) refl
  any-of_Member p x (y ∷ ys) (there m) h = ground (arith, any-of_Member p x ys m h)

  pub Member-skip : (x y z : A) (zs : List A) → Member x (y ∷ zs) → Member x (y ∷ z ∷ zs)
  Member-skip x y z zs (here e) = here e
  Member-skip x y z zs (there m) = there (there m)

  Member-of_insert_descending :
      (key : A → ℕ) (x y : A) (xs : List A)
      → Member x (insert_descending key y xs)
      → Member x (y ∷ xs)
  Member-of_insert_descending key x y [] m = m
  Member-of_insert_descending key x y (z ∷ zs) m = elim (Bool-cases (leb (key z) (key y))) [
    | inl before ↦ rw before at m
    | inr after ↦ past x y z zs (Member-of_insert_descending key x y zs) (rw after at m)
  ]
    where
      past :
          (x y z : A) (zs : List A)
          → (Member x (insert_descending key y zs) → Member x (y ∷ zs))
          → Member x (z ∷ insert_descending key y zs)
          → Member x (y ∷ z ∷ zs)
      past x y z zs rest (here e) = there (here e)
      past x y z zs rest (there m) = Member-skip x y z zs (rest m)

  Member-insert_descending :
      (key : A → ℕ) (x y : A) (xs : List A)
      → Member x (y ∷ xs)
      → Member x (insert_descending key y xs)
  Member-insert_descending key x y [] m = m
  Member-insert_descending key x y (z ∷ zs) m = elim (Bool-cases (leb (key z) (key y))) [
    | inl before ↦ rw before m
    | inr after ↦ rw after (past x y z zs (Member-insert_descending key x y zs) m)
  ]
    where
      past :
          (x y z : A) (zs : List A)
          → (Member x (y ∷ zs) → Member x (insert_descending key y zs))
          → Member x (y ∷ z ∷ zs)
          → Member x (z ∷ insert_descending key y zs)
      past x y z zs rest (here e) = there (rest (here e))
      past x y z zs rest (there (here e)) = here e
      past x y z zs rest (there (there m)) = there (rest (there m))

  pub Member-of_sort_by_descending :
      (key : A → ℕ) (x : A) (xs : List A) → Member x (sort_by_descending key xs) → Member x xs
  Member-of_sort_by_descending key x [] m = m
  Member-of_sort_by_descending key x (y ∷ ys) m =
      elim (Member-of_insert_descending key x y (sort_by_descending key ys) m) [
        | here e ↦ here e
        | there n ↦ there (Member-of_sort_by_descending key x ys n)
      ]

  pub Member-sort_by_descending :
      (key : A → ℕ) (x : A) (xs : List A) → Member x xs → Member x (sort_by_descending key xs)
  Member-sort_by_descending key x [] m = elim m [ ]
  Member-sort_by_descending key x (y ∷ ys) (here e) =
      Member-insert_descending key x y (sort_by_descending key ys) (here e)
  Member-sort_by_descending key x (y ∷ ys) (there m) =
      Member-insert_descending key x y (sort_by_descending key ys)
        (there (Member-sort_by_descending key x ys m))

pub Member-of_map {ℓ κ} :
    {A : Type ℓ} {B : Type κ} (f : A → B) (y : B) (xs : List A)
    → Member y (map f xs)
    → (x : A) × Member x xs × (y ≡ f x)
Member-of_map f y [] m = elim m [ ]
Member-of_map f y (x ∷ xs) (here e) = (x, here refl, e)
Member-of_map f y (x ∷ xs) (there m) = let (z, n, e) = Member-of_map f y xs m in (z, there n, e)

pub Member-map {ℓ κ} :
    {A : Type ℓ} {B : Type κ} (f : A → B) (x : A) (xs : List A)
    → Member x xs
    → Member (f x) (map f xs)
Member-map f x [] m = elim m [ ]
Member-map f x (y ∷ ys) (here e) = here (ap f e)
Member-map f x (y ∷ ys) (there m) = there (Member-map f x ys m)

module _ {ℓ} {A : Type ℓ} where
  pub Member-append_left : (x : A) (xs ys : List A) → Member x xs → Member x (xs ++ ys)
  Member-append_left x [] ys m = elim m [ ]
  Member-append_left x (z ∷ zs) ys (here e) = here e
  Member-append_left x (z ∷ zs) ys (there m) = there (Member-append_left x zs ys m)

  pub Member-append_right : (x : A) (xs ys : List A) → Member x ys → Member x (xs ++ ys)
  Member-append_right x [] ys m = m
  Member-append_right x (z ∷ zs) ys m = there (Member-append_right x zs ys m)
