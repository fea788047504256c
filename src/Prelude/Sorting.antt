-- ===== src/Prelude/Sorting.antt =====
-- Python's `sorted`: a stable sort by a test `le` on the elements, as an insertion sort.
use mathlib.Core.Path.{◌≡◌}
use mathlib.Core.Bool.{Bool, true}
use mathlib.Core.Logic.{◌⊎◌, inl, inr}
use mathlib.Core.List.{List, [], ◌∷◌, map, Perm}
use mathlib.Core.List.Perm
use Prim.Native.String.{String}
use text.Mathlib.Text.{◌==◌}
use mathlib.Core.Path.{refl, ap, ◌∙◌}
use mathlib.Core.Bool.{◌||◌}
use native.Mathlib.Omega.{arith}
use minifleet.Prelude.Tests.{if◌then◌else◌, Bool-cases}
use minifleet.Prelude.Lists.{All, All-mono, Has}
use minifleet.Prelude.Strings.{contains}

module _ {ℓ} {A : Type ℓ} (le : A → A → Bool) where
  pub insert_by : A → List A → List A
  insert_by x [] = x ∷ []
  insert_by x (y ∷ ys) = if le x y then x ∷ y ∷ ys else y ∷ insert_by x ys

  unfoldable pub sort_by : List A → List A
  unfolding insert_by
  sort_by [] = []
  sort_by (x ∷ xs) = insert_by x (sort_by xs)

  -- Each element is `le` all that stand behind it.
  abbrev pub IsSortedBy : List A → Type ℓ
  IsSortedBy [] = Unit
  IsSortedBy (x ∷ xs) = All (λ y. le x y ≡ true) xs × IsSortedBy xs

  insert_by-perm : (x : A) (xs : List A) → Perm (insert_by x xs) (x ∷ xs)
  unfolding insert_by
  insert_by-perm x [] = Perm.rfl
  insert_by-perm x (y ∷ ys) = elim (Bool-cases (le x y)) [
    | inl e ↦ rw e Perm.rfl
    | inr e ↦ rw e (Perm.trans (Perm.cons y (insert_by-perm x ys)) (Perm.swap x y ys))
  ]

  pub sort_by-perm : (xs : List A) → Perm (sort_by xs) xs
  unfolding sort_by
  sort_by-perm [] = Perm.rfl
  sort_by-perm (x ∷ xs) = Perm.trans (insert_by-perm x (sort_by xs)) (Perm.cons x (sort_by-perm xs))

module _ {A : Type 0} (le : A → A → Bool) where
  pub Has-insert_by : (a x : A) (xs : List A) → Has a (insert_by le x xs) → (x ≡ a) ⊎ Has a xs
  unfolding insert_by
  Has-insert_by a x [] m = m
  Has-insert_by a x (y ∷ ys) m = ground (arith, Has-insert_by a x ys)

  pub Has-sort_by : (a : A) (xs : List A) → Has a (sort_by le xs) → Has a xs
  unfolding sort_by
  Has-sort_by a [] m = m
  Has-sort_by a (x ∷ xs) m = elim (Has-insert_by a x (sort_by le xs) m) [
    | inl e ↦ inl e
    | inr n ↦ inr (Has-sort_by a xs n)
  ]

module _ {A : Type 0} (le : A → A → Bool) where
  contains-map-insert_by :
      (f : A → String) (x : A) (xs : List A) (a : String)
      → contains (map f (insert_by le x xs)) a ≡ (f x == a || contains (map f xs) a)
  unfolding insert_by
  contains-map-insert_by f x [] a = refl
  contains-map-insert_by f x (y ∷ ys) a = ground (arith, contains-map-insert_by f x ys a)

  -- Sorting keeps the set of the names.
  pub contains-map-sort_by :
      (f : A → String) (xs : List A) (a : String)
      → contains (map f (sort_by le xs)) a ≡ contains (map f xs) a
  unfolding sort_by
  contains-map-sort_by f [] a = refl
  contains-map-sort_by f (x ∷ xs) a =
      contains-map-insert_by f x (sort_by le xs) a
      ∙ ap (λ b. f x == a || b) (contains-map-sort_by f xs a)

  All-insert_by :
      (P : A → Type 0) (x : A) (xs : List A) → P x → All P xs → All P (insert_by le x xs)
  unfolding insert_by
  All-insert_by P x [] h k = (h, k)
  All-insert_by P x (y ∷ ys) h k = elim (Bool-cases (le x y)) [
    | inl e ↦ rw e (h, k)
    | inr e ↦ rw e (k.0, All-insert_by P x ys h k.1)
  ]

  pub All-sort_by : (P : A → Type 0) (xs : List A) → All P xs → All P (sort_by le xs)
  unfolding sort_by
  All-sort_by P [] h = tt
  All-sort_by P (x ∷ xs) h = All-insert_by P x (sort_by le xs) h.0 (All-sort_by P xs h.1)

  Has-insert_by_of : (a x : A) (xs : List A) → (x ≡ a) ⊎ Has a xs → Has a (insert_by le x xs)
  unfolding insert_by
  Has-insert_by_of a x [] m = m
  Has-insert_by_of a x (y ∷ ys) m = ground (arith, Has-insert_by_of a x ys)

  pub Has-sort_by_of : (a : A) (xs : List A) → Has a xs → Has a (sort_by le xs)
  unfolding sort_by
  Has-sort_by_of a [] m = m
  Has-sort_by_of a (x ∷ xs) (inl e) = Has-insert_by_of a x (sort_by le xs) (inl e)
  Has-sort_by_of a (x ∷ xs) (inr m) =
      Has-insert_by_of a x (sort_by le xs) (inr (Has-sort_by_of a xs m))

module _ {A : Type 0} (le : A → A → Bool) (total : (a b : A) → (le a b ≡ true) ⊎ (le b a ≡ true))
    (trans : (a b c : A) → le a b ≡ true → le b c ≡ true → le a c ≡ true) where
  All-le-insert_by :
      (x a : A) (ys : List A)
      → le a x ≡ true
      → All (λ y. le a y ≡ true) ys
      → All (λ y. le a y ≡ true) (insert_by le x ys)
  unfolding insert_by
  All-le-insert_by x a [] h k = (h, tt)
  All-le-insert_by x a (y ∷ ys) h k = elim (Bool-cases (le x y)) [
    | inl e ↦ rw e (h, k)
    | inr e ↦ rw e (k.0, All-le-insert_by x a ys h k.1)
  ]

  insert_by-IsSortedBy :
      (x : A) (ys : List A) → IsSortedBy le ys → IsSortedBy le (insert_by le x ys)
  unfolding insert_by
  insert_by-IsSortedBy x [] h = (tt, tt)
  insert_by-IsSortedBy x (y ∷ ys) (h, k) = elim (Bool-cases (le x y)) [
    | inl e ↦ rw e ((e, All-mono ys (λ z q. trans x y z e q) h), (h, k))
    | inr e ↦
        let below : le y x ≡ true = elim (total x y) [
          | inl t ↦ absurd (ground arith)
          | inr t ↦ t
        ] in
        rw e (All-le-insert_by x y ys below h, insert_by-IsSortedBy x ys k)
  ]

  -- A sort by a total and transitive test gives a sorted list.
  pub sort_by-IsSortedBy : (xs : List A) → IsSortedBy le (sort_by le xs)
  unfolding sort_by
  sort_by-IsSortedBy [] = tt
  sort_by-IsSortedBy (x ∷ xs) = insert_by-IsSortedBy x (sort_by le xs) (sort_by-IsSortedBy xs)
