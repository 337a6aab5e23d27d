-- ===== src/Prelude/Sorting.antt =====
-- Python's `sorted`: a stable sort by a Boolean comparison.

use Prim.Native.Nat.{ℕ, ◌+◌}
use mathlib.Core.Path.{◌≡◌, refl}
use mathlib.Core.Bool.{Bool, true, false}
use mathlib.Core.List.{List, [], ◌∷◌}
use mathlib.Core.List.{Perm}
use mathlib.Core.List.Perm
use native.Mathlib.Omega.{arith}
use mathlib.Core.Logic.{inl, inr}
use local_transcription_serv.Prelude.Lists.{All, All-mono}
use local_transcription_serv.Prelude.Tests.{if◌then◌else◌, Bool-cases}

module _ {ℓ} {A : Type ℓ} (le : A → A → Bool) where
  insert_sorted : A → List A → List A
  insert_sorted x [] = x ∷ []
  insert_sorted x (y ∷ ys) = if le x y then x ∷ y ∷ ys else y ∷ insert_sorted x ys

  -- An element goes in front of those that it ties with, which came after it.
  unfoldable pub sorted : List A → List A
  unfolding insert_sorted
  sorted [] = []
  sorted (x ∷ xs) = insert_sorted x (sorted xs)

  insert_sorted-perm : (x : A) (ys : List A) → Perm (insert_sorted x ys) (x ∷ ys)
  unfolding insert_sorted
  insert_sorted-perm x [] = Perm.rfl
  insert_sorted-perm x (y ∷ ys) = elim (Bool-cases (le x y)) [
    | inl e ↦ rw e Perm.rfl
    | inr e ↦ rw e (Perm.trans (Perm.cons y (insert_sorted-perm x ys)) (Perm.swap x y ys))
  ]

  pub sorted-perm : (xs : List A) → Perm (sorted xs) xs
  unfolding sorted
  sorted-perm [] = Perm.rfl
  sorted-perm (x ∷ xs) =
      Perm.trans (insert_sorted-perm x (sorted xs)) (Perm.cons x (sorted-perm xs))

module _ {ℓ} {A : Type ℓ} (le : A → A → Bool) where
  -- Each element is below all that follow it.
  abbrev pub IsSorted : List A → Type 0
  IsSorted [] = Unit {0}
  IsSorted (x ∷ xs) = All (λ y. le x y ≡ true) xs × IsSorted xs

  -- A sorted list is left as it is.
  pub sorted_of_IsSorted : (xs : List A) → IsSorted xs → sorted le xs ≡ xs
  unfolding sorted insert_sorted
  sorted_of_IsSorted [] s = refl
  sorted_of_IsSorted (x ∷ xs) s = rw (sorted_of_IsSorted xs s.1) (first xs s.0)
    where
      first : (ys : List A) → All (λ y. le x y ≡ true) ys → insert_sorted le x ys ≡ x ∷ ys
      first [] h = refl
      first (y ∷ ys) h = rw h.0

  module _ {κ} (P : A → Type κ) where
    All-insert_sorted : (x : A) (ys : List A) → P x → All P ys → All P (insert_sorted le x ys)
    unfolding insert_sorted
    All-insert_sorted x [] h k = (h, tt)
    All-insert_sorted x (y ∷ ys) h k = elim (Bool-cases (le x y)) [
      | inl e ↦ rw e (h, k)
      | inr e ↦ rw e (k.0, All-insert_sorted x ys h k.1)
    ]

    insert_sorted-All : (x : A) (ys : List A) → All P (insert_sorted le x ys) → P x × All P ys
    unfolding insert_sorted
    insert_sorted-All x [] h = h
    insert_sorted-All x (y ∷ ys) h = elim (Bool-cases (le x y)) [
      | inl e ↦ rw (e, insert_sorted) at h
      | inr e ↦
          let k : P y × All P (insert_sorted le x ys) = rw (e, insert_sorted) at h in
          let (p, q) = insert_sorted-All x ys k.1 in (p, (k.0, q))
    ]

    pub All-sorted : (xs : List A) → All P xs → All P (sorted le xs)
    unfolding sorted
    All-sorted [] h = tt
    All-sorted (x ∷ xs) h = All-insert_sorted x (sorted le xs) h.0 (All-sorted xs h.1)

    pub sorted-All : (xs : List A) → All P (sorted le xs) → All P xs
    unfolding sorted
    sorted-All [] h = tt
    sorted-All (x ∷ xs) h =
        let (p, q) = insert_sorted-All x (sorted le xs) h in (p, sorted-All xs q)

  abbrev pub IsTotal : Type ℓ
  IsTotal = (x y : A) → le x y ≡ false → le y x ≡ true

  abbrev pub IsTransitive : Type ℓ
  IsTransitive = (x y z : A) → le x y ≡ true → le y z ≡ true → le x z ≡ true

  module _ (total : IsTotal) (trans : IsTransitive) where
    insert_sorted-IsSorted : (x : A) (ys : List A) → IsSorted ys → IsSorted (insert_sorted le x ys)
    unfolding insert_sorted
    insert_sorted-IsSorted x [] s = (tt, tt)
    insert_sorted-IsSorted x (y ∷ ys) s = elim (Bool-cases (le x y)) [
      | inl e ↦ rw e ((e, All-mono _ _ ys (λ z h. trans x y z e h) s.0), s)
      | inr e ↦ rw e (
        All-insert_sorted (λ z. le y z ≡ true) x ys (total x y e) s.0,
        insert_sorted-IsSorted x ys s.1,
      )
    ]

    pub sorted-IsSorted : (xs : List A) → IsSorted (sorted le xs)
    unfolding sorted
    sorted-IsSorted [] = tt
    sorted-IsSorted (x ∷ xs) = insert_sorted-IsSorted x (sorted le xs) (sorted-IsSorted xs)

  -- The sum of a measure over a list, which sorting keeps.
  abbrev pub sum_of : (A → ℕ) → List A → ℕ
  sum_of m [] = 0
  sum_of m (x ∷ xs) = m x + sum_of m xs

  sum_of-insert_sorted :
      (m : A → ℕ) (x : A) (ys : List A) → sum_of m (insert_sorted le x ys) ≡ m x + sum_of m ys
  unfolding insert_sorted
  sum_of-insert_sorted m x [] = refl
  sum_of-insert_sorted m x (y ∷ ys) = elim (Bool-cases (le x y)) [
    | inl e ↦ rw e
    | inr e ↦ rw e (omega (arith, sum_of-insert_sorted m x ys))
  ]

  pub sum_of-sorted : (m : A → ℕ) (xs : List A) → sum_of m (sorted le xs) ≡ sum_of m xs
  unfolding sorted
  sum_of-sorted m [] = refl
  sum_of-sorted m (x ∷ xs) =
      omega (arith, sum_of-insert_sorted m x (sorted le xs), sum_of-sorted m xs)

-- Two comparisons that agree on the members sort a list alike.
module _ {ℓ κ} {A : Type ℓ} (P : A → Type κ) (le le' : A → A → Bool) where
  module _ (same : (x y : A) → P x → P y → le x y ≡ le' x y) where
    insert_sorted-agree :
        (x : A) (ys : List A) → P x → All P ys → insert_sorted le x ys ≡ insert_sorted le' x ys
    unfolding insert_sorted
    insert_sorted-agree x [] h k = refl
    insert_sorted-agree x (y ∷ ys) h k = rw (same x y h k.0, insert_sorted-agree x ys h k.1) refl

    pub sorted-agree : (xs : List A) → All P xs → sorted le xs ≡ sorted le' xs
    unfolding sorted
    sorted-agree [] h = refl
    sorted-agree (x ∷ xs) h =
        rw (sorted-agree xs h.1)
          (insert_sorted-agree x (sorted le' xs) h.0 (All-sorted le' P xs h.1))
