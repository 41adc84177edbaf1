-- ===== src/Prelude/Lists.antt =====
-- Lists: filtering and counting by a test, predicates over a list, and sorting by a key.
use Prim.Native.Nat.{ℕ, suc, ◌+◌}
use mathlib.Core.Path.{◌≡◌, refl}
use mathlib.Core.Logic.{inl, inr}
use mathlib.Core.Bool.{Bool, true, false, ◌&&◌}
use mathlib.Core.List.{List, [], ◌∷◌}
use native.Mathlib.Omega.{arith}
use optimism_zkp.Prelude.Tests.{if◌then◌else◌, one_if, leb, Bool-cases}

module _ {ℓ} {A : Type ℓ} where
  abbrev pub length : List A → ℕ
  length [] = 0
  length (x ∷ xs) = suc (length xs)

  -- The elements that pass the test, in their order.
  unfoldable pub select : (A → Bool) → List A → List A
  select p [] = []
  select p (x ∷ xs) = if p x then x ∷ select p xs else select p xs

  -- The number of elements that pass the test.
  unfoldable pub count : (A → Bool) → List A → ℕ
  count p [] = 0
  count p (x ∷ xs) = one_if (p x) + count p xs

  -- Insertion sort; of two elements of which each may stand before the other, the order is kept.
  unfoldable pub insert_by : (A → A → Bool) → A → List A → List A
  insert_by before x [] = x ∷ []
  insert_by before x (y ∷ ys) = if before x y then x ∷ y ∷ ys else y ∷ insert_by before x ys

  unfoldable pub sort_by : (A → A → Bool) → List A → List A
  unfolding insert_by
  sort_by before [] = []
  sort_by before (x ∷ xs) = insert_by before x (sort_by before xs)

  abbrev pub All : (A → Type 0) → List A → Type 0
  All P [] = Unit
  All P (x ∷ xs) = P x × All P xs

  -- No element stands behind one that it must precede.
  abbrev pub IsSortedBy : (A → A → Bool) → List A → Type 0
  IsSortedBy before [] = Unit
  IsSortedBy before (x ∷ xs) = All (λ y. before x y ≡ true) xs × IsSortedBy before xs

  pub All-map : (P Q : A → Type 0) (xs : List A) → ((x : A) → P x → Q x) → All P xs → All Q xs
  All-map P Q [] f h = tt
  All-map P Q (x ∷ xs) f h = (f x h.0, All-map P Q xs f h.1)

  pub All-both : (P Q : A → Type 0) (xs : List A) → All P xs → All Q xs → All (λ x. P x × Q x) xs
  All-both P Q [] h k = tt
  All-both P Q (x ∷ xs) h k = ((h.0, k.0), All-both P Q xs h.1 k.1)

  pub All-select : (P : A → Type 0) (p : A → Bool) (xs : List A) → All P xs → All P (select p xs)
  unfolding select
  All-select P p [] h = tt
  All-select P p (x ∷ xs) h = elim (Bool-cases (p x)) [
    | inl e ↦ rw e (h.0, All-select P p xs h.1)
    | inr e ↦ rw e (All-select P p xs h.1)
  ]

  -- What is selected passes the test.
  pub select-passes : (p : A → Bool) (xs : List A) → All (λ x. p x ≡ true) (select p xs)
  unfolding select
  select-passes p [] = tt
  select-passes p (x ∷ xs) = elim (Bool-cases (p x)) [
    | inl e ↦ rw e (e, select-passes p xs)
    | inr e ↦ rw e (select-passes p xs)
  ]

  pub All-insert_by :
      (P : A → Type 0) (before : A → A → Bool) (x : A) (ys : List A)
      → P x
      → All P ys
      → All P (insert_by before x ys)
  unfolding insert_by
  All-insert_by P before x [] h k = (h, tt)
  All-insert_by P before x (y ∷ ys) h k = elim (Bool-cases (before x y)) [
    | inl e ↦ rw e (h, k)
    | inr e ↦ rw e (k.0, All-insert_by P before x ys h k.1)
  ]

  pub All-sort_by :
      (P : A → Type 0) (before : A → A → Bool) (xs : List A) → All P xs → All P (sort_by before xs)
  unfolding sort_by
  All-sort_by P before [] h = tt
  All-sort_by P before (x ∷ xs) h =
      All-insert_by P before x (sort_by before xs) h.0 (All-sort_by P before xs h.1)

  count-insert_by :
      (p : A → Bool) (before : A → A → Bool) (x : A) (ys : List A)
      → count p (insert_by before x ys) ≡ one_if (p x) + count p ys
  unfolding count insert_by
  count-insert_by p before x [] = refl
  count-insert_by p before x (y ∷ ys) = elim (Bool-cases (before x y)) [
    | inl e ↦ rw e refl
    | inr e ↦ rw e (omega (arith, count-insert_by p before x ys))
  ]

  -- Sorting keeps the number of elements that pass any test.
  pub count-sort_by :
      (p : A → Bool) (before : A → A → Bool) (xs : List A)
      → count p (sort_by before xs) ≡ count p xs
  unfolding count sort_by
  count-sort_by p before [] = refl
  count-sort_by p before (x ∷ xs) =
      omega (arith, count-insert_by p before x (sort_by before xs), count-sort_by p before xs)

  -- Selecting first is counting by both tests.
  pub count-select :
      (p q : A → Bool) (xs : List A) → count p (select q xs) ≡ count (λ x. q x && p x) xs
  unfolding count select
  count-select p q [] = refl
  count-select p q (x ∷ xs) = elim (Bool-cases (q x)) [
    | inl e ↦ rw e (omega (arith, count-select p q xs))
    | inr e ↦ rw e (omega (arith, count-select p q xs))
  ]

  pub count-eq-zero : (p : A → Bool) (xs : List A) → All (λ x. p x ≡ false) xs → count p xs ≡ 0
  unfolding count
  count-eq-zero p [] h = refl
  count-eq-zero p (x ∷ xs) h = rw h.0 (omega (arith, count-eq-zero p xs h.1))

module _ {ℓ} {A : Type ℓ} (key : A → ℕ) where
  -- ORDER BY key ASC, and DESC
  abbrev pub ascending : A → A → Bool
  ascending x y = leb (key x) (key y)

  abbrev pub descending : A → A → Bool
  descending x y = leb (key y) (key x)

module _ {ℓ} {A : Type ℓ} (before : A → A → Bool)
    (total : (x y : A) → before x y ≡ false → before y x ≡ true)
    (chain : (x y z : A) → before x y ≡ true → before y z ≡ true → before x z ≡ true) where
  insert_by-IsSortedBy :
      (x : A) (ys : List A) → IsSortedBy before ys → IsSortedBy before (insert_by before x ys)
  unfolding insert_by
  insert_by-IsSortedBy x [] h = (tt, tt)
  insert_by-IsSortedBy x (y ∷ ys) h = elim (Bool-cases (before x y)) [
    | inl e ↦ rw e ((e, All-map _ (λ z. before x z ≡ true) ys (λ z k. chain x y z e k) h.0), h)
    | inr e ↦ rw e (
      All-insert_by (λ z. before y z ≡ true) before x ys (total x y e) h.0,
      insert_by-IsSortedBy x ys h.1,
    )
  ]

  sorted : (xs : List A) → IsSortedBy before (sort_by before xs)
  unfolding sort_by
  sorted [] = tt
  sorted (x ∷ xs) = insert_by-IsSortedBy x (sort_by before xs) (sorted xs)

module _ {ℓ} {A : Type ℓ} (key : A → ℕ) (xs : List A) where
  pub sort_by-IsSortedBy-ascending : IsSortedBy (ascending key) (sort_by (ascending key) xs)
  sort_by-IsSortedBy-ascending =
      sorted (ascending key) (λ x y h. ground arith) (λ x y z h k. ground arith) xs

  pub sort_by-IsSortedBy-descending : IsSortedBy (descending key) (sort_by (descending key) xs)
  sort_by-IsSortedBy-descending =
      sorted (descending key) (λ x y h. ground arith) (λ x y z h k. ground arith) xs
