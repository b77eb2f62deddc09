-- ===== src/Database/Sorting.antt =====
-- ORDER BY, as PostgreSQL documents it: the same rows, sorted by the key; the order of rows with
-- equal keys is its own choice. An insertion sort shows that there is such an order.
use mathlib.Core.List.{Perm}
use mathlib.Core.List.Perm
use meeting_room_booking_sys.Prelude.{
  ℕ, ◌≡◌, List, [], ◌∷◌, Bool-cases, inl, inr, leb, if◌then◌else◌, arith, Bool, true, false, All,
}

abbrev pub IsSortedBy : {A : Type 0} → (A → A → Bool) → List A → Type 0
IsSortedBy before [] = Unit {0}
IsSortedBy before (x ∷ xs) = All (λ y. before x y ≡ true) xs × IsSortedBy before xs

-- `before x y` says that `x` may stand before `y`.
abbrev pub ascending : {A : Type 0} → (A → ℕ) → A → A → Bool
ascending key x y = leb (key x) (key y)

abbrev pub descending : {A : Type 0} → (A → ℕ) → A → A → Bool
descending key x y = leb (key y) (key x)

pub record Order : Type 1 where
  pub asc : (A : Type 0) → (A → ℕ) → List A → List A
  pub desc : (A : Type 0) → (A → ℕ) → List A → List A
  pub asc-perm : (A : Type 0) (key : A → ℕ) (xs : List A) → Perm (asc A key xs) xs
  pub desc-perm : (A : Type 0) (key : A → ℕ) (xs : List A) → Perm (desc A key xs) xs
  pub asc-IsSortedBy :
      (A : Type 0) (key : A → ℕ) (xs : List A) → IsSortedBy (ascending key) (asc A key xs)
  pub desc-IsSortedBy :
      (A : Type 0) (key : A → ℕ) (xs : List A) → IsSortedBy (descending key) (desc A key xs)

module _ {A : Type 0} (before : A → A → Bool) where
  unfoldable pub insert_sorted : A → List A → List A
  insert_sorted x [] = x ∷ []
  insert_sorted x (y ∷ ys) =
      let rest = insert_sorted x ys in if before x y then x ∷ y ∷ ys else y ∷ rest

  unfoldable pub insertion_sort : List A → List A
  unfolding insert_sorted
  insertion_sort [] = []
  insertion_sort (x ∷ xs) = insert_sorted x (insertion_sort xs)

  insert_sorted-perm : (x : A) (xs : List A) → Perm (insert_sorted x xs) (x ∷ xs)
  unfolding insert_sorted
  insert_sorted-perm x [] = Perm.refl _
  insert_sorted-perm x (y ∷ ys) = elim (Bool-cases (before x y)) [
    | inl first ↦ rw first (Perm.refl _)
    | inr later ↦ rw later (Perm.trans (Perm.cons y (insert_sorted-perm x ys)) (Perm.swap x y ys))
  ]

  pub insertion_sort-perm : (xs : List A) → Perm (insertion_sort xs) xs
  unfolding insertion_sort
  insertion_sort-perm [] = Perm.refl []
  insertion_sort-perm (x ∷ xs) =
      Perm.trans (insert_sorted-perm x (insertion_sort xs)) (Perm.cons x (insertion_sort-perm xs))

  module _ (total : (x y : A) → before x y ≡ false → before y x ≡ true)
      (trans : (x y z : A) → before x y ≡ true → before y z ≡ true → before x z ≡ true) where
    All-insert_sorted :
        (a x : A) (xs : List A)
        → before a x ≡ true
        → All (λ y. before a y ≡ true) xs
        → All (λ y. before a y ≡ true) (insert_sorted x xs)
    unfolding insert_sorted
    All-insert_sorted a x [] e h = (e, tt)
    All-insert_sorted a x (y ∷ ys) e h = elim (Bool-cases (before x y)) [
      | inl first ↦ rw first (e, h)
      | inr later ↦ rw later (h.0, All-insert_sorted a x ys e h.1)
    ]

    All-weaken :
        (a x : A) (xs : List A)
        → before a x ≡ true
        → All (λ y. before x y ≡ true) xs
        → All (λ y. before a y ≡ true) xs
    All-weaken a x [] e h = tt
    All-weaken a x (y ∷ ys) e h = (trans a x y e h.0, All-weaken a x ys e h.1)

    insert_sorted-IsSortedBy :
        (x : A) (xs : List A) → IsSortedBy before xs → IsSortedBy before (insert_sorted x xs)
    unfolding insert_sorted
    insert_sorted-IsSortedBy x [] s = (tt, tt)
    insert_sorted-IsSortedBy x (y ∷ ys) s = elim (Bool-cases (before x y)) [
      | inl first ↦ rw first ((first, All-weaken x y ys first s.0), s)
      | inr later ↦
          rw later
            (All-insert_sorted y x ys (total x y later) s.0, insert_sorted-IsSortedBy x ys s.1)
    ]

    insertion_sort-IsSortedBy : (xs : List A) → IsSortedBy before (insertion_sort xs)
    unfolding insertion_sort
    insertion_sort-IsSortedBy [] = tt
    insertion_sort-IsSortedBy (x ∷ xs) =
        insert_sorted-IsSortedBy x (insertion_sort xs) (insertion_sort-IsSortedBy xs)

pub stable_sorts :
    (A : Type 0) (key : A → ℕ) (xs : List A)
    → IsSortedBy (ascending key) (insertion_sort (ascending key) xs)
stable_sorts A key xs =
    insertion_sort-IsSortedBy (ascending key) (λ x y e. ground arith) (λ x y z e f. ground arith) xs

pub desc_sorts :
    (A : Type 0) (key : A → ℕ) (xs : List A)
    → IsSortedBy (descending key) (insertion_sort (descending key) xs)
desc_sorts A key xs =
    insertion_sort-IsSortedBy (descending key) (λ x y e. ground arith) (λ x y z e f. ground arith)
      xs

unfoldable pub stable : Order
unfolding insertion_sort
stable = record {
  asc = λ A key. insertion_sort (ascending key);
  desc = λ A key. insertion_sort (descending key);
  asc-perm = λ A key. insertion_sort-perm (ascending key);
  desc-perm = λ A key. insertion_sort-perm (descending key);
  asc-IsSortedBy = stable_sorts;
  desc-IsSortedBy = desc_sorts;
}
