-- ===== src/Prelude/Counting.antt =====
-- How many rows of a list pass a test, and how an update changes that number.
use Prim.Native.Nat.{ℕ, suc, ◌+◌, ◌≤◌, ◌<◌}
use mathlib.Core.Path.{◌≡◌, refl}
use mathlib.Core.Bool.{Bool, false, true, ◌&&◌, ◌||◌}
use mathlib.Core.List.{List, [], ◌∷◌, ◌++◌, map}
use mathlib.Core.Logic.{inl, inr}
use native.Mathlib.Omega.{arith}
use meeting_room_booking_sys.Prelude.Tests.{if◌then◌else◌, Bool-cases}
use meeting_room_booking_sys.Prelude.Lists.{any, select, length, All, update_where}

module _ {ℓ} {A : Type ℓ} where
  abbrev pub count_where : (A → Bool) → List A → ℕ
  count_where p [] = 0
  count_where p (x ∷ xs) = let rest = count_where p xs in if p x then suc rest else rest

  pub count_where-append :
      (p : A → Bool) (xs ys : List A)
      → count_where p (xs ++ ys) ≡ count_where p xs + count_where p ys
  count_where-append p [] ys = omega arith
  count_where-append p (x ∷ xs) ys = ground (arith, count_where-append p xs ys)

  pub count_where_zero : (p : A → Bool) (xs : List A) → any p xs ≡ false → count_where p xs ≡ 0
  count_where_zero p [] h = refl
  count_where_zero p (x ∷ xs) h = ground (arith, count_where_zero p xs)

  pub any_of_count_zero : (p : A → Bool) (xs : List A) → count_where p xs ≡ 0 → any p xs ≡ false
  any_of_count_zero p [] h = refl
  any_of_count_zero p (x ∷ xs) h = ground (arith, any_of_count_zero p xs)

  pub any_of_count_pos : (p : A → Bool) (xs : List A) → 0 < count_where p xs → any p xs ≡ true
  any_of_count_pos p [] h = absurd (omega arith)
  any_of_count_pos p (x ∷ xs) h = ground (arith, any_of_count_pos p xs)

  pub length-select : (p : A → Bool) (xs : List A) → length (select p xs) ≡ count_where p xs
  length-select p [] = refl
  length-select p (x ∷ xs) = ground (arith, length-select p xs)

  pub count_where_pos : (p : A → Bool) (xs : List A) → any p xs ≡ true → 0 < count_where p xs
  count_where_pos p [] h = cc
  count_where_pos p (x ∷ xs) h = ground (arith, count_where_pos p xs)

  pub All-select {κ} :
      (P : A → Type κ) (p : A → Bool) (xs : List A) → All P xs → All P (select p xs)
  All-select P p [] h = tt
  All-select P p (x ∷ xs) h = elim (Bool-cases (p x)) [
    | inl e ↦ rw e (h.0, All-select P p xs h.1)
    | inr e ↦ rw e (All-select P p xs h.1)
  ]

  pub select_passes : (p : A → Bool) (xs : List A) → All (λ x. p x ≡ true) (select p xs)
  select_passes p [] = tt
  select_passes p (x ∷ xs) = elim (Bool-cases (p x)) [
    | inl e ↦ rw e (e, select_passes p xs)
    | inr e ↦ rw e (select_passes p xs)
  ]

  singleton_of_length : (xs : List A) → length xs ≡ 1 → (x : A) × (xs ≡ x ∷ [])
  singleton_of_length [] h = absurd (omega arith)
  singleton_of_length (x ∷ []) h = (x, refl)
  singleton_of_length (x ∷ y ∷ xs) h = absurd (omega arith)

  -- A test that one row passes at most, and some row passes, selects that row.
  pub select_one :
      (p : A → Bool) (xs : List A)
      → any p xs ≡ true
      → count_where p xs ≤ 1
      → (x : A) × (select p xs ≡ x ∷ []) × (p x ≡ true)
  select_one p xs h le =
      let (x, e) =
        singleton_of_length (select p xs)
          (omega (arith, length-select p xs, count_where_pos p xs h)) in
      let passes : All (λ y. p y ≡ true) (x ∷ []) = (rw e at (select_passes p xs)) in
      (x, e, passes.0)

  pub count_where-update_where :
      (p q : A → Bool) (f : A → A) (xs : List A)
      → ((x : A) → q (f x) ≡ q x)
      → count_where q (update_where p f xs) ≡ count_where q xs
  count_where-update_where p q f [] h = refl
  count_where-update_where p q f (x ∷ xs) h =
      ground (arith, h x, count_where-update_where p q f xs h)

  pub any-or :
      (p q : A → Bool) (xs : List A)
      → any (λ x. p x || q x) xs ≡ false
      → (any p xs ≡ false) × (any q xs ≡ false)
  any-or p q [] h = (refl, refl)
  any-or p q (x ∷ xs) h = ground (arith, any-or p q xs)

  pub count_where-select :
      (p q : A → Bool) (xs : List A)
      → count_where q (select p xs) ≡ count_where (λ x. p x && q x) xs
  count_where-select p q [] = refl
  count_where-select p q (x ∷ xs) = ground (arith, count_where-select p q xs)

  pub count_where-cong :
      (p q : A → Bool) (xs : List A) → ((x : A) → p x ≡ q x) → count_where p xs ≡ count_where q xs
  count_where-cong p q [] h = refl
  count_where-cong p q (x ∷ xs) h = ground (arith, h x, count_where-cong p q xs h)

pub count_where-map {ℓ κ} :
    {A : Type ℓ} {B : Type κ} (f : B → A) (p : A → Bool) (xs : List B)
    → count_where p (map f xs) ≡ count_where (λ x. p (f x)) xs
count_where-map f p [] = refl
count_where-map f p (x ∷ xs) = ground (arith, count_where-map f p xs)
