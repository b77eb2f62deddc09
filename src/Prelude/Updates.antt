-- ===== src/Prelude/Updates.antt =====
-- The first row that passes a test, and an update of the rows that pass one.
use Prim.Native.Nat.{◌+◌, ◌≤◌}
use mathlib.Core.Path.{◌≡◌, refl, subst}
use mathlib.Core.Bool.{Bool, false, true, ◌&&◌}
use mathlib.Core.List.{List, [], ◌∷◌, ◌++◌}
use mathlib.Core.Option.{none, some}
use mathlib.Core.Logic.{inl, inr}
use native.Mathlib.Omega.{arith}
use meeting_room_booking_sys.Prelude.Tests.{Bool-cases}
use meeting_room_booking_sys.Prelude.Lists.{any, find_first, All, update_where}
use meeting_room_booking_sys.Prelude.Counting.{count_where, count_where_pos}

module _ {ℓ} {A : Type ℓ} where
  pub find_first_passes :
      (p : A → Bool) (xs : List A) {x : A} → find_first p xs ≡ some x → p x ≡ true
  find_first_passes p [] h = cc
  find_first_passes p (y ∷ xs) h = elim (Bool-cases (p y)) [
    | inl e ↦ ground (arith, e)
    | inr e ↦ find_first_passes p xs (rw e at h)
  ]

  pub find_first_All {κ} :
      (P : A → Type κ) (p : A → Bool) (xs : List A) (x : A)
      → All P xs
      → find_first p xs ≡ some x
      → P x
  find_first_All P p [] x a h = cc
  find_first_All P p (y ∷ xs) x a h = elim (Bool-cases (p y)) [
    | inl e ↦ let here : some y ≡ some x = (rw e at h) in subst P (cc) a.0
    | inr e ↦ find_first_All P p xs x a.1 (rw e at h)
  ]

  pub find_first-none : (p : A → Bool) (xs : List A) → find_first p xs ≡ none → any p xs ≡ false
  find_first-none p [] h = refl
  find_first-none p (y ∷ xs) h = ground (arith, find_first-none p xs)

  pub none_of_any : (p : A → Bool) (xs : List A) → any p xs ≡ false → find_first p xs ≡ none
  none_of_any p [] h = refl
  none_of_any p (y ∷ xs) h = ground (arith, none_of_any p xs)

  pub find_first-some-any :
      (p : A → Bool) (xs : List A) (x : A) → find_first p xs ≡ some x → any p xs ≡ true
  find_first-some-any p [] x h = cc
  find_first-some-any p (y ∷ xs) x h = ground (arith, find_first-some-any p xs x)

  pub All-update_where {κ} :
      (P : A → Type κ) (p : A → Bool) (f : A → A) (xs : List A)
      → ((x : A) → P x → P (f x))
      → All P xs
      → All P (update_where p f xs)
  All-update_where P p f [] h a = tt
  All-update_where P p f (x ∷ xs) h a = elim (Bool-cases (p x)) [
    | inl e ↦ rw e (h x a.0, All-update_where P p f xs h a.1)
    | inr e ↦ rw e (a.0, All-update_where P p f xs h a.1)
  ]

  -- An update that makes no row pass `q` that did not.
  pub count_where-update_where_le :
      (p q : A → Bool) (f : A → A) (xs : List A)
      → ((x : A) → q (f x) ≡ true → q x ≡ true)
      → count_where q (update_where p f xs) ≤ count_where q xs
  count_where-update_where_le p q f [] h = omega arith
  count_where-update_where_le p q f (x ∷ xs) h =
      ground (arith, h x, count_where-update_where_le p q f xs h)

  pub count_where_mono :
      (p q : A → Bool) (xs : List A)
      → ((x : A) → p x ≡ true → q x ≡ true)
      → count_where p xs ≤ count_where q xs
  count_where_mono p q [] h = omega arith
  count_where_mono p q (x ∷ xs) h = ground (arith, h x, count_where_mono p q xs h)

  -- An update after which no row passes the test of the update.
  pub any-update_where :
      (p : A → Bool) (f : A → A) (xs : List A)
      → ((x : A) → p (f x) ≡ false)
      → any p (update_where p f xs) ≡ false
  any-update_where p f [] h = refl
  any-update_where p f (x ∷ xs) h = ground (arith, h x, any-update_where p f xs h)

  -- The updated row is found again by a key that only one row has.
  pub find_first-update_where :
      (p q : A → Bool) (f : A → A) (xs : List A) (x : A)
      → ((y : A) → p y ≡ true → q y ≡ true)
      → ((y : A) → q (f y) ≡ q y)
      → count_where q xs ≤ 1
      → find_first p xs ≡ some x
      → find_first q (update_where p f xs) ≡ some (f x)
  find_first-update_where p q f [] x i k c h = cc
  find_first-update_where p q f (y ∷ xs) x i k c h = ground (
    arith,
    i y,
    k y,
    count_where_mono p q xs i,
    count_where_pos p xs,
    find_first-some-any p xs x,
    find_first-update_where p q f xs x i k,
  )

  -- A row found by a test is the row found by a key that only one row has.
  pub find_first_unique :
      (p q : A → Bool) (xs : List A) (x : A)
      → ((y : A) → p y ≡ true → q y ≡ true)
      → count_where q xs ≤ 1
      → find_first p xs ≡ some x
      → find_first q xs ≡ some x
  find_first_unique p q [] x i c h = cc
  find_first_unique p q (y ∷ xs) x i c h = ground (
    arith,
    i y,
    count_where_mono p q xs i,
    count_where_pos p xs,
    find_first-some-any p xs x,
    find_first_unique p q xs x i,
  )

  pub any_of_found :
      (p q : A → Bool) (xs : List A) (x : A)
      → find_first q xs ≡ some x
      → p x ≡ true
      → any p xs ≡ true
  any_of_found p q [] x h e = cc
  any_of_found p q (y ∷ xs) x h e = elim (Bool-cases (q y)) [
    | inl here ↦
        let same : some y ≡ some x = (rw here at h) in
        let passes : p y ≡ true = subst (λ z. p z ≡ true) (cc) e in rw passes
    | inr there ↦ ground (arith, any_of_found p q xs x (rw there at h) e)
  ]

  -- An update that takes `q` from the rows that it changes.
  pub count_where-update_where_lost :
      (p q : A → Bool) (f : A → A) (xs : List A)
      → ((x : A) → q (f x) ≡ false)
      → count_where q (update_where p f xs) + count_where (λ x. p x && q x) xs ≡ count_where q xs
  count_where-update_where_lost p q f [] h = omega arith
  count_where-update_where_lost p q f (x ∷ xs) h =
      ground (arith, h x, count_where-update_where_lost p q f xs h)

  pub find_first-append :
      (p : A → Bool) (xs : List A) (x : A)
      → any p xs ≡ false
      → p x ≡ true
      → find_first p (xs ++ x ∷ []) ≡ some x
  find_first-append p [] x h e = ground (arith, e)
  find_first-append p (y ∷ xs) x h e = ground (arith, find_first-append p xs x)

  pub find_first-append_other :
      (p : A → Bool) (xs : List A) (x : A)
      → p x ≡ false
      → find_first p (xs ++ x ∷ []) ≡ find_first p xs
  find_first-append_other p [] x e = ground (arith, e)
  find_first-append_other p (y ∷ xs) x e = ground (arith, find_first-append_other p xs x)
