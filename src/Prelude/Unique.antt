-- ===== src/Prelude/Unique.antt =====
-- Tests on rows that have a distinct key: the one row that passes.
use Prim.Native.Nat.{◌≤◌}
use mathlib.Core.Path.{◌≡◌, refl}
use mathlib.Core.Bool.{Bool, false, true}
use mathlib.Core.List.{List, [], ◌∷◌}
use mathlib.Core.Option.{some}
use mathlib.Core.Logic.{inl, inr}
use native.Mathlib.Omega.{arith}
use meeting_room_booking_sys.Prelude.Tests.{Bool-cases}
use meeting_room_booking_sys.Prelude.Lists.{any, find_first, All, update_where}
use meeting_room_booking_sys.Prelude.Counting.{count_where, count_where_pos, any_of_count_zero}
use meeting_room_booking_sys.Prelude.Updates.{count_where_mono, any_of_found}

module _ {ℓ} {A : Type ℓ} where
  none_passes :
      (p : A → Bool) (xs : List A) (x : A) → any p xs ≡ false → All (λ y. p y ≡ true → y ≡ x) xs
  none_passes p [] x h = tt
  none_passes p (y ∷ xs) x h =
      let both : (p y ≡ false) × (any p xs ≡ false) = ground arith in
      (λ e. cc (both.0, e), none_passes p xs x both.1)

  -- Every row that passes a test is the found one, where a key of the test is distinct.
  pub unique_All :
      (p q : A → Bool) (xs : List A) (x : A)
      → ((y : A) → p y ≡ true → q y ≡ true)
      → count_where q xs ≤ 1
      → find_first p xs ≡ some x
      → All (λ y. p y ≡ true → y ≡ x) xs
  unique_All p q [] x i c h = tt
  unique_All p q (y ∷ xs) x i c h = elim (Bool-cases (p y)) [
    | inl e ↦
        let same : some y ≡ some x = (rw e at h) in
        let rest : count_where p xs ≡ 0 = ground (arith, i y e, count_where_mono p q xs i) in
        (λ k. cc, none_passes p xs x (any_of_count_zero p xs rest))
    | inr e ↦
        let fewer : count_where q xs ≤ 1 = ground arith in
        (λ k. cc, unique_All p q xs x i fewer (rw e at h))
  ]

  -- An update of rows that pass `q` neither before nor after it.
  pub find_first-update_other :
      (p q : A → Bool) (f : A → A) (xs : List A)
      → All (λ y. p y ≡ true → (q y ≡ false) × (q (f y) ≡ false)) xs
      → find_first q (update_where p f xs) ≡ find_first q xs
  find_first-update_other p q f [] h = refl
  find_first-update_other p q f (y ∷ xs) h = elim (Bool-cases (p y)) [
    | inl e ↦
        let (before, after) = h.0 e in
        rw e (rw before (rw after (find_first-update_other p q f xs h.1)))
    | inr e ↦ rw e (rw (find_first-update_other p q f xs h.1) refl)
  ]

  -- A row found by one test is found by another that it passes, if one row passes that at most.
  pub find_first_shared :
      (p q : A → Bool) (xs : List A) (x : A)
      → count_where q xs ≤ 1
      → q x ≡ true
      → find_first p xs ≡ some x
      → find_first q xs ≡ some x
  find_first_shared p q [] x c k h = cc
  find_first_shared p q (y ∷ xs) x c k h = elim (Bool-cases (p y)) [
    | inl e ↦
        let same : some y ≡ some x = (rw e at h) in let passes : q y ≡ true = cc in rw passes same
    | inr e ↦
        let later : find_first p xs ≡ some x = (rw e at h) in
        let more = count_where_pos q xs (any_of_found q p xs x later k) in
        let fewer : (count_where q xs ≤ 1) × (q y ≡ false) = ground (arith, more) in
        rw (fewer.1) (find_first_shared p q xs x fewer.0 k later)
  ]
