-- ===== src/Prelude/Permuted.antt =====
-- What a permutation keeps: the length, and how many rows pass a test.
use Prim.Native.Nat.{ℕ, zero, suc}
use mathlib.Core.Path.{◌≡◌, refl, sym, ap, ◌∙◌}
use mathlib.Core.Bool.{Bool, true}
use mathlib.Core.List.{List, [], ◌∷◌, ◌++◌, Perm, Permᴰ}
use mathlib.Core.Logic.{∥∥₁_elim}
use native.Mathlib.Nat.{ℕ_set}
use native.Mathlib.Omega.{arith}
use meeting_room_booking_sys.Prelude.Lists.{length, take, drop}
use meeting_room_booking_sys.Prelude.Counting.{count_where}

module _ {ℓ} {A : Type ℓ} where
  count_where-Permᴰ :
      (p : A → Bool) {xs ys : List A} → Permᴰ xs ys → count_where p xs ≡ count_where p ys
  count_where-Permᴰ p Permᴰ.nil = refl
  count_where-Permᴰ p (Permᴰ.cons x h) = ground (arith, count_where-Permᴰ p h)
  count_where-Permᴰ p (Permᴰ.swap x y) = ground arith
  count_where-Permᴰ p (Permᴰ.trans h k) = count_where-Permᴰ p h ∙ count_where-Permᴰ p k

  pub count_where-Perm :
      (p : A → Bool) {xs ys : List A} → Perm xs ys → count_where p xs ≡ count_where p ys
  count_where-Perm p {xs} {ys} h = ∥∥₁_elim h (ℕ_set _ _) (λ d. count_where-Permᴰ p d)

  pub count_where-true : (xs : List A) → count_where (λ x. true) xs ≡ length xs
  count_where-true [] = refl
  count_where-true (x ∷ xs) = ap suc (count_where-true xs)

  pub length-Perm : {xs ys : List A} → Perm xs ys → length xs ≡ length ys
  length-Perm {xs} {ys} h =
      sym (count_where-true xs) ∙ count_where-Perm (λ x. true) h ∙ count_where-true ys

  pub take-append-drop : (n : ℕ) (xs : List A) → take n xs ++ drop n xs ≡ xs
  take-append-drop zero xs = refl
  take-append-drop (suc n) [] = refl
  take-append-drop (suc n) (x ∷ xs) = ap (◌∷◌ x) (take-append-drop n xs)
