-- ===== src/Database/Distinct.antt =====
-- ORDER BY leaves no choice where no two rows have the same key.
use mathlib.Core.List.{Perm}
use mathlib.Core.List.Perm
use mathlib.Core.Logic.{∥∥₁_elim}
use meeting_room_booking_sys.Prelude.{
  ℕ, ◌≤◌, ◌<◌, ◌==◌, ◌≡◌, refl, sym, ap₂, subst, inl, inr, arith, true, List, [], ◌∷◌, All,
  Bool-cases, count_where, count_where-Perm, length-Perm, ==_refl,
}
use meeting_room_booking_sys.Database.Sorting.{IsSortedBy, descending}

-- No two rows have the same key.
abbrev pub HasDistinct : {A : Type 0} → (A → ℕ) → List A → Type 0
HasDistinct key xs = (k : ℕ) → count_where (λ x. key x == k) xs ≤ 1

module _ {A : Type 0} (set : IsSet A) (key : A → ℕ) where
  -- A key that a row behind `a` has is not greater than that of `a`.
  key-le :
      (a : A) (k : ℕ) (xs : List A)
      → All (λ y. descending key a y ≡ true) xs
      → 0 < count_where (λ x. key x == k) xs
      → k ≤ key a
  key-le a k [] h c = absurd (omega arith)
  key-le a k (x ∷ xs) h c = elim (Bool-cases (key x == k)) [
    | inl e ↦ ground (arith, h.0)
    | inr e ↦ key-le a k xs h.1 (ground arith)
  ]

  there : (a : A) (xs ys : List A) → Perm xs (a ∷ ys) → 0 < count_where (λ x. key x == key a) xs
  there a xs ys p = ground (arith, count_where-Perm (λ x. key x == key a) p, ==_refl (key a))

  first_same :
      (a b : A) (xs ys : List A)
      → IsSortedBy (descending key) (a ∷ xs)
      → IsSortedBy (descending key) (b ∷ ys)
      → HasDistinct key (a ∷ xs)
      → Perm (a ∷ xs) (b ∷ ys)
      → a ≡ b
  first_same a b xs ys s t d p = ∥∥₁_elim (Perm.cons-cons_cases p) (set a b) (λ w. elim w [
    | inl (e, q) ↦ e
    | inr (cs, q, r) ↦
        let low = key-le a (key b) xs s.0 (there b xs cs q) in
        let high = key-le b (key a) ys t.0 (there a ys cs r) in
        let same : key b ≡ key a = omega (arith, low, high) in
        absurd (
          ground (
            arith,
            d (key a),
            subst (λ k. 0 < count_where (λ x. key x == k) xs) same (there b xs cs q),
            ==_refl (key a),
          ))
  ])

  -- Two sorted lists of the same rows are one list, if no two rows have the same key.
  pub sorted_unique :
      (xs ys : List A)
      → IsSortedBy (descending key) xs
      → IsSortedBy (descending key) ys
      → HasDistinct key xs
      → Perm xs ys
      → xs ≡ ys
  sorted_unique [] [] s t d p = refl
  sorted_unique [] (b ∷ ys) s t d p = absurd (omega (arith, length-Perm p))
  sorted_unique (a ∷ xs) [] s t d p = absurd (omega (arith, length-Perm p))
  sorted_unique (a ∷ xs) (b ∷ ys) s t d p =
      let e = first_same a b xs ys s t d p in
      ap₂ ◌∷◌ e (
        sorted_unique xs ys s.1 t.1 (λ k. ground (arith, d k))
          (Perm.cons_inv (subst (λ c. Perm (a ∷ xs) (c ∷ ys)) (sym e) p)))
