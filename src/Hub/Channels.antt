-- ===== src/Hub/Channels.antt =====
-- The slice of channels under `Unsubscribe`: the swap with the last element removes one occurrence.
use meeting_room_booking_sys.Prelude.{
  ℕ, zero, suc, ◌+◌, ◌-◌, ◌<◌, ◌≡◌, refl, List, [], ◌∷◌, ◌++◌, Option, none, some, arith, length,
  All, All-take, All-set, All-get_or, Option-cases, length-take, ◌≤◌, inl, inr, take, get_or, set,
  ◌==◌, if◌then◌else◌, ap,
}
use meeting_room_booking_sys.Hub.{index_from, swap_remove, without}

abbrev pub count : ℕ → List ℕ → ℕ
count c [] = 0
count c (x ∷ xs) = let rest = count c xs in if x == c then suc rest else rest

abbrev one_if : ℕ → ℕ → ℕ
one_if x c = if x == c then 1 else 0

pub count-append : (c : ℕ) (xs ys : List ℕ) → count c (xs ++ ys) ≡ count c xs + count c ys
count-append c [] ys = omega arith
count-append c (x ∷ xs) ys = ground (arith, count-append c xs ys)

pub count-le-length : (c : ℕ) (xs : List ℕ) → count c xs ≤ length xs
count-le-length c [] = omega arith
count-le-length c (x ∷ xs) = ground (arith, count-le-length c xs)

count-set :
    (c v : ℕ) (xs : List ℕ) (i : ℕ)
    → i < length xs
    → count c (set xs i v) + one_if (get_or xs i 0) c ≡ count c xs + one_if v c
count-set c v [] i h = elim h [ ]
count-set c v (x ∷ xs) zero h = ground arith
count-set c v (x ∷ xs) (suc i) h = ground (arith, count-set c v xs i)

count-take :
    (c n : ℕ) (xs : List ℕ)
    → length xs ≡ suc n
    → count c (take n xs) + one_if (get_or xs n 0) c ≡ count c xs
count-take c n [] h = absurd (omega arith)
count-take c zero (x ∷ []) h = ground arith
count-take c zero (x ∷ y ∷ xs) h = absurd (omega arith)
count-take c (suc n) (x ∷ xs) h = ground (arith, count-take c n xs)

length-set : (xs : List ℕ) (i v : ℕ) → length (set xs i v) ≡ length xs
length-set [] i v = refl
length-set (x ∷ xs) zero v = refl
length-set (x ∷ xs) (suc i) v = omega (arith, length-set xs i v)

get_or-set_last :
    (xs : List ℕ) (i n : ℕ)
    → length xs ≡ suc n
    → get_or (set xs i (get_or xs n 0)) n 0 ≡ get_or xs n 0
get_or-set_last [] i n h = absurd (omega arith)
get_or-set_last (x ∷ xs) zero zero h = refl
get_or-set_last (x ∷ xs) zero (suc n) h = refl
get_or-set_last (x ∷ xs) (suc i) zero h = refl
get_or-set_last (x ∷ xs) (suc i) (suc n) h = get_or-set_last xs i n (omega arith)

-- The swap removes one occurrence of the channel at the index.
count-swap_remove :
    (c : ℕ) (xs : List ℕ) (i : ℕ)
    → i < length xs
    → count c (swap_remove xs i) + one_if (get_or xs i 0) c ≡ count c xs
unfolding swap_remove
count-swap_remove c xs i h =
    let n = length xs - 1 in
    let v = get_or xs n 0 in
    omega (
      arith,
      count-set c v xs i h,
      count-take c n (set xs i v) (omega (arith, length-set xs i v)),
      ap (λ (w : ℕ). one_if w c) (get_or-set_last xs i n (omega arith)),
    )

get_or_here : (c : ℕ) (xs : List ℕ) (k : ℕ) → get_or (c ∷ xs) (k - k) 0 ≡ c
get_or_here c xs k = let e : k - k ≡ 0 = omega arith in rw e

get_or_later :
    (c : ℕ) (xs : List ℕ) (k i : ℕ)
    → suc k ≤ i
    → get_or (c ∷ xs) (i - k) 0 ≡ get_or xs (i - suc k) 0
get_or_later c xs k i h = let e : i - k ≡ suc (i - suc k) = omega arith in rw e

-- Where the loop of `Unsubscribe` stops: at the channel, or nowhere if it is not there.
abbrev Stops : ℕ → ℕ → List ℕ → Option ℕ → Type 0
Stops k ch xs none = count ch xs ≡ 0
Stops k ch xs (some i) =
    (k ≤ i) × (i < k + length xs) × (get_or xs (i - k) 0 ≡ ch) × (0 < count ch xs)

index_from-Stops : (k ch : ℕ) (xs : List ℕ) → Stops k ch xs (index_from k ch xs)
unfolding index_from
index_from-Stops k ch [] = refl
index_from-Stops k ch (c ∷ xs) = step (index_from (suc k) ch xs) (index_from-Stops (suc k) ch xs)
  where
    step :
        (r : Option ℕ) → Stops (suc k) ch xs r → Stops k ch (c ∷ xs) (if c == ch then some k else r)
    step none h = ground (arith, get_or_here c xs k)
    step (some i) (ge, lt, at, pos) = ground (arith, get_or_here c xs k, get_or_later c xs k i)

-- `Unsubscribe` takes the channel out once, if it is there, and keeps every other channel.
pub count-without :
    (c ch : ℕ) (xs : List ℕ)
    → count c (without ch xs) ≡ (if c == ch then count c xs - 1 else count c xs)
unfolding without
count-without c ch xs = elim (Option-cases (index_from 0 ch xs)) [
  | inl e ↦ rw (e, without) (missing (rw e at (index_from-Stops 0 ch xs)))
  | inr (i, e) ↦ rw (e, without) (found i (rw e at (index_from-Stops 0 ch xs)))
]
  where
    missing : count ch xs ≡ 0 → count c xs ≡ (if c == ch then count c xs - 1 else count c xs)
    missing h = ground arith

    found :
        (i : ℕ)
        → Stops 0 ch xs (some i)
        → count c (swap_remove xs i) ≡ (if c == ch then count c xs - 1 else count c xs)
    found i (ge, lt, at, pos) = ground (arith, count-swap_remove c xs i (omega arith), at)

swap_remove-All {κ} : (P : ℕ → Type κ) (xs : List ℕ) (i : ℕ) → All P xs → All P (swap_remove xs i)
unfolding swap_remove
swap_remove-All P [] i h = h
swap_remove-All P (x ∷ xs) i h =
    All-take P _ (set (x ∷ xs) i _)
      (All-set P (x ∷ xs) i _ (All-get_or P (x ∷ xs) _ 0 (omega arith) h) h)

pub without-All {κ} : (P : ℕ → Type κ) (ch : ℕ) (xs : List ℕ) → All P xs → All P (without ch xs)
unfolding without
without-All P ch xs h = elim (Option-cases (index_from 0 ch xs)) [
  | inl e ↦ rw (e, without) h
  | inr (i, e) ↦ rw (e, without) (swap_remove-All P xs i h)
]

-- The slice loses exactly the channel that is found.
pub length-without :
    (ch : ℕ) (xs : List ℕ)
    → length (without ch xs) ≡ (if count ch xs == 0 then length xs else length xs - 1)
unfolding without
length-without ch xs = elim (Option-cases (index_from 0 ch xs)) [
  | inl e ↦
      let gone : count ch xs ≡ 0 = (rw e at (index_from-Stops 0 ch xs)) in
      rw (e, without, gone) refl
  | inr (i, e) ↦ rw (e, without) (found i (rw e at (index_from-Stops 0 ch xs)))
]
  where
    found :
        (i : ℕ)
        → Stops 0 ch xs (some i)
        → length (swap_remove xs i) ≡ (if count ch xs == 0 then length xs else length xs - 1)
    found i (ge, lt, at, pos) =
        unfold swap_remove in
        ground (
          arith,
          length-take (length xs - 1) (set xs i (get_or xs (length xs - 1) 0)),
          length-set xs i (get_or xs (length xs - 1) 0),
        )
