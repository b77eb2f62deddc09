-- ===== src/Bookings/Listing.antt =====
-- The pages of `ListBookings`, and the list of `ListUserBookings`.
use mathlib.Core.List.{Perm}
use mathlib.Core.List.Perm
use text.Mathlib.TextEquality.{IsScalar-prop}
use Prim.Native.Nat.{min}
use Prim.Native.Nat.add
use meeting_room_booking_sys.Prelude.{
  ℕ, zero, suc, ◌+◌, ◌-◌, ◌*◌, ◌≤◌, ◌<◌, ◌≡◌, refl, ap, ◌∙◌, List, [], ◌∷◌, ◌++◌, none, arith,
  length, length-take, length-drop, take, drop, length-Perm, count_where-Perm, ◌==◌, ltb,
  if◌then◌else◌, Bool-cases, inl, inr, false, ltb→lt, le_of_ltb,
}
use meeting_room_booking_sys.Model.{Booking, Result, ok, err, other}
use meeting_room_booking_sys.Database.{Db}
use meeting_room_booking_sys.Database.Sorting.{Order}
use meeting_room_booking_sys.Database.Distinct.{HasDistinct, sorted_unique}
use meeting_room_booking_sys.Bookings.{list_bookings, total_of, negative_offset}

abbrev pub by_creation : Order → Db → List Booking
by_creation order db = order.desc Booking (λ b. b.created_at) db.bookings

-- Page `page` of pages of `page_size`, counted from 1.
abbrev pub page_rows : Order → Db → ℕ → ℕ → List Booking
page_rows order db page page_size =
    take page_size (drop ((page - 1) * page_size) (by_creation order db))

take_nil {ℓ} : {A : Type ℓ} (n : ℕ) → take {A = A} n [] ≡ []
take_nil zero = refl
take_nil (suc n) = refl

take-drop {ℓ} :
    {A : Type ℓ} (m n : ℕ) (xs : List A) → take m xs ++ take n (drop m xs) ≡ take (m + n) xs
take-drop zero n xs = rw (add.zero n) refl
take-drop (suc m) n [] = rw (add.suc m n) (take_nil n)
take-drop (suc m) n (x ∷ xs) = rw (add.suc m n) (ap (◌∷◌ x) (take-drop m n xs))

take_all {ℓ} : {A : Type ℓ} (n : ℕ) (xs : List A) → length xs ≤ n → take n xs ≡ xs
take_all zero [] h = refl
take_all zero (x ∷ xs) h = absurd (omega arith)
take_all (suc n) [] h = refl
take_all (suc n) (x ∷ xs) h = ap (◌∷◌ x) (take_all n xs (omega arith))

length-by_creation : (order : Order) (db : Db) → length (by_creation order db) ≡ length db.bookings
length-by_creation order db = length-Perm (order.desc-perm Booking (λ b. b.created_at) db.bookings)

total_of-empty : {A : Type 0} (rows : List A) (n : ℕ) → length rows ≡ 0 → total_of rows n ≡ 0
total_of-empty [] n h = refl
total_of-empty (r ∷ rows) n h = absurd (omega arith)

total_of-some : {A : Type 0} (rows : List A) (n : ℕ) → 0 < length rows → total_of rows n ≡ n
total_of-some [] n h = absurd (omega arith)
total_of-some (r ∷ rows) n h = refl

-- If the query does not fail and the page size is positive, `ListBookings` refuses page 0, and answers
-- for any other page its rows, and as the total the number of bookings if the page starts before the
-- end of the list, and otherwise 0, however many bookings there are.
pub list_bookings_lem :
    (order : Order) (db : Db) (page page_size : ℕ)
    → 1 ≤ page_size
    → list_bookings order db none page page_size ≡ (
        if page == 0
        then err (other negative_offset)
        else ok (
          page_rows order db page page_size,
          if ltb ((page - 1) * page_size) (length db.bookings) then length db.bookings else 0,
        ))
unfolding list_bookings
list_bookings_lem order db page page_size h = elim (Bool-cases (page == 0)) [
  | inl first ↦ ground (arith, first, h)
  | inr later ↦ rw later (ap (λ (t : ℕ). ok (page_rows order db page page_size, t)) total)
]
  where
    skipped : ℕ
    skipped = (page - 1) * page_size

    rows_length :
        length (page_rows order db page page_size) ≡ min page_size (length db.bookings - skipped)
    rows_length =
        length-take page_size (drop skipped (by_creation order db))
        ∙ ap (min page_size) (
            length-drop skipped (by_creation order db)
            ∙ ap (λ (k : ℕ). k - skipped) (length-by_creation order db))

    total :
        total_of (page_rows order db page page_size) (length db.bookings)
        ≡ (if ltb skipped (length db.bookings) then length db.bookings else 0)
    total = elim (Bool-cases (ltb skipped (length db.bookings))) [
      | inl within ↦ rw within (
          total_of-some (page_rows order db page page_size) (length db.bookings)
            (omega (arith, rows_length, ltb→lt skipped (length db.bookings) within)))
      | inr past ↦ rw past (
          total_of-empty (page_rows order db page page_size) (length db.bookings)
            (omega (arith, rows_length, le_of_ltb skipped (length db.bookings) past)))
    ]

-- The rows of an answer.
abbrev pub rows_of : Result (List Booking × ℕ) → List Booking
rows_of (err e) = []
rows_of (ok (rows, total)) = rows

-- What `ListBookings` answers for the first `n` pages, one after the other. Each query may order
-- bookings of the same time in its own way.
pub pages : (ℕ → Order) → Db → ℕ → ℕ → List Booking
pages orders db page_size zero = []
pages orders db page_size (suc n) =
    pages orders db page_size n ++ rows_of (list_bookings (orders n) db none (suc n) page_size)

booking_set : IsSet Booking
booking_set = hlevel IsScalar-prop

-- No two bookings were made at the same time.
abbrev pub TimesDiffer : Db → Type 0
TimesDiffer db = HasDistinct (λ (b : Booking). b.created_at) db.bookings

by_creation_same :
    (order other_order : Order) (db : Db)
    → TimesDiffer db
    → by_creation order db ≡ by_creation other_order db
by_creation_same order other_order db d =
    sorted_unique booking_set (λ b. b.created_at) _ _
      (order.desc-IsSortedBy Booking (λ b. b.created_at) db.bookings)
      (other_order.desc-IsSortedBy Booking (λ b. b.created_at) db.bookings)
      (λ k. omega (
        arith,
        d k,
        count_where-Perm (λ (b : Booking). b.created_at == k)
            (order.desc-perm Booking (λ b. b.created_at) db.bookings),
      ))
      (Perm.trans (order.desc-perm Booking (λ b. b.created_at) db.bookings)
        (Perm.symm (other_order.desc-perm Booking (λ b. b.created_at) db.bookings)))

listed_rows :
    (order : Order) (db : Db) (n page_size : ℕ)
    → 1 ≤ page_size
    → rows_of (list_bookings order db none (suc n) page_size)
      ≡ take page_size (drop (n * page_size) (by_creation order db))
listed_rows order db n page_size h =
    let before : suc n - 1 ≡ n = omega arith in
    let later : (suc n == 0) ≡ false = ground arith in
    ap rows_of (list_bookings_lem order db (suc n) page_size h) ∙ rw (before, later) refl

pages-take :
    (orders : ℕ → Order) (db : Db) (page_size n : ℕ)
    → 1 ≤ page_size
    → TimesDiffer db
    → pages orders db page_size n ≡ take (n * page_size) (by_creation (orders 0) db)
unfolding pages
pages-take orders db page_size zero h d = let e : 0 * page_size ≡ 0 = omega arith in rw e refl
pages-take orders db page_size (suc n) h d =
    let after : n * page_size + page_size ≡ suc n * page_size = grind arith in
    let last : rows_of (list_bookings (orders n) db none (suc n) page_size)
        ≡ take page_size (drop (n * page_size) (by_creation (orders 0) db)) =
      listed_rows (orders n) db n page_size h
      ∙ ap (λ xs. take page_size (drop (n * page_size) xs))
          (by_creation_same (orders n) (orders 0) db d) in
    rw (pages-take orders db page_size n h d, last)
      (take-drop (n * page_size) page_size (by_creation (orders 0) db)
        ∙ ap (λ k. take k (by_creation (orders 0) db)) after)

-- In one state of the table, in which no two bookings have the same time, `ListBookings` answers on
-- enough pages of a positive size, without a failing query, every booking exactly as often as the
-- table holds it: no booking is missed or shown on two pages, whichever orders by time the queries
-- choose.
pub pages-Perm :
    (orders : ℕ → Order) (db : Db) (page_size n : ℕ)
    → 1 ≤ page_size
    → TimesDiffer db
    → length db.bookings ≤ n * page_size
    → Perm (pages orders db page_size n) db.bookings
pages-Perm orders db page_size n p d h =
    rw
      (
        pages-take orders db page_size n p d,
        take_all (n * page_size) (by_creation (orders 0) db)
            (omega (arith, length-by_creation (orders 0) db)),
      )
      ((orders 0).desc-perm Booking (λ b. b.created_at) db.bookings)
