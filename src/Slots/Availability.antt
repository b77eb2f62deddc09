-- ===== src/Slots/Availability.antt =====
-- The list of free slots against its specification.
use mathlib.Core.List.{Perm}
use mathlib.Core.List.Perm
use meeting_room_booking_sys.Prelude.{
  ℕ, ◌≡◌, refl, ap, ◌∙◌, List, [], ◌∷◌, map, Option, none, some, arith, Bool, Bool-cases, inl, inr,
  ◌⊎◌, any, select, select-append, All, ◌&&◌, not, if◌then◌else◌, true, false, subst,
}
use meeting_room_booking_sys.Model.{Slot, Booking, ok}
use meeting_room_booking_sys.Database.{Db}
use meeting_room_booking_sys.Database.Sorting.{Order, IsSortedBy, ascending}
use meeting_room_booking_sys.Slots.{
  books, null_or, left_join, is_in_range, is_listed, list_available_by_room_and_date,
}

-- A slot of the room that starts in the range and that no active booking holds.
abbrev pub is_free : List Booking → ℕ → ℕ → ℕ → Slot → Bool
is_free bookings room_id from to s = is_in_range room_id from to s && not (any (books s) bookings)

abbrev pub unbooked : Slot → Slot × Option Booking
unbooked s = (s, none)

select-some :
    (room_id from to : ℕ) (s : Slot) (bs : List Booking)
    → select (is_listed room_id from to) (map (λ c. (s, some c)) bs) ≡ []
select-some room_id from to s [] = refl
select-some room_id from to s (b ∷ bs) = ground (arith, select-some room_id from to s bs)

-- A test either selects nothing, or some first row.
select_cases :
    (p : Booking → Bool) (bs : List Booking)
    → ((any p bs ≡ false) × (select p bs ≡ []))
      ⊎ ((b : Booking) × (rest : List Booking) × (any p bs ≡ true) × (select p bs ≡ b ∷ rest))
select_cases p [] = inl (refl, refl)
select_cases p (b ∷ bs) = elim (Bool-cases (p b)) [
  | inl e ↦ inr (b, select p bs, rw e refl, rw e refl)
  | inr e ↦ elim (select_cases p bs) [
    | inl (a, s) ↦ inl (rw e a, rw e s)
    | inr (c, rest, a, s) ↦ inr (c, rest, rw e a, rw e s)
  ]
]

join_one :
    (room_id from to : ℕ) (s : Slot) (bookings : List Booking)
    → select (is_listed room_id from to) (null_or s (select (books s) bookings))
      ≡ (if is_free bookings room_id from to s then unbooked s ∷ [] else [])
join_one room_id from to s bookings = elim (select_cases (books s) bookings) [
  | inl (a, e) ↦ rw (e, a) (ground arith)
  | inr (b, rest, a, e) ↦ rw (e, a) (select-some room_id from to s (b ∷ rest) ∙ ground arith)
]

select-left_join :
    (room_id from to : ℕ) (slots : List Slot) (bookings : List Booking)
    → select (is_listed room_id from to) (left_join slots bookings)
      ≡ map unbooked (select (is_free bookings room_id from to) slots)
unfolding left_join
select-left_join room_id from to [] bookings = refl
select-left_join room_id from to (s ∷ slots) bookings =
    select-append (is_listed room_id from to) (null_or s (select (books s) bookings))
      (left_join slots bookings)
    ∙ rw (join_one room_id from to s bookings, select-left_join room_id from to slots bookings)
        (ground arith)

All-map :
    {A B : Type 0} (P : B → Type 0) (f : A → B) (xs : List A)
    → All (λ x. P (f x)) xs
    → All P (map f xs)
All-map P f [] h = tt
All-map P f (x ∷ xs) h = (h.0, All-map P f xs h.1)

IsSortedBy-map :
    {A B : Type 0} (before : B → B → Bool) (f : A → B) (xs : List A)
    → IsSortedBy (λ x y. before (f x) (f y)) xs
    → IsSortedBy before (map f xs)
IsSortedBy-map before f [] h = tt
IsSortedBy-map before f (x ∷ xs) h =
    (All-map (λ y. before (f x) y ≡ true) f xs h.0, IsSortedBy-map before f xs h.1)

map-unbooked : (slots : List Slot) → map (λ r. r.0) (map unbooked slots) ≡ slots
map-unbooked [] = refl
map-unbooked (s ∷ slots) = ap (◌∷◌ s) (map-unbooked slots)

-- If the query does not fail, it lists exactly the slots of the room that start in the range and
-- that no active booking holds, each as often as the table has it, by their start.
pub list_available_lem :
    (order : Order) (db : Db) (room_id from to : ℕ)
    → (slots : List Slot) × (list_available_by_room_and_date order db none room_id from to
        ≡ ok slots)
      × Perm slots (select (is_free db.bookings room_id from to) db.slots)
      × IsSortedBy (ascending (λ s. s.start_at)) slots
unfolding list_available_by_room_and_date
list_available_lem order db room_id from to =
    let key : Slot × Option Booking → ℕ = λ r. r.0.start_at in
    let rows = select (is_listed room_id from to) (left_join db.slots db.bookings) in
    let sorted = order.asc (Slot × Option Booking) key rows in
    let free = select (is_free db.bookings room_id from to) db.slots in
    let same : map (λ r. r.0) rows ≡ free =
      ap (map (λ (r : Slot × Option Booking). r.0))
        (select-left_join room_id from to db.slots db.bookings)
      ∙ map-unbooked free in
    (
      map (λ r. r.0) sorted,
      refl,
      subst (Perm (map (λ r. r.0) sorted)) same
          (Perm.map (λ r. r.0) (order.asc-perm (Slot × Option Booking) key rows)),
      IsSortedBy-map (ascending (λ s. s.start_at)) (λ r. r.0) sorted
          (order.asc-IsSortedBy (Slot × Option Booking) key rows),
    )
