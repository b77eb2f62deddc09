-- ===== src/Slots.antt =====
-- booking-service/internal/service/slot/slot.go and booking-service/internal/repo/slot/slot.go.
-- `new_id i` is what the i-th `uuid.New` of the loop returns.
pub mod Generation
pub mod Storage
pub mod Availability
use meeting_room_booking_sys.Prelude.{
  ℕ, suc, zero, ◌+◌, ◌-◌, ◌*◌, ◌==◌, ◌==ℤ◌, ℤ, pos, ◌&&◌, ◌||◌, not, if◌then◌else◌, any, select,
  find_first, length, drop, leb, ltb, List, [], ◌∷◌, ◌++◌, map, Option, none, some, Bool, true,
  false,
}
use meeting_room_booking_sys.Model.{
  Slot, Schedule, Booking, is_active, Error, room_not_found, slot_not_found, schedule_not_found,
  other, Result, ok, err, ◌>>=◌, ◌>>◌, attempt,
}
use meeting_room_booking_sys.Database.{Db, CommitReply, autocommit}
use meeting_room_booking_sys.Database.Sorting.{Order}
use meeting_room_booking_sys.Clock.{minute, day, weekday, parse_time}

-- `const slotDuration = 30 * time.Minute`
abbrev pub slot_duration : ℕ
slot_duration = 30 * minute

-- The numbers of the errors that are no sentinel.
abbrev pub bad_start_time : ℕ
bad_start_time = 3

abbrev pub bad_end_time : ℕ
bad_end_time = 4

abbrev pub out_of_fuel : ℕ
out_of_fuel = 5

abbrev pub slot_id_taken : ℕ
slot_id_taken = 6

abbrev pub slot_ends_early : ℕ
slot_ends_early = 7

abbrev pub room_missing : ℕ
room_missing = 8

abbrev pub iso_day : ℕ → ℕ
iso_day weekday = if weekday == 0 then 7 else weekday

unfoldable pub is_day_in_schedule : ℕ → List ℤ → Bool
is_day_in_schedule date days = any (λ d. d ==ℤ pos (iso_day (weekday date))) days

abbrev pub make_slot : (ℕ → ℕ) → ℕ → ℕ → ℕ → Slot
make_slot new_id i room_id cur = record {
  id = new_id i;
  room_id = room_id;
  start_at = cur;
  end_at = cur + slot_duration;
}

-- The `for` loop of `generateSlots`, from its i-th round; `none` is fuel that ran out.
unfoldable pub slots_from : ℕ → (ℕ → ℕ) → ℕ → ℕ → ℕ → ℕ → Option (List Slot)
slots_from zero new_id i room_id cur window_end = none
slots_from (suc fuel) new_id i room_id cur window_end =
    let rest = slots_from fuel new_id (suc i) room_id (cur + slot_duration) window_end in
    if ltb window_end (cur + slot_duration)
    then some []
    else elim rest [ none ↦ none | some slots ↦ some (make_slot new_id i room_id cur ∷ slots) ]

abbrev pub parsed : ℕ → Option (ℕ × ℕ) → Result (ℕ × ℕ)
parsed e none = err (other e)
parsed e (some t) = ok t

-- `time.Date(date.Year(), date.Month(), date.Day(), hour, minute, 0, 0, time.UTC)`
abbrev pub instant : ℕ → ℕ × ℕ → ℕ
instant date (hour, minutes) = date * day + (hour * 60 + minutes) * minute

abbrev pub generated : Option (List Slot) → Result (List Slot)
generated none = err (other out_of_fuel)
generated (some slots) = ok slots

-- A day has 48 half hours, so 49 rounds are enough (Slots/Generation.antt).
unfoldable pub generate_slots : (ℕ → ℕ) → ℕ → ℕ → List ℕ → List ℕ → Result (List Slot)
unfolding slots_from
generate_slots new_id room_id date start_time end_time = do
  start ← parsed bad_start_time (parse_time start_time)
  end ← parsed bad_end_time (parse_time end_time)
  generated (slots_from 49 new_id 0 room_id (instant date start) (instant date end))

-- The constraint UNIQUE (room_id, start_at).
abbrev pub same_place : Slot → Slot → Bool
same_place s t = t.room_id == s.room_id && t.start_at == s.start_at

-- One row of INSERT ... ON CONFLICT (room_id, start_at) DO NOTHING: the CHECK comes first, then the
-- conflict that is passed over, then the primary key, which no clause excuses.
unfoldable pub ensure_row : List Slot → Slot → Result (List Slot)
ensure_row table s =
    if leb s.end_at s.start_at
    then err (other slot_ends_early)
    else if any (same_place s) table
    then ok table
    else if any (λ t. t.id == s.id) table
    then err (other slot_id_taken)
    else ok (table ++ s ∷ [])

unfoldable pub ensure_rows : List Slot → List Slot → Result (List Slot)
unfolding ensure_row
ensure_rows table [] = ok table
ensure_rows table (s ∷ slots) = ensure_row table s >>= λ t. ensure_rows t slots

-- The rows that a statement wrote: they stand behind the others.
abbrev pub written : List Slot → List Slot → List Slot
written before after = drop (length before) after

-- The foreign key of `slots`, checked after the statement on the rows that it wrote.
abbrev pub rooms_known : Db → List Slot → Bool
rooms_known db slots = not (any (λ s. not (any (λ r. r.id == s.room_id) db.rooms)) slots)

abbrev pub checked : Db → Result (List Slot) → Result (Db × Unit {0})
checked db (err e) = err e
checked db (ok table) =
    if rooms_known db (written db.slots table)
    then ok (record db { slots = table }, tt)
    else err (other room_missing)

unfoldable pub ensure_slots : Db → CommitReply → List Slot → Db × Result (Unit {0})
unfolding ensure_rows
ensure_slots db reply [] = (db, ok tt)
ensure_slots db reply (s ∷ slots) =
    autocommit db (checked db (ensure_rows db.slots (s ∷ slots))) reply

abbrev pub or_no_slot : Option Slot → Result Slot
or_no_slot none = err slot_not_found
or_no_slot (some s) = ok s

unfoldable pub get_slot_by_id : Db → Option ℕ → ℕ → Result Slot
get_slot_by_id db fails id = attempt fails >> or_no_slot (find_first (λ s. s.id == id) db.slots)

-- LEFT JOIN bookings b ON b.slot_id = s.id AND b.status = 'active'
abbrev pub books : Slot → Booking → Bool
books s b = b.slot_id == s.id && is_active b.status

abbrev pub null_or : Slot → List Booking → List (Slot × Option Booking)
null_or s [] = (s, none) ∷ []
null_or s (b ∷ bs) = map (λ c. (s, some c)) (b ∷ bs)

unfoldable pub left_join : List Slot → List Booking → List (Slot × Option Booking)
left_join [] bookings = []
left_join (s ∷ slots) bookings = null_or s (select (books s) bookings) ++ left_join slots bookings

abbrev pub is_null : Option Booking → Bool
is_null none = true
is_null (some b) = false

abbrev pub is_in_range : ℕ → ℕ → ℕ → Slot → Bool
is_in_range room_id from to s = (s.room_id == room_id && leb from s.start_at) && ltb s.start_at to

abbrev pub is_listed : ℕ → ℕ → ℕ → Slot × Option Booking → Bool
is_listed room_id from to (s, b) = is_in_range room_id from to s && is_null b

unfoldable pub list_available_by_room_and_date :
    Order → Db → Option ℕ → ℕ → ℕ → ℕ → Result (List Slot)
unfolding left_join
list_available_by_room_and_date order db fails room_id from to = do
  attempt fails
  let rows = select (is_listed room_id from to) (left_join db.slots db.bookings)
  ok (map (λ r. r.0) (order.asc (Slot × Option Booking) (λ r. r.0.start_at) rows))
