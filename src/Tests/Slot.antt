-- ===== src/Tests/Slot.antt =====
-- The clock, the slots of a schedule, their storage and the list of free slots.
use mathlib.Core.List.{Perm}
use meeting_room_booking_sys.Prelude.{ℕ, ◌+◌, ◌≡◌, refl, arith, List, [], ◌∷◌, none, some, select}
use meeting_room_booking_sys.Model.{Slot, ok}
use meeting_room_booking_sys.Database.{Db, committed}
use meeting_room_booking_sys.Database.Sorting.{stable, IsSortedBy, ascending}
use meeting_room_booking_sys.Clock.{parse_time}
use meeting_room_booking_sys.Slots.{instant, is_day_in_schedule, generate_slots, ensure_slots}
use meeting_room_booking_sys.Slots.Generation.{consecutive, half_hours, generate_slots_lem}
use meeting_room_booking_sys.Slots.Availability.{is_free}
use meeting_room_booking_sys.SlotService.{SlotsCall, day_start, day_end, list_available_slots}
use meeting_room_booking_sys.SlotService.Guarantees.{list_available_slots_lem, day_slots}
use meeting_room_booking_sys.Tests.Data.{tables, saturdays}

-- "9:30"
abbrev half_past_nine : List ℕ
half_past_nine = b'9' ∷ b':' ∷ b'3' ∷ b'0' ∷ []

-- "10:40"
abbrev ten_forty : List ℕ
ten_forty = b'1' ∷ b'0' ∷ b':' ∷ b'4' ∷ b'0' ∷ []

parsed_nine : parse_time half_past_nine ≡ some (9, 30)
unfolding parse_time
parsed_nine = refl

parsed_ten : parse_time ten_forty ≡ some (10, 40)
unfolding parse_time
parsed_ten = refl

generate_slots_lem_example :
    generate_slots (λ i. i) 1 6 half_past_nine ten_forty
    ≡ ok (consecutive (half_hours (9, 30) (10, 40)) (λ i. i) 0 1 (instant 6 (9, 30)))
generate_slots_lem_example =
    generate_slots_lem (λ i. i) 1 6 half_past_nine ten_forty (9, 30) (10, 40) parsed_nine parsed_ten

abbrev two_slots : List Slot
two_slots = consecutive 2 (λ i. i) 0 1 (instant 6 (9, 30))

generated_two : generate_slots (λ i. i) 1 6 half_past_nine ten_forty ≡ ok two_slots
generated_two =
    generate_slots_lem (λ i. i) 1 6 half_past_nine ten_forty (9, 30) (10, 40) parsed_nine parsed_ten

abbrev ensured : Db
ensured = (ensure_slots tables committed (consecutive 2 (λ i. i + 40) 0 1 1000)).0

ensured_run :
    ensure_slots tables committed (consecutive 2 (λ i. i + 40) 0 1 1000) ≡ (ensured, ok tt)
unfolding ensure_slots consecutive
ensured_run = refl

abbrev slots_call : SlotsCall
slots_call = record {
  room_fails = none;
  schedule_fails = none;
  ensure_reply = committed;
  list_fails = none;
  new_id = λ i. i + 40;
  before_list = λ d. d;
}

abbrev saturday_tables : Db
saturday_tables = (ensure_slots tables committed (day_slots slots_call 1 0 saturdays)).0

saturday_run :
    ensure_slots tables committed (day_slots slots_call 1 0 saturdays) ≡ (saturday_tables, ok tt)
unfolding ensure_slots consecutive
saturday_run = refl

list_available_slots_lem_example :
    (slots : List Slot) × (list_available_slots stable tables slots_call 1 0
      ≡ (saturday_tables, ok slots))
    × Perm slots (
        select (is_free saturday_tables.bookings 1 (day_start 0) (day_end 0)) saturday_tables.slots)
    × IsSortedBy (ascending (λ s. s.start_at)) slots
unfolding is_day_in_schedule
list_available_slots_lem_example =
    list_available_slots_lem stable tables saturday_tables slots_call 1 0 saturdays
      (record { room_read = refl; schedule_read = refl; slots_written = refl; slots_read = refl })
      refl refl refl (omega arith) (omega arith) saturday_run
