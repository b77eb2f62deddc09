-- ===== src/SlotService.antt =====
-- `ListAvailableSlots` of booking-service/internal/service/slot/slot.go, over the repositories.
pub mod Guarantees
use meeting_room_booking_sys.Prelude.{
  ℕ, ◌+◌, ◌*◌, Bool, true, false, if◌then◌else◌, List, [], Option,
}
use meeting_room_booking_sys.Model.{
  Slot, Schedule, Error, room_not_found, schedule_not_found, Result, ok, err,
}
use meeting_room_booking_sys.Database.{Db, CommitReply}
use meeting_room_booking_sys.Database.Sorting.{Order}
use meeting_room_booking_sys.Clock.{day}
use meeting_room_booking_sys.Schedules.{room_exists, get_schedule_by_room_id}
use meeting_room_booking_sys.Slots.{
  is_day_in_schedule, generate_slots, ensure_slots, list_available_by_room_and_date,
}

-- One call: what fails, the identifiers of new slots, and what other requests do to the database
-- between the insertion of the slots and the query of the free ones.
pub record SlotsCall : Type 0 where
  pub room_fails : Option ℕ
  pub schedule_fails : Option ℕ
  pub ensure_reply : CommitReply
  pub list_fails : Option ℕ
  pub new_id : ℕ → ℕ
  pub before_list : Db → Db

-- `dayStart`, and `dayEnd` by `AddDate(0, 0, 1)`: in UTC a day always has 24 hours.
abbrev pub day_start : ℕ → ℕ
day_start date = date * day

abbrev pub day_end : ℕ → ℕ
day_end date = day_start date + day

abbrev pub list_ensured :
    Order → SlotsCall → ℕ → ℕ → Db × Result (Unit {0}) → Db × Result (List Slot)
list_ensured order c room_id date (db, err e) = (db, err e)
list_ensured order c room_id date (db, ok u) = (
  c.before_list db,
  list_available_by_room_and_date order (c.before_list db) c.list_fails room_id (day_start date)
      (day_end date),
)

abbrev pub with_slots :
    Order → SlotsCall → Db → ℕ → ℕ → Result (List Slot) → Db × Result (List Slot)
with_slots order c db room_id date (err e) = (db, err e)
with_slots order c db room_id date (ok slots) =
    list_ensured order c room_id date (ensure_slots db c.ensure_reply slots)

-- `errors.Is(err, model.ErrScheduleNotFound)`
abbrev pub no_schedule : Error → Result (List Slot)
no_schedule schedule_not_found = ok []
no_schedule e = err e

abbrev pub with_schedule :
    Order → SlotsCall → Db → ℕ → ℕ → Result Schedule → Db × Result (List Slot)
with_schedule order c db room_id date (err e) = (db, no_schedule e)
with_schedule order c db room_id date (ok s) =
    if is_day_in_schedule date s.days_of_week
    then with_slots order c db room_id date
        (generate_slots c.new_id room_id date s.start_time s.end_time)
    else (db, ok [])

abbrev pub with_room : Order → SlotsCall → Db → ℕ → ℕ → Result Bool → Db × Result (List Slot)
with_room order c db room_id date (err e) = (db, err e)
with_room order c db room_id date (ok false) = (db, err room_not_found)
with_room order c db room_id date (ok true) =
    with_schedule order c db room_id date (get_schedule_by_room_id db c.schedule_fails room_id)

-- `date` is the day of the argument, whose time of day the code ignores.
unfoldable pub list_available_slots : Order → Db → SlotsCall → ℕ → ℕ → Db × Result (List Slot)
list_available_slots order db c room_id date =
    with_room order c db room_id date (room_exists db c.room_fails room_id)
