-- ===== src/SlotService/Guarantees.antt =====
-- What a caller of `ListAvailableSlots` gets for a room with a schedule.
use mathlib.Core.List.{Perm}
use meeting_room_booking_sys.Prelude.{
  ℕ, ◌/◌, ◌%◌, ◌<◌, ◌≡◌, refl, ap, ◌∙◌, List, [], Option, none, some, Bool, true, false, find_first,
  any, select, if◌then◌else◌, ◌==◌,
}
use meeting_room_booking_sys.Model.{Slot, Schedule, Result, ok, err}
use meeting_room_booking_sys.Database.{Db, ScheduleRow, CommitReply, committed}
use meeting_room_booking_sys.Database.Sorting.{Order, IsSortedBy, ascending}
use meeting_room_booking_sys.Clock.{to_char}
use meeting_room_booking_sys.Clock.RoundTrip.{parse_time-to_char}
use meeting_room_booking_sys.Bookings.Validity.{IsValid}
use meeting_room_booking_sys.BookingService.Guarantees.{Keeps, Preserves}
use meeting_room_booking_sys.Schedules.{room_exists, get_schedule_by_room_id, to_schedule}
use meeting_room_booking_sys.Slots.{
  is_day_in_schedule, generate_slots, ensure_slots, list_available_by_room_and_date, instant,
}
use meeting_room_booking_sys.Slots.Generation.{consecutive, half_hours, generate_slots_lem}
use meeting_room_booking_sys.Slots.Storage.{ensure_slots-IsValid}
use meeting_room_booking_sys.Slots.Availability.{is_free, list_available_lem}
use meeting_room_booking_sys.SlotService.{
  SlotsCall, day_start, day_end, list_ensured, with_slots, with_schedule, with_room,
  list_available_slots,
}

-- A property of the tables that the insertion of slots keeps is kept by the service, if the requests
-- that run before its last query keep it.
module _ (P : Db → Type 0)
    (ensuring : (d : Db) (reply : CommitReply) (slots : List Slot)
      → P d
      → P (ensure_slots d reply slots).0)
    (order : Order) (c : SlotsCall) (room_id date : ℕ) (k : Preserves P c.before_list) where
  list_ensured-Preserves :
      (out : Db × Result (Unit {0})) → P out.0 → P (list_ensured order c room_id date out).0
  list_ensured-Preserves (db, err e) v = v
  list_ensured-Preserves (db, ok u) v = k db v

  with_slots-Preserves :
      (db : Db) (r : Result (List Slot)) → P db → P (with_slots order c db room_id date r).0
  with_slots-Preserves db (err e) v = v
  with_slots-Preserves db (ok slots) v =
      list_ensured-Preserves (ensure_slots db c.ensure_reply slots)
        (ensuring db c.ensure_reply slots v)

  with_schedule-Preserves :
      (db : Db) (r : Result Schedule) → P db → P (with_schedule order c db room_id date r).0
  with_schedule-Preserves db (err e) v = v
  with_schedule-Preserves db (ok s) v = by_day (is_day_in_schedule date s.days_of_week)
    where
      generated : Result (List Slot)
      generated = generate_slots c.new_id room_id date s.start_time s.end_time

      by_day :
          (b : Bool) → P (if b then with_slots order c db room_id date generated else (db, ok [])).0
      by_day true = with_slots-Preserves db generated v
      by_day false = v

  pub list_available_slots-Preserves :
      (db : Db) → P db → P (list_available_slots order db c room_id date).0
  unfolding list_available_slots
  list_available_slots-Preserves db v = by_room (room_exists db c.room_fails room_id)
    where
      by_room : (r : Result Bool) → P (with_room order c db room_id date r).0
      by_room (err e) = v
      by_room (ok false) = v
      by_room (ok true) =
          with_schedule-Preserves db (get_schedule_by_room_id db c.schedule_fails room_id) v

-- `ListAvailableSlots` keeps the invariant of the tables, although it writes the slots of the day.
pub list_available_slots-IsValid :
    (order : Order) (db : Db) (c : SlotsCall) (room_id date : ℕ)
    → Keeps c.before_list
    → IsValid db
    → IsValid (list_available_slots order db c room_id date).0
list_available_slots-IsValid order db c room_id date k v =
    list_available_slots-Preserves IsValid ensure_slots-IsValid order c room_id date k db v

-- The calls of the repositories all succeed.
pub record Runs (c : SlotsCall) : Type 0 where
  pub room_read : c.room_fails ≡ none
  pub schedule_read : c.schedule_fails ≡ none
  pub slots_written : c.ensure_reply ≡ committed
  pub slots_read : c.list_fails ≡ none

abbrev pub times_of : ℕ → ℕ × ℕ
times_of minutes = (minutes / 60, minutes % 60)

-- The slots that the schedule has for the date.
abbrev pub day_slots : SlotsCall → ℕ → ℕ → ScheduleRow → List Slot
day_slots c room_id date r =
    consecutive (half_hours (times_of r.start_time) (times_of r.end_time)) c.new_id 0 room_id
      (instant date (times_of r.start_time))

generated_day :
    (c : SlotsCall) (room_id date : ℕ) (r : ScheduleRow)
    → r.start_time < 1440
    → r.end_time < 1440
    → generate_slots c.new_id room_id date (to_schedule r).start_time (to_schedule r).end_time
      ≡ ok (day_slots c room_id date r)
unfolding to_schedule
generated_day c room_id date r a b =
    generate_slots_lem c.new_id room_id date (to_char r.start_time) (to_char r.end_time)
      (times_of r.start_time) (times_of r.end_time) (parse_time-to_char r.start_time a)
      (parse_time-to_char r.end_time b)

room_read :
    (db : Db) (fails : Option ℕ) (room_id : ℕ)
    → fails ≡ none
    → any (λ m. m.id == room_id) db.rooms ≡ true
    → room_exists db fails room_id ≡ ok true
unfolding room_exists
room_read db fails room_id h e = rw (h, e) refl

schedule_read :
    (db : Db) (fails : Option ℕ) (room_id : ℕ) (r : ScheduleRow)
    → fails ≡ none
    → find_first (λ s. s.room_id == room_id) db.schedules ≡ some r
    → get_schedule_by_room_id db fails room_id ≡ ok (to_schedule r)
unfolding get_schedule_by_room_id
schedule_read db fails room_id r h e = rw (h, e) refl

scheduled_day :
    (order : Order) (db : Db) (c : SlotsCall) (room_id date : ℕ) (r : ScheduleRow)
    → is_day_in_schedule date r.days_of_week ≡ true
    → with_schedule order c db room_id date (ok (to_schedule r))
      ≡ with_slots order c db room_id date
          (generate_slots c.new_id room_id date (to_schedule r).start_time (to_schedule r).end_time)
unfolding to_schedule
scheduled_day order db c room_id date r h = rw h refl

-- For a room with a schedule that has the day of the week of the date, if the database stores the
-- slots of the day, the answer is exactly the free slots of the room on that date, as the tables are
-- at the query, by their start.
pub list_available_slots_lem :
    (order : Order) (db stored : Db) (c : SlotsCall) (room_id date : ℕ) (r : ScheduleRow)
    → Runs c
    → any (λ m. m.id == room_id) db.rooms ≡ true
    → find_first (λ s. s.room_id == room_id) db.schedules ≡ some r
    → is_day_in_schedule date r.days_of_week ≡ true
    → r.start_time < 1440
    → r.end_time < 1440
    → ensure_slots db committed (day_slots c room_id date r) ≡ (stored, ok tt)
    → (slots : List Slot) × (list_available_slots order db c room_id date
        ≡ (c.before_list stored, ok slots))
      × Perm slots (
          select
            (is_free (c.before_list stored).bookings room_id (day_start date) (day_end date))
            (c.before_list stored).slots)
      × IsSortedBy (ascending (λ s. s.start_at)) slots
unfolding list_available_slots
list_available_slots_lem order db stored c room_id date r runs room schedule on_day a b done =
    let (slots, e, p, s) =
      list_available_lem order (c.before_list stored) room_id (day_start date) (day_end date) in
    (
      slots,
      ap (with_room order c db room_id date) (room_read db c.room_fails room_id runs.room_read room)
          ∙ ap (with_schedule order c db room_id date)
              (schedule_read db c.schedule_fails room_id r runs.schedule_read schedule)
          ∙ scheduled_day order db c room_id date r on_day
          ∙ ap (with_slots order c db room_id date) (generated_day c room_id date r a b)
          ∙ ap
              (λ f.
                list_ensured order c room_id date (ensure_slots db f (day_slots c room_id date r)))
              runs.slots_written
          ∙ ap (list_ensured order c room_id date) done
          ∙ ap
              (λ f. (
                c.before_list stored,
                list_available_by_room_and_date order (c.before_list stored) f room_id
                    (day_start date) (day_end date),
              ))
              runs.slots_read
          ∙ ap (λ l. (c.before_list stored, l)) e,
      p,
      s,
    )
