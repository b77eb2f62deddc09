-- ===== src/Tests/Data.antt =====
-- Tables with one room, two slots, two users, one booking and the event that reports it.
use meeting_room_booking_sys.Prelude.{ℕ, pos, true, Bool, [], ◌∷◌, none, refl, arith}
use meeting_room_booking_sys.Model.{
  Booking, Room, Slot, User, BookingEvent, active, user, event_booking_created,
}
use meeting_room_booking_sys.Database.{Db, OutboxRow, ScheduleRow, committed}
use meeting_room_booking_sys.Relay.{Store, Poll, delivered, failed}
use meeting_room_booking_sys.Relay.Counting.{IsKeyed}
use meeting_room_booking_sys.Relay.Drain.{Succeeds}
use meeting_room_booking_sys.Bookings.{Call}
use meeting_room_booking_sys.Bookings.Events.{IsLinked}
use meeting_room_booking_sys.Bookings.Validity.{IsValid}

abbrev pub small_room : Room
small_room = record { id = 1; name = "small"; description = none; capacity = none; created_at = 0 }

abbrev pub morning : Slot
morning = record { id = 5; room_id = 1; start_at = 100; end_at = 200 }

abbrev pub noon : Slot
noon = record { id = 6; room_id = 1; start_at = 300; end_at = 400 }

abbrev pub ann : User
ann = record { id = 7; email = "ann"; password = none; role = user; created_at = 0 }

abbrev pub bob : User
bob = record { id = 8; email = "bob"; password = none; role = user; created_at = 0 }

abbrev pub booked : Booking
booked = record {
  id = 9;
  slot_id = 5;
  user_id = 7;
  status = active;
  conference_link = none;
  created_at = 10;
}

abbrev pub booked_event : BookingEvent
booked_event = record {
  event_id = 20;
  event_type = event_booking_created;
  occurred_at = 10;
  booking_id = 9;
  user_id = 7;
  room_id = 1;
  room_name = "small";
  slot_start = 100;
  slot_end = 200;
}

abbrev pub booked_row : OutboxRow
booked_row = record {
  id = 20;
  event_type = event_booking_created;
  payload = booked_event;
  created_at = 10;
  sent_at = none;
}

-- Saturdays from 09:00 to 10:00.
abbrev pub saturdays : ScheduleRow
saturdays = record {
  id = 30;
  room_id = 1;
  days_of_week = pos 6 ∷ [];
  start_time = 540;
  end_time = 600;
  created_at = 0;
}

abbrev pub tables : Db
tables = record {
  users = ann ∷ bob ∷ [];
  rooms = small_room ∷ [];
  schedules = saturdays ∷ [];
  slots = morning ∷ noon ∷ [];
  bookings = booked ∷ [];
  outbox = booked_row ∷ [];
}

pub tables-IsLinked : IsLinked tables
tables-IsLinked = record {
  slots_keyed = λ id. ground arith;
  rooms_keyed = λ id. ground arith;
  rooms_linked = (refl, (refl, tt));
}

pub tables-IsValid : IsValid tables
tables-IsValid = record {
  linked = tables-IsLinked;
  one_active = λ slot_id. ground arith;
  keyed = λ id. ground arith;
  slots_linked = (refl, tt);
  created_logged = λ id. ground arith;
  cancelled_logged = λ id. ground arith;
}

-- A call that the database carries out.
abbrev pub good_call : ℕ → ℕ → Call
good_call new_id outbox_id = record {
  now = 50;
  new_id = new_id;
  outbox_id = outbox_id;
  begin_fails = none;
  statement_fails = none;
  outbox_fails = none;
  commit_reply = committed;
}

-- A poll in which nothing fails.
abbrev pub poll : ℕ → Poll
poll now = record {
  now = now;
  is_locked = λ o. Bool.false;
  begin_fails = none;
  fetch_fails = none;
  write_reply = delivered;
  mark_fails = none;
  commit_reply = committed;
}

pub poll-Succeeds : (now : ℕ) → Succeeds (poll now)
poll-Succeeds now = record {
  unlocked = λ o. refl;
  begun = refl;
  fetched = refl;
  written = refl;
  marked = refl;
  done = refl;
}

abbrev pub full : Store
full = record { outbox = booked_row ∷ []; topic = [] }

pub one_row : IsKeyed (booked_row ∷ [])
one_row id = ground arith

-- Another row that a booking writes while the relay runs.
abbrev pub second_row : OutboxRow
second_row = record booked_row { id = 24 }

-- The broker takes the message, but its answer is lost.
abbrev pub broken : Poll
broken = record (poll 61) { write_reply = failed 1 (λ m. true) }
