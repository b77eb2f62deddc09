-- ===== src/Http/Responses.antt =====
-- The responses of booking-service/internal/http/handlers (booking.go, schedule.go, slot.go, room.go,
-- auth.go): what the API tells of each entity. An identifier stands for its text.
use Prim.Native.String.{String}
use meeting_room_booking_sys.Prelude.{ℕ, ℤ, ◌/◌, List, Option}
use meeting_room_booking_sys.Model.{Booking, BookingStatus, Room, Role, Schedule, Slot, User}

-- `t.UTC().Format(time.RFC3339)`: a text that tells the second of an instant and drops its fraction.
abbrev pub rfc3339 : ℕ → ℕ
rfc3339 t = t / 1000000000

pub record BookingResponse : Type 0 where
  pub id : ℕ
  pub slot_id : ℕ
  pub user_id : ℕ
  pub status : BookingStatus
  pub conference_link : Option String
  pub created_at : ℕ

abbrev pub to_booking_response : Booking → BookingResponse
to_booking_response b = record {
  id = b.id;
  slot_id = b.slot_id;
  user_id = b.user_id;
  status = b.status;
  conference_link = b.conference_link;
  created_at = rfc3339 b.created_at;
}

pub record PaginationResponse : Type 0 where
  pub page : ℕ
  pub page_size : ℕ
  pub total : ℕ

pub record ScheduleResponse : Type 0 where
  pub id : ℕ
  pub room_id : ℕ
  pub days_of_week : List ℤ
  pub start_time : List ℕ
  pub end_time : List ℕ

abbrev pub to_schedule_response : Schedule → ScheduleResponse
to_schedule_response s = record {
  id = s.id;
  room_id = s.room_id;
  days_of_week = s.days_of_week;
  start_time = s.start_time;
  end_time = s.end_time;
}

pub record SlotResponse : Type 0 where
  pub id : ℕ
  pub room_id : ℕ
  pub start : ℕ
  pub end : ℕ

abbrev pub to_slot_response : Slot → SlotResponse
to_slot_response s = record {
  id = s.id;
  room_id = s.room_id;
  start = rfc3339 s.start_at;
  end = rfc3339 s.end_at;
}

pub record RoomResponse : Type 0 where
  pub id : ℕ
  pub name : String
  pub description : Option String
  pub capacity : Option ℤ
  pub created_at : ℕ

abbrev pub to_room_response : Room → RoomResponse
to_room_response r = record {
  id = r.id;
  name = r.name;
  description = r.description;
  capacity = r.capacity;
  created_at = rfc3339 r.created_at;
}

-- The password is not told.
pub record UserResponse : Type 0 where
  pub id : ℕ
  pub email : String
  pub role : Role
  pub created_at : ℕ

abbrev pub to_user_response : User → UserResponse
to_user_response u = record {
  id = u.id;
  email = u.email;
  role = u.role;
  created_at = rfc3339 u.created_at;
}
