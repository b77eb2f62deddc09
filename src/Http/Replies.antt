-- ===== src/Http/Replies.antt =====
-- The replies of booking-service/internal/http/handlers, and the mapping of errors to them
-- (response.go). The English messages are left out, and the responses stand for
-- their JSON.
use meeting_room_booking_sys.Prelude.{ℕ, List}
use meeting_room_booking_sys.Model.{
  Error, room_not_found, slot_not_found, booking_not_found, slot_already_booked, schedule_exists,
  schedule_not_found, forbidden, slot_in_past, email_taken, invalid_credentials,
  notification_not_found, other, Result, ok, err,
}
use meeting_room_booking_sys.Http.Responses.{
  BookingResponse, PaginationResponse, ScheduleResponse, SlotResponse, RoomResponse, UserResponse,
}
use meeting_room_booking_sys.Database.{Db}

pub data Code : Type 0 where
  invalid_request unauthorized forbidden_code not_found room_not_found_code : Code
  slot_not_found_code booking_not_found_code slot_already_booked_code : Code
  schedule_exists_code internal_error : Code

pub data Body : Type 0 where
  failure : Code → Body
  one_booking : BookingResponse → Body
  booking_page : List BookingResponse → PaginationResponse → Body
  booking_list : List BookingResponse → Body
  one_schedule : ScheduleResponse → Body
  slot_list : List SlotResponse → Body
  one_room : RoomResponse → Body
  room_list : List RoomResponse → Body
  one_token : List ℕ → Body
  one_user : UserResponse → Body
  empty : Body

pub record Reply : Type 0 where
  pub status : ℕ
  pub body : Body

abbrev pub refuse : ℕ → Code → Reply
refuse status code = record { status = status; body = failure code }

abbrev pub bad_request : Reply
bad_request = refuse 400 invalid_request

-- An error that is none of the ten sentinels is an internal error.
unfoldable pub map_error : Error → Reply
map_error room_not_found = refuse 404 room_not_found_code
map_error slot_not_found = refuse 404 slot_not_found_code
map_error booking_not_found = refuse 404 booking_not_found_code
map_error slot_already_booked = refuse 409 slot_already_booked_code
map_error schedule_not_found = refuse 404 not_found
map_error schedule_exists = refuse 409 schedule_exists_code
map_error forbidden = refuse 403 forbidden_code
map_error slot_in_past = refuse 400 invalid_request
map_error email_taken = refuse 400 invalid_request
map_error invalid_credentials = refuse 401 unauthorized
map_error notification_not_found = refuse 500 internal_error
map_error (other e) = refuse 500 internal_error

abbrev pub respond : {A : Type 0} → ℕ → (A → Body) → Db × Result A → Db × Reply
respond status body (db, err e) = (db, map_error e)
respond status body (db, ok a) = (db, record { status = status; body = body a })
