-- ===== src/Http/Handlers.antt =====
-- The handlers of rooms, schedules, slots and bookings: booking-service/internal/http/handlers. They
-- run behind the middleware, for the user of the request's token. `none` is a body that the JSON
-- decoder refuses.
use Prim.Native.String.{String}
use text.Mathlib.Text.{◌==◌ as ◌==ˢ◌}
use meeting_room_booking_sys.Prelude.{
  ℕ, ℤ, pos, ltb_ℤ, if◌then◌else◌, Bool, false, List, map, Option, none, some,
}
use meeting_room_booking_sys.Database.{Db, CommitReply}
use meeting_room_booking_sys.Database.Sorting.{Order}
use meeting_room_booking_sys.Bookings.{Call}
use meeting_room_booking_sys.BookingService.{ServiceCall}
use meeting_room_booking_sys.BookingService
use meeting_room_booking_sys.SlotService.{SlotsCall, list_available_slots}
use meeting_room_booking_sys.Schedules
use meeting_room_booking_sys.Rooms.{RoomCall}
use meeting_room_booking_sys.Rooms
use meeting_room_booking_sys.Http.Replies.{
  Reply, bad_request, respond, one_booking, booking_page, booking_list, one_schedule, slot_list,
  one_room, room_list,
}
use meeting_room_booking_sys.Http.Responses.{
  to_booking_response, to_schedule_response, to_slot_response, to_room_response,
}
use meeting_room_booking_sys.Http.Params.{Library, parse_pagination, check_schedule, date_param}

abbrev pub min_room_capacity : ℕ
min_room_capacity = 1

abbrev pub is_too_small : Option ℤ → Bool
is_too_small none = false
is_too_small (some n) = ltb_ℤ n (pos min_room_capacity)

abbrev pub create_room : Db → RoomCall → Option (String × Option String × Option ℤ) → Db × Reply
create_room db c none = (db, bad_request)
create_room db c (some (name, description, capacity)) =
    if name ==ˢ ""
    then (db, bad_request)
    else if is_too_small capacity
    then (db, bad_request)
    else respond 201 (λ r. one_room (to_room_response r))
        (Rooms.create_room db c name description capacity)

abbrev pub list_rooms : Order → Db → Option ℕ → Db × Reply
list_rooms order db fails =
    respond 200 (λ rs. room_list (map to_room_response rs)) (db, Rooms.list_rooms order db fails)

module _ (lib : Library) (order : Order) where
  abbrev pub create_booking : Db → ℕ → ServiceCall → Option (List ℕ × Bool) → Db × Reply
  create_booking db user_id c none = (db, bad_request)
  create_booking db user_id c (some (slot, link)) = elim (lib.parse_uuid slot) [
    | none ↦ (db, bad_request)
    | some slot_id ↦
        respond 201 (λ b. one_booking (to_booking_response b))
          (BookingService.create_booking db c slot_id user_id link)
  ]

  abbrev pub cancel_booking : Db → ℕ → Call → (Db → Db) → List ℕ → Db × Reply
  cancel_booking db user_id c later booking = elim (lib.parse_uuid booking) [
    | none ↦ (db, bad_request)
    | some id ↦
        respond 200 (λ b. one_booking (to_booking_response b))
          (BookingService.cancel_booking db c later id user_id)
  ]

  abbrev pub list_bookings : Db → Option ℕ → List ℕ → List ℕ → Db × Reply
  list_bookings db fails page page_size = elim (parse_pagination lib page page_size) [
    | none ↦ (db, bad_request)
    | some (p, ps) ↦
        respond 200
          (λ r.
            booking_page (map to_booking_response r.0)
              (record { page = p; page_size = ps; total = r.1 }))
          (db, BookingService.list_bookings order db fails p ps)
  ]

  abbrev pub list_user_bookings : Db → ℕ → Option ℕ → ℕ → Db × Reply
  list_user_bookings db user_id fails now =
      respond 200 (λ bs. booking_list (map to_booking_response bs))
        (db, BookingService.list_user_bookings order db fails user_id now)

  abbrev pub store_schedule :
      Db → CommitReply → ℕ → ℕ → ℕ → Option (List ℤ × List ℕ × List ℕ) → Db × Reply
  store_schedule db reply id now room_id none = (db, bad_request)
  store_schedule db reply id now room_id (some (days, start_time, end_time)) =
      if check_schedule days start_time end_time
      then respond 201 (λ s. one_schedule (to_schedule_response s))
          (Schedules.create_schedule lib.cast_time db reply id now room_id days start_time end_time)
      else (db, bad_request)

  abbrev pub create_schedule :
      Db → CommitReply → ℕ → ℕ → List ℕ → Option (List ℤ × List ℕ × List ℕ) → Db × Reply
  create_schedule db reply id now room body = elim (lib.parse_uuid room) [
    | none ↦ (db, bad_request)
    | some room_id ↦ store_schedule db reply id now room_id body
  ]

  abbrev pub list_slots : Db → SlotsCall → List ℕ → List ℕ → Db × Reply
  list_slots db c room date = elim (lib.parse_uuid room) [
    | none ↦ (db, bad_request)
    | some room_id ↦ elim (date_param lib date) [
      | none ↦ (db, bad_request)
      | some day ↦
          respond 200 (λ ss. slot_list (map to_slot_response ss))
            (list_available_slots order db c room_id day)
    ]
  ]
