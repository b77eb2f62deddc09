-- ===== src/BookingService.antt =====
-- booking-service/internal/service/booking/booking.go and
-- booking-service/internal/client/conference/conference.go.
-- Other requests run between the calls of the repositories: `before_insert` and `before_link` are
-- what they do to the database there.
pub mod Guarantees
use Prim.Native.String.{String}
use Prim.Native.String
use meeting_room_booking_sys.Prelude.{
  ℕ, ltb, if◌then◌else◌, List, Option, none, some, Bool, true, false,
}
use meeting_room_booking_sys.Model.{Booking, Slot, Error, slot_in_past, Result, ok, err}
use meeting_room_booking_sys.Database.{Db, CommitReply}
use meeting_room_booking_sys.Database.Sorting.{Order}
use meeting_room_booking_sys.Bookings.{Call, update_conference_link}
use meeting_room_booking_sys.Bookings
use meeting_room_booking_sys.Slots.{get_slot_by_id}

-- One call of the service: `clock` is `time.Now().UTC()`, and `client` is the conference client,
-- with what it answers within its timeout.
pub record ServiceCall : Type 0 where
  pub clock : ℕ
  pub slot_fails : Option ℕ
  pub before_insert : Db → Db
  pub call : Call
  pub client : ℕ → Result String
  pub before_link : Db → Db
  pub link_reply : CommitReply

-- `Client.CreateLink`; `uuid_string` is the text of a UUID.
unfoldable pub create_link : (ℕ → String) → ℕ → Result String
create_link uuid_string booking_id =
    ok (String.◌++◌ "https://conference.example/meeting/" (uuid_string booking_id))

-- An error of the update is only logged, and the booking is answered without the link.
abbrev pub linked : Booking → String → Db × Result (Unit {0}) → Db × Result Booking
linked b l (db, err e) = (db, ok b)
linked b l (db, ok u) = (db, ok (record b { conference_link = some l }))

abbrev pub add_link : ServiceCall → Db → Booking → Result String → Db × Result Booking
add_link c db b (err e) = (db, ok b)
add_link c db b (ok l) = linked b l (update_conference_link (c.before_link db) c.link_reply b.id l)

abbrev pub with_link : ServiceCall → Bool → Db × Result Booking → Db × Result Booking
with_link c create_conference_link (db, err e) = (db, err e)
with_link c create_conference_link (db, ok b) =
    if create_conference_link then add_link c db b (c.client b.id) else (db, ok b)

abbrev pub book : ServiceCall → Db → ℕ → ℕ → Bool → Result Slot → Db × Result Booking
book c db slot_id user_id create_conference_link (err e) = (db, err e)
book c db slot_id user_id create_conference_link (ok slot) =
    if ltb slot.start_at c.clock
    then (db, err slot_in_past)
    else with_link c create_conference_link
        (Bookings.create_booking (c.before_insert db) c.call slot_id user_id)

unfoldable pub create_booking : Db → ServiceCall → ℕ → ℕ → Bool → Db × Result Booking
create_booking db c slot_id user_id create_conference_link =
    book c db slot_id user_id create_conference_link (get_slot_by_id db c.slot_fails slot_id)

-- The other three methods pass the repository's results on.
unfoldable pub cancel_booking : Db → Call → (Db → Db) → ℕ → ℕ → Db × Result Booking
cancel_booking = Bookings.cancel_booking

unfoldable pub list_bookings : Order → Db → Option ℕ → ℕ → ℕ → Result (List Booking × ℕ)
list_bookings = Bookings.list_bookings

unfoldable pub list_user_bookings : Order → Db → Option ℕ → ℕ → ℕ → Result (List Booking)
list_user_bookings = Bookings.list_user_bookings
