-- ===== src/Tests/Booking.antt =====
-- Bookings, their cancellation, their listing, and the service.
use mathlib.Core.List.{Perm}
use meeting_room_booking_sys.Prelude.{
  [], ◌∷◌, count_where, ◌==◌, ◌&&◌, ℕ, ◌≡◌, ◌≢◌, ◌⊎◌, refl, arith, none, if◌then◌else◌, ltb, ◌-◌,
  ◌*◌, length,
}
use meeting_room_booking_sys.Model.{Slot, other, cancelled, booking_not_found, forbidden, ok, err}
use meeting_room_booking_sys.Database.{Db, committed}
use meeting_room_booking_sys.Database.Sorting.{stable}
use meeting_room_booking_sys.Bookings.{
  Call, cancel_booking, cancel, new_booking, negative_offset, list_bookings,
}
use meeting_room_booking_sys.Bookings
use meeting_room_booking_sys.Bookings.Validity.{IsValid}
use meeting_room_booking_sys.Bookings.Creation
use meeting_room_booking_sys.Bookings.Creation.{create_booking_lem, create_booking-IsValid}
use meeting_room_booking_sys.Bookings.Cancellation
use meeting_room_booking_sys.Bookings.Cancellation.{cancel_booking_lem, cancel_booking-IsValid}
use meeting_room_booking_sys.Bookings.Freeing.{
  Runs, cancel_booking_twice, cancel_booking_foreign, create_booking-cancel_booking,
}
use meeting_room_booking_sys.Bookings.Listing.{pages, pages-Perm, page_rows, list_bookings_lem}
use meeting_room_booking_sys.BookingService.{ServiceCall, create_booking}
use meeting_room_booking_sys.Slots.{is_in_range, left_join, list_available_by_room_and_date}
use meeting_room_booking_sys.Bookings.Offers.{
  list_available-create_booking, list_available-cancel_booking,
}
use meeting_room_booking_sys.Tests.Data.{
  tables, tables-IsLinked, tables-IsValid, good_call, booked, morning, noon,
}

create_booking_lem_example :
    Creation.Refused tables (good_call 11 21) 6 8 ⊎ Creation.Committed tables (good_call 11 21) 6 8
create_booking_lem_example = create_booking_lem tables (good_call 11 21) 6 8 tables-IsLinked

create_booking-IsValid_example : IsValid (Bookings.create_booking tables (good_call 11 21) 6 8).0
create_booking-IsValid_example = create_booking-IsValid tables (good_call 11 21) 6 8 tables-IsValid

cancel_booking_lem_example :
    Cancellation.Refused tables (good_call 0 21) (λ d. d) 9 7
    ⊎ (Cancellation.Diagnosed tables (good_call 0 21) (λ d. d) 9 7
        ⊎ Cancellation.Committed tables (good_call 0 21) (λ d. d) 9 7)
cancel_booking_lem_example = cancel_booking_lem tables (good_call 0 21) (λ d. d) 9 7 tables-IsValid

cancel_booking-IsValid_example : IsValid (cancel_booking tables (good_call 0 21) (λ d. d) 9 7).0
cancel_booking-IsValid_example =
    cancel_booking-IsValid tables (good_call 0 21) (λ d. d) 9 7 tables-IsValid tables-IsValid

good_call-Runs : (new_id outbox_id : ℕ) → Runs (good_call new_id outbox_id)
good_call-Runs new_id outbox_id = record { begun = refl; stated = refl; logged = refl; done = refl }

abbrev after_cancel : Db
after_cancel = (cancel_booking tables (good_call 0 21) (λ d. d) 9 7).0

cancelled_run :
    cancel_booking tables (good_call 0 21) (λ d. d) 9 7 ≡ (after_cancel, ok (cancel booked))
unfolding cancel_booking Bookings.log_event
cancelled_run = refl

cancel_booking_twice_example :
    ((cancel booked).status ≡ cancelled)
    × ((cancel booked).id ≡ 9)
    × ((cancel booked).user_id ≡ 7)
    × (cancel_booking after_cancel (good_call 0 22) (λ d. d) 9 7
        ≡ (after_cancel, ok (cancel booked)))
cancel_booking_twice_example =
    cancel_booking_twice tables after_cancel (good_call 0 21) (good_call 0 22) 9 7 (cancel booked)
      tables-IsValid cancelled_run (good_call-Runs 0 22)

cancel_booking_foreign_example :
    (cancel_booking tables (good_call 0 21) (λ d. d) 9 8 ≡ (tables, err booking_not_found))
    × ((cancel_booking tables (good_call 0 21) (λ d. d) 9 8).1 ≢ err forbidden)
cancel_booking_foreign_example =
    cancel_booking_foreign tables (good_call 0 21) 9 8 booked tables-IsValid refl (λ e. omega arith)
      (good_call-Runs 0 21)

create_booking-cancel_booking_example :
    (Bookings.create_booking after_cancel (good_call 12 22) 5 8).1
    ≡ ok (new_booking (good_call 12 22) 5 8)
unfolding cancel_booking Bookings.log_event
create_booking-cancel_booking_example =
    create_booking-cancel_booking tables after_cancel (good_call 0 21) (good_call 12 22) 9 7 8
      booked (cancel booked) tables-IsValid refl cancelled_run (good_call-Runs 12 22) refl refl refl

abbrev service_call : ServiceCall
service_call = record {
  clock = 60;
  slot_fails = none;
  before_insert = λ d. d;
  call = good_call 11 21;
  client = λ id. ok "link";
  before_link = λ d. d;
  link_reply = committed;
}

pages-Perm_example : Perm (pages (λ n. stable) tables 1 2) tables.bookings
pages-Perm_example =
    pages-Perm (λ n. stable) tables 1 2 (omega arith) (λ k. ground arith) (omega arith)

-- The second page of one booking: the total is 0.
list_bookings_lem_example : list_bookings stable tables none 2 1 ≡ (
    if 2 == 0
    then err (other negative_offset)
    else ok (
      page_rows stable tables 2 1,
      if ltb ((2 - 1) * 1) (length tables.bookings) then length tables.bookings else 0,
    ))
list_bookings_lem_example = list_bookings_lem stable tables 2 1 (omega arith)

abbrev after_noon : Db
after_noon = (Bookings.create_booking tables (good_call 11 21) 6 8).0

noon_booked :
    Bookings.create_booking tables (good_call 11 21) 6 8
    ≡ (after_noon, ok (new_booking (good_call 11 21) 6 8))
unfolding Bookings.create_booking Bookings.log_event
noon_booked = refl

-- Of the two slots one is free, and none after it was booked.
list_available-create_booking_example :
    count_where (λ (s : Slot). s.id == 6) []
    ≡ (if 6 == 6 then 0 else count_where (λ s. s.id == 6) (noon ∷ []))
unfolding list_available_by_room_and_date left_join stable Bookings.create_booking
    Bookings.log_event
list_available-create_booking_example =
    list_available-create_booking stable tables after_noon 1 0 1000 (noon ∷ []) [] (good_call 11 21)
      6 8 (new_booking (good_call 11 21) 6 8) 6 tables-IsLinked refl noon_booked refl

-- The other slot is offered again after its booking was cancelled.
list_available-cancel_booking_example : count_where (λ s. s.id == 5) (morning ∷ noon ∷ []) ≡ (
    if 5 == 5
    then count_where (λ s. is_in_range 1 0 1000 s && s.id == 5) tables.slots
    else count_where (λ s. s.id == 5) (noon ∷ []))
unfolding list_available_by_room_and_date left_join stable cancel_booking Bookings.log_event
list_available-cancel_booking_example =
    list_available-cancel_booking stable tables after_cancel 1 0 1000 (noon ∷ [])
      (morning ∷ noon ∷ []) (good_call 0 21) (λ d. d) 9 7 booked (cancel booked) 5 tables-IsValid
      refl refl cancelled_run refl
