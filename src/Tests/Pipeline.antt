-- ===== src/Tests/Pipeline.antt =====
-- The calendar, the requests to the booking service, and the way of an event to its notification.
use meeting_room_booking_sys.Prelude.{
  ℕ, ◌≡◌, refl, arith, List, [], ◌∷◌, map, Option, none, some, count_where,
}
use meeting_room_booking_sys.Model.{BookingEvent, ok, event_booking_cancelled}
use meeting_room_booking_sys.Bookings.{
  cancel_booking, cancel, new_booking, create_booking, log_event,
}
use meeting_room_booking_sys.Hub.{booking_cancelled, booking_created}
use meeting_room_booking_sys.Tests.Data.{
  poll, poll-Succeeds, booked, tables, tables-IsLinked, tables-IsValid, good_call, booked_event,
}
use meeting_room_booking_sys.Pipeline.Announcement.{
  cancel_booking_announced, create_booking_announced,
}
use meeting_room_booking_sys.Database.{Db, committed}
use meeting_room_booking_sys.Database.Sorting.{stable}
use meeting_room_booking_sys.Bookings.Calendar.{
  Request, create_request, Step, holder, serve, serve-Step,
}
use meeting_room_booking_sys.Relay.{drain}
use meeting_room_booking_sys.Relay.Counting.{IsKeyed}
use meeting_room_booking_sys.Notifications.{Service, is_about}
use meeting_room_booking_sys.Notifications.Delivery.{IsUnique}
use meeting_room_booking_sys.Consumer.{Delivery, message, run}
use meeting_room_booking_sys.Consumer.Storage.{Stored}

abbrev take_noon : Request
take_noon = create_request (good_call 11 21) 6

serve-Step_example : Step 8 (holder tables) (holder (serve tables 8 take_noon))
serve-Step_example = serve-Step tables 8 take_noon tables-IsValid

abbrev after_create : Db
after_create = (create_booking tables (good_call 11 21) 6 8).0

created_run :
    create_booking tables (good_call 11 21) 6 8
    ≡ (after_create, ok (new_booking (good_call 11 21) 6 8))
unfolding create_booking log_event
created_run = refl

two_rows : IsKeyed after_create.outbox
unfolding create_booking log_event
two_rows id = ground arith

abbrev noon_event : BookingEvent
noon_event = record booked_event {
  event_id = 21;
  occurred_at = 50;
  booking_id = 11;
  user_id = 8;
  slot_start = 300;
  slot_end = 400;
}

-- The empty text is the event of the tables, every other text that of the new booking.
abbrev decode : List ℕ → Option BookingEvent
decode [] = some booked_event
decode (c ∷ text) = some noon_event

abbrev delivery : List ℕ → ℕ → Delivery
delivery value new_id = record {
  value = value;
  new_id = new_id;
  now = 70;
  reply = committed;
  commit_fails = none;
}

delivery-Stored : (value : List ℕ) (new_id : ℕ) → Stored (delivery value new_id)
delivery-Stored value new_id = record { answered = refl; taken = refl }

abbrev deliveries : List Delivery
deliveries = delivery [] 80 ∷ delivery (1 ∷ []) 81 ∷ []

abbrev silent : Service
silent = record { table = []; hub = none }

nothing_stored : IsUnique []
nothing_stored booking_id type = omega arith

create_booking_announced_example :
    count_where (is_about 11 booking_created) (run decode silent (map message deliveries)).0.table
    ≡ 1
unfolding create_booking log_event drain stable
create_booking_announced_example =
    create_booking_announced decode stable tables after_create (good_call 11 21) 6 8
      (new_booking (good_call 11 21) 6 8) (poll 60 ∷ []) [] silent deliveries tables-IsLinked
      (omega arith, (omega arith, tt)) created_run two_rows (poll-Succeeds 60, tt) (omega arith)
      (refl, (refl, tt)) (delivery-Stored [] 80, (delivery-Stored (1 ∷ []) 81, tt))
      (refl, ((λ e. omega arith), tt), (refl, tt, tt)) nothing_stored

abbrev after_cancel : Db
after_cancel = (cancel_booking tables (good_call 0 21) (λ d. d) 9 7).0

cancel_run :
    cancel_booking tables (good_call 0 21) (λ d. d) 9 7 ≡ (after_cancel, ok (cancel booked))
unfolding cancel_booking log_event
cancel_run = refl

two_events : IsKeyed after_cancel.outbox
unfolding cancel_booking log_event
two_events id = ground arith

abbrev cancelled_event : BookingEvent
cancelled_event = record booked_event {
  event_id = 21;
  event_type = event_booking_cancelled;
  occurred_at = 50;
}

-- The empty text is the event of the creation, every other text that of the cancellation.
abbrev decode_both : List ℕ → Option BookingEvent
decode_both [] = some booked_event
decode_both (c ∷ text) = some cancelled_event

cancel_booking_announced_example :
    count_where
      (is_about 9 booking_cancelled)
      (run decode_both silent (map message deliveries)).0.table
    ≡ 1
unfolding cancel_booking log_event drain stable
cancel_booking_announced_example =
    cancel_booking_announced decode_both stable tables after_cancel (good_call 0 21) 9 7 booked
      (cancel booked) (poll 60 ∷ []) [] silent deliveries tables-IsValid
      (omega arith, (omega arith, tt)) refl cancel_run two_events (poll-Succeeds 60, tt)
      (omega arith) (refl, (refl, tt)) (delivery-Stored [] 80, (delivery-Stored (1 ∷ []) 81, tt))
      (refl, ((λ e. omega arith), tt), (refl, tt, tt)) nothing_stored
