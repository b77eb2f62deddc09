-- ===== src/Http/Invariance.antt =====
-- Every request to the booking service keeps the invariant of its tables.
use Prim.Native.String.{String}
use meeting_room_booking_sys.Prelude.{ℕ, Bool, All, List, [], ◌∷◌}
use meeting_room_booking_sys.Model.{User}
use meeting_room_booking_sys.Database.{Db, ScheduleRow}
use meeting_room_booking_sys.Database.Sorting.{Order}
use meeting_room_booking_sys.Bookings.Validity.{IsValid}
use meeting_room_booking_sys.Bookings.Creation.{create_booking-IsValid}
use meeting_room_booking_sys.Bookings.Cancellation.{cancel_booking-IsValid}
use meeting_room_booking_sys.BookingService.Guarantees.{update_conference_link-IsValid}
use meeting_room_booking_sys.Slots.Storage.{ensure_slots-IsValid}
use meeting_room_booking_sys.Rooms.Storage.{create_room-IsValid}
use meeting_room_booking_sys.Accounts.{Crypto}
use meeting_room_booking_sys.Http.Params.{Library}
use meeting_room_booking_sys.Http.Router.{AnyRequest, guarded, public, route_all}
use meeting_room_booking_sys.Http.Preservation.Writes.{KeptByWrites, AllKeep, OfKnown}
use meeting_room_booking_sys.Http.Preservation.{route_all-Preserves}

-- The invariant does not look at the users and the schedules.
others-IsValid :
    (db : Db) (us : List User) (ss : List ScheduleRow)
    → IsValid db
    → IsValid (record db { users = us; schedules = ss })
others-IsValid db us ss v = record {
  linked = record {
    slots_keyed = v.linked.slots_keyed;
    rooms_keyed = v.linked.rooms_keyed;
    rooms_linked = v.linked.rooms_linked;
  };
  one_active = v.one_active;
  keyed = v.keyed;
  slots_linked = v.slots_linked;
  created_logged = v.created_logged;
  cancelled_logged = v.cancelled_logged;
}

abbrev Anyone : ℕ → Type 0
Anyone user_id = Unit {0}

pub IsValid-KeptByWrites : KeptByWrites IsValid Anyone
IsValid-KeptByWrites = record {
  booking = λ d c slot_id user_id known v. create_booking-IsValid d c slot_id user_id v;
  cancelling = λ d c later id user_id known v w. cancel_booking-IsValid d c later id user_id v w;
  linking = update_conference_link-IsValid;
  ensuring = ensure_slots-IsValid;
  rooming = create_room-IsValid;
  others = others-IsValid;
}

every_request : (lib : Library) (rs : List AnyRequest) → All (OfKnown Anyone lib) rs
every_request lib [] = tt
every_request lib (guarded header r ∷ rs) = ((λ user_id role e. tt), every_request lib rs)
every_request lib (public r ∷ rs) = (tt, every_request lib rs)

-- The invariant of the tables, that at most one active booking holds a slot among it, outlives any
-- requests to the booking service, to any routes, with any headers, bodies and failures, as long as
-- what others do to the tables during a request keeps it.
pub route_all-IsValid :
    (lib : Library) (crypto : Crypto) (is_address : String → Bool) (order : Order) (db : Db)
    (rs : List AnyRequest)
    → All (AllKeep IsValid) rs
    → IsValid db
    → IsValid (route_all lib crypto is_address order db rs)
route_all-IsValid lib crypto is_address order db rs =
    route_all-Preserves IsValid Anyone IsValid-KeptByWrites lib crypto is_address order db rs
      (every_request lib rs)
